-- ===== src/Draft/Toggle.antt =====
-- Adding and removing a skill by hand: the store stays a list of real changes, each said once.
use virtual_office_sagara_ag.Prelude.{
  String, ◌≡◌, refl, sym, ap, ◌∙◌, Bool, true, false, Option, none, some, List, [], ◌∷◌, ◌++◌, map,
  filter, find, any, includes, arith, Option-cases, inl, inr,
}
use virtual_office_sagara_ag.Draft.Store.{
  ProfileDraftChange, ChangeAction, DraftStore, has_other_id, adds_skill, removes_skill,
  add_skill_draft, remove_skill_draft, skill_change, put_drafts,
}
use virtual_office_sagara_ag.Draft.Effective.{verdict, verdict-append}
use virtual_office_sagara_ag.Draft.Tidy.{change_id, touches, verdict-untouched}
use virtual_office_sagara_ag.Draft.Cancel.{verdict-found}
use virtual_office_sagara_ag.Draft.Lists.{
  IsTidy, added, removed, effective, effective-verdict, cancel-IsTidy, append-IsTidy,
  removal-cancel, addition-cancel, any-neither, adds-touches, removes-touches, add-decides,
  remove-decides,
}

module _ (original : String → List String) (p s id now : String) (label : Option String) where
  -- What the list decides is what is in effect.
  settled :
      (f : String → String → Bool → Bool) (st st' : DraftStore) (cs : List ProfileDraftChange)
      → st'.draft_changes ≡ cs
      → IsTidy original cs
      → ((r t : String)
          → verdict r t cs (includes (original r) t)
            ≡ f r t (verdict r t st.draft_changes (includes (original r) t)))
      → IsTidy original st'.draft_changes
        × ((r t : String) → effective original st' r t ≡ f r t (effective original st r t))
  settled f st st' cs e tidy same = (
    rw e tidy,
    λ r t.
        effective-verdict original st' r t
        ∙ ap (λ x. verdict r t x (includes (original r) t)) e
        ∙ same r t
        ∙ ap (f r t) (sym (effective-verdict original st r t)),
  )

  changes-add_found :
      (st : DraftStore) (e : ProfileDraftChange)
      → find (removes_skill p s) st.draft_changes ≡ some e
      → (add_skill_draft id now p s label st).draft_changes
        ≡ filter (has_other_id e) st.draft_changes
  unfolding add_skill_draft put_drafts
  changes-add_found st e h = rw (add_skill_draft, h) refl

  changes-add_absent :
      (st : DraftStore)
      → find (removes_skill p s) st.draft_changes ≡ none
      → (add_skill_draft id now p s label st).draft_changes
        ≡ (st.draft_changes ++ skill_change id now ChangeAction.add_skill p s label ∷ [])
  unfolding add_skill_draft put_drafts
  changes-add_absent st h = rw (add_skill_draft, h) refl

  changes-remove_found :
      (st : DraftStore) (e : ProfileDraftChange)
      → find (adds_skill p s) st.draft_changes ≡ some e
      → (remove_skill_draft id now p s label st).draft_changes
        ≡ filter (has_other_id e) st.draft_changes
  unfolding remove_skill_draft put_drafts
  changes-remove_found st e h = rw (remove_skill_draft, h) refl

  changes-remove_absent :
      (st : DraftStore)
      → find (adds_skill p s) st.draft_changes ≡ none
      → (remove_skill_draft id now p s label st).draft_changes
        ≡ (st.draft_changes ++ skill_change id now ChangeAction.remove_skill p s label ∷ [])
  unfolding remove_skill_draft put_drafts
  changes-remove_absent st h = rw (remove_skill_draft, h) refl

  -- Of a skill that no change removes and that is not in effect, no change is about it.
  off-untouched :
      (cs : List ProfileDraftChange)
      → IsTidy original cs
      → find (removes_skill p s) cs ≡ none
      → verdict p s cs (includes (original p) s) ≡ false
      → any (touches p s) cs ≡ false
  off-untouched cs h absent off = elim (Option-cases (find (adds_skill p s) cs)) [
    | inl none_added ↦ any-neither p s cs absent none_added
    | inr found ↦ cc (
      off,
      verdict-found p s (original p) (adds_skill p s) (adds-touches p s) true (add-decides p s) cs
          found.0 (includes (original p) s) found.1 (h.minimal p),
    )
  ]

  on-untouched :
      (cs : List ProfileDraftChange)
      → IsTidy original cs
      → find (adds_skill p s) cs ≡ none
      → verdict p s cs (includes (original p) s) ≡ true
      → any (touches p s) cs ≡ false
  on-untouched cs h absent on = elim (Option-cases (find (removes_skill p s) cs)) [
    | inl none_removed ↦ any-neither p s cs none_removed absent
    | inr found ↦ cc (
      on,
      verdict-found p s (original p) (removes_skill p s) (removes-touches p s) false
          (remove-decides p s) cs found.0 (includes (original p) s) found.1 (h.minimal p),
    )
  ]

  -- A skill that is not in effect is added: then it is, nothing else changes for any profile, and the
  -- list stays tidy. The new id is not one of those in use.
  pub add_skill_draft-effective :
      (st : DraftStore)
      → IsTidy original st.draft_changes
      → includes (map change_id st.draft_changes) id ≡ false
      → effective original st p s ≡ false
      → IsTidy original (add_skill_draft id now p s label st).draft_changes
        × ((r t : String)
            → effective original (add_skill_draft id now p s label st) r t
              ≡ added p s r t (effective original st r t))
  add_skill_draft-effective st h fresh off =
      elim (Option-cases (find (removes_skill p s) st.draft_changes)) [
        | inl absent ↦
            settled (added p s) st (add_skill_draft id now p s label st) _
              (changes-add_absent st absent)
              (append-IsTidy original (skill_change id now ChangeAction.add_skill p s label)
                st.draft_changes h fresh (untouched absent) (ground (arith, not_original absent)))
              (λ r t.
                verdict-append r t st.draft_changes _ (includes (original r) t) ∙ ground arith)
        | inr found ↦
            settled (added p s) st (add_skill_draft id now p s label st) _
              (changes-add_found st found.0 found.1)
              (cancel-IsTidy original found.0 st.draft_changes h)
              (λ r t. removal-cancel original p s st.draft_changes found.0 r t h found.1)
      ]
    where
      unset : verdict p s st.draft_changes (includes (original p) s) ≡ false
      unset = sym (effective-verdict original st p s) ∙ off

      untouched :
          find (removes_skill p s) st.draft_changes ≡ none
          → any (touches p s) st.draft_changes ≡ false
      untouched absent = off-untouched st.draft_changes h absent unset

      not_original :
          find (removes_skill p s) st.draft_changes ≡ none → includes (original p) s ≡ false
      not_original absent =
          sym (verdict-untouched p s st.draft_changes (includes (original p) s) (untouched absent))
          ∙ unset

  -- A skill that is in effect is removed: then it is not, nothing else changes for any profile, and
  -- the list stays tidy. The new id is not one of those in use.
  pub remove_skill_draft-effective :
      (st : DraftStore)
      → IsTidy original st.draft_changes
      → includes (map change_id st.draft_changes) id ≡ false
      → effective original st p s ≡ true
      → IsTidy original (remove_skill_draft id now p s label st).draft_changes
        × ((r t : String)
            → effective original (remove_skill_draft id now p s label st) r t
              ≡ removed p s r t (effective original st r t))
  remove_skill_draft-effective st h fresh on =
      elim (Option-cases (find (adds_skill p s) st.draft_changes)) [
        | inl absent ↦
            settled (removed p s) st (remove_skill_draft id now p s label st) _
              (changes-remove_absent st absent)
              (append-IsTidy original (skill_change id now ChangeAction.remove_skill p s label)
                st.draft_changes h fresh (untouched absent) (is_original absent))
              (λ r t.
                verdict-append r t st.draft_changes _ (includes (original r) t) ∙ ground arith)
        | inr found ↦
            settled (removed p s) st (remove_skill_draft id now p s label st) _
              (changes-remove_found st found.0 found.1)
              (cancel-IsTidy original found.0 st.draft_changes h)
              (λ r t. addition-cancel original p s st.draft_changes found.0 r t h found.1)
      ]
    where
      set : verdict p s st.draft_changes (includes (original p) s) ≡ true
      set = sym (effective-verdict original st p s) ∙ on

      untouched :
          find (adds_skill p s) st.draft_changes ≡ none → any (touches p s) st.draft_changes ≡ false
      untouched absent = on-untouched st.draft_changes h absent set

      is_original : find (adds_skill p s) st.draft_changes ≡ none → includes (original p) s ≡ true
      is_original absent =
          sym (verdict-untouched p s st.draft_changes (includes (original p) s) (untouched absent))
          ∙ set
