-- ===== src/Draft/Lists.antt =====
-- The lists of changes that additions and removals by hand lead to.
use mathlib.Core.Path.{subst}
use virtual_office_sagara_ag.Prelude.{
  String, ◌≡◌, refl, ◌∙◌, Bool, true, false, not, ◌&&◌, ◌||◌, none, some, List, [], ◌∷◌, ◌++◌, map,
  ◌==◌, if◌then◌else◌, filter, find, any, includes, arith, true→eq, Bool-cases, inl, inr,
}
use virtual_office_sagara_ag.Prelude.JsSet.{IsDistinct}
use virtual_office_sagara_ag.Draft.Store.{
  ProfileDraftChange, ChangeAction, DraftStore, is_add, is_remove, has_other_id, adds_skill,
  removes_skill, get_effective_skills,
}
use virtual_office_sagara_ag.Draft.Effective.{decide, verdict, includes-get_effective_skills}
use virtual_office_sagara_ag.Draft.Tidy.{
  change_id, touches, is_minimal, is_minimal-filter, is_minimal-append, is_minimal-append_ne,
  filter-IsDistinct, append-IsDistinct,
}
use virtual_office_sagara_ag.Draft.Cancel.{found-original, verdict-cancel, found-hit}

-- Ids differ, and every profile's changes are real ones, each said once; `original` gives the skills
-- that a profile has.
pub record IsTidy (original : String → List String) (cs : List ProfileDraftChange) : Type 0 where
  pub distinct : IsDistinct (map change_id cs)
  pub minimal : (p : String) → is_minimal p (original p) cs ≡ true

pub removes-touches :
    (p s : String) (c : ProfileDraftChange) → removes_skill p s c ≡ true → touches p s c ≡ true
removes-touches p s c h = ground (arith, h)

pub adds-touches :
    (p s : String) (c : ProfileDraftChange) → adds_skill p s c ≡ true → touches p s c ≡ true
adds-touches p s c h = ground (arith, h)

-- A list where no change adds or removes the skill.
pub any-neither :
    (p s : String) (cs : List ProfileDraftChange)
    → find (removes_skill p s) cs ≡ none
    → find (adds_skill p s) cs ≡ none
    → any (touches p s) cs ≡ false
any-neither p s [] hr ha = refl
any-neither p s (c ∷ rest) hr ha = ground (arith, hr, ha, any-neither p s rest)

pub add-decides :
    (p s : String) (c : ProfileDraftChange) (b : Bool)
    → adds_skill p s c ≡ true
    → (if c.profile_id == p then decide s c b else b) ≡ true
add-decides p s c b h = go c.action h
  where
    go :
        (a : ChangeAction)
        → adds_skill p s (record c { action = a }) ≡ true
        → (if c.profile_id == p then decide s (record c { action = a }) b else b) ≡ true
    go ChangeAction.add_skill k = ground (arith, k)
    go ChangeAction.remove_skill k = ground (arith, k)
    go ChangeAction.update_model k = ground (arith, k)

pub remove-decides :
    (p s : String) (c : ProfileDraftChange) (b : Bool)
    → removes_skill p s c ≡ true
    → (if c.profile_id == p then decide s c b else b) ≡ false
remove-decides p s c b h = go c.action h
  where
    go :
        (a : ChangeAction)
        → removes_skill p s (record c { action = a }) ≡ true
        → (if c.profile_id == p then decide s (record c { action = a }) b else b) ≡ false
    go ChangeAction.add_skill k = ground (arith, k)
    go ChangeAction.remove_skill k = ground (arith, k)
    go ChangeAction.update_model k = ground (arith, k)

pub is_remove-is_add : (a : ChangeAction) → is_remove a ≡ true → is_add a ≡ false
is_remove-is_add ChangeAction.add_skill h = cc h
is_remove-is_add ChangeAction.remove_skill h = refl
is_remove-is_add ChangeAction.update_model h = refl

-- The skills that an addition leaves in effect.
abbrev pub added : (p s r t : String) → Bool → Bool
added p s r t b = p == r && s == t || b

abbrev pub removed : (p s r t : String) → Bool → Bool
removed p s r t b = not (p == r && s == t) && b

module _ (original : String → List String) where
  abbrev pub effective : DraftStore → String → String → Bool
  effective st r t = includes (get_effective_skills r (original r) st) t

  pub effective-verdict :
      (st : DraftStore) (r t : String)
      → effective st r t ≡ verdict r t st.draft_changes (includes (original r) t)
  effective-verdict st r t = (includes-get_effective_skills r (original r) st t).0

  -- The list after a change is taken back.
  pub cancel-IsTidy :
      (e : ProfileDraftChange) (cs : List ProfileDraftChange)
      → IsTidy original cs
      → IsTidy original (filter (has_other_id e) cs)
  cancel-IsTidy e cs h = record {
    distinct = filter-IsDistinct (has_other_id e) cs h.distinct;
    minimal = λ q. is_minimal-filter q (original q) (has_other_id e) cs (h.minimal q);
  }

  -- The list with a new change at its end.
  pub append-IsTidy :
      (c : ProfileDraftChange) (cs : List ProfileDraftChange)
      → IsTidy original cs
      → includes (map change_id cs) c.id ≡ false
      → any (touches c.profile_id c.target_value) cs ≡ false
      → (if is_add c.action
          then not (includes (original c.profile_id) c.target_value)
          else includes (original c.profile_id) c.target_value)
        ≡ true
      → IsTidy original (cs ++ c ∷ [])
  append-IsTidy c cs h fresh new real = record {
    distinct = append-IsDistinct cs c fresh h.distinct;
    minimal = λ q. elim (Bool-cases (c.profile_id == q)) [
      | inl e ↦
          subst (λ q. is_minimal q (original q) (cs ++ c ∷ []) ≡ true) (true→eq c.profile_id q e)
            (is_minimal-append c.profile_id (original c.profile_id) c cs (h.minimal c.profile_id)
              new real)
      | inr e ↦ is_minimal-append_ne q (original q) c cs (h.minimal q) e
    ];
  }

module _ (original : String → List String) (p s : String) where
  pub original_same :
      (r t : String) → (p == r && s == t) ≡ true → includes (original r) t ≡ includes (original p) s
  original_same r t h = rw (true→eq p r (ground (arith, h)), true→eq s t (ground (arith, h))) refl

  -- Taking back the removal of an original skill adds it.
  pub removal-cancel :
      (cs : List ProfileDraftChange) (e : ProfileDraftChange) (r t : String)
      → IsTidy original cs
      → find (removes_skill p s) cs ≡ some e
      → verdict r t (filter (has_other_id e) cs) (includes (original r) t)
        ≡ added p s r t (verdict r t cs (includes (original r) t))
  removal-cancel cs e r t h found =
      verdict-cancel p s (original p) (removes_skill p s) (removes-touches p s) r t cs e
        (includes (original r) t) found h.distinct (h.minimal p)
      ∙ ground (arith, original_same r t, removal-is_original)
    where
      removal-is_original : includes (original p) s ≡ true
      removal-is_original = ground (
        arith,
        found-original p s (original p) (removes_skill p s) (removes-touches p s) cs e found
            (h.minimal p),
        is_remove-is_add e.action,
        found-hit p s (original p) (removes_skill p s) (removes-touches p s) cs e found,
      )

  -- Taking back the addition of a new skill removes it.
  pub addition-cancel :
      (cs : List ProfileDraftChange) (e : ProfileDraftChange) (r t : String)
      → IsTidy original cs
      → find (adds_skill p s) cs ≡ some e
      → verdict r t (filter (has_other_id e) cs) (includes (original r) t)
        ≡ removed p s r t (verdict r t cs (includes (original r) t))
  addition-cancel cs e r t h found =
      verdict-cancel p s (original p) (adds_skill p s) (adds-touches p s) r t cs e
        (includes (original r) t) found h.distinct (h.minimal p)
      ∙ ground (arith, original_same r t, addition-is_new)
    where
      addition-is_new : includes (original p) s ≡ false
      addition-is_new = ground (
        arith,
        found-original p s (original p) (adds_skill p s) (adds-touches p s) cs e found
            (h.minimal p),
        found-hit p s (original p) (adds_skill p s) (adds-touches p s) cs e found,
      )
