-- ===== src/Draft/Effective.antt =====
-- Which skills are in effect: the last change of a skill decides.
use virtual_office_sagara_ag.Prelude.{
  String, ◌≡◌, refl, ap, ◌∙◌, Bool, not, ◌&&◌, ◌||◌, List, [], ◌∷◌, ◌++◌, ◌==◌, if◌then◌else◌,
  filter, includes, arith,
}
use virtual_office_sagara_ag.Prelude.JsSet
use virtual_office_sagara_ag.Prelude.JsSet.{
  IsDistinct, includes-add, includes-delete, includes-add_all, add-IsDistinct, delete-IsDistinct,
  add_all-IsDistinct,
}
use virtual_office_sagara_ag.Draft.Store.{
  ProfileDraftChange, ChangeAction, DraftStore, apply_change, apply_changes,
  get_profile_draft_changes, get_effective_skills,
}

-- A skill that is there or not, after one change.
abbrev pub decide : String → ProfileDraftChange → Bool → Bool
decide skill c b = elim c.action [
  | ChangeAction.add_skill ↦ c.target_value == skill || b
  | ChangeAction.remove_skill ↦ not (c.target_value == skill) && b
  | ChangeAction.update_model ↦ b
]

-- The changes of one profile decide on one skill, one after the other.
abbrev pub verdict : String → String → List ProfileDraftChange → Bool → Bool
verdict profile skill [] b = b
verdict profile skill (c ∷ rest) b =
    verdict profile skill rest (if c.profile_id == profile then decide skill c b else b)

pub verdict-append :
    (profile skill : String) (xs ys : List ProfileDraftChange) (b : Bool)
    → verdict profile skill (xs ++ ys) b ≡ verdict profile skill ys (verdict profile skill xs b)
verdict-append profile skill [] ys b = refl
verdict-append profile skill (c ∷ xs) ys b = verdict-append profile skill xs ys _

includes-apply_change :
    (c : ProfileDraftChange) (set : List String) (t : String)
    → includes (apply_change c set) t ≡ decide t c (includes set t)
includes-apply_change c set t = go c.action
  where
    go :
        (a : ChangeAction)
        → includes (apply_change (record c { action = a }) set) t
          ≡ decide t (record c { action = a }) (includes set t)
    go ChangeAction.add_skill = includes-add set c.target_value t
    go ChangeAction.remove_skill = includes-delete set c.target_value t
    go ChangeAction.update_model = refl

apply_change-IsDistinct :
    (c : ProfileDraftChange) (set : List String) → IsDistinct set → IsDistinct (apply_change c set)
apply_change-IsDistinct c set d = go c.action
  where
    go : (a : ChangeAction) → IsDistinct (apply_change (record c { action = a }) set)
    go ChangeAction.add_skill = add-IsDistinct set c.target_value d
    go ChangeAction.remove_skill = delete-IsDistinct set c.target_value d
    go ChangeAction.update_model = d

includes-apply_changes :
    (profile : String) (cs : List ProfileDraftChange) (set : List String) (t : String)
    → includes (apply_changes (filter (λ c. c.profile_id == profile) cs) set) t
      ≡ verdict profile t cs (includes set t)
unfolding apply_changes
includes-apply_changes profile [] set t = refl
includes-apply_changes profile (c ∷ rest) set t = ground (
  arith,
  includes-apply_changes profile rest set t,
  includes-apply_changes profile rest (apply_change c set) t,
  includes-apply_change c set t,
)

apply_changes-IsDistinct :
    (cs : List ProfileDraftChange) (set : List String)
    → IsDistinct set
    → IsDistinct (apply_changes cs set)
unfolding apply_changes
apply_changes-IsDistinct [] set d = d
apply_changes-IsDistinct (c ∷ rest) set d =
    apply_changes-IsDistinct rest _ (apply_change-IsDistinct c set d)

-- A skill is in effect when the changes of the profile, in the order in which they were staged, leave
-- it so, from whether it is among the original skills; no skill is listed twice.
pub includes-get_effective_skills :
    (profile : String) (original : List String) (st : DraftStore) (t : String)
    → (includes (get_effective_skills profile original st) t
        ≡ verdict profile t st.draft_changes (includes original t))
      × IsDistinct (get_effective_skills profile original st)
unfolding get_effective_skills get_profile_draft_changes
includes-get_effective_skills profile original st t = (
  includes-apply_changes profile st.draft_changes (JsSet.of_array original) t
      ∙ ap (verdict profile t st.draft_changes) (includes-add_all [] original t),
  apply_changes-IsDistinct (filter (λ c. c.profile_id == profile) st.draft_changes) _
      (add_all-IsDistinct [] original tt),
)
