-- ===== src/Draft/Store.antt =====
-- draft-store.ts and types.ts: the staged changes and their copy in `localStorage`.
use virtual_office_sagara_ag.Prelude.{
  String, Bool, true, false, not, ◌&&◌, Option, none, some, List, [], ◌∷◌, ◌++◌, ◌==◌,
  if◌then◌else◌, or_text, filter, find,
}
use virtual_office_sagara_ag.Prelude.JsSet

pub data ChangeAction : Type 0 where
  add_skill remove_skill update_model : ChangeAction

pub data Field : Type 0 where
  skills model : Field

pub record ProfileDraftChange : Type 0 where
  pub id : String
  pub profile_id : String
  pub field : Field
  pub action : ChangeAction
  pub target_value : String
  pub target_label : Option String
  pub timestamp : String

-- What stands in `localStorage` under the key of the store: nothing, something that is no JSON array,
-- or an array. `accepts` is false while writing throws.
pub data Saved : Type 0 where
  absent unreadable : Saved
  array : List ProfileDraftChange → Saved

pub record DraftStore : Type 0 where
  pub draft_changes : List ProfileDraftChange
  pub saved : Saved
  pub accepts : Bool

unfoldable pub load_saved_drafts : Saved → List ProfileDraftChange
load_saved_drafts absent = []
load_saved_drafts unreadable = []
load_saved_drafts (array changes) = changes

unfoldable pub persist_drafts : List ProfileDraftChange → DraftStore → DraftStore
persist_drafts drafts st = if st.accepts then record st { saved = array drafts } else st

-- `persistDrafts(updated); set({ draftChanges: updated })`
unfoldable pub put_drafts : List ProfileDraftChange → DraftStore → DraftStore
unfolding persist_drafts
put_drafts drafts st = record (persist_drafts drafts st) { draft_changes = drafts }

abbrev pub is_add : ChangeAction → Bool
is_add ChangeAction.add_skill = true
is_add _ = false

abbrev pub is_remove : ChangeAction → Bool
is_remove ChangeAction.remove_skill = true
is_remove _ = false

-- the callbacks of `find`
abbrev pub removes_skill : String → String → ProfileDraftChange → Bool
removes_skill profile skill c =
    c.profile_id == profile && (is_remove c.action && c.target_value == skill)

abbrev pub adds_skill : String → String → ProfileDraftChange → Bool
adds_skill profile skill c = c.profile_id == profile && (is_add c.action && c.target_value == skill)

abbrev pub has_other_id : ProfileDraftChange → ProfileDraftChange → Bool
has_other_id existing c = not (c.id == existing.id)

-- A change of the skills of a profile; `id` and `now` come from the clock and the random source.
abbrev pub skill_change :
    String → String → ChangeAction → String → String → Option String → ProfileDraftChange
skill_change id now action profile skill label = record {
  id = id;
  profile_id = profile;
  field = Field.skills;
  action = action;
  target_value = skill;
  target_label = some (or_text label skill);
  timestamp = now;
}

-- `addSkillDraft`
unfoldable pub add_skill_draft :
    (id now profile skill : String) → Option String → DraftStore → DraftStore
unfolding put_drafts
add_skill_draft id now profile skill label st =
    elim (find (removes_skill profile skill) st.draft_changes) [
      | some existing ↦ put_drafts (filter (has_other_id existing) st.draft_changes) st
      | none ↦
          put_drafts
            (st.draft_changes
              ++ skill_change id now ChangeAction.add_skill profile skill label ∷ [])
            st
    ]

-- `removeSkillDraft`
unfoldable pub remove_skill_draft :
    (id now profile skill : String) → Option String → DraftStore → DraftStore
unfolding put_drafts
remove_skill_draft id now profile skill label st =
    elim (find (adds_skill profile skill) st.draft_changes) [
      | some existing ↦ put_drafts (filter (has_other_id existing) st.draft_changes) st
      | none ↦
          put_drafts
            (st.draft_changes
              ++ skill_change id now ChangeAction.remove_skill profile skill label ∷ [])
            st
    ]

unfoldable pub discard_profile_draft : String → DraftStore → DraftStore
unfolding put_drafts
discard_profile_draft profile st =
    put_drafts (filter (λ c. not (c.profile_id == profile)) st.draft_changes) st

unfoldable pub discard_all_drafts : DraftStore → DraftStore
unfolding put_drafts
discard_all_drafts st = put_drafts [] st

unfoldable pub get_profile_draft_changes : String → DraftStore → List ProfileDraftChange
get_profile_draft_changes profile st = filter (λ c. c.profile_id == profile) st.draft_changes

-- one turn of the loop of `getEffectiveSkills`
abbrev pub apply_change : ProfileDraftChange → List String → List String
apply_change c set = elim c.action [
  | ChangeAction.add_skill ↦ JsSet.add set c.target_value
  | ChangeAction.remove_skill ↦ JsSet.delete set c.target_value
  | ChangeAction.update_model ↦ set
]

unfoldable pub apply_changes : List ProfileDraftChange → List String → List String
apply_changes [] set = set
apply_changes (c ∷ rest) set = apply_changes rest (apply_change c set)

-- `getEffectiveSkills`
unfoldable pub get_effective_skills : String → List String → DraftStore → List String
unfolding apply_changes get_profile_draft_changes
get_effective_skills profile original st =
    apply_changes (get_profile_draft_changes profile st) (JsSet.of_array original)
