-- ===== src/Draft/Persistence.antt =====
-- The drafts survive a reload of the page; discarding them.
use virtual_office_sagara_ag.Prelude.{
  ℕ, String, ◌≡◌, refl, sym, ap, ◌∙◌, Bool, true, not, Option, List, [], ◌∷◌, ◌==◌, if◌then◌else◌,
  filter, find, includes, arith, match_both, eq_iff,
}
use virtual_office_sagara_ag.Prelude.JsMap.{Map}
use virtual_office_sagara_ag.Draft.Store.{
  ProfileDraftChange, DraftStore, Saved, load_saved_drafts, persist_drafts, put_drafts, adds_skill,
  removes_skill, add_skill_draft, remove_skill_draft, discard_profile_draft, discard_all_drafts,
  get_effective_skills,
}
use virtual_office_sagara_ag.Draft.Blueprint.{
  RecommendedProfileBlueprint, CurrentProfile, stage_recommended_blueprint,
}
use virtual_office_sagara_ag.Draft.Effective.{decide, verdict, includes-get_effective_skills}

-- The calls that change the store, with the ids and times that they draw.
pub data Operation : Type 0 where
  add remove : (id now profile skill : String) (label : Option String) → Operation
  discard_profile : (profile : String) → Operation
  discard_all : Operation
  stage :
      (new_id : ℕ → String) (now : String) (blueprint : Map RecommendedProfileBlueprint)
      (profiles : List CurrentProfile)
      → Operation

unfoldable pub perform : Operation → DraftStore → DraftStore
perform (Operation.add id now profile skill label) st =
    add_skill_draft id now profile skill label st
perform (Operation.remove id now profile skill label) st =
    remove_skill_draft id now profile skill label st
perform (Operation.discard_profile profile) st = discard_profile_draft profile st
perform Operation.discard_all st = discard_all_drafts st
perform (Operation.stage new_id now blueprint profiles) st =
    stage_recommended_blueprint new_id now blueprint profiles st

unfoldable pub perform_all : List Operation → DraftStore → DraftStore
perform_all [] st = st
perform_all (o ∷ rest) st = perform_all rest (perform o st)

-- The store as the page creates it, from what is saved.
abbrev pub created : Saved → Bool → DraftStore
created saved accepts = record {
  draft_changes = load_saved_drafts saved;
  saved = saved;
  accepts = accepts;
}

-- Writing works, and what is saved reads as the drafts.
pub record IsSaved (st : DraftStore) : Type 0 where
  pub works : st.accepts ≡ true
  pub reads : load_saved_drafts st.saved ≡ st.draft_changes

put_drafts-IsSaved :
    (drafts : List ProfileDraftChange) (st : DraftStore)
    → st.accepts ≡ true
    → IsSaved (put_drafts drafts st)
unfolding put_drafts persist_drafts load_saved_drafts
put_drafts-IsSaved drafts st h = record { works = ground (arith, h); reads = rw h refl }

perform-IsSaved : (o : Operation) (st : DraftStore) → IsSaved st → IsSaved (perform o st)
unfolding perform add_skill_draft remove_skill_draft discard_profile_draft discard_all_drafts
    stage_recommended_blueprint
perform-IsSaved (Operation.add id now profile skill label) st h =
    match_both IsSaved (find (removes_skill profile skill) st.draft_changes)
      (λ _. put_drafts-IsSaved _ st h.works) (λ _ _. put_drafts-IsSaved _ st h.works)
perform-IsSaved (Operation.remove id now profile skill label) st h =
    match_both IsSaved (find (adds_skill profile skill) st.draft_changes)
      (λ _. put_drafts-IsSaved _ st h.works) (λ _ _. put_drafts-IsSaved _ st h.works)
perform-IsSaved (Operation.discard_profile profile) st h = put_drafts-IsSaved _ st h.works
perform-IsSaved Operation.discard_all st h = put_drafts-IsSaved [] st h.works
perform-IsSaved (Operation.stage new_id now blueprint profiles) st h =
    put_drafts-IsSaved _ st h.works

perform_all-IsSaved :
    (os : List Operation) (st : DraftStore) → IsSaved st → IsSaved (perform_all os st)
unfolding perform_all
perform_all-IsSaved [] st h = h
perform_all-IsSaved (o ∷ rest) st h =
    perform_all-IsSaved rest (perform o st) (perform-IsSaved o st h)

-- While writing works, a page that is loaded again, after any calls, has the drafts that the page
-- before had.
pub reload-perform_all :
    (saved : Saved) (os : List Operation)
    → (created (perform_all os (created saved true)).saved true).draft_changes
      ≡ (perform_all os (created saved true)).draft_changes
reload-perform_all saved os =
    (perform_all-IsSaved os (created saved true) (record { works = refl; reads = refl })).reads

verdict-filter :
    (p r t : String) (cs : List ProfileDraftChange) (b : Bool)
    → verdict r t (filter (λ c. not (c.profile_id == p)) cs) b
      ≡ (if p == r then b else verdict r t cs b)
verdict-filter p r t [] b = ground arith
verdict-filter p r t (c ∷ rest) b = ground (
  arith,
  verdict-filter p r t rest b,
  verdict-filter p r t rest (if c.profile_id == r then decide t c b else b),
  eq_iff c.profile_id p,
  eq_iff c.profile_id r,
  eq_iff p r,
)

-- Discarding the drafts of a profile brings its original skills back into effect, and leaves every
-- other profile's alone.
discard_profile_draft-effective :
    (p r t : String) (original : List String) (st : DraftStore)
    → includes (get_effective_skills r original (discard_profile_draft p st)) t
      ≡ (if p == r then includes original t else includes (get_effective_skills r original st) t)
unfolding discard_profile_draft put_drafts
discard_profile_draft-effective p r t original st =
    (includes-get_effective_skills r original (discard_profile_draft p st) t).0
    ∙ verdict-filter p r t st.draft_changes (includes original t)
    ∙ ap (λ x. if p == r then includes original t else x)
        (sym (includes-get_effective_skills r original st t).0)
