-- ===== src/Tests/Drafts.antt =====
-- Drafts at concrete inputs.
use virtual_office_sagara_ag.Prelude.{
  ℕ, String, ◌≡◌, refl, true, false, none, List, [], ◌∷◌, includes, append_text, arith,
}
use virtual_office_sagara_ag.Prelude.NumberText.{number_text}
use virtual_office_sagara_ag.Prelude.JsMap
use virtual_office_sagara_ag.Prelude.JsSet
use virtual_office_sagara_ag.Prelude.JsSet.{IsDistinct}
use virtual_office_sagara_ag.Draft.Store.{
  ProfileDraftChange, ChangeAction, DraftStore, Saved, skill_change, add_skill_draft,
  remove_skill_draft, get_effective_skills,
}
use virtual_office_sagara_ag.Draft.Blueprint.{
  CurrentProfile, canonical_recommended_blueprint, stage_recommended_blueprint,
  compute_profile_diff,
}
use virtual_office_sagara_ag.Draft.Effective.{includes-get_effective_skills}
use virtual_office_sagara_ag.Draft.Lists.{IsTidy, added, removed, effective}
use virtual_office_sagara_ag.Draft.Toggle.{add_skill_draft-effective, remove_skill_draft-effective}
use virtual_office_sagara_ag.Draft.Staging.{stage-get_effective_skills}
use virtual_office_sagara_ag.Draft.Preview.{preview-stage, preview-unnamed}
use virtual_office_sagara_ag.Draft.Persistence.{Operation, perform_all, created, reload-perform_all}

-- Every profile has one skill.
abbrev original : String → List String
original p = "writing" ∷ []

abbrev store_of : List ProfileDraftChange → DraftStore
store_of changes = record { draft_changes = changes; saved = Saved.absent; accepts = true }

-- `lead` loses the skill that it has.
abbrev removal : DraftStore
removal =
    store_of (skill_change "change-1" "nine" ChangeAction.remove_skill "lead" "writing" none ∷ [])

removal-IsTidy : IsTidy original removal.draft_changes
removal-IsTidy = record { distinct = (refl, tt); minimal = λ p. ground arith }

add_skill_draft-effective_example :
    IsTidy original (add_skill_draft "change-2" "ten" "lead" "writing" none removal).draft_changes
    × ((r t : String)
        → effective original (add_skill_draft "change-2" "ten" "lead" "writing" none removal) r t
          ≡ added "lead" "writing" r t (effective original removal r t))
unfolding get_effective_skills JsSet.delete JsSet.add_all JsSet.add
add_skill_draft-effective_example =
    add_skill_draft-effective original "lead" "writing" "change-2" "ten" none removal removal-IsTidy
      refl refl

empty-IsTidy : IsTidy original []
empty-IsTidy = record { distinct = tt; minimal = λ p. refl }

remove_skill_draft-effective_example :
    IsTidy original
      (remove_skill_draft "change-2" "ten" "lead" "writing" none (store_of [])).draft_changes
    × ((r t : String)
        → effective original
            (remove_skill_draft "change-2" "ten" "lead" "writing" none (store_of []))
            r
            t
          ≡ removed "lead" "writing" r t (effective original (store_of []) r t))
unfolding get_effective_skills JsSet.add_all JsSet.add
remove_skill_draft-effective_example =
    remove_skill_draft-effective original "lead" "writing" "change-2" "ten" none (store_of [])
      empty-IsTidy refl refl

includes-get_effective_skills_example :
    (includes (get_effective_skills "lead" ("writing" ∷ []) removal) "writing" ≡ false)
    × IsDistinct (get_effective_skills "lead" ("writing" ∷ []) removal)
includes-get_effective_skills_example =
    includes-get_effective_skills "lead" ("writing" ∷ []) removal "writing"

abbrev new_id : ℕ → String
new_id n = append_text "change-" (number_text n)

abbrev lead : CurrentProfile
lead = record { id = "lead"; skill_ids = "writing" ∷ "skill-hermes-agent" ∷ [] }

-- a profile that the blueprint does not name
abbrev guest : CurrentProfile
guest = record { id = "guest"; skill_ids = "writing" ∷ [] }

abbrev profiles : List CurrentProfile
profiles = lead ∷ guest ∷ []

stage-get_effective_skills_example :
    includes
      (get_effective_skills "lead" lead.skill_ids
        (stage_recommended_blueprint new_id "ten" canonical_recommended_blueprint profiles removal))
      "skill-systematic-debugging"
    ≡ true
unfolding JsMap.get
stage-get_effective_skills_example =
    stage-get_effective_skills new_id "ten" canonical_recommended_blueprint
      "skill-systematic-debugging" lead profiles removal (refl, (refl, tt)) refl

preview-stage_example :
    includes
      (compute_profile_diff "lead" "Lead" lead.skill_ids
        canonical_recommended_blueprint).result_skills
      "writing"
    ≡ includes
        (get_effective_skills "lead" lead.skill_ids (
          stage_recommended_blueprint new_id "ten" canonical_recommended_blueprint profiles
            removal))
        "writing"
unfolding JsMap.get
preview-stage_example =
    preview-stage new_id "ten" canonical_recommended_blueprint "Lead" "writing" lead _ profiles
      removal refl (refl, (refl, tt)) refl

preview-unnamed_example :
    (includes
        (compute_profile_diff "guest" "Guest" guest.skill_ids
          canonical_recommended_blueprint).result_skills
        "writing"
      ≡ false)
    × (includes
          (get_effective_skills "guest" guest.skill_ids (
            stage_recommended_blueprint new_id "ten" canonical_recommended_blueprint profiles
              removal))
          "writing"
        ≡ true)
unfolding JsMap.get
preview-unnamed_example =
    preview-unnamed new_id "ten" canonical_recommended_blueprint "Guest" "writing" guest profiles
      removal refl (refl, (refl, tt)) refl

abbrev operations : List Operation
operations =
    Operation.add "change-1" "nine" "lead" "painting" none
    ∷ Operation.stage new_id "nine" canonical_recommended_blueprint profiles
    ∷ Operation.discard_profile "guest"
    ∷ []

reload-perform_all_example :
    (created (perform_all operations (created Saved.unreadable true)).saved true).draft_changes
    ≡ (perform_all operations (created Saved.unreadable true)).draft_changes
reload-perform_all_example = reload-perform_all Saved.unreadable operations
