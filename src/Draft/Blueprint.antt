-- ===== src/Draft/Blueprint.antt =====
-- recommended-blueprint.ts, and the staging of a blueprint in draft-store.ts.
use mathlib.Core.Option
use virtual_office_sagara_ag.Prelude.{
  ℕ, String, Bool, not, ◌||◌, Option, none, some, List, [], ◌∷◌, ◌++◌, ◌==◌, if◌then◌else◌, or_text,
  filter, includes, length, ltb,
}
use virtual_office_sagara_ag.Prelude.JsMap
use virtual_office_sagara_ag.Prelude.JsMap.{Map}
use virtual_office_sagara_ag.Prelude.JsSet
use virtual_office_sagara_ag.Draft.Store.{
  ProfileDraftChange, ChangeAction, DraftStore, skill_change, put_drafts,
}

pub record RecommendedProfileBlueprint : Type 0 where
  pub id : String
  pub name : String
  pub role : String
  pub recommended_skills : List String
  pub model_tier : String
  pub channels : List String
  pub zone : String

abbrev blueprint_entry :
    (id name role : String)
    → List String
    → String
    → List String
    → String
    → RecommendedProfileBlueprint
blueprint_entry id name role skills model_tier channels zone = record {
  id = id;
  name = name;
  role = role;
  recommended_skills = skills;
  model_tier = model_tier;
  channels = channels;
  zone = zone;
}

abbrev pub canonical_recommended_blueprint : Map RecommendedProfileBlueprint
canonical_recommended_blueprint =
    (
      "lead",
      blueprint_entry "lead" "Lead Coordinator" "Lead Agent / AI Team Manager"
          ("skill-hermes-agent" ∷ "skill-systematic-debugging" ∷ []) "flagship"
          ("sagara-command" ∷ "cron" ∷ []) "command",
    )
    ∷ (
      "personal",
      blueprint_entry "personal" "Personal Assistant" "Personal Assistant / Secretary"
          ("skill-google-workspace" ∷ []) "balanced"
          ("assistant" ∷ "reminders" ∷ "career" ∷ "personal-finance" ∷ []) "personal",
    )
    ∷ (
      "business",
      blueprint_entry "business" "Business Analyst" "Business & Product Management"
          ("skill-unreferenced-tool" ∷ []) "flagship" ("products" ∷ []) "business",
    )
    ∷ (
      "marketing",
      blueprint_entry "marketing" "Marketing Specialist" "Marketing / Content / Posting"
          ("skill-baoyu-infographic" ∷ []) "balanced" ("marketing" ∷ "content" ∷ "posting" ∷ [])
          "creative",
    )
    ∷ (
      "cs",
      blueprint_entry "cs" "Customer Service Specialist" "Customer Service & Order Operations"
          ("skill-google-workspace" ∷ []) "fast" ("orders" ∷ "customer-service" ∷ []) "support",
    )
    ∷ (
      "it-support",
      blueprint_entry "it-support" "IT Support Specialist" "Systems / Infrastructure / Monitoring"
          ("skill-systematic-debugging" ∷ "skill-unreferenced-tool" ∷ []) "balanced"
          ("agent-status" ∷ "alerts" ∷ "gateway-status" ∷ "system-alerts" ∷ []) "support",
    )
    ∷ (
      "it-coding",
      blueprint_entry "it-coding" "IT Coding Specialist"
          "Software Development / Debugging / Code Review" ("skill-systematic-debugging" ∷ [])
          "coding" ("agent-coding-1" ∷ []) "engineering",
    )
    ∷ (
      "sagara-lab",
      blueprint_entry "sagara-lab" "Sagara Lab Researcher"
          "Research / Experimentation / Prototyping" ("skill-hermes-agent" ∷ []) "research"
          ("sagara-lab" ∷ "deep-search-engine" ∷ []) "lab",
    )
    ∷ []

pub record ProfileDiffSummary : Type 0 where
  pub profile_id : String
  pub name : String
  pub role : String
  pub current_count : ℕ
  pub recommended_count : ℕ
  pub result_count : ℕ
  pub skills_to_add : List String
  pub skills_to_remove : List String
  pub result_skills : List String
  pub is_different : Bool

-- `xs.filter((s) => !ys.includes(s))`
abbrev pub without : List String → List String → List String
without ys xs = filter (λ s. not (includes ys s)) xs

-- `rec ? rec.recommendedSkills : []`
abbrev pub recommended_of : Option RecommendedProfileBlueprint → List String
recommended_of none = []
recommended_of (some b) = b.recommended_skills

-- `computeProfileDiff`
unfoldable pub compute_profile_diff :
    String → String → List String → Map RecommendedProfileBlueprint → ProfileDiffSummary
compute_profile_diff profile_id profile_name current blueprint =
    let rec? = JsMap.get blueprint profile_id in
    let recommended = recommended_of rec? in
    let skills_to_add = without current recommended in
    let skills_to_remove = without recommended current in
    let result_skills = JsSet.of_array (without skills_to_remove current ++ skills_to_add) in
    record {
      profile_id = profile_id;
      name =
          if profile_name == ""
          then or_text (Option.map (λ b. b.name) rec?) profile_id
          else profile_name;
      role = or_text (Option.map (λ b. b.role) rec?) "Specialist Profile";
      current_count = length current;
      recommended_count = length recommended;
      result_count = length result_skills;
      skills_to_add = skills_to_add;
      skills_to_remove = skills_to_remove;
      result_skills = result_skills;
      is_different = ltb 0 (length skills_to_add) || ltb 0 (length skills_to_remove);
    }

pub record CurrentProfile : Type 0 where
  pub id : String
  pub skill_ids : List String

-- The staging of a blueprint: `new_id` gives the random id of the change that is pushed after so many.
module _ (new_id : ℕ → String) (now : String) where
  abbrev pub push_change :
      String → ChangeAction → String → List ProfileDraftChange → List ProfileDraftChange
  push_change profile action skill new_changes =
      new_changes ++ skill_change (new_id (length new_changes)) now action profile skill none ∷ []

  -- `for (const sid of targetSkills) if (!currentSkills.includes(sid)) …`
  unfoldable pub push_added :
      String → List String → List String → List ProfileDraftChange → List ProfileDraftChange
  push_added profile current [] new_changes = new_changes
  push_added profile current (sid ∷ rest) new_changes = push_added profile current rest (
      if includes current sid
      then new_changes
      else push_change profile ChangeAction.add_skill sid new_changes)

  -- `for (const sid of currentSkills) if (!targetSkills.includes(sid)) …`
  unfoldable pub push_removed :
      String → List String → List String → List ProfileDraftChange → List ProfileDraftChange
  push_removed profile target [] new_changes = new_changes
  push_removed profile target (sid ∷ rest) new_changes = push_removed profile target rest (
      if includes target sid
      then new_changes
      else push_change profile ChangeAction.remove_skill sid new_changes)

  -- A profile that the blueprint does not name is skipped.
  unfoldable pub stage_profile :
      Map RecommendedProfileBlueprint
      → CurrentProfile
      → List ProfileDraftChange
      → List ProfileDraftChange
  unfolding push_added push_removed
  stage_profile blueprint profile new_changes = elim (JsMap.get blueprint profile.id) [
    | none ↦ new_changes
    | some b ↦
        push_removed profile.id b.recommended_skills profile.skill_ids
          (push_added profile.id profile.skill_ids b.recommended_skills new_changes)
  ]

  unfoldable pub stage_profiles :
      Map RecommendedProfileBlueprint
      → List CurrentProfile
      → List ProfileDraftChange
      → List ProfileDraftChange
  unfolding stage_profile
  stage_profiles blueprint [] new_changes = new_changes
  stage_profiles blueprint (profile ∷ rest) new_changes =
      stage_profiles blueprint rest (stage_profile blueprint profile new_changes)

  -- `stageRecommendedBlueprint`
  unfoldable pub stage_recommended_blueprint :
      Map RecommendedProfileBlueprint → List CurrentProfile → DraftStore → DraftStore
  unfolding stage_profiles
  stage_recommended_blueprint blueprint profiles st =
      put_drafts (stage_profiles blueprint profiles []) st
