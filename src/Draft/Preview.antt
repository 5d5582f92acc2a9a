-- ===== src/Draft/Preview.antt =====
-- The preview of a blueprint against its staging.
use virtual_office_sagara_ag.Prelude.{
  ℕ, String, ◌≡◌, refl, sym, ap, ◌∙◌, false, not, ◌&&◌, none, some, List, [], ◌∷◌, ◌++◌, map, ◌==◌,
  find, includes, arith, eq_iff,
}
use virtual_office_sagara_ag.Prelude.JsMap
use virtual_office_sagara_ag.Prelude.JsMap.{Map}
use virtual_office_sagara_ag.Prelude.JsSet.{IsDistinct, includes-append, includes-add_all}
use virtual_office_sagara_ag.Draft.Store.{DraftStore, get_effective_skills}
use virtual_office_sagara_ag.Draft.Blueprint.{
  RecommendedProfileBlueprint, CurrentProfile, stage_recommended_blueprint, compute_profile_diff,
  without, recommended_of,
}
use virtual_office_sagara_ag.Draft.Staging.{profile_id, wanted, stage-get_effective_skills}

-- A skill of the filtered list is one of the list that the other does not have.
pub includes-without :
    (ys xs : List String) (t : String)
    → includes (without ys xs) t ≡ (includes xs t && not (includes ys t))
includes-without ys [] t = refl
includes-without ys (x ∷ xs) t = ground (arith, includes-without ys xs t, eq_iff x t)

-- The result of the preview is the recommended skills.
includes-result_skills :
    (name p t : String) (current : List String) (blueprint : Map RecommendedProfileBlueprint)
    → includes (compute_profile_diff p name current blueprint).result_skills t
      ≡ includes (recommended_of (JsMap.get blueprint p)) t
unfolding compute_profile_diff
includes-result_skills name p t current blueprint = ground (
  arith,
  includes-add_all []
      (without (without (recommended_of (JsMap.get blueprint p)) current) current
        ++ without current (recommended_of (JsMap.get blueprint p)))
      t,
  includes-append (without (without (recommended_of (JsMap.get blueprint p)) current) current)
      (without current (recommended_of (JsMap.get blueprint p))) t,
  includes-without (without (recommended_of (JsMap.get blueprint p)) current) current t,
  includes-without (recommended_of (JsMap.get blueprint p)) current t,
  includes-without current (recommended_of (JsMap.get blueprint p)) t,
)

module _ (new_id : ℕ → String) (now : String) (blueprint : Map RecommendedProfileBlueprint) where
  -- The preview of a profile that the blueprint names lists the skills that are in effect once the
  -- blueprint is staged.
  pub preview-stage :
      (name t : String) (q : CurrentProfile) (r : RecommendedProfileBlueprint)
      (profiles : List CurrentProfile) (st : DraftStore)
      → JsMap.get blueprint q.id ≡ some r
      → IsDistinct (map profile_id profiles)
      → find (λ x. x.id == q.id) profiles ≡ some q
      → includes (compute_profile_diff q.id name q.skill_ids blueprint).result_skills t
        ≡ includes
            (get_effective_skills q.id q.skill_ids
              (stage_recommended_blueprint new_id now blueprint profiles st))
            t
  preview-stage name t q r profiles st known d found =
      includes-result_skills name q.id t q.skill_ids blueprint
      ∙ ap (λ b. includes (recommended_of b) t) known
      ∙ sym (
          stage-get_effective_skills new_id now blueprint t q profiles st d found
          ∙ rw (wanted, known) refl)

  -- Of a profile that the blueprint does not name, the preview says that all skills go, while
  -- staging keeps them all.
  pub preview-unnamed :
      (name t : String) (q : CurrentProfile) (profiles : List CurrentProfile) (st : DraftStore)
      → JsMap.get blueprint q.id ≡ none
      → IsDistinct (map profile_id profiles)
      → find (λ x. x.id == q.id) profiles ≡ some q
      → (includes (compute_profile_diff q.id name q.skill_ids blueprint).result_skills t ≡ false)
        × (includes
              (get_effective_skills q.id q.skill_ids
                (stage_recommended_blueprint new_id now blueprint profiles st))
              t
            ≡ includes q.skill_ids t)
  preview-unnamed name t q profiles st unknown d found = (
    includes-result_skills name q.id t q.skill_ids blueprint
        ∙ ap (λ b. includes (recommended_of b) t) unknown,
    stage-get_effective_skills new_id now blueprint t q profiles st d found
        ∙ rw (wanted, unknown) refl,
  )
