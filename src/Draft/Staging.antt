-- ===== src/Draft/Staging.antt =====
-- A staged blueprint: the skills in effect are the recommended ones.
use virtual_office_sagara_ag.Prelude.{
  ℕ, String, ◌≡◌, refl, ◌∙◌, Bool, false, not, ◌&&◌, ◌||◌, Option, none, some, List, [], ◌∷◌, map,
  ◌==◌, if◌then◌else◌, find, includes, arith, Bool-cases, inl, inr, eq_iff, eq_refl,
}
use virtual_office_sagara_ag.Prelude.JsMap
use virtual_office_sagara_ag.Prelude.JsMap.{Map}
use virtual_office_sagara_ag.Prelude.JsSet.{IsDistinct}
use virtual_office_sagara_ag.Draft.Store.{
  ProfileDraftChange, ChangeAction, DraftStore, put_drafts, get_effective_skills,
}
use virtual_office_sagara_ag.Draft.Blueprint.{
  RecommendedProfileBlueprint, CurrentProfile, push_added, push_removed, push_change, stage_profile,
  stage_profiles, stage_recommended_blueprint,
}
use virtual_office_sagara_ag.Draft.Effective.{
  verdict, verdict-append, includes-get_effective_skills,
}

abbrev pub profile_id : CurrentProfile → String
profile_id q = q.id

some_injective : (x y : CurrentProfile) → Path (Option CurrentProfile) (some x) (some y) → x ≡ y
some_injective x y e = cc e

module _ (new_id : ℕ → String) (now : String) where
  verdict-push_change :
      (p q t : String) (action : ChangeAction) (skill : String) (acc : List ProfileDraftChange)
      (b : Bool)
      → verdict p t (push_change new_id now q action skill acc) b ≡ (
          if q == p
          then elim action [
            | ChangeAction.add_skill ↦ skill == t || verdict p t acc b
            | ChangeAction.remove_skill ↦ not (skill == t) && verdict p t acc b
            | ChangeAction.update_model ↦ verdict p t acc b
          ]
          else verdict p t acc b)
  verdict-push_change p q t action skill acc b = verdict-append p t acc _ b

  verdict-push_added :
      (p q t : String) (current target : List String) (acc : List ProfileDraftChange) (b : Bool)
      → verdict p t (push_added new_id now q current target acc) b
        ≡ (q == p && (includes target t && not (includes current t)) || verdict p t acc b)
  unfolding push_added
  verdict-push_added p q t current [] acc b = ground arith
  verdict-push_added p q t current (sid ∷ rest) acc b = ground (
    arith,
    verdict-push_added p q t current rest acc b,
    verdict-push_added p q t current rest (push_change new_id now q ChangeAction.add_skill sid acc)
        b,
    verdict-push_change p q t ChangeAction.add_skill sid acc b,
    eq_iff sid t,
  )

  verdict-push_removed :
      (p q t : String) (target current : List String) (acc : List ProfileDraftChange) (b : Bool)
      → verdict p t (push_removed new_id now q target current acc) b
        ≡ (not (q == p && (includes current t && not (includes target t))) && verdict p t acc b)
  unfolding push_removed
  verdict-push_removed p q t target [] acc b = ground arith
  verdict-push_removed p q t target (sid ∷ rest) acc b = ground (
    arith,
    verdict-push_removed p q t target rest acc b,
    verdict-push_removed p q t target rest
        (push_change new_id now q ChangeAction.remove_skill sid acc) b,
    verdict-push_change p q t ChangeAction.remove_skill sid acc b,
    eq_iff sid t,
  )

  module _ (blueprint : Map RecommendedProfileBlueprint) where
    -- What the blueprint wants of a profile's skills.
    abbrev pub wanted : String → List String → String → Bool
    wanted p current t = elim (JsMap.get blueprint p) [
      | none ↦ includes current t
      | some b ↦ includes b.recommended_skills t
    ]

    verdict-stage_profile_ne :
        (p t : String) (q : CurrentProfile) (acc : List ProfileDraftChange) (b : Bool)
        → (q.id == p) ≡ false
        → verdict p t (stage_profile new_id now blueprint q acc) b ≡ verdict p t acc b
    unfolding stage_profile
    verdict-stage_profile_ne p t q acc b h = go (JsMap.get blueprint q.id)
      where
        go :
            (r : Option RecommendedProfileBlueprint)
            → verdict p t
                (elim r [
                  | none ↦ acc
                  | some bp ↦
                      push_removed new_id now q.id bp.recommended_skills q.skill_ids
                        (push_added new_id now q.id q.skill_ids bp.recommended_skills acc)
                ])
                b
              ≡ verdict p t acc b
        go none = refl
        go (some bp) = ground (
          arith,
          h,
          verdict-push_removed p q.id t bp.recommended_skills q.skill_ids
              (push_added new_id now q.id q.skill_ids bp.recommended_skills acc) b,
          verdict-push_added p q.id t q.skill_ids bp.recommended_skills acc b,
        )

    verdict-stage_profile :
        (t : String) (q : CurrentProfile) (acc : List ProfileDraftChange)
        → verdict q.id t acc (includes q.skill_ids t) ≡ includes q.skill_ids t
        → verdict q.id t (stage_profile new_id now blueprint q acc) (includes q.skill_ids t)
          ≡ wanted q.id q.skill_ids t
    unfolding stage_profile
    verdict-stage_profile t q acc h = go (JsMap.get blueprint q.id)
      where
        go :
            (r : Option RecommendedProfileBlueprint)
            → verdict q.id t
                (elim r [
                  | none ↦ acc
                  | some bp ↦
                      push_removed new_id now q.id bp.recommended_skills q.skill_ids
                        (push_added new_id now q.id q.skill_ids bp.recommended_skills acc)
                ])
                (includes q.skill_ids t)
              ≡ elim r [
                | none ↦ includes q.skill_ids t
                | some bp ↦ includes bp.recommended_skills t
              ]
        go none = h
        go (some bp) = ground (
          arith,
          h,
          eq_refl q.id,
          verdict-push_removed q.id q.id t bp.recommended_skills q.skill_ids
              (push_added new_id now q.id q.skill_ids bp.recommended_skills acc)
              (includes q.skill_ids t),
          verdict-push_added q.id q.id t q.skill_ids bp.recommended_skills acc
              (includes q.skill_ids t),
        )

    verdict-stage_profiles_ne :
        (p t : String) (profiles : List CurrentProfile) (acc : List ProfileDraftChange) (b : Bool)
        → includes (map profile_id profiles) p ≡ false
        → verdict p t (stage_profiles new_id now blueprint profiles acc) b ≡ verdict p t acc b
    unfolding stage_profiles
    verdict-stage_profiles_ne p t [] acc b h = refl
    verdict-stage_profiles_ne p t (q ∷ rest) acc b h = ground (
      arith,
      h,
      verdict-stage_profiles_ne p t rest (stage_profile new_id now blueprint q acc) b,
      verdict-stage_profile_ne p t q acc b,
    )

    verdict-stage_profiles :
        (t : String) (q : CurrentProfile) (profiles : List CurrentProfile)
        (acc : List ProfileDraftChange)
        → IsDistinct (map profile_id profiles)
        → find (λ x. x.id == q.id) profiles ≡ some q
        → verdict q.id t acc (includes q.skill_ids t) ≡ includes q.skill_ids t
        → verdict q.id t (stage_profiles new_id now blueprint profiles acc) (includes q.skill_ids t)
          ≡ wanted q.id q.skill_ids t
    unfolding stage_profiles
    verdict-stage_profiles t q [] acc d found h = cc found
    verdict-stage_profiles t q (x ∷ rest) acc d found h = elim (Bool-cases (x.id == q.id)) [
      | inl e ↦ rw (some_injective x q (rw e at found)) (
          verdict-stage_profiles_ne q.id t rest (stage_profile new_id now blueprint q acc)
            (includes q.skill_ids t) (rw (some_injective x q (rw e at found)) at d.0)
          ∙ verdict-stage_profile t q acc h)
      | inr e ↦
          verdict-stage_profiles t q rest (stage_profile new_id now blueprint x acc) d.1
            (rw e at found) (verdict-stage_profile_ne q.id t x acc (includes q.skill_ids t) e ∙ h)
    ]

    -- After a blueprint is staged, whatever was staged before, each of the current profiles has the
    -- recommended skills in effect; a profile that the blueprint does not name keeps its own. The
    -- profiles have different ids.
    pub stage-get_effective_skills :
        (t : String) (q : CurrentProfile) (profiles : List CurrentProfile) (st : DraftStore)
        → IsDistinct (map profile_id profiles)
        → find (λ x. x.id == q.id) profiles ≡ some q
        → includes
            (get_effective_skills q.id q.skill_ids
              (stage_recommended_blueprint new_id now blueprint profiles st))
            t
          ≡ wanted q.id q.skill_ids t
    unfolding stage_recommended_blueprint put_drafts
    stage-get_effective_skills t q profiles st d found =
        (includes-get_effective_skills q.id q.skill_ids
          (stage_recommended_blueprint new_id now blueprint profiles st) t).0
        ∙ verdict-stage_profiles t q profiles [] d found refl
