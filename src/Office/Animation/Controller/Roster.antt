-- ===== src/Office/Animation/Controller/Roster.antt =====
-- Who is shown after a step.
use virtual_office_sagara_ag.Prelude.{
  ◌≡◌, refl, ap, ◌∙◌, String, true, List, [], ◌∷◌, ◌++◌, map, eq_refl, ◌||◌, arith, includes, All,
  match_both,
}
use mathlib.Core.List.{map-append}
use virtual_office_sagara_ag.Prelude.JsMap
use virtual_office_sagara_ag.Prelude.JsMap.{Map}
use virtual_office_sagara_ag.Engine.{Engine}
use virtual_office_sagara_ag.Office.Types.{OfficeDeskProjection, OfficeWorkerProjection}
use virtual_office_sagara_ag.Office.Animation.Reals.{Reals}
use virtual_office_sagara_ag.Office.Animation.Controller.{
  agent_key, worker_key, OfficeCharacterProjection, Frame, prior_of,
}
use virtual_office_sagara_ag.Office.Animation.Controller.Desks.{step_desk}
use virtual_office_sagara_ag.Office.Animation.Controller.Workers.{step_worker}
use virtual_office_sagara_ag.Office.Animation.Controller.Exits.{step_leaving, leave_all}
use virtual_office_sagara_ag.Office.Animation.Controller.Step.{step_office_characters}
use virtual_office_sagara_ag.Office.Animation.Controller.Kept.{
  IsKeyed, prior_of-IsKeyed, step_desk-id, step_worker-id,
}
use virtual_office_sagara_ag.Office.Animation.Controller.Endings.{IsEnding, step_leaving-IsEnding}

module _ (reals : Reals) (js : Engine) (frame : Frame reals) where
  open frame use {scene, settings}

  abbrev Character : Type 0
  Character = OfficeCharacterProjection reals

  -- Every character of the last loop was there before the step.
  leave_all-IsEnding :
      (known : List String) (previous : List Character)
      → All (λ c. includes known c.id ≡ true) previous
      → All
          (λ c. (includes known c.id ≡ true) × IsEnding reals js frame c)
          (leave_all reals js frame previous)
  unfolding leave_all
  leave_all-IsEnding known [] h = tt
  leave_all-IsEnding known (old ∷ rest) h =
      match_both (λ cs. All (λ c. (includes known c.id ≡ true) × IsEnding reals js frame c) cs)
        (step_leaving reals js frame old) (λ _. leave_all-IsEnding known rest h.1)
        (λ actor e.
          let ending = step_leaving-IsEnding reals js frame old actor e in
          ((ap (includes known) ending.0 ∙ h.0, ending.1), leave_all-IsEnding known rest h.1))

  includes-grows :
      (x : String) (known : List String) (cs : List Character)
      → All (λ c. includes known c.id ≡ true) cs
      → All (λ c. includes (x ∷ known) c.id ≡ true) cs
  includes-grows x known [] h = tt
  includes-grows x known (c ∷ cs) h = (ground (arith, h.0), includes-grows x known cs h.1)

  All-known : (cs : List Character) → All (λ c. includes (map (λ d. d.id) cs) c.id ≡ true) cs
  All-known [] = tt
  All-known (c ∷ rest) = (
    ap (λ b. b || includes (map (λ d. d.id) rest) c.id) (eq_refl c.id),
    includes-grows c.id (map (λ d. d.id) rest) rest (All-known rest),
  )

  desk_ids :
      (prior : Map Character) (desks : List OfficeDeskProjection)
      → IsKeyed reals js frame prior
      → map (λ c. c.id) (map (step_desk reals js frame prior) desks)
        ≡ map (λ d. agent_key d.agent_id) desks
  desk_ids prior [] keyed = refl
  desk_ids prior (desk ∷ rest) keyed =
      rw (step_desk-id reals js frame prior desk keyed) (rw (desk_ids prior rest keyed) refl)

  worker_ids :
      (prior : Map Character) (workers : List OfficeWorkerProjection)
      → map (λ c. c.id) (map (step_worker reals js frame prior) workers)
        ≡ map (λ w. worker_key w.delegation_id) workers
  worker_ids prior [] = refl
  worker_ids prior (worker ∷ rest) =
      rw (step_worker-id reals js frame prior worker) (rw (worker_ids prior rest) refl)

  empty-IsKeyed : IsKeyed reals js frame []
  unfolding JsMap.get
  empty-IsKeyed k c h = absurd (cc h)

  -- The characters after a step, from those before: the desks and the workers of the scene have one each,
  -- in the scene's order and under their keys; the others were there before and are on their way out.
  pub record IsRoster (previous next : List Character) : Type 0 where
    pub leaving : List Character
    pub ids :
        map (λ c. c.id) next
        ≡ map (λ d. agent_key d.agent_id) scene.desks
          ++ (map (λ w. worker_key w.delegation_id) scene.workers ++ map (λ c. c.id) leaving)
    pub endings :
        All
          (λ c. (includes (map (λ d. d.id) previous) c.id ≡ true) × IsEnding reals js frame c)
          leaving

  -- A step shows one character for every desk of the scene and one for every worker, under their keys and
  -- in the scene's order, whatever was shown before. Any further character was shown before and belongs
  -- to a worker whose delegation has ended by a record of the scene.
  pub step_office_characters-IsRoster :
      (previous : List Character)
      → IsRoster previous (step_office_characters reals js frame previous)
  unfolding step_office_characters
  step_office_characters-IsRoster previous =
      let prior = prior_of reals js previous [] in
      let desks = map (step_desk reals js frame prior) scene.desks in
      let workers = map (step_worker reals js frame prior) scene.workers in
      let rest = leave_all reals js frame previous in
      let keyed = prior_of-IsKeyed reals js frame previous [] empty-IsKeyed in
      record {
        leaving = rest;
        ids =
            map-append (λ (c : Character). c.id) desks (workers ++ rest)
            ∙ (rw (desk_ids prior scene.desks keyed) (
                ap (◌++◌ (map (λ d. agent_key d.agent_id) scene.desks)) (
                  map-append (λ (c : Character). c.id) workers rest
                  ∙ ap (λ ids. ids ++ map (λ c. c.id) rest) (worker_ids prior scene.workers))));
        endings = leave_all-IsEnding (map (λ d. d.id) previous) previous (All-known previous);
      }
