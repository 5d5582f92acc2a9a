-- ===== src/Office/Animation/Controller/Step.antt =====
-- frontend/src/features/office/animation/controller.ts: `stepOfficeCharacters`.
use virtual_office_sagara_ag.Prelude.{List, [], ◌++◌, map}
use virtual_office_sagara_ag.Engine.{Engine}
use virtual_office_sagara_ag.Office.Animation.Reals.{Reals}
use virtual_office_sagara_ag.Office.Animation.Controller.{
  OfficeCharacterProjection, Frame, prior_of,
}
use virtual_office_sagara_ag.Office.Animation.Controller.Desks.{step_desk}
use virtual_office_sagara_ag.Office.Animation.Controller.Workers.{step_worker}
use virtual_office_sagara_ag.Office.Animation.Controller.Exits.{leave_all}

module _ (reals : Reals) (js : Engine) (frame : Frame reals) where
  open reals use {Real, literal, add, sub, remainder, lt, le}
  open frame use {scene, elapsed, dt, settings, paused}

  -- `stepOfficeCharacters`
  unfoldable pub step_office_characters :
      List (OfficeCharacterProjection reals) → List (OfficeCharacterProjection reals)
  unfolding prior_of step_desk step_worker leave_all
  step_office_characters previous =
      let prior = prior_of reals js previous [] in
      map (step_desk reals js frame prior) scene.desks
      ++ (map (step_worker reals js frame prior) scene.workers ++ leave_all reals js frame previous)
