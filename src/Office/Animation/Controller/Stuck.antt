-- ===== src/Office/Animation/Controller/Stuck.antt =====
-- A worker that is shown again while its character leaves.
use virtual_office_sagara_ag.Prelude.{
  ◌≡◌, true, if◌then◌else◌, refl, ap, ◌∙◌, Option, none, some, or_else,
}
use virtual_office_sagara_ag.Prelude.JsMap
use virtual_office_sagara_ag.Prelude.JsMap.{Map}
use virtual_office_sagara_ag.Engine.{Engine}
use virtual_office_sagara_ag.Office.Types.{OfficeWorkerProjection}
use virtual_office_sagara_ag.Office.Animation.Reals.{Reals}
use virtual_office_sagara_ag.Office.Animation.Navigation.{create_motion, chair_position}
use virtual_office_sagara_ag.Office.Animation.Controller.{
  Journey, worker_key, OfficeCharacterProjection, Frame, reach, advance,
}
use virtual_office_sagara_ag.Office.Animation.Controller.Workers.{
  new_worker, send_worker, recall_worker, move_worker, settle_worker, step_worker,
}

module _ (reals : Reals) (js : Engine) (frame : Frame reals) where
  open frame use {settings}

  abbrev Character : Type 0
  Character = OfficeCharacterProjection reals

  -- No trip begins or ends for a character that leaves, and no journey of it is completed.
  send_worker-leaving :
      (w : OfficeWorkerProjection) (c : Character)
      → c.journey ≡ Journey.leaving
      → send_worker reals js frame w c ≡ c
  unfolding send_worker
  send_worker-leaving w c h = rw h refl

  recall_worker-leaving :
      (w : OfficeWorkerProjection) (c : Character)
      → c.journey ≡ Journey.leaving
      → recall_worker reals js frame w c ≡ c
  unfolding recall_worker
  recall_worker-leaving w c h = rw h refl

  reach-leaving : (c : Character) → c.journey ≡ Journey.leaving → reach reals js frame c ≡ c
  unfolding reach
  reach-leaving c h = rw h refl

  settle_worker-leaving :
      (c : Character) → c.journey ≡ Journey.leaving → settle_worker reals js frame c ≡ c
  unfolding settle_worker
  settle_worker-leaving c h = rw h refl

  -- All that a step does to such a character is its motion.
  loop-leaving :
      (w : OfficeWorkerProjection) (c : Character)
      → c.journey ≡ Journey.leaving
      → settle_worker reals js frame (
          reach reals js frame (
            move_worker reals js frame
              (recall_worker reals js frame w (send_worker reals js frame w c))))
        ≡ move_worker reals js frame c
  unfolding move_worker
  loop-leaving w c h =
      let moved = move_worker reals js frame c in
      ap (λ a. settle_worker reals js frame (reach reals js frame (move_worker reals js frame a)))
        (ap (recall_worker reals js frame w) (send_worker-leaving w c h)
          ∙ recall_worker-leaving w c h)
      ∙ ap (settle_worker reals js frame) (reach-leaving moved h)
      ∙ settle_worker-leaving moved h

  moved_worker : OfficeWorkerProjection → Character → Character
  moved_worker w old = move_worker reals js frame record old {
    id = worker_key w.delegation_id;
    agent_id = w.parent_agent_id;
    desk = none;
    worker = some w;
  }

  step-leaving :
      (prior : Map Character) (w : OfficeWorkerProjection) (old : Character)
      → JsMap.get prior (worker_key w.delegation_id) ≡ some old
      → old.journey ≡ Journey.leaving
      → ((step_worker reals js frame prior w).journey ≡ (moved_worker w old).journey)
        × ((step_worker reals js frame prior w).motion ≡ (moved_worker w old).motion)
  unfolding step_worker moved_worker
  step-leaving prior w old found h =
      let entered = λ (o : Option Character). record (or_else o (new_worker reals js frame w)) {
        id = worker_key w.delegation_id;
        agent_id = w.parent_agent_id;
        desk = none;
        worker = some w;
      } in
      let settled = λ (o : Option Character). settle_worker reals js frame (
        reach reals js frame (
          move_worker reals js frame
            (recall_worker reals js frame w (send_worker reals js frame w (entered o))))) in
      let same = ap settled found ∙ loop-leaving w (entered (some old)) h in
      (ap (λ c. c.journey) same, ap (λ c. c.motion) same)

  -- A worker whose character is leaving keeps the journey `LEAVING` in a step in which the scene shows it,
  -- whatever the scene and the time. Its motion goes on as it was, or, under reduced motion, it sits in
  -- its chair.
  pub step_worker-IsStuck :
      (prior : Map Character) (worker : OfficeWorkerProjection) (old : Character)
      → JsMap.get prior (worker_key worker.delegation_id) ≡ some old
      → old.journey ≡ Journey.leaving
      → ((step_worker reals js frame prior worker).journey ≡ Journey.leaving)
        × ((step_worker reals js frame prior worker).motion ≡ (
            if settings.reduced_motion
            then create_motion (chair_position reals old.desk_position) true
            else advance reals js frame (worker_key worker.delegation_id) old.motion))
  unfolding moved_worker move_worker
  step_worker-IsStuck prior worker old found h =
      let same = step-leaving prior worker old found h in (same.0 ∙ h, same.1)
