-- ===== src/Office/Animation/Controller/Exits.antt =====
-- frontend/src/features/office/animation/controller.ts: the characters of workers that leave.
use virtual_office_sagara_ag.Prelude.{
  Bool, false, not, ◌||◌, Option, none, some, List, [], ◌∷◌, ◌++◌, map, ◌==◌, if◌then◌else◌,
  includes, find,
}
use virtual_office_sagara_ag.Engine.{Engine}
use virtual_office_sagara_ag.Domain.Runtime.{DelegationState, DelegationProjection}
use virtual_office_sagara_ag.Office.Types.{OfficeWorkerProjection}
use virtual_office_sagara_ag.Office.Work.{is_active_delegation}
use virtual_office_sagara_ag.Office.Animation.Reals.{Reals, whole}
use virtual_office_sagara_ag.Office.Animation.Behavior.{resolve_worker_behavior}
use virtual_office_sagara_ag.Office.Animation.Navigation.{
  at, chair_position, request_motion, return_route,
}
use virtual_office_sagara_ag.Office.Animation.Postures.{is_standing_up, is_empty}
use virtual_office_sagara_ag.Office.Animation.Controller.{
  Journey, is_leaving, is_lite, OfficeCharacterProjection, Frame, advance,
}

module _ (reals : Reals) (js : Engine) (frame : Frame reals) where
  open reals use {Real, literal, add, sub, remainder, lt, le}
  open frame use {scene, elapsed, dt, settings, paused}

  -- The delegation of a character that leaves: it has a worker that the scene no longer shows, its agent
  -- has a desk, and a record says that the delegation is over.
  unfoldable pub leaving_record : OfficeCharacterProjection reals → Option DelegationProjection
  leaving_record old = elim old.worker [
    | none ↦ none
    | some worker ↦
        if includes (map (λ w. w.delegation_id) scene.workers) worker.delegation_id
          || not (includes (map (λ d. d.agent_id) scene.desks) old.agent_id)
        then none
        else elim (find (λ d. d.id == worker.delegation_id) scene.delegation_records) [
          | none ↦ none
          | some entry ↦
              if is_active_delegation entry.state
                || (settings.reduced_motion || is_lite settings.quality)
              then none
              else some entry
        ]
  ]

  abbrev pub with_state :
      DelegationState → Option OfficeWorkerProjection → Option OfficeWorkerProjection
  with_state state none = none
  with_state state (some worker) = some (record worker { state = state })

  -- `if (actor.journey !== 'LEAVING')`: the way to the entrance begins
  unfoldable pub start_leaving : OfficeCharacterProjection reals → OfficeCharacterProjection reals
  unfolding request_motion return_route chair_position
  start_leaving actor =
      if is_leaving actor.journey
      then actor
      else let chair = chair_position reals actor.desk_position in
        let entrance = at reals chair.x (add chair.y (whole reals 29)) in
        record actor {
          motion =
              request_motion actor.motion (return_route actor.motion chair ++ entrance ∷ []) false
                false;
          journey = Journey.leaving;
          phase_started = elapsed;
        }

  -- The character of before with the record's state, on its way to the entrance.
  unfoldable pub renew :
      OfficeCharacterProjection reals → DelegationProjection → OfficeCharacterProjection reals
  unfolding start_leaving advance resolve_worker_behavior
  renew old entry =
      let started = start_leaving (record old {
        worker = with_state entry.state old.worker;
        behavior = resolve_worker_behavior js entry.state entry.id;
      }) in
      record started {
        motion =
            if lt (literal 12 10) (sub elapsed started.phase_started)
            then advance reals js frame started.id started.motion
            else started.motion;
      }

  -- the condition under which it is still shown
  abbrev pub is_still_shown : OfficeCharacterProjection reals → Bool
  is_still_shown actor =
      not (is_empty actor.motion.route)
      || (is_standing_up actor.motion.posture
          || lt (sub elapsed actor.phase_started) (literal 12 10))

  -- the body of the last loop: the character while it leaves, or none
  unfoldable pub step_leaving :
      OfficeCharacterProjection reals → Option (OfficeCharacterProjection reals)
  unfolding leaving_record renew
  step_leaving old = elim (leaving_record old) [
    | none ↦ none
    | some entry ↦ if is_still_shown (renew old entry) then some (renew old entry) else none
  ]

  unfoldable pub leave_all :
      List (OfficeCharacterProjection reals) → List (OfficeCharacterProjection reals)
  unfolding step_leaving
  leave_all [] = []
  leave_all (old ∷ rest) = elim (step_leaving old) [
    | none ↦ leave_all rest
    | some actor ↦ actor ∷ leave_all rest
  ]
