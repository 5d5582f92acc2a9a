-- ===== src/Office/Animation/Controller/Workers.antt =====
-- frontend/src/features/office/animation/controller.ts: the loop over the workers.
use virtual_office_sagara_ag.Prelude.{
  ◌+◌, ◌*◌, Bool, true, false, ◌&&◌, ◌||◌, none, some, List, [], ◌∷◌, if◌then◌else◌, or_else,
  includes,
}
use virtual_office_sagara_ag.Prelude.JsMap
use virtual_office_sagara_ag.Prelude.JsMap.{Map}
use virtual_office_sagara_ag.Engine.{Engine}
use virtual_office_sagara_ag.Office.Types.{OfficeWorkerProjection}
use virtual_office_sagara_ag.Office.Animation.Reals.{Reals, Position, whole}
use virtual_office_sagara_ag.Office.Animation.Behavior.{
  OfficeBehaviorState, resolve_worker_behavior,
}
use virtual_office_sagara_ag.Office.Animation.Navigation.{
  position_of, at, chair_position, create_motion, request_motion, return_route,
}
use virtual_office_sagara_ag.Office.Animation.Postures.{is_seated}
use virtual_office_sagara_ag.Office.Animation.Controller.{
  Journey, is_home, is_returning, is_arriving, can_travel, index_of, is_running_delegation,
  worker_key, OfficeCharacterProjection, Frame, meeting_participants, meeting, turns_back, advance,
  reach,
}

module _ (reals : Reals) (js : Engine) (frame : Frame reals) where
  open reals use {Real, literal, add, sub, remainder, lt, le}
  open frame use {scene, elapsed, dt, settings, paused}

  -- `collaborating` of a worker
  abbrev pub joins : OfficeWorkerProjection → Bool
  joins worker =
      includes (meeting reals js frame).workers worker.delegation_id
      && is_running_delegation worker.state

  -- a worker that was not there before
  unfoldable pub new_worker : OfficeWorkerProjection → OfficeCharacterProjection reals
  unfolding request_motion create_motion chair_position
  new_worker worker =
      let position = position_of reals worker.position in
      let chair = chair_position reals position in
      let entrance = at reals position.x (add position.y (whole reals 56)) in
      record {
        id = worker_key worker.delegation_id;
        agent_id = worker.parent_agent_id;
        desk = none;
        worker = some worker;
        desk_position = position;
        motion =
            if can_travel settings
            then request_motion (create_motion entrance false) (entrance ∷ chair ∷ []) true false
            else create_motion chair true;
        behavior = OfficeBehaviorState.idle_seated;
        journey = if can_travel settings then Journey.arriving else Journey.home;
        phase_started = elapsed;
        next_trip_after = whole reals 0;
      }

  -- the way of a worker to the meeting
  unfoldable pub meeting_route : OfficeWorkerProjection → Position reals → List (Position reals)
  unfolding meeting_participants chair_position
  meeting_route worker desk_position =
      let slot = index_of (meeting reals js frame).workers worker.delegation_id in
      let entrance = at reals desk_position.x (add desk_position.y (whole reals 56)) in
      let destination = at reals (whole reals (275 + slot * 28)) (whole reals 498) in
      chair_position reals desk_position
      ∷ entrance
      ∷ at reals (whole reals 400) entrance.y
      ∷ at reals (whole reals 400) (whole reals 520)
      ∷ at reals destination.x (whole reals 520)
      ∷ destination
      ∷ []

  unfoldable pub send_worker :
      OfficeWorkerProjection → OfficeCharacterProjection reals → OfficeCharacterProjection reals
  unfolding request_motion meeting_route chair_position
  send_worker worker actor =
      if is_home actor.journey
        && (joins worker && (can_travel settings && lt actor.next_trip_after elapsed))
      then record actor {
        motion =
            request_motion
              (record actor.motion { breadcrumbs = chair_position reals actor.desk_position ∷ [] })
              (meeting_route worker actor.desk_position) false false;
        journey = Journey.outbound;
      }
      else actor

  unfoldable pub recall_worker :
      OfficeWorkerProjection → OfficeCharacterProjection reals → OfficeCharacterProjection reals
  unfolding request_motion return_route chair_position
  recall_worker worker actor =
      if turns_back reals js frame (joins worker && can_travel settings) actor.journey
        actor.phase_started
      then record actor {
        motion =
            request_motion actor.motion
              (return_route actor.motion (chair_position reals actor.desk_position)) true
              settings.reduced_motion;
        journey = Journey.returning;
      }
      else actor

  unfoldable pub move_worker : OfficeCharacterProjection reals → OfficeCharacterProjection reals
  unfolding create_motion chair_position advance
  move_worker actor = record actor {
    motion =
        if settings.reduced_motion
        then create_motion (chair_position reals actor.desk_position) true
        else advance reals js frame actor.id actor.motion;
  }

  -- `justArrived`
  unfoldable pub settle_worker : OfficeCharacterProjection reals → OfficeCharacterProjection reals
  settle_worker actor =
      if (is_returning actor.journey || is_arriving actor.journey) && is_seated actor.motion.posture
      then record actor { journey = Journey.home; next_trip_after = add elapsed (whole reals 35) }
      else actor

  -- the body of the loop over the workers
  unfoldable pub step_worker :
      Map (OfficeCharacterProjection reals)
      → OfficeWorkerProjection
      → OfficeCharacterProjection reals
  unfolding new_worker send_worker recall_worker move_worker reach settle_worker
      resolve_worker_behavior
  step_worker prior worker =
      let old = or_else (JsMap.get prior (worker_key worker.delegation_id)) (new_worker worker) in
      let actor = record old {
        id = worker_key worker.delegation_id;
        agent_id = worker.parent_agent_id;
        desk = none;
        worker = some worker;
      } in
      let settled =
        settle_worker
          (reach reals js frame (move_worker (recall_worker worker (send_worker worker actor)))) in
      record settled {
        behavior =
            if joins worker
            then OfficeBehaviorState.work_collaborating
            else resolve_worker_behavior js worker.state worker.delegation_id;
      }
