-- ===== src/Office/Animation/Controller/Desks.antt =====
-- frontend/src/features/office/animation/controller.ts: the loop over the desks.
use virtual_office_sagara_ag.Prelude.{
  ◌+◌, ◌*◌, ◌%◌, Bool, true, false, not, ◌&&◌, ◌||◌, none, some, [], ◌∷◌, if◌then◌else◌, or_else,
  includes,
}
use virtual_office_sagara_ag.Prelude.JsMap
use virtual_office_sagara_ag.Prelude.JsMap.{Map}
use virtual_office_sagara_ag.Engine.{Engine}
use virtual_office_sagara_ag.Office.Types.{OfficeDeskProjection}
use virtual_office_sagara_ag.Office.Animation.Reals.{Reals, Position, whole}
use virtual_office_sagara_ag.Office.Animation.Behavior.{
  OfficeBehaviorState, presentation_seed, resolve_office_behavior,
}
use virtual_office_sagara_ag.Office.Animation.Navigation.{
  position_of, at, chair_position, break_anchor, office_route, same_point, create_motion,
  request_motion, return_route,
}
use virtual_office_sagara_ag.Office.Animation.Postures.{is_seated}
use virtual_office_sagara_ag.Office.Animation.Controller.{
  Journey, is_home, is_visiting, is_returning, can_travel, index_of, is_coffee, is_collaborating,
  is_upright_break, is_away, agent_key, OfficeCharacterProjection, Frame, meeting_participants,
  meeting, turns_back, advance, reach,
}

module _ (reals : Reals) (js : Engine) (frame : Frame reals) where
  open reals use {Real, literal, add, sub, remainder, lt, le}
  open frame use {scene, elapsed, dt, settings, paused}

  -- the character of a desk before the step, with the desk and the behaviour of now
  unfoldable pub seated_character :
      Map (OfficeCharacterProjection reals)
      → OfficeDeskProjection
      → OfficeBehaviorState
      → OfficeCharacterProjection reals
  unfolding create_motion chair_position presentation_seed
  seated_character prior desk behavior =
      let position = position_of reals desk.position in
      record (or_else (JsMap.get prior (agent_key desk.agent_id)) (record {
        id = agent_key desk.agent_id;
        agent_id = desk.agent_id;
        desk = none;
        worker = none;
        desk_position = position;
        motion = create_motion (chair_position reals position) true;
        behavior = behavior;
        journey = Journey.home;
        phase_started = elapsed;
        next_trip_after =
            add (whole reals 8) (whole reals (presentation_seed js desk.agent_id % 18));
      })) { desk = some desk; desk_position = position; behavior = behavior }

  -- `destination` of a trip: the lounge, or a place at the meeting
  unfoldable pub trip_destination : OfficeDeskProjection → OfficeBehaviorState → Position reals
  unfolding meeting_participants presentation_seed
  trip_destination desk behavior =
      let index = index_of (meeting reals js frame).agents desk.agent_id in
      if is_coffee behavior
      then at reals
          (sub (break_anchor reals).x (whole reals (presentation_seed js desk.agent_id % 3 * 26)))
          (break_anchor reals).y
      else at reals (whole reals (310 + index * 25)) (whole reals (463 + index * 14))

  -- `wantsTrip`
  abbrev pub wants_trip : OfficeBehaviorState → Bool
  wants_trip behavior = can_travel settings && (is_coffee behavior || is_collaborating behavior)

  -- `actor.journey === 'HOME' && wantsTrip && …`: the trip begins
  unfoldable pub set_out :
      OfficeDeskProjection → OfficeCharacterProjection reals → OfficeCharacterProjection reals
  unfolding request_motion office_route chair_position trip_destination
  set_out desk actor =
      let position = position_of reals desk.position in
      if is_home actor.journey
        && (wants_trip actor.behavior
            && (le actor.next_trip_after elapsed && is_seated actor.motion.posture))
      then record actor {
        motion =
            request_motion
              (record actor.motion { breadcrumbs = chair_position reals position ∷ [] })
              (office_route reals position (trip_destination desk actor.behavior)) false false;
        journey = Journey.outbound;
        phase_started = elapsed;
      }
      else actor

  unfoldable pub turn_back :
      Position reals → OfficeCharacterProjection reals → OfficeCharacterProjection reals
  unfolding request_motion return_route
  turn_back chair actor =
      if turns_back reals js frame (wants_trip actor.behavior) actor.journey actor.phase_started
      then record actor {
        motion = request_motion actor.motion (return_route actor.motion chair) true false;
        journey = Journey.returning;
      }
      else actor

  unfoldable pub stay_home :
      Position reals → OfficeCharacterProjection reals → OfficeCharacterProjection reals
  unfolding request_motion
  stay_home chair actor =
      if is_home actor.journey
      then record actor {
        motion =
            request_motion actor.motion (chair ∷ []) (not (is_upright_break actor.behavior)) false;
      }
      else actor

  unfoldable pub come_home :
      Position reals → OfficeCharacterProjection reals → OfficeCharacterProjection reals
  unfolding same_point
  come_home chair actor =
      if is_returning actor.journey
        && (is_seated actor.motion.posture && same_point reals actor.motion.position chair)
      then record actor {
        journey = Journey.home;
        next_trip_after = add elapsed (whole reals 35);
        motion = record actor.motion { breadcrumbs = chair ∷ [] };
      }
      else actor

  -- a coffee pose only in the lounge
  unfoldable pub pose : OfficeCharacterProjection reals → OfficeCharacterProjection reals
  pose actor =
      if is_coffee actor.behavior && not (is_visiting actor.journey)
      then record actor { behavior = OfficeBehaviorState.idle_seated }
      else actor

  -- `resolveOfficeBehavior(…)` for a desk
  abbrev pub behavior_at : OfficeDeskProjection → OfficeBehaviorState
  behavior_at desk = resolve_office_behavior {reals = reals} js (record {
    agent = desk.agent;
    task = desk.current_task;
    delegations = desk.active_delegations;
    approvals = scene.approval_summary.items;
    collaborating = includes (meeting reals js frame).agents desk.agent_id;
    elapsed_seconds = elapsed;
  })

  -- the body of the loop over the desks
  unfoldable pub step_desk :
      Map (OfficeCharacterProjection reals) → OfficeDeskProjection → OfficeCharacterProjection reals
  unfolding seated_character set_out turn_back stay_home advance reach come_home pose create_motion
      chair_position
  step_desk prior desk =
      let chair = chair_position reals (position_of reals desk.position) in
      let actor = seated_character prior desk (behavior_at desk) in
      if is_away actor.behavior || settings.reduced_motion
      then record actor {
        motion = create_motion chair (not (is_upright_break actor.behavior));
        journey = Journey.home;
      }
      else let started = stay_home chair (turn_back chair (set_out desk actor)) in
        let moved = record started {
          motion = advance reals js frame (agent_key desk.agent_id) started.motion;
        } in
        pose (come_home chair (reach reals js frame moved))
