-- ===== src/Office/Animation/Controller.antt =====
-- frontend/src/features/office/animation/controller.ts
pub mod Desks
pub mod Workers
pub mod Exits
pub mod Step
pub mod Kept
pub mod Endings
pub mod Roster
pub mod Stuck
use virtual_office_sagara_ag.Prelude.{
  ℕ, ◌+◌, ◌*◌, ◌%◌, String, Bool, true, false, not, ◌&&◌, ◌||◌, Option, none, some, List, [], ◌∷◌,
  ◌++◌, map, ◌==◌, if◌then◌else◌, or_else, is_text, includes, find, take, append_text,
}
use virtual_office_sagara_ag.Prelude.JsMap
use virtual_office_sagara_ag.Prelude.JsMap.{Map}
use virtual_office_sagara_ag.Engine.{Engine}
use virtual_office_sagara_ag.Domain.Runtime.{DelegationState, DelegationProjection}
use virtual_office_sagara_ag.Office.Types.{
  OfficeDeskProjection, OfficeWorkerProjection, OfficeSceneProjection,
}
use virtual_office_sagara_ag.Office.Work.{is_active_delegation}
use virtual_office_sagara_ag.Office.Animation.Reals.{Reals, Position, whole}
use virtual_office_sagara_ag.Office.Animation.Behavior.{
  OfficeBehaviorState, AnimationQuality, presentation_seed, resolve_office_behavior,
  resolve_worker_behavior,
}
use virtual_office_sagara_ag.Office.Animation.Navigation.{
  OfficeMotion, position_of, at, chair_position, break_anchor, office_route, same_point,
  create_motion, request_motion, return_route, advance_motion,
}
use virtual_office_sagara_ag.Office.Animation.Postures.{
  is_seated, is_standing, is_standing_up, is_empty,
}

pub data Journey : Type 0 where
  home outbound visiting returning arriving leaving : Journey

-- `journey === …`
abbrev pub is_home : Journey → Bool
is_home Journey.home = true
is_home _ = false

abbrev pub is_outbound : Journey → Bool
is_outbound Journey.outbound = true
is_outbound _ = false

abbrev pub is_visiting : Journey → Bool
is_visiting Journey.visiting = true
is_visiting _ = false

abbrev pub is_returning : Journey → Bool
is_returning Journey.returning = true
is_returning _ = false

abbrev pub is_arriving : Journey → Bool
is_arriving Journey.arriving = true
is_arriving _ = false

abbrev pub is_leaving : Journey → Bool
is_leaving Journey.leaving = true
is_leaving _ = false

pub record AnimationSettings : Type 0 where
  pub quality : AnimationQuality
  pub reduced_motion : Bool

abbrev pub is_lite : AnimationQuality → Bool
is_lite AnimationQuality.lite = true
is_lite _ = false

abbrev pub can_travel : AnimationSettings → Bool
can_travel settings = not (is_lite settings.quality) && not settings.reduced_motion

pub record Meeting : Type 0 where
  pub agents : List String
  pub workers : List String

-- `xs.indexOf(s)`, 0 where it is -1, as `Math.max(0, …)` makes it
abbrev pub index_of : List String → String → ℕ
index_of [] s = 0
index_of (x ∷ xs) s = if x == s then 0 else (if includes xs s then index_of xs s + 1 else 0)

abbrev pub is_coffee : OfficeBehaviorState → Bool
is_coffee OfficeBehaviorState.break_coffee = true
is_coffee _ = false

abbrev pub is_collaborating : OfficeBehaviorState → Bool
is_collaborating OfficeBehaviorState.work_collaborating = true
is_collaborating _ = false

abbrev pub is_upright_break : OfficeBehaviorState → Bool
is_upright_break OfficeBehaviorState.break_stretch = true
is_upright_break OfficeBehaviorState.break_standing = true
is_upright_break _ = false

abbrev pub is_away : OfficeBehaviorState → Bool
is_away OfficeBehaviorState.offline_away = true
is_away _ = false

abbrev pub is_running_delegation : DelegationState → Bool
is_running_delegation DelegationState.running = true
is_running_delegation _ = false

abbrev pub agent_key : String → String
agent_key id = append_text "agent:" id

abbrev pub worker_key : String → String
worker_key id = append_text "worker:" id

module _ (reals : Reals) where
  open reals use {Real, literal, add, sub, remainder, lt, le}

  pub record OfficeCharacterProjection : Type 0 where
    pub id : String
    pub agent_id : String
    pub desk : Option OfficeDeskProjection
    pub worker : Option OfficeWorkerProjection
    pub desk_position : Position reals
    pub motion : OfficeMotion reals
    pub behavior : OfficeBehaviorState
    pub journey : Journey
    pub phase_started : Real
    pub next_trip_after : Real

  -- The arguments of a step but the characters before it.
  pub record Frame : Type 0 where
    pub scene : OfficeSceneProjection
    pub elapsed : Real
    pub dt : Real
    pub settings : AnimationSettings
    pub paused : List String

module _ (reals : Reals) (js : Engine) where
  open reals use {Real, literal, add, sub, remainder, lt, le}

  -- `meetingParticipants`
  unfoldable pub meeting_participants : OfficeSceneProjection → Real → Meeting
  unfolding presentation_seed
  meeting_participants scene elapsed = elim scene.collaboration_items [
    | [] ↦ record { agents = []; workers = [] }
    | item ∷ _ ↦
        let phase =
          remainder (add elapsed (whole reals (presentation_seed js item.id % 120)))
            (whole reals 120) in
        if lt phase (whole reals 40) || lt (whole reals 90) phase
        then record { agents = []; workers = [] }
        else record {
          agents = take 3 item.agent_ids;
          workers = take 2 (map (λ d. d.id) item.delegations);
        }
  ]

  -- `prior`: of two characters with one id the later stays
  unfoldable pub prior_of :
      List (OfficeCharacterProjection reals)
      → Map (OfficeCharacterProjection reals)
      → Map (OfficeCharacterProjection reals)
  prior_of [] m = m
  prior_of (p ∷ rest) m = prior_of rest (JsMap.set m p.id p)

module _ (reals : Reals) (js : Engine) (frame : Frame reals) where
  open reals use {Real, literal, add, sub, remainder, lt, le}
  open frame use {scene, elapsed, dt, settings, paused}

  -- the participants of the current meeting
  abbrev pub meeting : Meeting
  meeting = meeting_participants reals js scene elapsed

  -- the condition under which a trip, wanted or not, is broken off
  abbrev pub turns_back : Bool → Journey → Real → Bool
  turns_back wanted journey phase_started =
      (is_outbound journey || is_visiting journey)
      && (not wanted || (is_visiting journey && lt (whole reals 9) (sub elapsed phase_started)))

  -- `if (!pausedIds.has(id))`
  unfoldable pub advance : String → OfficeMotion reals → OfficeMotion reals
  unfolding advance_motion
  advance id motion = if includes paused id then motion else advance_motion motion dt

  unfoldable pub reach : OfficeCharacterProjection reals → OfficeCharacterProjection reals
  reach actor =
      if is_outbound actor.journey
        && (is_empty actor.motion.route && is_standing actor.motion.posture)
      then record actor { journey = Journey.visiting; phase_started = elapsed }
      else actor
