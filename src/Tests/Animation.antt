-- ===== src/Tests/Animation.antt =====
-- The animation at concrete inputs.
use virtual_office_sagara_ag.Prelude.{
  ℕ, ◌+◌, ◌≡◌, refl, String, true, false, none, some, List, [], ◌∷◌, ltb, leb, if◌then◌else◌,
}
use virtual_office_sagara_ag.Prelude.JsMap
use virtual_office_sagara_ag.Prelude.JsMap.{Map}
use virtual_office_sagara_ag.Domain.Agent.{AgentStatus}
use virtual_office_sagara_ag.Domain.Runtime.{DelegationState}
use virtual_office_sagara_ag.Domain.Approval.{ApprovalRisk}
use virtual_office_sagara_ag.Domain.Task.{TaskState}
use virtual_office_sagara_ag.Office.Types.{OfficeWorkerProjection}
use virtual_office_sagara_ag.Office.Scene.{build_office_scene}
use virtual_office_sagara_ag.Office.Animation.Reals.{Reals, Position}
use virtual_office_sagara_ag.Office.Animation.Behavior.{
  OfficeBehaviorState, AnimationQuality, BehaviorInput, is_blocked, resolve_office_behavior,
}
use virtual_office_sagara_ag.Office.Animation.Honesty.{Fits, resolve_office_behavior-Fits}
use virtual_office_sagara_ag.Office.Animation.Navigation.{create_motion, chair_position}
use virtual_office_sagara_ag.Office.Animation.Controller.{
  Journey, OfficeCharacterProjection, Frame, worker_key, advance,
}
use virtual_office_sagara_ag.Office.Animation.Controller.Workers.{step_worker}
use virtual_office_sagara_ag.Office.Animation.Controller.Step.{step_office_characters}
use virtual_office_sagara_ag.Office.Animation.Controller.Roster.{
  IsRoster, step_office_characters-IsRoster,
}
use virtual_office_sagara_ag.Office.Animation.Controller.Stuck.{step_worker-IsStuck}
use virtual_office_sagara_ag.Tests.Samples.{plain, agent}
use virtual_office_sagara_ag.Tests.Scenes.{approval, task, params}

-- Numbers without fractions.
abbrev whole_numbers : Reals
whole_numbers = record {
  Real = ℕ;
  literal = λ n d. n;
  add = λ a b. a + b;
  sub = λ a b. a;
  mul = λ a b. a;
  div = λ a b. a;
  remainder = λ a b. a;
  min = λ a b. if leb a b then a else b;
  max = λ a b. if leb a b then b else a;
  hypot = λ a b. a + b;
  lt = ltb;
  le = leb;
  floor_text = λ a. "0";
}

abbrev blocked_input : BehaviorInput whole_numbers
blocked_input = record {
  agent = agent "lead" "lead";
  task = some (task "t1" TaskState.running);
  delegations = [];
  approvals = record (approval "a1" "nine" ApprovalRisk.high) { task_id = some "t1" } ∷ [];
  collaborating = true;
  elapsed_seconds = 7;
}

resolve_office_behavior-Fits_example :
    Fits (resolve_office_behavior plain blocked_input) AgentStatus.active (is_blocked blocked_input)
resolve_office_behavior-Fits_example = resolve_office_behavior-Fits plain blocked_input

abbrev frame : Frame whole_numbers
frame = record {
  scene = build_office_scene plain params;
  elapsed = 100;
  dt = 1;
  settings = record { quality = AnimationQuality.full; reduced_motion = false };
  paused = [];
}

abbrev worker : (id parent : String) → DelegationState → OfficeWorkerProjection
worker id parent state = record {
  id = id;
  delegation_id = id;
  parent_agent_id = parent;
  position = record { x = 100; y = 100 };
  state = state;
  task_title = id;
  worker_pid = none;
  started_at = "nine";
}

abbrev corner : Position whole_numbers
corner = record { x = 100; y = 100 }

abbrev character : OfficeWorkerProjection → Journey → OfficeCharacterProjection whole_numbers
character w journey = record {
  id = worker_key w.delegation_id;
  agent_id = w.parent_agent_id;
  desk = none;
  worker = some w;
  desk_position = corner;
  motion = create_motion corner true;
  behavior = OfficeBehaviorState.work_typing;
  journey = journey;
  phase_started = 0;
  next_trip_after = 0;
}

-- The delegation `d2` has ended, and its worker is still shown.
abbrev previous : List (OfficeCharacterProjection whole_numbers)
previous = character (worker "d2" "scout" DelegationState.running) Journey.home ∷ []

step_office_characters-IsRoster_example :
    IsRoster whole_numbers plain frame previous
      (step_office_characters whole_numbers plain frame previous)
step_office_characters-IsRoster_example =
    step_office_characters-IsRoster whole_numbers plain frame previous

-- The delegation `d1` runs again while its character leaves.
abbrev again : OfficeWorkerProjection
again = worker "d1" "lead" DelegationState.running

abbrev prior : Map (OfficeCharacterProjection whole_numbers)
prior = ("worker:d1", character again Journey.leaving) ∷ []

step_worker-IsStuck_example :
    ((step_worker whole_numbers plain frame prior again).journey ≡ Journey.leaving)
    × ((step_worker whole_numbers plain frame prior again).motion ≡ (
        if frame.settings.reduced_motion
        then create_motion
            (chair_position whole_numbers (character again Journey.leaving).desk_position)
            true
        else advance whole_numbers plain frame
            (worker_key again.delegation_id)
            (character again Journey.leaving).motion))
unfolding JsMap.get
step_worker-IsStuck_example =
    step_worker-IsStuck whole_numbers plain frame prior again (character again Journey.leaving) refl
      refl
