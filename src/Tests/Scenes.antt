-- ===== src/Tests/Scenes.antt =====
-- Scenes at concrete inputs.
use virtual_office_sagara_ag.Prelude.{
  ◌≡◌, refl, String, true, ◌==◌, if◌then◌else◌, none, some, List, [], ◌∷◌, filter, length, any,
  take, All,
}
use virtual_office_sagara_ag.Prelude.JsMap
use virtual_office_sagara_ag.Domain.Runtime.{DelegationState}
use virtual_office_sagara_ag.Domain.Approval.{
  ApprovalProjection, ApprovalState, ApprovalRisk, ApprovalActionType,
}
use virtual_office_sagara_ag.Domain.Task.{TaskProjection, TaskState, TaskPriority}
use virtual_office_sagara_ag.Office.Types.{
  OfficeCollaborationItem, OfficeZoneType, OfficeZoneConfig,
}
use virtual_office_sagara_ag.Office.Work.{active_tasks_by_agent}
use virtual_office_sagara_ag.Office.Summaries.{approval_summary, collaboration_items}
use virtual_office_sagara_ag.Office.Scene.{BuildOfficeSceneParams, build_office_scene}
use virtual_office_sagara_ag.Office.Placement.Sums.{sum}
use virtual_office_sagara_ag.Office.Placement.Seats.{
  at_desk, desks_in, sum-build_office_scene, agent_count-build_office_scene,
}
use virtual_office_sagara_ag.Office.Placement.Workers.{by_delegation, workers-build_office_scene}
use virtual_office_sagara_ag.Office.Approvals.Risks.{
  waiting, of_risk, has_risk, IsHighest, approval_summary-risks,
}
use virtual_office_sagara_ag.Office.Approvals.Tasks.{
  IsFit, is_at_running, runs_for, active_tasks_by_agent-IsFit,
}
use virtual_office_sagara_ag.Office.Approvals.Shared.{Groups, collaboration_items-IsGroup}
use virtual_office_sagara_ag.Tests.Samples.{plain, agent, delegation}

abbrev pub approval : (id requested_at : String) → ApprovalRisk → ApprovalProjection
approval id requested_at risk = record {
  id = id;
  state = ApprovalState.pending;
  risk = risk;
  action_type = ApprovalActionType.execute_code;
  title = id;
  description = none;
  reason_required = none;
  task_id = none;
  agent_id = none;
  session_id = none;
  requested_at = requested_at;
  expires_at = none;
  target = none;
  preview = none;
  decision = none;
  audit = none;
  revision = none;
  version = none;
}

abbrev approvals : List ApprovalProjection
approvals =
    approval "second" "ten" ApprovalRisk.low ∷ approval "first" "nine" ApprovalRisk.high ∷ []

abbrev pub task : (id : String) → TaskState → TaskProjection
task id state = record {
  id = id;
  title = id;
  description = none;
  state = state;
  priority = TaskPriority.low;
  created_at = "nine";
  updated_at = none;
  due_at = none;
  assigned_agent_id = some "lead";
  requested_skills = none;
  capability_requirements = none;
  session_id = none;
  delegation_ids = some ("d1" ∷ []);
  approval_ids = none;
  progress = none;
  failure = none;
  result = none;
  timeline = none;
  revision = none;
  version = none;
  task_class = none;
  execution_policy = none;
  execution_mode = none;
  receipt_id = none;
  correlation = none;
}

abbrev tasks : List TaskProjection
tasks = task "t1" TaskState.running ∷ task "t2" TaskState.queued ∷ []

abbrev zone : (id : String) → OfficeZoneType → OfficeZoneConfig
zone id type = record {
  id = id;
  name = id;
  subtitle = none;
  type = type;
  bounds = record { x = 40; y = 40; width = 320; height = 305 };
  description = id;
}

abbrev zones : List OfficeZoneConfig
zones =
    zone "command" OfficeZoneType.command
    ∷ zone "dev" OfficeZoneType.dev_zone
    ∷ zone "marketing" OfficeZoneType.marketing_zone
    ∷ []

abbrev pub params : BuildOfficeSceneParams
params = record {
  agents = agent "scout" "Scout" ∷ agent "lead" "lead" ∷ agent "growth" "growth" ∷ [];
  delegations =
      delegation "d1" "lead" DelegationState.running
      ∷ delegation "d2" "scout" DelegationState.completed
      ∷ delegation "d3" "stranger" DelegationState.queued
      ∷ [];
  approvals = approvals;
  runtime_overview = none;
  tasks = tasks;
  config = record { version = 2; zones = zones; assignments = none };
}

sum-build_office_scene_example :
    sum (at_desk (λ a. if a.id == "lead" then 1 else 0)) (build_office_scene plain params).desks ≡ 1
sum-build_office_scene_example =
    sum-build_office_scene plain params (λ a. if a.id == "lead" then 1 else 0)
      (refl, (refl, (refl, tt)))

agent_count-build_office_scene_example :
    All
      (λ z. z.agent_count ≡ length (desks_in z.type (build_office_scene plain params).desks))
      (build_office_scene plain params).zones
agent_count-build_office_scene_example = agent_count-build_office_scene plain params

workers-build_office_scene_example :
    length (filter (by_delegation (λ id. true)) (build_office_scene plain params).workers) ≡ 1
workers-build_office_scene_example =
    workers-build_office_scene plain params (λ id. true) (refl, (refl, (refl, tt)))

-- A critical approval was rejected; of the pending ones, one is high.
abbrev mixed : List ApprovalProjection
mixed =
    record (approval "gone" "eight" ApprovalRisk.critical) { state = ApprovalState.rejected }
    ∷ approvals

approval_summary-risks_example :
    (length (filter (λ a. a.id == "first") (approval_summary plain mixed).items)
      ≡ waiting (λ a. a.id == "first") mixed)
    × ((approval_summary plain mixed).pending_count ≡ waiting (λ a. true) mixed)
    × (of_risk (approval_summary plain mixed).by_risk ApprovalRisk.high
        ≡ waiting (has_risk ApprovalRisk.high) mixed)
    × IsHighest
        (λ s. waiting (has_risk s) mixed)
        ApprovalRisk.high
        (approval_summary plain mixed).highest_risk
approval_summary-risks_example =
    approval_summary-risks plain mixed (λ a. a.id == "first") ApprovalRisk.high

active_tasks_by_agent-IsFit_example :
    IsFit "lead" (JsMap.get (active_tasks_by_agent tasks []) "lead")
    × (any (runs_for "lead") tasks ≡ true
        → is_at_running (JsMap.get (active_tasks_by_agent tasks []) "lead") ≡ true)
active_tasks_by_agent-IsFit_example = active_tasks_by_agent-IsFit "lead" tasks refl

collaboration_items-IsGroup_example :
    (items : List OfficeCollaborationItem) × Groups params.delegations tasks items
    × (collaboration_items tasks params.delegations ≡ take 3 items)
collaboration_items-IsGroup_example = collaboration_items-IsGroup params.delegations tasks
