-- ===== src/Office/Summaries.antt =====
-- office-layout-engine.ts: approvals, runtime, vault and collaboration of a scene.
use virtual_office_sagara_ag.Prelude.{
  ℕ, ◌+◌, String, Bool, true, ◌&&◌, Option, none, some, List, [], ◌∷◌, ◌++◌, map, ◌==◌,
  if◌then◌else◌, or_else, filter, length, includes, take, ltb, leb, truthy, or_text, append_text,
}
use virtual_office_sagara_ag.Prelude.Sort.{sort}
use virtual_office_sagara_ag.Engine.{Engine}
use virtual_office_sagara_ag.Domain.Approval.{
  ApprovalProjection, ApprovalRisk, is_pending, is_critical, is_high, is_medium, is_low,
}
use virtual_office_sagara_ag.Domain.Runtime.{
  DelegationProjection, RuntimeOverview, RuntimeHealth, GatewayState, GatewayTelemetry,
  SourceHealth, SystemLoadMetrics,
}
use virtual_office_sagara_ag.Domain.Task.{TaskProjection, TaskArtifact, TaskResult}
use virtual_office_sagara_ag.Office.Types.{
  RiskCounts, OfficeApprovalProjection, HardwareMetrics, OfficeRuntimeProjection, OfficeVaultItem,
  OfficeVaultProjection, OfficeCollaborationItem,
}

abbrev pub pending_approvals : List ApprovalProjection → List ApprovalProjection
pending_approvals approvals = filter (λ a. is_pending a.state) approvals

abbrev pub count_by_risk : List ApprovalProjection → RiskCounts
count_by_risk pending = record {
  critical = length (filter (λ a. is_critical a.risk) pending);
  high = length (filter (λ a. is_high a.risk) pending);
  medium = length (filter (λ a. is_medium a.risk) pending);
  low = length (filter (λ a. is_low a.risk) pending);
}

abbrev pub highest_risk : RiskCounts → Option ApprovalRisk
highest_risk by_risk =
    if ltb 0 by_risk.critical
    then some ApprovalRisk.critical
    else if ltb 0 by_risk.high
    then some ApprovalRisk.high
    else if ltb 0 by_risk.medium
    then some ApprovalRisk.medium
    else if ltb 0 by_risk.low
    then some ApprovalRisk.low
    else none

-- `getTime(a) - getTime(b) <= 0`; a difference that is NaN counts as equal
abbrev pub requested_le : Engine → ApprovalProjection → ApprovalProjection → Bool
requested_le js a b = elim (js.get_time a.requested_at) [
  | none ↦ true
  | some s ↦ elim (js.get_time b.requested_at) [ none ↦ true | some t ↦ leb s t ]
]

abbrev pub first {ℓ} : {A : Type ℓ} → List A → Option A
first [] = none
first (x ∷ xs) = some x

unfoldable pub approval_summary : Engine → List ApprovalProjection → OfficeApprovalProjection
approval_summary js approvals =
    let pending = pending_approvals approvals in
    record {
      pending_count = length pending;
      highest_risk = highest_risk (count_by_risk pending);
      oldest_pending = first (sort (requested_le js) pending);
      items = pending;
      by_risk = count_by_risk pending;
    }

abbrev pub healthy : RuntimeHealth
healthy = record {
  gateway = GatewayState.healthy;
  runtime_data = SourceHealth.healthy;
  sessions = SourceHealth.healthy;
  delegations = SourceHealth.healthy;
  usage = SourceHealth.healthy;
}

abbrev pub hardware_of : SystemLoadMetrics → HardwareMetrics
hardware_of load = record {
  cpu_percent = load.cpu_percent;
  memory_used_mb = load.memory_used_mb;
  memory_total_mb = load.memory_total_mb;
  memory_percent = load.memory_percent;
}

unfoldable pub runtime_summary :
    Option RuntimeOverview → List DelegationProjection → OfficeRuntimeProjection
runtime_summary none delegations = record {
  gateway_state = GatewayState.healthy;
  active_sessions = 0;
  active_delegations =
      length (filter (λ d. virtual_office_sagara_ag.Domain.Runtime.is_running d.state) delegations);
  health = healthy;
  host = "sagara-hermes-local";
  backend_id = "hermes-core-01";
  status_message = none;
  heartbeat_age_seconds = 8;
  hardware_metrics = none;
}
runtime_summary (some overview) delegations = record {
  gateway_state = overview.gateway.state;
  active_sessions = or_else overview.active_sessions_count 0;
  active_delegations = or_else overview.running_delegations_count (
      length
        (filter (λ d. virtual_office_sagara_ag.Domain.Runtime.is_running d.state) delegations));
  health = overview.health;
  host = or_text (some overview.gateway.host) "sagara-hermes-local";
  backend_id = or_text (some overview.gateway.backend_id) "hermes-core-01";
  status_message = overview.gateway.status_message;
  heartbeat_age_seconds = or_else overview.gateway.heartbeat_age_seconds 8;
  hardware_metrics = elim overview.system_load [
    | none ↦ none
    | some load ↦ some (hardware_of load)
  ];
}

-- `t.result?.artifacts`, without what is missing
abbrev pub artifacts_of : TaskProjection → List TaskArtifact
artifacts_of t = elim t.result [ none ↦ [] | some r ↦ or_else r.artifacts [] ]

abbrev pub completed_at_of : Option TaskResult → Option String
completed_at_of none = none
completed_at_of (some r) = r.completed_at

abbrev pub vault_item : TaskProjection → OfficeVaultItem
vault_item t = record {
  task_id = t.id;
  task_title = t.title;
  completed_at =
      if truthy (completed_at_of t.result) then completed_at_of t.result else t.updated_at;
  assigned_agent_id = t.assigned_agent_id;
  artifacts = artifacts_of t;
}

unfoldable pub count_artifacts : List OfficeVaultItem → ℕ → ℕ
count_artifacts [] acc = acc
count_artifacts (t ∷ rest) acc = count_artifacts rest (acc + length t.artifacts)

unfoldable pub vault_summary : List TaskProjection → OfficeVaultProjection
unfolding count_artifacts
vault_summary tasks =
    let items = map vault_item (filter (λ t. ltb 0 (length (artifacts_of t))) tasks) in
    record { total_artifacts = count_artifacts items 0; completed_tasks_with_artifacts = items }

-- `t.delegationIds?.includes(d.id) && d.state === 'RUNNING'`
abbrev pub works_on : TaskProjection → DelegationProjection → Bool
works_on t d =
    includes (or_else t.delegation_ids []) d.id
    && virtual_office_sagara_ag.Domain.Runtime.is_running d.state

-- `taskDelegations.forEach((d) => …)`
unfoldable pub push_origins : List DelegationProjection → List String → List String
push_origins [] agent_ids = agent_ids
push_origins (d ∷ rest) agent_ids = push_origins rest (
    if includes agent_ids d.origin_agent_id then agent_ids else agent_ids ++ d.origin_agent_id ∷ [])

abbrev pub assigned_list : Option String → List String
assigned_list none = []
assigned_list (some id) = if id == "" then [] else id ∷ []

unfoldable pub collaboration_item :
    List DelegationProjection → TaskProjection → OfficeCollaborationItem
unfolding push_origins
collaboration_item delegations t =
    let task_delegations = filter (works_on t) delegations in
    record {
      id = append_text "collab-" t.id;
      task_title = t.title;
      task_id = t.id;
      agent_ids = push_origins task_delegations (assigned_list t.assigned_agent_id);
      delegations = task_delegations;
      state = t.state;
    }

abbrev pub is_shared : OfficeCollaborationItem → Bool
is_shared item = ltb 1 (length item.agent_ids + length item.delegations)

unfoldable pub collaboration_items :
    List TaskProjection → List DelegationProjection → List OfficeCollaborationItem
unfolding collaboration_item
collaboration_items tasks delegations = take 3 (
    filter is_shared (
      map (collaboration_item delegations)
        (filter (λ t. virtual_office_sagara_ag.Domain.Task.is_running t.state) tasks)))
