-- ===== src/Office/Types.antt =====
-- features/office/types/office.ts
use virtual_office_sagara_ag.Prelude.{ℕ, String, Bool, true, false, Option, List}
use virtual_office_sagara_ag.Domain.Agent.{AgentProjection}
use virtual_office_sagara_ag.Domain.Runtime.{
  DelegationProjection, DelegationState, GatewayState, RuntimeHealth,
}
use virtual_office_sagara_ag.Domain.Approval.{ApprovalProjection, ApprovalRisk}
use virtual_office_sagara_ag.Domain.Task.{TaskProjection, TaskArtifact, TaskState}

pub data OfficeZoneType : Type 0 where
  command specialist dev_zone career_zone marketing_zone collaboration approval : OfficeZoneType
  runtime vault : OfficeZoneType

-- `===` on zone types
abbrev pub is_zone : OfficeZoneType → OfficeZoneType → Bool
is_zone OfficeZoneType.command OfficeZoneType.command = true
is_zone OfficeZoneType.specialist OfficeZoneType.specialist = true
is_zone OfficeZoneType.dev_zone OfficeZoneType.dev_zone = true
is_zone OfficeZoneType.career_zone OfficeZoneType.career_zone = true
is_zone OfficeZoneType.marketing_zone OfficeZoneType.marketing_zone = true
is_zone OfficeZoneType.collaboration OfficeZoneType.collaboration = true
is_zone OfficeZoneType.approval OfficeZoneType.approval = true
is_zone OfficeZoneType.runtime OfficeZoneType.runtime = true
is_zone OfficeZoneType.vault OfficeZoneType.vault = true
is_zone _ _ = false

pub record Point : Type 0 where
  pub x : ℕ
  pub y : ℕ

pub record Bounds : Type 0 where
  pub x : ℕ
  pub y : ℕ
  pub width : ℕ
  pub height : ℕ

pub data Orientation : Type 0 where
  north south east west : Orientation

pub record DeskVisual : Type 0 where
  pub avatar_variant : String
  pub desk_variant : String

pub record OfficeDeskProjection : Type 0 where
  pub agent_id : String
  pub agent : AgentProjection
  pub zone : OfficeZoneType
  pub position : Point
  pub orientation : Orientation
  pub visual : DeskVisual
  pub current_task : Option TaskProjection
  pub active_delegations : List DelegationProjection

pub record OfficeWorkerProjection : Type 0 where
  pub id : String
  pub delegation_id : String
  pub parent_agent_id : String
  pub position : Point
  pub state : DelegationState
  pub task_title : String
  pub worker_pid : Option ℕ
  pub started_at : String

pub record OfficeZoneProjection : Type 0 where
  pub id : String
  pub name : String
  pub subtitle : Option String
  pub type : OfficeZoneType
  pub bounds : Bounds
  pub description : String
  pub agent_count : ℕ

pub record RiskCounts : Type 0 where
  pub critical : ℕ
  pub high : ℕ
  pub medium : ℕ
  pub low : ℕ

pub record OfficeApprovalProjection : Type 0 where
  pub pending_count : ℕ
  pub highest_risk : Option ApprovalRisk
  pub oldest_pending : Option ApprovalProjection
  pub items : List ApprovalProjection
  pub by_risk : RiskCounts

pub record HardwareMetrics : Type 0 where
  pub cpu_percent : Option ℕ
  pub memory_used_mb : Option ℕ
  pub memory_total_mb : Option ℕ
  pub memory_percent : Option ℕ

pub record OfficeRuntimeProjection : Type 0 where
  pub gateway_state : GatewayState
  pub active_sessions : ℕ
  pub active_delegations : ℕ
  pub health : RuntimeHealth
  pub host : String
  pub backend_id : String
  pub status_message : Option String
  pub heartbeat_age_seconds : ℕ
  pub hardware_metrics : Option HardwareMetrics

pub record OfficeVaultItem : Type 0 where
  pub task_id : String
  pub task_title : String
  pub completed_at : Option String
  pub assigned_agent_id : Option String
  pub artifacts : List TaskArtifact

pub record OfficeVaultProjection : Type 0 where
  pub total_artifacts : ℕ
  pub completed_tasks_with_artifacts : List OfficeVaultItem

pub record OfficeCollaborationItem : Type 0 where
  pub id : String
  pub task_title : String
  pub task_id : String
  pub agent_ids : List String
  pub delegations : List DelegationProjection
  pub state : TaskState

pub record OfficeSceneProjection : Type 0 where
  pub delegation_records : List DelegationProjection
  pub zones : List OfficeZoneProjection
  pub desks : List OfficeDeskProjection
  pub workers : List OfficeWorkerProjection
  pub approval_summary : OfficeApprovalProjection
  pub runtime_summary : OfficeRuntimeProjection
  pub vault_summary : OfficeVaultProjection
  pub collaboration_items : List OfficeCollaborationItem

pub record OfficeZoneConfig : Type 0 where
  pub id : String
  pub name : String
  pub subtitle : Option String
  pub type : OfficeZoneType
  pub bounds : Bounds
  pub description : String

pub record Assignment : Type 0 where
  pub agent_id : String
  pub preferred_zone : Option OfficeZoneType

pub record OfficePresentationConfig : Type 0 where
  pub version : ℕ
  pub zones : List OfficeZoneConfig
  pub assignments : Option (List Assignment)
