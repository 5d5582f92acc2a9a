-- ===== src/Domain/Runtime.antt =====
-- frontend/src/types/runtime.ts: gateway, delegations and the runtime overview.
use virtual_office_sagara_ag.Prelude.{ℕ, String, Bool, true, false, Option, List}

pub data GatewayState : Type 0 where
  healthy stale degraded offline unknown : GatewayState

pub record GatewayTelemetry : Type 0 where
  pub state : GatewayState
  pub backend_id : String
  pub pid : Option ℕ
  pub host : String
  pub started_at : Option String
  pub last_heartbeat : Option String
  pub last_heartbeat_at : Option String
  pub heartbeat_age_seconds : Option ℕ
  pub restart_count : Option ℕ
  pub status_message : Option String

pub data DelegationState : Type 0 where
  queued claimed running completed failed cancelled unknown : DelegationState

-- `state === 'RUNNING'`
abbrev pub is_running : DelegationState → Bool
is_running DelegationState.running = true
is_running _ = false

pub data DeliveryState : Type 0 where
  pending delivered acknowledged failed unknown : DeliveryState

pub record DelegationTimelineEvent : Type 0 where
  pub stage : String
  pub timestamp : String
  pub details : Option String

pub record DelegationProjection : Type 0 where
  pub id : String
  pub task_title : String
  pub task_description : Option String
  pub origin_agent_id : String
  pub origin_agent_name : String
  pub origin_session_id : String
  pub parent_session_id : Option String
  pub state : DelegationState
  pub owner_pid : Option ℕ
  pub delivery_state : Option DeliveryState
  pub started_at : String
  pub updated_at : String
  pub completed_at : Option String
  pub result_summary : Option String
  pub timeline : List DelegationTimelineEvent

-- 'HEALTHY' | 'DEGRADED' | 'UNKNOWN' of the overview's health block
pub data SourceHealth : Type 0 where
  healthy degraded unknown : SourceHealth

pub record RuntimeHealth : Type 0 where
  pub gateway : GatewayState
  pub runtime_data : SourceHealth
  pub sessions : SourceHealth
  pub delegations : SourceHealth
  pub usage : SourceHealth

pub record SystemLoadMetrics : Type 0 where
  pub cpu_percent : Option ℕ
  pub memory_used_mb : Option ℕ
  pub memory_total_mb : Option ℕ
  pub memory_percent : Option ℕ

-- The overview's fields that the office scene and the realtime cache read or write; the event feed
-- is carried by its event ids.
pub record RuntimeOverview : Type 0 where
  pub health : RuntimeHealth
  pub gateway : GatewayTelemetry
  pub active_sessions_count : Option ℕ
  pub running_delegations_count : Option ℕ
  pub recent_events : List String
  pub system_load : Option SystemLoadMetrics
