-- ===== src/Domain/Agent.antt =====
-- frontend/src/types/agent.ts, types/profile.ts and the usage record of types/governance.ts.
use virtual_office_sagara_ag.Prelude.{ℕ, String, Bool, true, false, Option, List}
use virtual_office_sagara_ag.Domain.Runtime.{DelegationState}

pub data AgentStatus : Type 0 where
  active idle recently_active awaiting_approval degraded error offline unknown : AgentStatus
  configuration_incomplete : AgentStatus

-- `state === 'ACTIVE'`
abbrev pub is_active : AgentStatus → Bool
is_active AgentStatus.active = true
is_active _ = false

pub data RuntimeConfidence : Type 0 where
  confirmed inferred stale unknown : RuntimeConfidence

pub data SkillHealthState : Type 0 where
  healthy degraded missing unknown requested execution_unknown observed_active : SkillHealthState

pub record AgentSkillEvidence : Type 0 where
  pub id : String
  pub name : String
  pub category : String
  pub health : SkillHealthState
  pub evidence : String
  pub description : Option String

pub data AgentSessionStatus : Type 0 where
  active completed idle : AgentSessionStatus

pub record AgentSessionItem : Type 0 where
  pub id : String
  pub source : String
  pub model : String
  pub started_at : String
  pub last_activity_at : String
  pub message_count : ℕ
  pub status : AgentSessionStatus

pub record AgentDelegationItem : Type 0 where
  pub id : String
  pub task_title : String
  pub worker_pid : Option String
  pub state : DelegationState
  pub started_at : String
  pub completed_at : Option String
  pub summary : Option String

pub data ConfigurationState : Type 0 where
  complete incomplete disabled : ConfigurationState

pub record ProfileDefinition : Type 0 where
  pub id : Option String
  pub name : String
  pub role : Option String
  pub description : Option String
  pub enabled : Bool
  pub memory_namespace : Option String
  pub allowed_skills : Option (List String)
  pub configuration_state : Option ConfigurationState
  pub category : Option String
  pub assigned_agents_count : Option ℕ
  pub tags : Option (List String)
  pub is_system : Option Bool

pub record AgentRuntime : Type 0 where
  pub state : AgentStatus
  pub confidence : RuntimeConfidence
  pub last_activity_at : Option String
  pub session_count : Option ℕ
  pub active_delegations : Option ℕ
  pub current_session_id : Option String
  pub current_task_id : Option String
  pub model : Option String
  pub current_activity : Option String

pub record AgentCapabilities : Type 0 where
  pub total : Option ℕ
  pub healthy : Option ℕ
  pub degraded : Option ℕ
  pub missing : Option ℕ

pub record UsageMetric : Type 0 where
  pub input_tokens : Option ℕ
  pub output_tokens : Option ℕ
  pub reasoning_tokens : Option ℕ
  pub cache_read_tokens : Option ℕ
  pub cache_write_tokens : Option ℕ
  pub api_calls : Option ℕ
  pub estimated_cost_usd : Option ℕ
  pub actual_cost_usd : Option ℕ

pub record AgentProjection : Type 0 where
  pub id : String
  pub definition : ProfileDefinition
  pub runtime : AgentRuntime
  pub capabilities : AgentCapabilities
  pub usage : Option UsageMetric
  pub skills : Option (List AgentSkillEvidence)
  pub sessions : Option (List AgentSessionItem)
  pub delegations : Option (List AgentDelegationItem)
