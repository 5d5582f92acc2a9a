-- ===== src/Dto/Agent.antt =====
-- frontend/src/api/dto/agent.dto.ts
use virtual_office_sagara_ag.Prelude.{ℕ, String, Bool, Option, List}
use virtual_office_sagara_ag.Mapper.Common.{Number}

-- `id` is no field of the interface; the mapper reads it all the same.
pub record AgentDefinitionDto : Type 0 where
  pub id : Option String
  pub name : String
  pub role : Option String
  pub description : Option String
  pub enabled : Bool
  pub memory_namespace : Option String
  pub configuration_state : Option String

pub record AgentRuntimeDto : Type 0 where
  pub state : String
  pub confidence : String
  pub last_activity_at : Option String
  pub session_count : Option Number
  pub active_delegations : Option Number
  pub current_session_id : Option String
  pub current_task_id : Option String
  pub model : Option String
  pub current_activity : Option String

pub record AgentCapabilitiesDto : Type 0 where
  pub total : Option Number
  pub healthy : Option Number
  pub degraded : Option Number
  pub missing : Option Number

pub record AgentUsageDto : Type 0 where
  pub input_tokens : Option Number
  pub output_tokens : Option Number
  pub cache_read_tokens : Option Number
  pub cache_write_tokens : Option Number
  pub reasoning_tokens : Option Number
  pub api_calls : Option Number
  pub estimated_cost_usd : Option Number
  pub actual_cost_usd : Option Number

pub record AgentSkillEvidenceDto : Type 0 where
  pub id : String
  pub name : String
  pub category : String
  pub health : String
  pub evidence : String
  pub description : Option String

pub record AgentSessionItemDto : Type 0 where
  pub id : String
  pub source : String
  pub model : String
  pub started_at : String
  pub last_activity_at : String
  pub message_count : ℕ
  pub status : String

pub record AgentDelegationItemDto : Type 0 where
  pub id : String
  pub task_title : String
  pub worker_pid : Option String
  pub state : String
  pub started_at : String
  pub completed_at : Option String
  pub summary : Option String

pub record AgentDto : Type 0 where
  pub id : String
  pub definition : AgentDefinitionDto
  pub runtime : AgentRuntimeDto
  pub capabilities : AgentCapabilitiesDto
  pub usage : Option AgentUsageDto
  pub skills : Option (List AgentSkillEvidenceDto)
  pub sessions : Option (List AgentSessionItemDto)
  pub delegations : Option (List AgentDelegationItemDto)
