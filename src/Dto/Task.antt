-- ===== src/Dto/Task.antt =====
-- frontend/src/api/dto/task.dto.ts
use virtual_office_sagara_ag.Prelude.{ℕ, String, Option, List}
use virtual_office_sagara_ag.Mapper.Common.{Number}

pub record TaskProgressDto : Type 0 where
  pub completed : Option Number
  pub total : Option Number
  pub label : Option String

pub record TaskFailureDto : Type 0 where
  pub code : Option String
  pub message : Option String
  pub stage : Option String

-- A size is counted in whole bytes.
pub record TaskArtifactDto : Type 0 where
  pub id : String
  pub name : String
  pub media_type : Option String
  pub size_bytes : Option ℕ
  pub created_at : Option String

pub record TaskResultDto : Type 0 where
  pub summary : Option String
  pub artifact_count : Option Number
  pub completed_at : Option String
  pub artifacts : Option (List TaskArtifactDto)

pub record TaskActivityEventDto : Type 0 where
  pub id : String
  pub type : String
  pub timestamp : String
  pub actor : Option String
  pub detail : Option String

pub record TaskDto : Type 0 where
  pub id : String
  pub title : String
  pub description : Option String
  pub state : String
  pub priority : String
  pub created_at : String
  pub updated_at : Option String
  pub due_at : Option String
  pub assigned_agent_id : Option String
  pub requested_skills : Option (List String)
  pub capability_requirements : Option (List String)
  pub session_id : Option String
  pub delegation_ids : Option (List String)
  pub approval_ids : Option (List String)
  pub progress : Option TaskProgressDto
  pub failure : Option TaskFailureDto
  pub result : Option TaskResultDto
  pub timeline : Option (List TaskActivityEventDto)
  pub revision : Option Number
  pub version : Option Number
  pub task_class : Option String
  pub execution_policy : Option String
  pub execution_mode : Option String
  pub receipt_id : Option String
  pub correlation : Option String

pub record CreateTaskDto : Type 0 where
  pub title : String
  pub description : Option String
  pub priority : String
  pub state : Option String
  pub assigned_agent_id : Option String
  pub requested_skills : Option (List String)
  pub capability_requirements : Option (List String)
  pub due_at : Option String

pub record UpdateTaskDto : Type 0 where
  pub title : Option String
  pub description : Option String
  pub priority : Option String
  pub state : Option String
  pub assigned_agent_id : Option String
  pub requested_skills : Option (List String)
  pub capability_requirements : Option (List String)
  pub due_at : Option String
