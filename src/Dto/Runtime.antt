-- ===== src/Dto/Runtime.antt =====
-- frontend/src/api/dto/runtime.dto.ts: delegations
use virtual_office_sagara_ag.Prelude.{String, Option, List}
use virtual_office_sagara_ag.Mapper.Common.{Number}

pub record DelegationTimelineEventDto : Type 0 where
  pub stage : String
  pub timestamp : String
  pub details : Option String

pub record DelegationDto : Type 0 where
  pub id : String
  pub task_title : String
  pub task_description : Option String
  pub origin_agent_id : String
  pub origin_agent_name : Option String
  pub origin_session_id : String
  pub parent_session_id : Option String
  pub state : String
  pub owner_pid : Option Number
  pub delivery_state : Option String
  pub started_at : String
  pub updated_at : String
  pub completed_at : Option String
  pub result_summary : Option String
  pub timeline : Option (List DelegationTimelineEventDto)
