-- ===== src/Dto/Approval.antt =====
-- frontend/src/api/dto/approval.dto.ts
use virtual_office_sagara_ag.Prelude.{String, Option, List}
use virtual_office_sagara_ag.Mapper.Common.{Number}
use virtual_office_sagara_ag.Domain.Approval.{ReasonRequired}

pub record ApprovalTargetDto : Type 0 where
  pub type : Option String
  pub label : Option String

pub record ApprovalPreviewDto : Type 0 where
  pub summary : Option String
  pub fields : Option (List (String × String))
  pub sensitive_fields : Option (List String)

pub record ApprovalDecisionDto : Type 0 where
  pub decided_at : Option String
  pub decision_maker : Option String
  pub reason : Option String

pub record ApprovalAuditEntryDto : Type 0 where
  pub stage : String
  pub timestamp : String
  pub actor : Option String
  pub note : Option String

pub record ApprovalDto : Type 0 where
  pub id : String
  pub state : String
  pub risk : String
  pub action_type : String
  pub title : String
  pub description : Option String
  pub reason_required : Option ReasonRequired
  pub task_id : Option String
  pub agent_id : Option String
  pub session_id : Option String
  pub requested_at : String
  pub expires_at : Option String
  pub target : Option ApprovalTargetDto
  pub preview : Option ApprovalPreviewDto
  pub decision : Option ApprovalDecisionDto
  pub audit : Option (List ApprovalAuditEntryDto)
  pub revision : Option Number
  pub version : Option Number

pub record ApprovalDecisionInputDto : Type 0 where
  pub reason : Option String
