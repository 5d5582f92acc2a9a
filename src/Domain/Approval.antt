-- ===== src/Domain/Approval.antt =====
-- frontend/src/types/approval.ts
use virtual_office_sagara_ag.Prelude.{ℕ, String, Bool, true, false, Option, List}

pub data ApprovalState : Type 0 where
  pending approved rejected expired cancelled failed : ApprovalState

-- `state === 'PENDING'`
abbrev pub is_pending : ApprovalState → Bool
is_pending ApprovalState.pending = true
is_pending _ = false

pub data ApprovalRisk : Type 0 where
  low medium high critical : ApprovalRisk

abbrev pub is_critical : ApprovalRisk → Bool
is_critical ApprovalRisk.critical = true
is_critical _ = false

abbrev pub is_high : ApprovalRisk → Bool
is_high ApprovalRisk.high = true
is_high _ = false

abbrev pub is_medium : ApprovalRisk → Bool
is_medium ApprovalRisk.medium = true
is_medium _ = false

abbrev pub is_low : ApprovalRisk → Bool
is_low ApprovalRisk.low = true
is_low _ = false

pub data ApprovalActionType : Type 0 where
  send_email post_content write_external delete_external execute_code : ApprovalActionType
  infrastructure_change financial_action other : ApprovalActionType

pub record ApprovalTarget : Type 0 where
  pub type : Option String
  pub label : Option String

pub record ApprovalPreview : Type 0 where
  pub summary : Option String
  pub fields : Option (List (String × String))
  pub sensitive_fields : Option (List String)

pub record ApprovalDecision : Type 0 where
  pub decided_at : Option String
  pub decision_maker : Option String
  pub reason : Option String

pub record ApprovalAuditEntry : Type 0 where
  pub stage : String
  pub timestamp : String
  pub actor : Option String
  pub note : Option String

-- `boolean | string` of `reasonRequired`
pub data ReasonRequired : Type 0 where
  flag : Bool → ReasonRequired
  text : String → ReasonRequired

pub record ApprovalProjection : Type 0 where
  pub id : String
  pub state : ApprovalState
  pub risk : ApprovalRisk
  pub action_type : ApprovalActionType
  pub title : String
  pub description : Option String
  pub reason_required : Option ReasonRequired
  pub task_id : Option String
  pub agent_id : Option String
  pub session_id : Option String
  pub requested_at : String
  pub expires_at : Option String
  pub target : Option ApprovalTarget
  pub preview : Option ApprovalPreview
  pub decision : Option ApprovalDecision
  pub audit : Option (List ApprovalAuditEntry)
  pub revision : Option ℕ
  pub version : Option ℕ

pub record ApprovalDecisionInput : Type 0 where
  pub reason : Option String

-- `some none` is `'ALL'`.
pub record ApprovalQuery : Type 0 where
  pub risk : Option (Option ApprovalRisk)
  pub action_type : Option (Option ApprovalActionType)
  pub state : Option (Option ApprovalState)
  pub search : Option String
