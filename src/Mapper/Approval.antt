-- ===== src/Mapper/Approval.antt =====
-- frontend/src/api/mappers/approval.mapper.ts
use mathlib.Core.Option
use virtual_office_sagara_ag.Prelude.{String, some, [], ◌∷◌, map, or_some}
use virtual_office_sagara_ag.Engine.{Engine}
use virtual_office_sagara_ag.Domain.Approval.{
  ApprovalState, ApprovalRisk, ApprovalActionType, ApprovalTarget, ApprovalPreview,
  ApprovalDecision, ApprovalAuditEntry, ApprovalProjection, ApprovalDecisionInput,
}
use virtual_office_sagara_ag.Dto.Approval.{
  ApprovalTargetDto, ApprovalPreviewDto, ApprovalDecisionDto, ApprovalAuditEntryDto, ApprovalDto,
  ApprovalDecisionInputDto,
}
use virtual_office_sagara_ag.Mapper.Common.{Spellings, map_unknown_enum, preserve_number}

abbrev pub allowed_approval_states : Spellings ApprovalState
allowed_approval_states =
    ("PENDING", ApprovalState.pending)
    ∷ ("APPROVED", ApprovalState.approved)
    ∷ ("REJECTED", ApprovalState.rejected)
    ∷ ("EXPIRED", ApprovalState.expired)
    ∷ ("CANCELLED", ApprovalState.cancelled)
    ∷ ("FAILED", ApprovalState.failed)
    ∷ []

abbrev pub allowed_approval_risks : Spellings ApprovalRisk
allowed_approval_risks =
    ("LOW", ApprovalRisk.low)
    ∷ ("MEDIUM", ApprovalRisk.medium)
    ∷ ("HIGH", ApprovalRisk.high)
    ∷ ("CRITICAL", ApprovalRisk.critical)
    ∷ []

abbrev pub allowed_action_types : Spellings ApprovalActionType
allowed_action_types =
    ("SEND_EMAIL", ApprovalActionType.send_email)
    ∷ ("POST_CONTENT", ApprovalActionType.post_content)
    ∷ ("WRITE_EXTERNAL", ApprovalActionType.write_external)
    ∷ ("DELETE_EXTERNAL", ApprovalActionType.delete_external)
    ∷ ("EXECUTE_CODE", ApprovalActionType.execute_code)
    ∷ ("INFRASTRUCTURE_CHANGE", ApprovalActionType.infrastructure_change)
    ∷ ("FINANCIAL_ACTION", ApprovalActionType.financial_action)
    ∷ ("OTHER", ApprovalActionType.other)
    ∷ []

-- A value of the union is its own spelling in JavaScript.
unfoldable pub spell_approval_state : ApprovalState → String
spell_approval_state ApprovalState.pending = "PENDING"
spell_approval_state ApprovalState.approved = "APPROVED"
spell_approval_state ApprovalState.rejected = "REJECTED"
spell_approval_state ApprovalState.expired = "EXPIRED"
spell_approval_state ApprovalState.cancelled = "CANCELLED"
spell_approval_state ApprovalState.failed = "FAILED"

unfoldable pub spell_risk : ApprovalRisk → String
spell_risk ApprovalRisk.low = "LOW"
spell_risk ApprovalRisk.medium = "MEDIUM"
spell_risk ApprovalRisk.high = "HIGH"
spell_risk ApprovalRisk.critical = "CRITICAL"

unfoldable pub spell_action_type : ApprovalActionType → String
spell_action_type ApprovalActionType.send_email = "SEND_EMAIL"
spell_action_type ApprovalActionType.post_content = "POST_CONTENT"
spell_action_type ApprovalActionType.write_external = "WRITE_EXTERNAL"
spell_action_type ApprovalActionType.delete_external = "DELETE_EXTERNAL"
spell_action_type ApprovalActionType.execute_code = "EXECUTE_CODE"
spell_action_type ApprovalActionType.infrastructure_change = "INFRASTRUCTURE_CHANGE"
spell_action_type ApprovalActionType.financial_action = "FINANCIAL_ACTION"
spell_action_type ApprovalActionType.other = "OTHER"

map_target : ApprovalTargetDto → ApprovalTarget
map_target t = record { type = t.type; label = t.label }

map_preview : ApprovalPreviewDto → ApprovalPreview
map_preview p = record {
  summary = p.summary;
  fields = p.fields;
  sensitive_fields = p.sensitive_fields;
}

map_decision : ApprovalDecisionDto → ApprovalDecision
map_decision d = record {
  decided_at = d.decided_at;
  decision_maker = d.decision_maker;
  reason = d.reason;
}

map_audit_entry : ApprovalAuditEntryDto → ApprovalAuditEntry
map_audit_entry a = record {
  stage = a.stage;
  timestamp = a.timestamp;
  actor = a.actor;
  note = a.note;
}

-- `mapApprovalDtoToDomain`
unfoldable pub map_approval_dto_to_domain : Engine → ApprovalDto → ApprovalProjection
unfolding map_target map_preview map_decision map_audit_entry
map_approval_dto_to_domain js dto = record {
  id = dto.id;
  state = map_unknown_enum js (some dto.state) allowed_approval_states ApprovalState.pending;
  risk = map_unknown_enum js (some dto.risk) allowed_approval_risks ApprovalRisk.medium;
  action_type =
      map_unknown_enum js (some dto.action_type) allowed_action_types ApprovalActionType.other;
  title = dto.title;
  description = dto.description;
  reason_required = dto.reason_required;
  task_id = dto.task_id;
  agent_id = dto.agent_id;
  session_id = dto.session_id;
  requested_at = dto.requested_at;
  expires_at = dto.expires_at;
  target = Option.map map_target dto.target;
  preview = Option.map map_preview dto.preview;
  decision = Option.map map_decision dto.decision;
  audit = Option.map (map map_audit_entry) dto.audit;
  revision = preserve_number (or_some dto.revision dto.version);
  version = preserve_number (or_some dto.version dto.revision);
}

-- `mapApprovalDecisionToDto`
unfoldable pub map_approval_decision_input_to_dto : ApprovalDecisionInput → ApprovalDecisionInputDto
map_approval_decision_input_to_dto input = record { reason = input.reason }
