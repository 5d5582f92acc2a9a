-- ===== src/Api/Provider/ApprovalFilters.antt =====
-- frontend/src/api/provider.ts: the filters of `getApprovals`.
use virtual_office_sagara_ag.Prelude.{
  String, Bool, false, ◌||◌, Option, none, some, List, ◌==◌, if◌then◌else◌, filter,
}
use virtual_office_sagara_ag.Prelude.Texts.{text_includes}
use virtual_office_sagara_ag.Engine.{Engine}
use virtual_office_sagara_ag.Domain.Approval.{
  ApprovalState, ApprovalRisk, ApprovalActionType, ApprovalProjection, ApprovalQuery,
}
use virtual_office_sagara_ag.Mapper.Approval.{spell_approval_state, spell_risk, spell_action_type}
use virtual_office_sagara_ag.Api.Provider.TaskFilters.{optional_includes}

abbrev pub matches_approval : Engine → String → ApprovalProjection → Bool
matches_approval js q a =
    text_includes (js.to_lower_case a.id) q
    || (text_includes (js.to_lower_case a.title) q
        || (optional_includes js a.description q
            || (elim a.target [ none ↦ false | some t ↦ optional_includes js t.label q ]
                || (optional_includes js a.agent_id q || optional_includes js a.task_id q))))

-- The filters of `getApprovals`, one after the other.
unfoldable pub by_search :
    Engine → Option String → List ApprovalProjection → List ApprovalProjection
by_search js none approvals = approvals
by_search js (some text) approvals =
    if text == "" then approvals else filter (matches_approval js (js.to_lower_case text)) approvals

unfoldable pub by_risk :
    Option (Option ApprovalRisk) → List ApprovalProjection → List ApprovalProjection
by_risk none approvals = approvals
by_risk (some none) approvals = approvals
by_risk (some (some risk)) approvals = filter (λ a. spell_risk a.risk == spell_risk risk) approvals

unfoldable pub by_action_type :
    Option (Option ApprovalActionType) → List ApprovalProjection → List ApprovalProjection
by_action_type none approvals = approvals
by_action_type (some none) approvals = approvals
by_action_type (some (some type)) approvals =
    filter (λ a. spell_action_type a.action_type == spell_action_type type) approvals

unfoldable pub by_approval_state :
    Option (Option ApprovalState) → List ApprovalProjection → List ApprovalProjection
by_approval_state none approvals = approvals
by_approval_state (some none) approvals = approvals
by_approval_state (some (some state)) approvals =
    filter (λ a. spell_approval_state a.state == spell_approval_state state) approvals

unfoldable pub filter_approvals :
    Engine → Option ApprovalQuery → List ApprovalProjection → List ApprovalProjection
unfolding by_search by_risk by_action_type by_approval_state
filter_approvals js none approvals = approvals
filter_approvals js (some q) approvals =
    by_approval_state q.state
      (by_action_type q.action_type (by_risk q.risk (by_search js q.search approvals)))
