-- ===== src/Api/Provider/Approvals.antt =====
-- frontend/src/api/provider.ts: the operations on approvals.
use mathlib.Core.Option
use virtual_office_sagara_ag.Prelude.{
  String, Bool, Option, none, some, List, [], ◌∷◌, map, ◌==◌, if◌then◌else◌, find, update_first,
  append_text,
}
use virtual_office_sagara_ag.Domain.Task.{TaskProjection}
use virtual_office_sagara_ag.Domain.Approval.{
  ApprovalProjection, ApprovalDecisionInput, ApprovalQuery,
}
use virtual_office_sagara_ag.Mapper.Approval.{
  spell_approval_state, spell_risk, spell_action_type, map_approval_dto_to_domain,
  map_approval_decision_input_to_dto,
}
use virtual_office_sagara_ag.Api.Client.{get_options, post_options}
use virtual_office_sagara_ag.Api.Http.{Result}
use virtual_office_sagara_ag.Api.Provider.{
  ProviderState, Instant, Sent, Setting, is_mock_mode, refuse, call, finish, finish_or_null,
  is_mock,
}
use virtual_office_sagara_ag.Api.Provider.Tasks.{not_found}
use virtual_office_sagara_ag.Api.Provider.TaskFilters.{spell_all}
use virtual_office_sagara_ag.Api.Provider.ApprovalChanges.{
  approved, rejected, resumed, stopped, update_related,
}
use virtual_office_sagara_ag.Api.Provider.ApprovalFilters.{filter_approvals}

abbrev pub has_approval_id : String → ApprovalProjection → Bool
has_approval_id id a = a.id == id

-- `input?.reason`
abbrev pub reason_of : Option ApprovalDecisionInput → Option String
reason_of none = none
reason_of (some input) = input.reason

abbrev pub approval_path : String → String
approval_path id = append_text "/api/v1/approvals/" id

-- the id with which the mock mode shows a failure
abbrev pub failing_id : String
failing_id = "appr-08"

module _ (setting : Setting) where
  open setting use {js, Json}

  unfoldable pub get_approvals :
      Option ApprovalQuery → ProviderState → ProviderState × Result Json (List ApprovalProjection)
  unfolding filter_approvals finish is_mock_mode
  get_approvals filters st =
      if is_mock setting
      then (st, Result.ok (filter_approvals js filters st.approvals_state))
      else let params = elim filters as (λ _. Option (List (String × Option String))) [
        | none ↦ none
        | some q ↦ some (
            ("risk", elim q.risk [ none ↦ none | some r ↦ spell_all (Option.map spell_risk r) ])
            ∷ (
              "actionType",
              elim q.action_type [
                | none ↦ none
                | some t ↦ spell_all (Option.map spell_action_type t)
              ],
            )
            ∷ (
              "state",
              elim q.state [ none ↦ none | some s ↦ spell_all (Option.map spell_approval_state s) ],
            )
            ∷ ("search", q.search)
            ∷ [])
      ] in
        (
          st,
          finish setting setting.as_approvals (map (map_approval_dto_to_domain js))
              (call setting "/api/v1/approvals" (get_options params)),
        )

  unfoldable pub get_approval_by_id :
      String → ProviderState → ProviderState × Result Json (Option ApprovalProjection)
  unfolding finish_or_null is_mock_mode
  get_approval_by_id id st =
      if is_mock setting then (st, Result.ok (find (has_approval_id id) st.approvals_state)) else (
        st,
        finish_or_null setting setting.as_approval (map_approval_dto_to_domain js)
            (call setting (approval_path id) (get_options none)),
      )

  -- The part that `approveAction` and `rejectAction` have in common in mock mode: `f` decides the
  -- approval, `g` updates the task that it is about.
  unfoldable pub decide_action :
      (ApprovalProjection → ApprovalProjection)
      → (TaskProjection → TaskProjection)
      → String
      → ProviderState
      → ProviderState × Result Json ApprovalProjection
  unfolding update_related
  decide_action f g id st =
      if id == failing_id
      then (st, refuse setting 500 "Decision was not confirmed. No approval state was changed.")
      else elim (find (has_approval_id id) st.approvals_state) [
        | none ↦ (st, refuse setting 404 (not_found "Approval" id))
        | some current ↦ (
          record st {
            approvals_state = update_first (has_approval_id id) f st.approvals_state;
            tasks_state = update_related g current.task_id st.tasks_state;
          },
          Result.ok (f current),
        )
      ]

  unfoldable pub approve_action :
      Instant
      → (uuid : String) → String
      → Option ApprovalDecisionInput
      → ProviderState
      → ProviderState × Result Json ApprovalProjection
  unfolding decide_action approved resumed finish is_mock_mode
  approve_action now uuid id input st =
      if is_mock setting
      then decide_action (approved now (reason_of input)) (resumed now id) id st
      else (
        st,
        finish setting setting.as_approval (map_approval_dto_to_domain js) (
            call setting (append_text (approval_path id) "/approve") (
              post_options
                (some (elim input [
                  | none ↦ Sent.empty_object
                  | some i ↦ Sent.decision_body (map_approval_decision_input_to_dto i)
                ]))
                (("Idempotency-Key", uuid) ∷ []))),
      )

  unfoldable pub reject_action :
      Instant
      → (uuid : String) → String
      → ApprovalDecisionInput
      → ProviderState
      → ProviderState × Result Json ApprovalProjection
  unfolding decide_action rejected stopped finish is_mock_mode
  reject_action now uuid id input st =
      if is_mock setting
      then decide_action (rejected now input.reason) (stopped now id input.reason) id st
      else (
        st,
        finish setting setting.as_approval (map_approval_dto_to_domain js) (
            call setting (append_text (approval_path id) "/reject") (
              post_options (some (Sent.decision_body (map_approval_decision_input_to_dto input)))
                (("Idempotency-Key", uuid) ∷ []))),
      )
