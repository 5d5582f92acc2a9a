-- ===== src/Api/Provider/Operations/Failures.antt =====
-- An operation of the provider that throws: what it throws, and what it leaves behind.
use virtual_office_sagara_ag.Prelude.{
  ◌≡◌, refl, String, Bool, Option, none, some, ◌==◌, find, if_both, match_both,
}
use virtual_office_sagara_ag.Domain.Task.{CreateTaskInput, UpdateTaskInput, TaskProjection}
use virtual_office_sagara_ag.Domain.Approval.{ApprovalDecisionInput, ApprovalProjection}
use virtual_office_sagara_ag.Api.Http.{Thrown, Failure, Result}
use virtual_office_sagara_ag.Api.Provider.{
  ProviderState, Instant, Setting, is_mock, finish, finish_done, handle_api_error,
}
use virtual_office_sagara_ag.Api.Provider.Tasks.{
  create_task, update_task, dispatch_task, delete_task, cancel_task,
}
use virtual_office_sagara_ag.Api.Provider.TaskChanges.{is_dispatched, has_id}
use virtual_office_sagara_ag.Api.Provider.Approvals.{
  approve_action, reject_action, decide_action, failing_id, has_approval_id,
}
use virtual_office_sagara_ag.Api.Provider.Operations.{Operation, perform, ended}

-- The exception is an `ApiError`.
abbrev pub IsApiError {ℓ} : {J : Type ℓ} → Thrown J → Type 0
IsApiError (Thrown.api_error e) = Unit
IsApiError (Thrown.other f) = ⊥

module _ (setting : Setting) where
  open setting use {Json}

  -- Where the result is an exception, it is an `ApiError`, and the state is the one before.
  abbrev Fails {κ} : {A : Type κ} → ProviderState → ProviderState × Result Json A → Type 0
  Fails st (st', Result.ok a) = Unit
  Fails st (st', Result.thrown e) = (st' ≡ st) × IsApiError e

  handle_api_error-Fails {κ} :
      (A : Type κ) (st : ProviderState) (e : Thrown Json)
      → Fails st (st, handle_api_error setting {A = A} e)
  unfolding handle_api_error
  handle_api_error-Fails A st (Thrown.api_error e) = (refl, tt)
  handle_api_error-Fails A st (Thrown.other f) = (refl, tt)

  finish-Fails {ℓ κ} :
      {D : Type ℓ} {A : Type κ} (as_dto : Json → Option D) (mapper : D → A)
      (answer : Result Json (Option Json)) (st : ProviderState)
      → Fails st (st, finish setting as_dto mapper answer)
  unfolding finish
  finish-Fails {A} as_dto mapper (Result.thrown e) st = handle_api_error-Fails A st e
  finish-Fails {A} as_dto mapper (Result.ok none) st =
      handle_api_error-Fails A st (Thrown.other (Failure.failure "TypeError"))
  finish-Fails {A} as_dto mapper (Result.ok (some j)) st =
      match_both (λ r. Fails {A = A} st (st, r)) (as_dto j)
        (λ _. handle_api_error-Fails A st (Thrown.other (Failure.failure "TypeError")))
        (λ dto _. tt)

  finish_done-Fails :
      (answer : Result Json (Option Json)) (st : ProviderState)
      → Fails st (st, finish_done setting answer)
  unfolding finish_done
  finish_done-Fails (Result.thrown e) st = handle_api_error-Fails Bool st e
  finish_done-Fails (Result.ok j) st = tt

  create_task-Fails :
      (now : Instant) (uuid : String) (input : CreateTaskInput) (st : ProviderState)
      → Fails st (create_task setting now uuid input st)
  unfolding create_task
  create_task-Fails now uuid input st =
      if_both (Fails st) (is_mock setting) tt (finish-Fails setting.as_task _ _ st)

  delete_task-Fails : (id : String) (st : ProviderState) → Fails st (delete_task setting id st)
  unfolding delete_task
  delete_task-Fails id st =
      if_both (Fails st) (is_mock setting) tt (finish-Fails setting.as_success _ _ st)

  cancel_task-Fails : (id : String) (st : ProviderState) → Fails st (cancel_task setting id st)
  unfolding cancel_task
  cancel_task-Fails id st = if_both (Fails st) (is_mock setting) tt (finish_done-Fails _ st)

  update_task-Fails :
      (now : Instant) (id : String) (input : UpdateTaskInput) (st : ProviderState)
      → Fails st (update_task setting now id input st)
  unfolding update_task
  update_task-Fails now id input st =
      if_both (Fails st) (is_mock setting)
        (match_both (Fails st) (find (has_id id) st.tasks_state) (λ _. (refl, tt)) (λ t _. tt))
        (finish-Fails setting.as_task _ _ st)

  dispatch_task-Fails :
      (now : Instant) (uuid id : String) (st : ProviderState)
      → Fails st (dispatch_task setting now uuid id st)
  unfolding dispatch_task
  dispatch_task-Fails now uuid id st =
      if_both (Fails st) (is_mock setting)
        (match_both (Fails st) (find (has_id id) st.tasks_state) (λ _. (refl, tt))
          (λ t _. if_both (Fails st) (is_dispatched t.state) (refl, tt) tt))
        (finish-Fails setting.as_task _ _ st)

  decide_action-Fails :
      (f : ApprovalProjection → ApprovalProjection) (g : TaskProjection → TaskProjection)
      (id : String) (st : ProviderState)
      → Fails st (decide_action setting f g id st)
  unfolding decide_action
  decide_action-Fails f g id st =
      if_both (Fails st) (id == failing_id) (refl, tt)
        (match_both (Fails st) (find (has_approval_id id) st.approvals_state) (λ _. (refl, tt))
          (λ a _. tt))

  approve_action-Fails :
      (now : Instant) (uuid id : String) (input : Option ApprovalDecisionInput) (st : ProviderState)
      → Fails st (approve_action setting now uuid id input st)
  unfolding approve_action
  approve_action-Fails now uuid id input st =
      if_both (Fails st) (is_mock setting) (decide_action-Fails _ _ id st)
        (finish-Fails setting.as_approval _ _ st)

  reject_action-Fails :
      (now : Instant) (uuid id : String) (input : ApprovalDecisionInput) (st : ProviderState)
      → Fails st (reject_action setting now uuid id input st)
  unfolding reject_action
  reject_action-Fails now uuid id input st =
      if_both (Fails st) (is_mock setting) (decide_action-Fails _ _ id st)
        (finish-Fails setting.as_approval _ _ st)

  fails {κ} :
      {A : Type κ} (st : ProviderState) (r : ProviderState × Result Json A) (e : Thrown Json)
      → Fails st r
      → (ended r).1 ≡ some e
      → ((ended r).0 ≡ st) × IsApiError e
  fails st (st', Result.ok a) e h thrown = cc
  fails st (st', Result.thrown (Thrown.api_error a)) (Thrown.api_error b) h thrown = (h.0, tt)
  fails st (st', Result.thrown (Thrown.api_error a)) (Thrown.other f) h thrown = cc
  fails st (st', Result.thrown (Thrown.other f)) e h thrown = absurd h.1

  -- An operation that throws throws an `ApiError`, in either mode and whatever the server answers, and
  -- leaves tasks and approvals as they were.
  pub perform-error :
      (op : Operation) (st : ProviderState) (e : Thrown Json)
      → (perform setting op st).1 ≡ some e
      → ((perform setting op st).0 ≡ st) × IsApiError e
  perform-error (Operation.create now uuid input) st e =
      fails st _ e (create_task-Fails now uuid input st)
  perform-error (Operation.update now id input) st e =
      fails st _ e (update_task-Fails now id input st)
  perform-error (Operation.dispatch now uuid id) st e =
      fails st _ e (dispatch_task-Fails now uuid id st)
  perform-error (Operation.delete id) st e = fails st _ e (delete_task-Fails id st)
  perform-error (Operation.cancel id) st e = fails st _ e (cancel_task-Fails id st)
  perform-error (Operation.approve now uuid id input) st e =
      fails st _ e (approve_action-Fails now uuid id input st)
  perform-error (Operation.reject now uuid id input) st e =
      fails st _ e (reject_action-Fails now uuid id input st)
