-- ===== src/Api/Provider/Decisions.antt =====
-- What the mock mode shows after an approval is decided.
use virtual_office_sagara_ag.Prelude.{
  ◌≡◌, ◌≢◌, refl, ap, ◌∙◌, String, true, false, Option, some, ◌==◌, arith, true→eq, ne→false,
}
use virtual_office_sagara_ag.Prelude.Pointwise.{find-update_first, find-update_first_ne}
use virtual_office_sagara_ag.Domain.Task.{TaskState, TaskProjection, is_awaiting_approval}
use virtual_office_sagara_ag.Domain.Approval.{
  ApprovalState, ApprovalProjection, ApprovalDecisionInput,
}
use virtual_office_sagara_ag.Api.Http.{Result}
use virtual_office_sagara_ag.Api.Provider.{ProviderState, Instant, Setting, is_mock}
use virtual_office_sagara_ag.Api.Provider.Approvals.{
  approve_action, reject_action, decide_action, has_approval_id, failing_id, reason_of,
}
use virtual_office_sagara_ag.Api.Provider.ApprovalChanges.{approved, rejected, resumed, stopped}
use virtual_office_sagara_ag.Api.Provider.TaskMoves.{
  update_related-TaskMoves, TaskMoves, approval_at, task_at,
}

-- The task of the approval, if there is one: where it waited for an approval it is in another state,
-- else it is as it was. Every other task is as it was.
resumed-moves :
    (now : Instant) (id : String) (t : TaskProjection)
    → t.state ≡ TaskState.awaiting_approval
    → (resumed now id t).state ≡ TaskState.running
unfolding resumed
resumed-moves now id t h = ground arith

stopped-moves :
    (now : Instant) (id : String) (reason : Option String) (t : TaskProjection)
    → t.state ≡ TaskState.awaiting_approval
    → (stopped now id reason t).state ≡ TaskState.blocked
unfolding stopped
stopped-moves now id reason t h = ground arith

resumed-stays :
    (now : Instant) (id : String) (t : TaskProjection)
    → is_awaiting_approval t.state ≡ false
    → resumed now id t ≡ t
unfolding resumed
resumed-stays now id t h = rw h refl

stopped-stays :
    (now : Instant) (id : String) (reason : Option String) (t : TaskProjection)
    → is_awaiting_approval t.state ≡ false
    → stopped now id reason t ≡ t
unfolding stopped
stopped-stays now id reason t h = rw h refl

resumed-id : (now : Instant) (id : String) (t : TaskProjection) → (resumed now id t).id ≡ t.id
unfolding resumed
resumed-id now id t = ground arith

stopped-id :
    (now : Instant) (id : String) (reason : Option String) (t : TaskProjection)
    → (stopped now id reason t).id ≡ t.id
unfolding stopped
stopped-id now id reason t = ground arith

-- The approval with the id is decided, and is what the caller gets; another approval is as it was, and
-- the tasks move.
pub record IsDecided {J : Type 0} (state : ApprovalState) (task_state : TaskState) (id : String)
    (a : ApprovalProjection) (before after : ProviderState) (result : Result J ApprovalProjection)
    : Type 0 where
  pub decision :
      (b : ApprovalProjection) × (result ≡ Result.ok b)
      × (approval_at after.approvals_state id ≡ some b)
      × (b.state ≡ state)
      × (b.task_id ≡ a.task_id)
  pub others :
      (other : String)
      → other ≢ id
      → approval_at after.approvals_state other ≡ approval_at before.approvals_state other
  pub tasks :
      TaskMoves task_state a.task_id (task_at before.tasks_state) (task_at after.tasks_state)

module _ (setting : Setting) (state : ApprovalState) (task_state : TaskState)
    (f : ApprovalProjection → ApprovalProjection) (g : TaskProjection → TaskProjection)
    (keeps_id : (a : ApprovalProjection) → (f a).id ≡ a.id)
    (keeps_task : (a : ApprovalProjection) → (f a).task_id ≡ a.task_id)
    (decides : (a : ApprovalProjection) → (f a).state ≡ state)
    (keeps : (t : TaskProjection) → (g t).id ≡ t.id)
    (moves : (t : TaskProjection)
      → t.state ≡ TaskState.awaiting_approval
      → (g t).state ≡ task_state)
    (stays : (t : TaskProjection) → is_awaiting_approval t.state ≡ false → g t ≡ t) where
  decide_action-IsDecided :
      (id : String) (a : ApprovalProjection) (st : ProviderState)
      → id ≢ failing_id
      → approval_at st.approvals_state id ≡ some a
      → IsDecided state task_state id a st
          (decide_action setting f g id st).0
          (decide_action setting f g id st).1
  unfolding decide_action
  decide_action-IsDecided id a st ne found =
      rw (ne→false id failing_id ne, found)
        (record {
          decision = (
            f a,
            refl,
            find-update_first (has_approval_id id) f (λ b. ap (λ s. s == id) (keeps_id b))
                  st.approvals_state
                ∙ (rw found refl),
            decides a,
            keeps_task a,
          );
          others = λ other apart.
              find-update_first_ne (has_approval_id id) (has_approval_id other) f
                (λ b e. ne→false b.id other (λ e'. apart (cc (true→eq b.id id e))))
                (λ b. ap (λ s. s == other) (keeps_id b)) st.approvals_state;
          tasks = update_related-TaskMoves g keeps task_state moves stays a.task_id st.tasks_state;
        })

module _ (setting : Setting) (now : Instant) (uuid id : String) (a : ApprovalProjection)
    (st : ProviderState) where
  approve_action-IsDecided :
      (input : Option ApprovalDecisionInput)
      → is_mock setting ≡ true
      → id ≢ failing_id
      → approval_at st.approvals_state id ≡ some a
      → IsDecided ApprovalState.approved TaskState.running id a st
          (approve_action setting now uuid id input st).0
          (approve_action setting now uuid id input st).1
  unfolding approve_action approved
  approve_action-IsDecided input mock ne found = rw mock (
      decide_action-IsDecided setting ApprovalState.approved TaskState.running
        (approved now (reason_of input)) (resumed now id) (λ b. refl) (λ b. refl) (λ b. refl)
        (resumed-id now id) (resumed-moves now id) (resumed-stays now id) id a st ne found)

  reject_action-IsDecided :
      (input : ApprovalDecisionInput)
      → is_mock setting ≡ true
      → id ≢ failing_id
      → approval_at st.approvals_state id ≡ some a
      → IsDecided ApprovalState.rejected TaskState.blocked id a st
          (reject_action setting now uuid id input st).0
          (reject_action setting now uuid id input st).1
  unfolding reject_action rejected
  reject_action-IsDecided input mock ne found = rw mock (
      decide_action-IsDecided setting ApprovalState.rejected TaskState.blocked
        (rejected now input.reason) (stopped now id input.reason) (λ b. refl) (λ b. refl)
        (λ b. refl) (stopped-id now id input.reason) (stopped-moves now id input.reason)
        (stopped-stays now id input.reason) id a st ne found)

  -- In mock mode, where an approval has the id and the id is not the one that is made to fail: it is
  -- approved after `approveAction`, and a task of it that waited for an approval is running; it is
  -- rejected after `rejectAction`, and a task of it that waited for an approval is blocked. Every other
  -- approval and every other task is as it was.
  pub decisions-IsDecided :
      (note : Option ApprovalDecisionInput) (input : ApprovalDecisionInput)
      → is_mock setting ≡ true
      → id ≢ failing_id
      → approval_at st.approvals_state id ≡ some a
      → IsDecided ApprovalState.approved TaskState.running id a st
          (approve_action setting now uuid id note st).0
          (approve_action setting now uuid id note st).1
        × IsDecided ApprovalState.rejected TaskState.blocked id a st
            (reject_action setting now uuid id input st).0
            (reject_action setting now uuid id input st).1
  decisions-IsDecided note input mock ne found =
      (approve_action-IsDecided note mock ne found, reject_action-IsDecided input mock ne found)
