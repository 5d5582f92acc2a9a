-- ===== src/Api/Provider/Operations/History.antt =====
-- The history of tasks and the audit of approvals, through any operations of the provider.
use mathlib.Core.List.{append_assoc, append-nil}
use virtual_office_sagara_ag.Prelude.{
  ◌≡◌, refl, sym, ap, ◌∙◌, String, Option, List, [], ◌∷◌, ◌++◌, ◌==◌, or_else, find, if_both,
  match_both,
}
use virtual_office_sagara_ag.Prelude.Pointwise.{
  Pointwise, Pointwise-refl, Pointwise-trans, Pointwise-update_first, Kept, Pointwise-Kept,
  Kept-trans,
}
use virtual_office_sagara_ag.Domain.Task.{TaskActivityEvent, TaskProjection}
use virtual_office_sagara_ag.Domain.Approval.{ApprovalAuditEntry, ApprovalProjection}
use virtual_office_sagara_ag.Api.Http.{Result}
use virtual_office_sagara_ag.Api.Provider.{ProviderState, Instant, Setting, is_mock}
use virtual_office_sagara_ag.Api.Provider.Tasks.{
  create_task, update_task, dispatch_task, delete_task, cancel_task,
}
use virtual_office_sagara_ag.Api.Provider.TaskChanges.{
  dispatched, merge_input, has_id, is_dispatched,
}
use virtual_office_sagara_ag.Api.Provider.Approvals.{
  approve_action, reject_action, decide_action, failing_id, has_approval_id,
}
use virtual_office_sagara_ag.Api.Provider.ApprovalChanges.{resumed, stopped, approved, rejected}
use virtual_office_sagara_ag.Api.Provider.Operations.{Operation, perform, perform_all}
use virtual_office_sagara_ag.Api.Provider.Operations.Kept.{Changes, perform-Kept}

-- The second list is the first with entries added at its end.
abbrev pub IsPrefix {ℓ} : {A : Type ℓ} → List A → List A → Type ℓ
IsPrefix xs ys = (added : List _) × (ys ≡ xs ++ added)

IsPrefix-refl {ℓ} : {A : Type ℓ} (xs : List A) → IsPrefix xs xs
IsPrefix-refl xs = ([], sym (append-nil xs))

IsPrefix-trans {ℓ} :
    {A : Type ℓ} (xs ys zs : List A) → IsPrefix xs ys → IsPrefix ys zs → IsPrefix xs zs
IsPrefix-trans xs ys zs (a, p) (b, q) = (a ++ b, q ∙ ap (λ l. l ++ b) p ∙ append_assoc xs a b)

abbrev pub events : TaskProjection → List TaskActivityEvent
events t = or_else t.timeline []

abbrev pub entries : ApprovalProjection → List ApprovalAuditEntry
entries a = or_else a.audit []

-- The same task later: its events stay, in order, and new ones stand behind them.
pub record Continues (t u : TaskProjection) : Type 0 where
  pub same_id : u.id ≡ t.id
  pub same_creation : u.created_at ≡ t.created_at
  pub history : IsPrefix (events t) (events u)

-- The same approval later.
pub record ContinuesApproval (a b : ApprovalProjection) : Type 0 where
  pub same_id : b.id ≡ a.id
  pub same_task : b.task_id ≡ a.task_id
  pub same_risk : b.risk ≡ a.risk
  pub history : IsPrefix (entries a) (entries b)

Continues-refl : (t : TaskProjection) → Continues t t
Continues-refl t = record {
  same_id = refl;
  same_creation = refl;
  history = IsPrefix-refl (events t);
}

Continues-trans : (t u v : TaskProjection) → Continues t u → Continues u v → Continues t v
Continues-trans t u v p q = record {
  same_id = q.same_id ∙ p.same_id;
  same_creation = q.same_creation ∙ p.same_creation;
  history = IsPrefix-trans (events t) (events u) (events v) p.history q.history;
}

resumed-Continues :
    (now : Instant) (id : String) (t : TaskProjection) → Continues t (resumed now id t)
unfolding resumed
resumed-Continues now id t =
    if_both (Continues t) _ (record { same_id = refl; same_creation = refl; history = (_, refl) })
      (Continues-refl t)

stopped-Continues :
    (now : Instant) (id : String) (reason : Option String) (t : TaskProjection)
    → Continues t (stopped now id reason t)
unfolding stopped
stopped-Continues now id reason t =
    if_both (Continues t) _ (record { same_id = refl; same_creation = refl; history = (_, refl) })
      (Continues-refl t)

Changes-Continues : (op : Operation) → Changes Continues op
unfolding merge_input dispatched
Changes-Continues (Operation.create now uuid input) = tt
Changes-Continues (Operation.update now id input) =
    λ t. record { same_id = refl; same_creation = refl; history = IsPrefix-refl (events t) }
Changes-Continues (Operation.dispatch now uuid id) =
    λ t free. record { same_id = refl; same_creation = refl; history = (_, refl) }
Changes-Continues (Operation.delete id) = tt
Changes-Continues (Operation.cancel id) = tt
Changes-Continues (Operation.approve now uuid id input) = resumed-Continues now id
Changes-Continues (Operation.reject now uuid id input) = stopped-Continues now id input.reason

ContinuesApproval-refl : (a : ApprovalProjection) → ContinuesApproval a a
ContinuesApproval-refl a = record {
  same_id = refl;
  same_task = refl;
  same_risk = refl;
  history = IsPrefix-refl (entries a);
}

ContinuesApproval-trans :
    (a b c : ApprovalProjection)
    → ContinuesApproval a b
    → ContinuesApproval b c
    → ContinuesApproval a c
ContinuesApproval-trans a b c p q = record {
  same_id = q.same_id ∙ p.same_id;
  same_task = q.same_task ∙ p.same_task;
  same_risk = q.same_risk ∙ p.same_risk;
  history = IsPrefix-trans (entries a) (entries b) (entries c) p.history q.history;
}

abbrev AllContinue : List ApprovalProjection → List ApprovalProjection → Type 0
AllContinue = Pointwise ContinuesApproval

module _ (setting : Setting) where
  open setting use {Json}

  abbrev KeepsApprovals {κ} : {A : Type κ} → ProviderState → ProviderState × Result Json A → Type 0
  KeepsApprovals st r = AllContinue st.approvals_state r.0.approvals_state

  unchanged : (st : ProviderState) → AllContinue st.approvals_state st.approvals_state
  unchanged st = Pointwise-refl ContinuesApproval ContinuesApproval-refl st.approvals_state

  decide_action-Continues :
      (f : ApprovalProjection → ApprovalProjection) (g : TaskProjection → TaskProjection)
      (id : String) (st : ProviderState)
      → ((a : ApprovalProjection) → ContinuesApproval a (f a))
      → KeepsApprovals st (decide_action setting f g id st)
  unfolding decide_action
  decide_action-Continues f g id st h =
      if_both (KeepsApprovals st) (id == failing_id) (unchanged st) (
        match_both (KeepsApprovals st) (find (has_approval_id id) st.approvals_state)
          (λ _. unchanged st)
          (λ a _.
            Pointwise-update_first ContinuesApproval ContinuesApproval-refl (has_approval_id id) f
              st.approvals_state (λ b _. h b)))

  perform-Continues :
      (op : Operation) (st : ProviderState)
      → AllContinue st.approvals_state (perform setting op st).0.approvals_state
  unfolding create_task update_task dispatch_task delete_task cancel_task approve_action
      reject_action approved rejected
  perform-Continues (Operation.create now uuid input) st =
      if_both (KeepsApprovals st) (is_mock setting) (unchanged st) (unchanged st)
  perform-Continues (Operation.update now id input) st =
      if_both (KeepsApprovals st) (is_mock setting)
        (match_both (KeepsApprovals st) (find (has_id id) st.tasks_state) (λ _. unchanged st)
          (λ t _. unchanged st))
        (unchanged st)
  perform-Continues (Operation.dispatch now uuid id) st =
      if_both (KeepsApprovals st) (is_mock setting)
        (match_both (KeepsApprovals st) (find (has_id id) st.tasks_state) (λ _. unchanged st)
          (λ t _.
            if_both (KeepsApprovals st) (is_dispatched t.state) (unchanged st) (unchanged st)))
        (unchanged st)
  perform-Continues (Operation.delete id) st =
      if_both (KeepsApprovals st) (is_mock setting) (unchanged st) (unchanged st)
  perform-Continues (Operation.cancel id) st =
      if_both (KeepsApprovals st) (is_mock setting) (unchanged st) (unchanged st)
  perform-Continues (Operation.approve now uuid id input) st =
      if_both (KeepsApprovals st) (is_mock setting)
        (decide_action-Continues _ (resumed now id) id st
          (λ a. record { same_id = refl; same_task = refl; same_risk = refl; history = (_, refl) }))
        (unchanged st)
  perform-Continues (Operation.reject now uuid id input) st =
      if_both (KeepsApprovals st) (is_mock setting)
        (decide_action-Continues _ (stopped now id input.reason) id st
          (λ a. record { same_id = refl; same_task = refl; same_risk = refl; history = (_, refl) }))
        (unchanged st)

  -- Through any operations, whatever they throw: every task keeps its place, its id, its creation and
  -- its events, new events stand behind them, and new tasks stand in front; every approval keeps its
  -- place, its id, its task, its risk and its audit, and new entries stand behind.
  pub perform_all-Continues :
      (ops : List Operation) (st : ProviderState)
      → Kept Continues st.tasks_state (perform_all setting ops st).tasks_state
        × Pointwise ContinuesApproval st.approvals_state
            (perform_all setting ops st).approvals_state
  unfolding perform_all
  perform_all-Continues [] st = (
    Pointwise-Kept Continues st.tasks_state st.tasks_state
        (Pointwise-refl Continues Continues-refl st.tasks_state),
    unchanged st,
  )
  perform_all-Continues (op ∷ rest) st =
      let next = (perform setting op st).0 in
      let later = perform_all-Continues rest (perform setting op st).0 in
      (
        Kept-trans Continues Continues-trans st.tasks_state next.tasks_state _
            (perform-Kept Continues Continues-refl setting op st (Changes-Continues op)) later.0,
        Pointwise-trans ContinuesApproval ContinuesApproval-trans st.approvals_state
            next.approvals_state _ (perform-Continues op st) later.1,
      )
