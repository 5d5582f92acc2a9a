-- ===== src/Api/Provider/Operations/Kept.antt =====
-- What every operation of the provider does to the list of tasks: each task stays in its place, unchanged
-- or as one of four functions makes it, behind a task that is created.
use virtual_office_sagara_ag.Prelude.{
  ◌≡◌, inr, String, false, Option, none, some, List, ◌==◌, find, update_first, if_both, if_cases,
  match_both,
}
use virtual_office_sagara_ag.Prelude.Pointwise.{
  Pointwise-refl, Pointwise-update_first, Kept, Pointwise-Kept,
}
use virtual_office_sagara_ag.Domain.Task.{TaskProjection}
use virtual_office_sagara_ag.Domain.Approval.{ApprovalProjection}
use virtual_office_sagara_ag.Api.Http.{Result}
use virtual_office_sagara_ag.Api.Provider.{ProviderState, Instant, Setting, is_mock}
use virtual_office_sagara_ag.Api.Provider.Tasks.{
  create_task, update_task, dispatch_task, delete_task, cancel_task,
}
use virtual_office_sagara_ag.Api.Provider.TaskChanges.{
  is_dispatched, merge_input, dispatched, has_id,
}
use virtual_office_sagara_ag.Api.Provider.Approvals.{
  approve_action, reject_action, decide_action, failing_id, has_approval_id,
}
use virtual_office_sagara_ag.Api.Provider.ApprovalChanges.{resumed, stopped, update_related}
use virtual_office_sagara_ag.Api.Provider.Operations.{Operation, perform}

module _ (R : TaskProjection → TaskProjection → Type 0) where
  -- `R` relates a task to what the operation makes of it.
  abbrev pub Changes : Operation → Type 0
  Changes (Operation.create now uuid input) = Unit
  Changes (Operation.update now id input) = (t : TaskProjection) → R t (merge_input now input t)
  Changes (Operation.dispatch now uuid id) =
      (t : TaskProjection) → is_dispatched t.state ≡ false → R t (dispatched now t)
  Changes (Operation.delete id) = Unit
  Changes (Operation.cancel id) = Unit
  Changes (Operation.approve now uuid id input) = (t : TaskProjection) → R t (resumed now id t)
  Changes (Operation.reject now uuid id input) =
      (t : TaskProjection) → R t (stopped now id input.reason t)

  module _ (same : (t : TaskProjection) → R t t) (setting : Setting) where
    open setting use {Json}

    abbrev KeepsTasks {κ} : {A : Type κ} → ProviderState → ProviderState × Result Json A → Type 0
    KeepsTasks st r = Kept R st.tasks_state r.0.tasks_state

    unchanged : (tasks : List TaskProjection) → Kept R tasks tasks
    unchanged tasks = Pointwise-Kept R tasks tasks (Pointwise-refl R same tasks)

    first_updated :
        (id : String) (f : TaskProjection → TaskProjection) (tasks : List TaskProjection)
        → ((t : TaskProjection) → find (has_id id) tasks ≡ some t → R t (f t))
        → Kept R tasks (update_first (has_id id) f tasks)
    first_updated id f tasks h =
        Pointwise-Kept R tasks _ (Pointwise-update_first R same (has_id id) f tasks h)

    update_related-Kept :
        (f : TaskProjection → TaskProjection) (id : Option String) (tasks : List TaskProjection)
        → ((t : TaskProjection) → R t (f t))
        → Kept R tasks (update_related f id tasks)
    unfolding update_related
    update_related-Kept f none tasks h = unchanged tasks
    update_related-Kept f (some id) tasks h =
        if_both (Kept R tasks) (id == "") (unchanged tasks) (first_updated id f tasks (λ t _. h t))

    decide_action-Kept :
        (f : ApprovalProjection → ApprovalProjection) (g : TaskProjection → TaskProjection)
        (id : String) (st : ProviderState)
        → ((t : TaskProjection) → R t (g t))
        → KeepsTasks st (decide_action setting f g id st)
    unfolding decide_action
    decide_action-Kept f g id st h =
        if_both (KeepsTasks st) (id == failing_id) (unchanged st.tasks_state) (
          match_both (KeepsTasks st) (find (has_approval_id id) st.approvals_state)
            (λ _. unchanged st.tasks_state)
            (λ a _. update_related-Kept g a.task_id st.tasks_state h))

    dispatch_task-Kept :
        (now : Instant) (uuid id : String) (st : ProviderState)
        → ((t : TaskProjection) → is_dispatched t.state ≡ false → R t (dispatched now t))
        → KeepsTasks st (dispatch_task setting now uuid id st)
    unfolding dispatch_task
    dispatch_task-Kept now uuid id st h =
        if_both (KeepsTasks st) (is_mock setting)
          (match_both (KeepsTasks st) (find (has_id id) st.tasks_state)
            (λ _. unchanged st.tasks_state)
            (λ t found.
              if_cases (KeepsTasks st) (is_dispatched t.state) (λ _. unchanged st.tasks_state)
                (λ free.
                  first_updated id (dispatched now) st.tasks_state
                    (λ u found'. let e : t ≡ u = cc in rw (← e) (h t free)))))
          (unchanged st.tasks_state)

    pub perform-Kept :
        (op : Operation) (st : ProviderState)
        → Changes op
        → Kept R st.tasks_state (perform setting op st).0.tasks_state
    unfolding create_task update_task delete_task cancel_task approve_action reject_action
    perform-Kept (Operation.create now uuid input) st h =
        if_both (KeepsTasks st) (is_mock setting) (inr (unchanged st.tasks_state))
          (unchanged st.tasks_state)
    perform-Kept (Operation.update now id input) st h =
        if_both (KeepsTasks st) (is_mock setting)
          (match_both (KeepsTasks st) (find (has_id id) st.tasks_state)
            (λ _. unchanged st.tasks_state)
            (λ t _. first_updated id (merge_input now input) st.tasks_state (λ t _. h t)))
          (unchanged st.tasks_state)
    perform-Kept (Operation.dispatch now uuid id) st h = dispatch_task-Kept now uuid id st h
    perform-Kept (Operation.delete id) st h =
        if_both (KeepsTasks st) (is_mock setting) (unchanged st.tasks_state)
          (unchanged st.tasks_state)
    perform-Kept (Operation.cancel id) st h =
        if_both (KeepsTasks st) (is_mock setting) (unchanged st.tasks_state)
          (unchanged st.tasks_state)
    perform-Kept (Operation.approve now uuid id input) st h =
        if_both (KeepsTasks st) (is_mock setting) (decide_action-Kept _ (resumed now id) id st h)
          (unchanged st.tasks_state)
    perform-Kept (Operation.reject now uuid id input) st h =
        if_both (KeepsTasks st) (is_mock setting)
          (decide_action-Kept _ (stopped now id input.reason) id st h) (unchanged st.tasks_state)
