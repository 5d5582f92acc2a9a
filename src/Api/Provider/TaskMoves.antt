-- ===== src/Api/Provider/TaskMoves.antt =====
-- The task of an approval that is decided.
use virtual_office_sagara_ag.Prelude.{
  ◌≡◌, ◌≢◌, refl, ap, ◌∙◌, String, false, Option, none, some, List, ◌==◌, find, update_first,
  if_cases, true→eq, ne→false, false→ne, Bool-cases, inl, inr,
}
use virtual_office_sagara_ag.Prelude.Pointwise.{find-update_first, find-update_first_ne}
use virtual_office_sagara_ag.Domain.Task.{TaskState, TaskProjection, is_awaiting_approval}
use virtual_office_sagara_ag.Domain.Approval.{ApprovalProjection}
use virtual_office_sagara_ag.Api.Provider.TaskChanges.{has_id}
use virtual_office_sagara_ag.Api.Provider.Approvals.{has_approval_id}
use virtual_office_sagara_ag.Api.Provider.ApprovalChanges.{update_related}

pub record TaskMoves (state : TaskState) (related : Option String)
    (before after : String → Option TaskProjection) : Type 0 where
  pub waiting :
      (id : String) (t : TaskProjection)
      → related ≡ some id
      → id ≢ ""
      → before id ≡ some t
      → t.state ≡ TaskState.awaiting_approval
      → (u : TaskProjection) × (after id ≡ some u) × (u.state ≡ state)
  pub settled :
      (id : String) (t : TaskProjection)
      → before id ≡ some t
      → t.state ≢ TaskState.awaiting_approval
      → after id ≡ some t
  pub unrelated : (id : String) → related ≢ some id → after id ≡ before id

abbrev pub task_at : List TaskProjection → String → Option TaskProjection
task_at tasks id = find (has_id id) tasks

abbrev pub approval_at : List ApprovalProjection → String → Option ApprovalProjection
approval_at approvals id = find (has_approval_id id) approvals

pub not_awaiting :
    (s : TaskState) → s ≢ TaskState.awaiting_approval → is_awaiting_approval s ≡ false
not_awaiting TaskState.awaiting_approval h = absurd (h refl)
not_awaiting TaskState.draft h = refl
not_awaiting TaskState.ready h = refl
not_awaiting TaskState.queued h = refl
not_awaiting TaskState.dispatching h = refl
not_awaiting TaskState.running h = refl
not_awaiting TaskState.blocked h = refl
not_awaiting TaskState.completed h = refl
not_awaiting TaskState.failed h = refl
not_awaiting TaskState.cancelled h = refl

module _ (f : TaskProjection → TaskProjection)
    (keeps : (t : TaskProjection) → (f t).id ≡ t.id) where
  pub at_related :
      (id : String) (tasks : List TaskProjection)
      → task_at (update_first (has_id id) f tasks) id
        ≡ elim (task_at tasks id) [ none ↦ none | some t ↦ some (f t) ]
  at_related id tasks = find-update_first (has_id id) f (λ t. ap (λ s. s == id) (keeps t)) tasks

  pub at_other :
      (id other : String) (tasks : List TaskProjection)
      → id ≢ other
      → task_at (update_first (has_id id) f tasks) other ≡ task_at tasks other
  at_other id other tasks ne =
      find-update_first_ne (has_id id) (has_id other) f
        (λ t e. ne→false t.id other (λ e'. ne (cc (true→eq t.id id e))))
        (λ t. ap (λ s. s == other) (keeps t)) tasks

  module _ (state : TaskState)
      (moves : (t : TaskProjection) → t.state ≡ TaskState.awaiting_approval → (f t).state ≡ state)
      (stays : (t : TaskProjection) → is_awaiting_approval t.state ≡ false → f t ≡ t) where
    first-TaskMoves :
        (related : String) (tasks : List TaskProjection)
        → TaskMoves state
            (some related)
            (task_at tasks)
            (task_at (update_first (has_id related) f tasks))
    first-TaskMoves related tasks = record {
      waiting = λ id t e ne found waits.
          let same : related ≡ id = cc in
          (f t, rw same (at_related id tasks ∙ (rw found refl)), moves t waits);
      settled = λ id t found other. elim (Bool-cases (related == id)) [
        | inl e ↦
            let same : related ≡ id = true→eq related id e in
            rw same (at_related id tasks ∙ (rw (found, stays t (not_awaiting t.state other)) refl))
        | inr e ↦ at_other related id tasks (false→ne related id e) ∙ found
      ];
      unrelated = λ id ne. at_other related id tasks (λ e. ne (ap some e));
    }

    pub update_related-TaskMoves :
        (related : Option String) (tasks : List TaskProjection)
        → TaskMoves state related (task_at tasks) (task_at (update_related f related tasks))
    unfolding update_related
    update_related-TaskMoves none tasks = record {
      waiting = λ id t e ne found waits. cc;
      settled = λ id t found other. found;
      unrelated = λ id ne. refl;
    }
    update_related-TaskMoves (some related) tasks =
        if_cases (λ after. TaskMoves state (some related) (task_at tasks) (task_at after))
          (related == "")
          (λ e. record {
            waiting = λ id t e' ne found waits. absurd (ne (let r = true→eq related "" e in cc));
            settled = λ id t found other. found;
            unrelated = λ id ne. refl;
          })
          (λ _. first-TaskMoves related tasks)
