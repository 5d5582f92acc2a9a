-- ===== src/Api/Provider/Operations/States.antt =====
-- The states that a task goes through, while no operation sets its state outright.
use virtual_office_sagara_ag.Prelude.{
  ◌≡◌, refl, ◌∙◌, true, false, Option, String, List, [], ◌∷◌, All, if_cases,
}
use virtual_office_sagara_ag.Prelude.Pointwise.{Kept, Pointwise-Kept, Kept-trans, Pointwise-refl}
use virtual_office_sagara_ag.Domain.Task.{TaskState, TaskProjection, is_awaiting_approval}
use virtual_office_sagara_ag.Mapper.Task.{spell_state}
use virtual_office_sagara_ag.Api.Provider.{ProviderState, Instant, Setting}
use virtual_office_sagara_ag.Api.Provider.TaskChanges.{is_dispatched, dispatched}
use virtual_office_sagara_ag.Api.Provider.ApprovalChanges.{resumed, stopped}
use virtual_office_sagara_ag.Api.Provider.Operations.{Operation, perform, perform_all}
use virtual_office_sagara_ag.Api.Provider.Operations.Kept.{Changes, perform-Kept}

-- A dispatch is refused for a task that is dispatching, running or completed; an approval resumes a
-- waiting task, and a rejection blocks it.
pub data Moves : TaskState → TaskState → Type 0 where
  stay : {s : TaskState} → Moves s s
  dispatch :
      {s : TaskState}
      → ¬ (s ≡ TaskState.dispatching)
      → ¬ (s ≡ TaskState.running)
      → ¬ (s ≡ TaskState.completed)
      → Moves s TaskState.dispatching
  resume : Moves TaskState.awaiting_approval TaskState.running
  block : Moves TaskState.awaiting_approval TaskState.blocked
  chain : {s t u : TaskState} → Moves s t → Moves t u → Moves s u

abbrev IsBusy : TaskState → Type 0
IsBusy TaskState.running = Unit
IsBusy TaskState.completed = Unit
IsBusy _ = ⊥

Moves-IsBusy : {s t : TaskState} → Moves s t → IsBusy s → t ≡ s
Moves-IsBusy stay busy = refl
Moves-IsBusy (dispatch {s} d r c) busy = absurd (out s r c busy)
  where
    out : (s : TaskState) → ¬ (s ≡ TaskState.running) → ¬ (s ≡ TaskState.completed) → IsBusy s → ⊥
    out TaskState.running r c busy = r refl
    out TaskState.completed r c busy = c refl
    out TaskState.draft r c busy = busy
    out TaskState.ready r c busy = busy
    out TaskState.queued r c busy = busy
    out TaskState.dispatching r c busy = busy
    out TaskState.awaiting_approval r c busy = busy
    out TaskState.blocked r c busy = busy
    out TaskState.failed r c busy = busy
    out TaskState.cancelled r c busy = busy
Moves-IsBusy resume busy = absurd busy
Moves-IsBusy block busy = absurd busy
Moves-IsBusy (chain m n) busy = let e = Moves-IsBusy m busy in Moves-IsBusy n (rw e busy) ∙ e

-- The same task later: its state moved by the rules, so that it is the same where the task runs or is
-- completed.
pub record IsLater (t u : TaskProjection) : Type 0 where
  pub same_id : u.id ≡ t.id
  pub moves : Moves t.state u.state
  pub stays_running : t.state ≡ TaskState.running → u.state ≡ TaskState.running
  pub stays_completed : t.state ≡ TaskState.completed → u.state ≡ TaskState.completed

later : (t u : TaskProjection) → u.id ≡ t.id → Moves t.state u.state → IsLater t u
later t u e m = record {
  same_id = e;
  moves = m;
  stays_running = λ r. Moves-IsBusy m (rw r tt) ∙ r;
  stays_completed = λ r. Moves-IsBusy m (rw r tt) ∙ r;
}

IsLater-refl : (t : TaskProjection) → IsLater t t
IsLater-refl t = later t t refl Moves.stay

IsLater-trans : (t u v : TaskProjection) → IsLater t u → IsLater u v → IsLater t v
IsLater-trans t u v p q = later t v (q.same_id ∙ p.same_id) (Moves.chain p.moves q.moves)

free_to_dispatch : (s : TaskState) → is_dispatched s ≡ false → Moves s TaskState.dispatching
unfolding spell_state
free_to_dispatch TaskState.dispatching h = Moves.stay
free_to_dispatch TaskState.running h = cc
free_to_dispatch TaskState.completed h = cc
free_to_dispatch TaskState.draft h = Moves.dispatch (λ e. cc) (λ e. cc) (λ e. cc)
free_to_dispatch TaskState.ready h = Moves.dispatch (λ e. cc) (λ e. cc) (λ e. cc)
free_to_dispatch TaskState.queued h = Moves.dispatch (λ e. cc) (λ e. cc) (λ e. cc)
free_to_dispatch TaskState.awaiting_approval h = Moves.dispatch (λ e. cc) (λ e. cc) (λ e. cc)
free_to_dispatch TaskState.blocked h = Moves.dispatch (λ e. cc) (λ e. cc) (λ e. cc)
free_to_dispatch TaskState.failed h = Moves.dispatch (λ e. cc) (λ e. cc) (λ e. cc)
free_to_dispatch TaskState.cancelled h = Moves.dispatch (λ e. cc) (λ e. cc) (λ e. cc)

awaiting : (s : TaskState) → is_awaiting_approval s ≡ true → s ≡ TaskState.awaiting_approval
awaiting TaskState.awaiting_approval h = refl
awaiting TaskState.draft h = cc
awaiting TaskState.ready h = cc
awaiting TaskState.queued h = cc
awaiting TaskState.dispatching h = cc
awaiting TaskState.running h = cc
awaiting TaskState.blocked h = cc
awaiting TaskState.completed h = cc
awaiting TaskState.failed h = cc
awaiting TaskState.cancelled h = cc

resumed-IsLater : (now : Instant) (id : String) (t : TaskProjection) → IsLater t (resumed now id t)
unfolding resumed
resumed-IsLater now id t =
    if_cases (IsLater t) (is_awaiting_approval t.state)
      (λ waits. later t _ refl (rw (awaiting t.state waits) Moves.resume)) (λ _. IsLater-refl t)

stopped-IsLater :
    (now : Instant) (id : String) (reason : Option String) (t : TaskProjection)
    → IsLater t (stopped now id reason t)
unfolding stopped
stopped-IsLater now id reason t =
    if_cases (IsLater t) (is_awaiting_approval t.state)
      (λ waits. later t _ refl (rw (awaiting t.state waits) Moves.block)) (λ _. IsLater-refl t)

-- An operation that is no `updateTask`.
abbrev pub SetsNoState : Operation → Type 0
SetsNoState (Operation.update now id input) = ⊥
SetsNoState _ = Unit

Changes-IsLater : (op : Operation) → SetsNoState op → Changes IsLater op
unfolding dispatched
Changes-IsLater (Operation.create now uuid input) h = tt
Changes-IsLater (Operation.update now id input) h = absurd h
Changes-IsLater (Operation.dispatch now uuid id) h =
    λ t free. later t _ refl (free_to_dispatch t.state free)
Changes-IsLater (Operation.delete id) h = tt
Changes-IsLater (Operation.cancel id) h = tt
Changes-IsLater (Operation.approve now uuid id input) h = resumed-IsLater now id
Changes-IsLater (Operation.reject now uuid id input) h = stopped-IsLater now id input.reason

-- Through any operations but `updateTask`, whatever they throw, a task moves by three rules only: to
-- dispatching from a state other than dispatching, running and completed, to running and to blocked from
-- waiting for an approval. So a task that runs keeps running, and a completed one stays completed.
pub perform_all-IsLater :
    (setting : Setting) (ops : List Operation) (st : ProviderState)
    → All SetsNoState ops
    → Kept IsLater st.tasks_state (perform_all setting ops st).tasks_state
unfolding perform_all
perform_all-IsLater setting [] st h =
    Pointwise-Kept IsLater st.tasks_state st.tasks_state
      (Pointwise-refl IsLater IsLater-refl st.tasks_state)
perform_all-IsLater setting (op ∷ rest) st h =
    let next = (perform setting op st).0 in
    Kept-trans IsLater IsLater-trans st.tasks_state next.tasks_state _
      (perform-Kept IsLater IsLater-refl setting op st (Changes-IsLater op h.0))
      (perform_all-IsLater setting rest next h.1)
