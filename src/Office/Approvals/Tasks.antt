-- ===== src/Office/Approvals/Tasks.antt =====
-- The task that an agent is shown at.
use virtual_office_sagara_ag.Prelude.{
  String, ◌≡◌, refl, Bool, true, false, not, ◌&&◌, ◌||◌, Option, none, some, List, [], ◌∷◌, ◌==◌,
  if◌then◌else◌, any, arith, eq_iff, is_text, if_cases,
}
use virtual_office_sagara_ag.Prelude.JsMap
use virtual_office_sagara_ag.Prelude.JsMap.{Map, get-set}
use virtual_office_sagara_ag.Domain.Task.{TaskProjection, TaskState, is_running}
use virtual_office_sagara_ag.Office.Work.{
  is_active_task, takes_over, note_task, active_tasks_by_agent,
}

abbrev pub runs_for : String → TaskProjection → Bool
runs_for id t = is_text t.assigned_agent_id id && is_running t.state

-- The task behind an id, if there is one: it is assigned to the agent and active.
abbrev pub IsFit : String → Option TaskProjection → Type 0
IsFit id none = Unit
IsFit id (some t) = (is_text t.assigned_agent_id id ≡ true) × (is_active_task t.state ≡ true)

abbrev pub is_at_running : Option TaskProjection → Bool
is_at_running none = false
is_at_running (some t) = is_running t.state

-- one task, at one agent
abbrev next_task : String → TaskProjection → Option TaskProjection → Option TaskProjection
next_task id t old =
    if is_text t.assigned_agent_id id
    then if not (id == "") && (is_active_task t.state && takes_over old t) then some t else old
    else old

get-note_task :
    (t : TaskProjection) (m : Map TaskProjection) (id : String)
    → JsMap.get (note_task t m) id ≡ next_task id t (JsMap.get m id)
unfolding note_task
get-note_task t m id = go t.assigned_agent_id
  where
    go :
        (assigned : Option String)
        → JsMap.get (note_task (record t { assigned_agent_id = assigned }) m) id
          ≡ next_task id (record t { assigned_agent_id = assigned }) (JsMap.get m id)
    go none = refl
    go (some a) =
        ground (arith, get-set m a (record t { assigned_agent_id = some a }) id, eq_iff a id)

next_task-IsFit :
    (id : String) (t : TaskProjection) (old : Option TaskProjection)
    → IsFit id old
    → IsFit id (next_task id t old)
next_task-IsFit id t old h =
    if_cases (IsFit id) (is_text t.assigned_agent_id id)
      (λ mine.
        if_cases (IsFit id) (not (id == "") && (is_active_task t.state && takes_over old t))
          (λ taken. (mine, ground (arith, taken))) (λ _. h))
      (λ _. h)

running-active : (s : TaskState) → is_running s ≡ true → is_active_task s ≡ true
running-active TaskState.running h = refl
running-active TaskState.draft h = cc h
running-active TaskState.ready h = cc h
running-active TaskState.queued h = refl
running-active TaskState.dispatching h = refl
running-active TaskState.awaiting_approval h = refl
running-active TaskState.blocked h = cc h
running-active TaskState.completed h = cc h
running-active TaskState.failed h = cc h
running-active TaskState.cancelled h = cc h

is_at_running-next_task :
    (id : String) (t : TaskProjection) (old : Option TaskProjection)
    → (id == "") ≡ false
    → (is_at_running old || runs_for id t) ≡ true
    → is_at_running (next_task id t old) ≡ true
is_at_running-next_task id t none named h = ground (arith, named, h, running-active t.state)
is_at_running-next_task id t (some existing) named h =
    ground (arith, named, h, running-active t.state)

module _ (id : String) where
  active_tasks-IsFit :
      (tasks : List TaskProjection) (m : Map TaskProjection)
      → IsFit id (JsMap.get m id)
      → IsFit id (JsMap.get (active_tasks_by_agent tasks m) id)
  unfolding active_tasks_by_agent
  active_tasks-IsFit [] m h = h
  active_tasks-IsFit (t ∷ rest) m h =
      active_tasks-IsFit rest (note_task t m)
        (rw (get-note_task t m id) (next_task-IsFit id t (JsMap.get m id) h))

  is_at_running-active_tasks :
      (tasks : List TaskProjection) (m : Map TaskProjection)
      → (id == "") ≡ false
      → (is_at_running (JsMap.get m id) || any (runs_for id) tasks) ≡ true
      → is_at_running (JsMap.get (active_tasks_by_agent tasks m) id) ≡ true
  unfolding active_tasks_by_agent
  is_at_running-active_tasks [] m named h = ground (arith, h)
  is_at_running-active_tasks (t ∷ rest) m named h =
      is_at_running-active_tasks rest (note_task t m) named (
        rw (get-note_task t m id)
          (ground (arith, h, is_at_running-next_task id t (JsMap.get m id) named)))

  -- The task that an agent is shown at is assigned to it and active, whatever the order of the tasks;
  -- where a task of the agent is running, the one that is shown is running. The agent's id is not
  -- empty.
  pub active_tasks_by_agent-IsFit :
      (tasks : List TaskProjection)
      → (id == "") ≡ false
      → IsFit id (JsMap.get (active_tasks_by_agent tasks []) id)
        × (any (runs_for id) tasks ≡ true
            → is_at_running (JsMap.get (active_tasks_by_agent tasks []) id) ≡ true)
  unfolding JsMap.get
  active_tasks_by_agent-IsFit tasks named =
      (active_tasks-IsFit tasks [] tt, λ h. is_at_running-active_tasks tasks [] named h)
