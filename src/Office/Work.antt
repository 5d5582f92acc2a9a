-- ===== src/Office/Work.antt =====
-- office-layout-engine.ts: the task that an agent is shown at, and its delegations.
use virtual_office_sagara_ag.Prelude.{
  Bool, true, false, not, ◌&&◌, ◌||◌, Option, none, some, List, [], ◌∷◌, ◌++◌, ◌==◌, if◌then◌else◌,
  or_else,
}
use virtual_office_sagara_ag.Prelude.JsMap
use virtual_office_sagara_ag.Prelude.JsMap.{Map}
use virtual_office_sagara_ag.Domain.Task.{
  TaskProjection, TaskState, is_running, is_awaiting_approval,
}
use virtual_office_sagara_ag.Domain.Runtime.{DelegationProjection, DelegationState}

-- `['RUNNING', 'AWAITING_APPROVAL', 'DISPATCHING', 'QUEUED'].includes(task.state)`
abbrev pub is_active_task : TaskState → Bool
is_active_task TaskState.running = true
is_active_task TaskState.awaiting_approval = true
is_active_task TaskState.dispatching = true
is_active_task TaskState.queued = true
is_active_task _ = false

-- whether a task replaces the one that is there
abbrev pub takes_over : Option TaskProjection → TaskProjection → Bool
takes_over none task = true
takes_over (some existing) task =
    is_running task.state || (is_awaiting_approval task.state && not (is_running existing.state))

-- one turn of `tasks.forEach`
unfoldable pub note_task : TaskProjection → Map TaskProjection → Map TaskProjection
note_task task m = elim task.assigned_agent_id [
  | none ↦ m
  | some id ↦
      if not (id == "") && (is_active_task task.state && takes_over (JsMap.get m id) task)
      then JsMap.set m id task
      else m
]

-- `activeTasksByAgent`
unfoldable pub active_tasks_by_agent : List TaskProjection → Map TaskProjection → Map TaskProjection
unfolding note_task
active_tasks_by_agent [] m = m
active_tasks_by_agent (task ∷ rest) m = active_tasks_by_agent rest (note_task task m)

-- `delegationsByAgent`
unfoldable pub delegations_by_agent :
    List DelegationProjection → Map (List DelegationProjection) → Map (List DelegationProjection)
delegations_by_agent [] m = m
delegations_by_agent (d ∷ rest) m =
    delegations_by_agent rest
      (JsMap.set m d.origin_agent_id (or_else (JsMap.get m d.origin_agent_id) [] ++ d ∷ []))

-- `isActiveDelegation` of animation/behavior.ts
abbrev pub is_active_delegation : DelegationState → Bool
is_active_delegation DelegationState.running = true
is_active_delegation DelegationState.queued = true
is_active_delegation DelegationState.claimed = true
is_active_delegation _ = false
