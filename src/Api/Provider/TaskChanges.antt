-- ===== src/Api/Provider/TaskChanges.antt =====
-- frontend/src/api/provider.ts: what an operation makes of a task.
use virtual_office_sagara_ag.Prelude.{
  ◌+◌, String, Bool, none, some, List, [], ◌∷◌, ◌++◌, ◌==◌, or_else, or_some, includes, length,
  append_text,
}
use virtual_office_sagara_ag.Prelude.Texts.{padded_number}
use virtual_office_sagara_ag.Domain.Task.{
  TaskState, TaskActivityEvent, TaskProjection, CreateTaskInput, UpdateTaskInput,
}
use virtual_office_sagara_ag.Mapper.Task.{spell_state}
use virtual_office_sagara_ag.Api.Provider.{Instant}

-- An operator's entry in a task's history.
abbrev pub event : (id type timestamp actor detail : String) → TaskActivityEvent
event id type timestamp actor detail = record {
  id = id;
  type = type;
  timestamp = timestamp;
  actor = some actor;
  detail = some detail;
}

-- `newTask`
unfoldable pub new_task : Instant → List TaskProjection → CreateTaskInput → TaskProjection
new_task now tasks input =
    let stage = or_else input.state TaskState.draft in
    record {
      id = append_text "tsk-" (padded_number (length tasks + 1));
      title = input.title;
      description = input.description;
      state = stage;
      priority = input.priority;
      created_at = now.iso;
      updated_at = some now.iso;
      due_at = input.due_at;
      assigned_agent_id = input.assigned_agent_id;
      requested_skills = input.requested_skills;
      capability_requirements = input.capability_requirements;
      session_id = none;
      delegation_ids = none;
      approval_ids = none;
      progress = none;
      failure = none;
      result = none;
      timeline = some (
          event (append_text "evt-" now.millis) "CREATED" now.iso "Operator (Current)"
            (append_text "Created new task as " (spell_state stage))
          ∷ []);
      revision = none;
      version = none;
      task_class = none;
      execution_policy = none;
      execution_mode = none;
      receipt_id = none;
      correlation = none;
    }

-- `{ ...current, ...input, updatedAt }`
unfoldable pub merge_input : Instant → UpdateTaskInput → TaskProjection → TaskProjection
merge_input now input current = record current {
  title = or_else input.title current.title;
  description = or_some input.description current.description;
  priority = or_else input.priority current.priority;
  state = or_else input.state current.state;
  assigned_agent_id = or_some input.assigned_agent_id current.assigned_agent_id;
  requested_skills = or_some input.requested_skills current.requested_skills;
  capability_requirements = or_some input.capability_requirements current.capability_requirements;
  due_at = or_some input.due_at current.due_at;
  updated_at = some now.iso;
}

-- `['DISPATCHING', 'RUNNING', 'COMPLETED'].includes(current.state)`
abbrev pub is_dispatched : TaskState → Bool
is_dispatched s = includes ("DISPATCHING" ∷ "RUNNING" ∷ "COMPLETED" ∷ []) (spell_state s)

unfoldable pub dispatched : Instant → TaskProjection → TaskProjection
dispatched now current = record current {
  state = TaskState.dispatching;
  updated_at = some now.iso;
  timeline = some (
      or_else current.timeline []
      ++ event (append_text "evt-" (append_text now.millis "-1")) "DISPATCH_REQUESTED" now.iso
          "Operator (Current)" "Explicit dispatch review confirmed by operator"
        ∷ event (append_text "evt-" (append_text now.millis "-2")) "QUEUED" now.iso
            "Runtime Dispatcher" "Task queued for autonomous worker execution"
        ∷ []);
}

abbrev pub has_id : String → TaskProjection → Bool
has_id id t = t.id == id
