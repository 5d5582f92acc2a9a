-- ===== src/Mapper/Task.antt =====
-- frontend/src/api/mappers/task.mapper.ts
use mathlib.Core.Option
use virtual_office_sagara_ag.Prelude.{
  ℕ, ◌+◌, ◌/◌, String, Option, none, some, [], ◌∷◌, map, if◌then◌else◌, or_text, or_some, or_else,
  eqb, append_text,
}
use virtual_office_sagara_ag.Prelude.NumberText.{number_text}
use virtual_office_sagara_ag.Engine.{Engine}
use virtual_office_sagara_ag.Domain.Task.{
  TaskState, TaskPriority, TaskProgress, TaskFailure, TaskArtifact, TaskResult, TaskActivityEvent,
  TaskProjection, CreateTaskInput, UpdateTaskInput,
}
use virtual_office_sagara_ag.Dto.Task.{
  TaskProgressDto, TaskFailureDto, TaskArtifactDto, TaskResultDto, TaskActivityEventDto, TaskDto,
  CreateTaskDto, UpdateTaskDto,
}
use virtual_office_sagara_ag.Mapper.Common.{Spellings, map_unknown_enum, preserve_number}

abbrev pub allowed_task_states : Spellings TaskState
allowed_task_states =
    ("DRAFT", TaskState.draft)
    ∷ ("READY", TaskState.ready)
    ∷ ("QUEUED", TaskState.queued)
    ∷ ("DISPATCHING", TaskState.dispatching)
    ∷ ("RUNNING", TaskState.running)
    ∷ ("AWAITING_APPROVAL", TaskState.awaiting_approval)
    ∷ ("BLOCKED", TaskState.blocked)
    ∷ ("COMPLETED", TaskState.completed)
    ∷ ("FAILED", TaskState.failed)
    ∷ ("CANCELLED", TaskState.cancelled)
    ∷ []

abbrev pub allowed_task_priorities : Spellings TaskPriority
allowed_task_priorities =
    ("LOW", TaskPriority.low)
    ∷ ("MEDIUM", TaskPriority.medium)
    ∷ ("HIGH", TaskPriority.high)
    ∷ ("CRITICAL", TaskPriority.critical)
    ∷ []

-- A value of the union is its own spelling in JavaScript.
unfoldable pub spell_state : TaskState → String
spell_state TaskState.draft = "DRAFT"
spell_state TaskState.ready = "READY"
spell_state TaskState.queued = "QUEUED"
spell_state TaskState.dispatching = "DISPATCHING"
spell_state TaskState.running = "RUNNING"
spell_state TaskState.awaiting_approval = "AWAITING_APPROVAL"
spell_state TaskState.blocked = "BLOCKED"
spell_state TaskState.completed = "COMPLETED"
spell_state TaskState.failed = "FAILED"
spell_state TaskState.cancelled = "CANCELLED"

unfoldable pub spell_priority : TaskPriority → String
spell_priority TaskPriority.low = "LOW"
spell_priority TaskPriority.medium = "MEDIUM"
spell_priority TaskPriority.high = "HIGH"
spell_priority TaskPriority.critical = "CRITICAL"

map_progress : TaskProgressDto → TaskProgress
map_progress p = record {
  completed = preserve_number p.completed;
  total = preserve_number p.total;
  label = p.label;
}

map_failure : TaskFailureDto → TaskFailure
map_failure f = record { code = f.code; message = f.message; stage = f.stage }

-- `size_bytes ? `${Math.round(size_bytes / 1024)} KB` : undefined`
unfoldable pub map_size : Option ℕ → Option String
map_size none = none
map_size (some n) =
    if eqb n 0 then none else some (append_text (number_text ((n + 512) / 1024)) " KB")

map_artifact : TaskArtifactDto → TaskArtifact
unfolding map_size
map_artifact a = record {
  id = a.id;
  name = a.name;
  type = or_text a.media_type "file";
  size = map_size a.size_bytes;
}

map_result : TaskResultDto → TaskResult
unfolding map_artifact
map_result r = record {
  summary = r.summary;
  artifact_count = preserve_number r.artifact_count;
  completed_at = r.completed_at;
  artifacts = Option.map (map map_artifact) r.artifacts;
}

map_event : TaskActivityEventDto → TaskActivityEvent
map_event t = record {
  id = t.id;
  type = or_text (some t.type) "STARTED";
  timestamp = t.timestamp;
  actor = t.actor;
  detail = t.detail;
}

-- `mapTaskDtoToDomain`
unfoldable pub map_task_dto_to_domain : Engine → TaskDto → TaskProjection
unfolding map_progress map_failure map_result map_event
map_task_dto_to_domain js dto = record {
  id = dto.id;
  title = dto.title;
  description = dto.description;
  state = map_unknown_enum js (some dto.state) allowed_task_states TaskState.queued;
  priority = map_unknown_enum js (some dto.priority) allowed_task_priorities TaskPriority.medium;
  created_at = dto.created_at;
  updated_at = dto.updated_at;
  due_at = dto.due_at;
  assigned_agent_id = dto.assigned_agent_id;
  requested_skills = dto.requested_skills;
  capability_requirements = dto.capability_requirements;
  session_id = dto.session_id;
  delegation_ids = dto.delegation_ids;
  approval_ids = dto.approval_ids;
  progress = Option.map map_progress dto.progress;
  failure = Option.map map_failure dto.failure;
  result = Option.map map_result dto.result;
  timeline = Option.map (map map_event) dto.timeline;
  revision = preserve_number (or_some dto.revision dto.version);
  version = preserve_number (or_some dto.version dto.revision);
  task_class = dto.task_class;
  execution_policy = dto.execution_policy;
  execution_mode = dto.execution_mode;
  receipt_id = dto.receipt_id;
  correlation = dto.correlation;
}

-- `mapTaskDomainToCreateDto`
unfoldable pub map_create_task_input_to_dto : CreateTaskInput → CreateTaskDto
unfolding spell_state spell_priority
map_create_task_input_to_dto input = record {
  title = input.title;
  description = input.description;
  priority = spell_priority input.priority;
  state = some (spell_state (or_else input.state TaskState.draft));
  assigned_agent_id = input.assigned_agent_id;
  requested_skills = input.requested_skills;
  capability_requirements = input.capability_requirements;
  due_at = input.due_at;
}

-- `mapTaskDomainToUpdateDto`
unfoldable pub map_update_task_input_to_dto : UpdateTaskInput → UpdateTaskDto
unfolding spell_state spell_priority
map_update_task_input_to_dto input = record {
  title = input.title;
  description = input.description;
  priority = Option.map spell_priority input.priority;
  state = Option.map spell_state input.state;
  assigned_agent_id = input.assigned_agent_id;
  requested_skills = input.requested_skills;
  capability_requirements = input.capability_requirements;
  due_at = input.due_at;
}
