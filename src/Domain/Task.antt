-- ===== src/Domain/Task.antt =====
-- frontend/src/types/task.ts
use virtual_office_sagara_ag.Prelude.{ℕ, String, Bool, true, false, Option, List}

pub data TaskState : Type 0 where
  draft ready queued dispatching running awaiting_approval blocked completed failed : TaskState
  cancelled : TaskState

pub data TaskPriority : Type 0 where
  low medium high critical : TaskPriority

pub data KanbanColumnId : Type 0 where
  todo in_progress needs_attention done : KanbanColumnId

pub record TaskProgress : Type 0 where
  pub completed : Option ℕ
  pub total : Option ℕ
  pub label : Option String

pub record TaskFailure : Type 0 where
  pub code : Option String
  pub message : Option String
  pub stage : Option String

pub record TaskArtifact : Type 0 where
  pub id : String
  pub name : String
  pub type : String
  pub size : Option String

pub record TaskResult : Type 0 where
  pub summary : Option String
  pub artifact_count : Option ℕ
  pub completed_at : Option String
  pub artifacts : Option (List TaskArtifact)

pub record TaskActivityEvent : Type 0 where
  pub id : String
  pub type : String
  pub timestamp : String
  pub actor : Option String
  pub detail : Option String

pub record TaskProjection : Type 0 where
  pub id : String
  pub title : String
  pub description : Option String
  pub state : TaskState
  pub priority : TaskPriority
  pub created_at : String
  pub updated_at : Option String
  pub due_at : Option String
  pub assigned_agent_id : Option String
  pub requested_skills : Option (List String)
  pub capability_requirements : Option (List String)
  pub session_id : Option String
  pub delegation_ids : Option (List String)
  pub approval_ids : Option (List String)
  pub progress : Option TaskProgress
  pub failure : Option TaskFailure
  pub result : Option TaskResult
  pub timeline : Option (List TaskActivityEvent)
  pub revision : Option ℕ
  pub version : Option ℕ
  pub task_class : Option String
  pub execution_policy : Option String
  pub execution_mode : Option String
  pub receipt_id : Option String
  pub correlation : Option String

-- `state` is `'DRAFT'` or `'READY'` in the type of the source.
pub record CreateTaskInput : Type 0 where
  pub title : String
  pub description : Option String
  pub priority : TaskPriority
  pub state : Option TaskState
  pub assigned_agent_id : Option String
  pub requested_skills : Option (List String)
  pub capability_requirements : Option (List String)
  pub due_at : Option String

-- A field is `none` where the object has no such key; no key stands with the value `undefined`.
pub record UpdateTaskInput : Type 0 where
  pub title : Option String
  pub description : Option String
  pub priority : Option TaskPriority
  pub state : Option TaskState
  pub assigned_agent_id : Option String
  pub requested_skills : Option (List String)
  pub capability_requirements : Option (List String)
  pub due_at : Option String

-- The kinds of attention that a query asks for.
pub data TaskAttention : Type 0 where
  all approval blocked failed : TaskAttention

-- In `state` and `priority`, `some none` is `'ALL'`; in `agent_id` and `skill` that is a text.
pub record TaskQuery : Type 0 where
  pub search : Option String
  pub state : Option (Option TaskState)
  pub priority : Option (Option TaskPriority)
  pub agent_id : Option String
  pub attention : Option TaskAttention
  pub skill : Option String

-- `mapStateToKanbanColumn`; its default is not reached by a state of the union
unfoldable pub map_state_to_kanban_column : TaskState → KanbanColumnId
map_state_to_kanban_column TaskState.draft = KanbanColumnId.todo
map_state_to_kanban_column TaskState.ready = KanbanColumnId.todo
map_state_to_kanban_column TaskState.queued = KanbanColumnId.in_progress
map_state_to_kanban_column TaskState.dispatching = KanbanColumnId.in_progress
map_state_to_kanban_column TaskState.running = KanbanColumnId.in_progress
map_state_to_kanban_column TaskState.awaiting_approval = KanbanColumnId.needs_attention
map_state_to_kanban_column TaskState.blocked = KanbanColumnId.needs_attention
map_state_to_kanban_column TaskState.failed = KanbanColumnId.needs_attention
map_state_to_kanban_column TaskState.completed = KanbanColumnId.done
map_state_to_kanban_column TaskState.cancelled = KanbanColumnId.done

-- `state === 'RUNNING'`
abbrev pub is_running : TaskState → Bool
is_running TaskState.running = true
is_running _ = false

-- `state === 'AWAITING_APPROVAL'`
abbrev pub is_awaiting_approval : TaskState → Bool
is_awaiting_approval TaskState.awaiting_approval = true
is_awaiting_approval _ = false
