-- ===== src/Schedule/Store.antt =====
-- features/schedule/store.ts: the store of schedule items and its copy in `localStorage`.
use virtual_office_sagara_ag.Prelude.{
  String, Bool, not, Option, none, some, List, [], ◌∷◌, map, ◌==◌, if◌then◌else◌, or_else, filter,
  find, append_text,
}
use virtual_office_sagara_ag.Schedule.Types.{
  ScheduleItem, ScheduleItemType, ScheduleStatus, ScheduleSource, SchedulePriority, RecurrenceRule,
  ScheduleViewMode,
}
use virtual_office_sagara_ag.Schedule.Initial.{initial_schedules}

-- What stands in `localStorage`: nothing, something that is no JSON array, or an array. `accepts` is
-- false while writing throws.
pub data Saved : Type 0 where
  absent unreadable : Saved
  array : List ScheduleItem → Saved

-- A filter of the view, where `none` is 'ALL'.
pub record ScheduleState : Type 0 where
  pub items : List ScheduleItem
  pub view_mode : ScheduleViewMode
  pub selected_date : String
  pub search_query : String
  pub type_filter : Option ScheduleItemType
  pub status_filter : Option ScheduleStatus
  pub agent_filter : Option String
  pub saved : Saved
  pub accepts : Bool

-- An empty array counts as nothing saved.
unfoldable pub load_initial_schedules : Saved → List ScheduleItem
load_initial_schedules absent = initial_schedules
load_initial_schedules unreadable = initial_schedules
load_initial_schedules (array []) = initial_schedules
load_initial_schedules (array (item ∷ rest)) = item ∷ rest

abbrev pub created : Saved → Bool → ScheduleState
created saved accepts = record {
  items = load_initial_schedules saved;
  view_mode = ScheduleViewMode.month;
  selected_date = "2026-09-10";
  search_query = "";
  type_filter = none;
  status_filter = none;
  agent_filter = none;
  saved = saved;
  accepts = accepts;
}

unfoldable pub save_schedules : List ScheduleItem → ScheduleState → ScheduleState
save_schedules items st = if st.accepts then record st { saved = array items } else st

-- `saveSchedules(updated); set({ items: updated })`
unfoldable pub put_items : List ScheduleItem → ScheduleState → ScheduleState
unfolding save_schedules
put_items items st = record (save_schedules items st) { items = items }

-- `Omit<ScheduleItem, 'id' | 'createdAt' | 'source'>`
pub record ScheduleData : Type 0 where
  pub type : ScheduleItemType
  pub title : String
  pub description : Option String
  pub start_at : String
  pub end_at : Option String
  pub timezone : Option String
  pub recurrence : Option RecurrenceRule
  pub agent_id : Option String
  pub profile_id : Option String
  pub task_id : Option String
  pub priority : Option SchedulePriority
  pub status : ScheduleStatus
  pub notes : Option String

-- `Partial<ScheduleItem>`: a field is `none` where the object has no such key. A key of an optional field
-- may stand with the value `undefined`, which is `some none`, as the editor of schedules passes it.
pub record SchedulePatch : Type 0 where
  pub id : Option String
  pub type : Option ScheduleItemType
  pub title : Option String
  pub description : Option (Option String)
  pub start_at : Option String
  pub end_at : Option (Option String)
  pub timezone : Option (Option String)
  pub recurrence : Option (Option RecurrenceRule)
  pub agent_id : Option (Option String)
  pub profile_id : Option (Option String)
  pub task_id : Option (Option String)
  pub priority : Option (Option SchedulePriority)
  pub status : Option ScheduleStatus
  pub source : Option ScheduleSource
  pub notes : Option (Option String)
  pub created_at : Option String

abbrev pub empty_patch : SchedulePatch
empty_patch = record {
  id = none;
  type = none;
  title = none;
  description = none;
  start_at = none;
  end_at = none;
  timezone = none;
  recurrence = none;
  agent_id = none;
  profile_id = none;
  task_id = none;
  priority = none;
  status = none;
  source = none;
  notes = none;
  created_at = none;
}

abbrev pub item_of : (id created_at : String) → ScheduleData → ScheduleItem
item_of id created_at fields = record {
  id = id;
  source = ScheduleSource.mission_control;
  created_at = created_at;
  type = fields.type;
  title = fields.title;
  description = fields.description;
  start_at = fields.start_at;
  end_at = fields.end_at;
  timezone = fields.timezone;
  recurrence = fields.recurrence;
  agent_id = fields.agent_id;
  profile_id = fields.profile_id;
  task_id = fields.task_id;
  priority = fields.priority;
  status = fields.status;
  notes = fields.notes;
}

-- `{ ...it, ...patch }`: a key with the value `undefined` clears the field.
abbrev pub apply_patch : SchedulePatch → ScheduleItem → ScheduleItem
apply_patch patch it = record {
  id = or_else patch.id it.id;
  type = or_else patch.type it.type;
  title = or_else patch.title it.title;
  description = or_else patch.description it.description;
  start_at = or_else patch.start_at it.start_at;
  end_at = or_else patch.end_at it.end_at;
  timezone = or_else patch.timezone it.timezone;
  recurrence = or_else patch.recurrence it.recurrence;
  agent_id = or_else patch.agent_id it.agent_id;
  profile_id = or_else patch.profile_id it.profile_id;
  task_id = or_else patch.task_id it.task_id;
  priority = or_else patch.priority it.priority;
  status = or_else patch.status it.status;
  source = or_else patch.source it.source;
  notes = or_else patch.notes it.notes;
  created_at = or_else patch.created_at it.created_at;
}

-- `addSchedule`; `now_id` is `Date.now().toString(36)` and `now` the time text
unfoldable pub add_schedule : (now_id now : String) → ScheduleData → ScheduleState → ScheduleState
unfolding put_items
add_schedule now_id now fields st =
    put_items (item_of (append_text "sched-" now_id) now fields ∷ st.items) st

abbrev pub patch_item : String → SchedulePatch → ScheduleItem → ScheduleItem
patch_item id patch it = if it.id == id then apply_patch patch it else it

unfoldable pub update_schedule : String → SchedulePatch → ScheduleState → ScheduleState
unfolding put_items
update_schedule id patch st = put_items (map (patch_item id patch) st.items) st

abbrev pub has_other_id : String → ScheduleItem → Bool
has_other_id id it = not (it.id == id)

unfoldable pub delete_schedule : String → ScheduleState → ScheduleState
unfolding put_items
delete_schedule id st = put_items (filter (has_other_id id) st.items) st

abbrev pub clone_of : (now_id now : String) → ScheduleItem → ScheduleItem
clone_of now_id now original = record original {
  id = append_text "sched-" now_id;
  title = append_text original.title " (Copy)";
  created_at = now;
  source = ScheduleSource.mission_control;
}

-- `duplicateSchedule`: an unknown id changes nothing
unfoldable pub duplicate_schedule : (now_id now : String) → String → ScheduleState → ScheduleState
unfolding put_items
duplicate_schedule now_id now id st = elim (find (λ it. it.id == id) st.items) [
  | none ↦ st
  | some original ↦ put_items (clone_of now_id now original ∷ st.items) st
]

unfoldable pub reset_to_defaults : ScheduleState → ScheduleState
unfolding put_items
reset_to_defaults st = put_items initial_schedules st

unfoldable pub set_view_mode : ScheduleViewMode → ScheduleState → ScheduleState
set_view_mode view_mode st = record st { view_mode = view_mode }

unfoldable pub set_selected_date : String → ScheduleState → ScheduleState
set_selected_date date st = record st { selected_date = date }

unfoldable pub set_search_query : String → ScheduleState → ScheduleState
set_search_query query st = record st { search_query = query }

unfoldable pub set_type_filter : Option ScheduleItemType → ScheduleState → ScheduleState
set_type_filter type_filter st = record st { type_filter = type_filter }

unfoldable pub set_status_filter : Option ScheduleStatus → ScheduleState → ScheduleState
set_status_filter status_filter st = record st { status_filter = status_filter }

unfoldable pub set_agent_filter : Option String → ScheduleState → ScheduleState
set_agent_filter agent_filter st = record st { agent_filter = agent_filter }
