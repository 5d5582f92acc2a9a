-- ===== src/Schedule/Types.antt =====
-- features/schedule/types.ts
use virtual_office_sagara_ag.Prelude.{ℕ, String, Option, List}

pub data ScheduleItemType : Type 0 where
  task reminder recurring_job content maintenance event : ScheduleItemType

pub data ScheduleStatus : Type 0 where
  scheduled running completed paused cancelled missed unknown : ScheduleStatus

pub data ScheduleSource : Type 0 where
  prototype mission_control external unknown : ScheduleSource

pub data RecurrenceFrequency : Type 0 where
  none daily weekdays weekly monthly custom : RecurrenceFrequency

pub data RecurrenceEnd : Type 0 where
  never on_date after_count : RecurrenceEnd

pub record RecurrenceRule : Type 0 where
  pub frequency : RecurrenceFrequency
  pub interval : Option ℕ
  pub by_week_days : Option (List ℕ)
  pub cron_expression : Option String
  pub end_type : Option RecurrenceEnd
  pub end_date : Option String
  pub occurrences_count : Option ℕ

pub data SchedulePriority : Type 0 where
  low medium high critical : SchedulePriority

pub record ScheduleItem : Type 0 where
  pub id : String
  pub type : ScheduleItemType
  pub title : String
  pub description : Option String
  pub start_at : String
  pub end_at : Option String
  pub timezone : Option String
  pub recurrence : Option RecurrenceRule
  pub agent_id : Option String
  pub profile_id : Option String
  pub task_id : Option String
  pub priority : Option SchedulePriority
  pub status : ScheduleStatus
  pub source : ScheduleSource
  pub notes : Option String
  pub created_at : String

pub data ScheduleViewMode : Type 0 where
  month week day agenda : ScheduleViewMode
