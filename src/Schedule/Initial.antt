-- ===== src/Schedule/Initial.antt =====
-- features/schedule/store.ts: the items that the store starts with.
use virtual_office_sagara_ag.Prelude.{ℕ, String, Option, none, some, List, [], ◌∷◌}
use virtual_office_sagara_ag.Schedule.Types.{
  ScheduleItem, ScheduleItemType, ScheduleStatus, ScheduleSource, SchedulePriority, RecurrenceRule,
  RecurrenceFrequency,
}

abbrev rule : RecurrenceFrequency → Option ℕ → Option (List ℕ) → Option String → RecurrenceRule
rule frequency interval days cron = record {
  frequency = frequency;
  interval = interval;
  by_week_days = days;
  cron_expression = cron;
  end_type = none;
  end_date = none;
  occurrences_count = none;
}

abbrev daily_briefing : ScheduleItem
daily_briefing = record {
  id = "sched-001";
  type = ScheduleItemType.recurring_job;
  title = "Daily Marketing Briefing";
  description = some "Autonomous scan of social mentions, traffic conversions, and lead metrics.";
  start_at = "2026-09-10T09:00:00.000Z";
  end_at = some "2026-09-10T09:45:00.000Z";
  timezone = some "Asia/Jakarta";
  recurrence = some (rule RecurrenceFrequency.weekdays (some 1) none (some "0 9 * * 1-5"));
  agent_id = some "marketing";
  profile_id = some "marketing";
  task_id = none;
  priority = some SchedulePriority.high;
  status = ScheduleStatus.scheduled;
  source = ScheduleSource.mission_control;
  notes = some "Generated by Sagara Marketing Profile blueprint";
  created_at = "2026-09-01T08:00:00.000Z";
}

abbrev lead_follow_up : ScheduleItem
lead_follow_up = record {
  id = "sched-002";
  type = ScheduleItemType.task;
  title = "Follow-up Qualified Leads";
  description = some "High-intent lead qualification review and CRM pipeline synchronization.";
  start_at = "2026-09-10T11:30:00.000Z";
  end_at = some "2026-09-10T12:30:00.000Z";
  timezone = some "Asia/Jakarta";
  recurrence = some (rule RecurrenceFrequency.none none none none);
  agent_id = some "business";
  profile_id = some "business";
  task_id = none;
  priority = some SchedulePriority.high;
  status = ScheduleStatus.scheduled;
  source = ScheduleSource.mission_control;
  notes = none;
  created_at = "2026-09-02T10:00:00.000Z";
}

abbrev health_review : ScheduleItem
health_review = record {
  id = "sched-003";
  type = ScheduleItemType.maintenance;
  title = "Infrastructure & Gateway Health Review";
  description =
      some "Hermes runtime heartbeat audit, process memory verification, and telemetry flush.";
  start_at = "2026-09-10T15:00:00.000Z";
  end_at = some "2026-09-10T16:00:00.000Z";
  timezone = some "Asia/Jakarta";
  recurrence = some (rule RecurrenceFrequency.daily (some 1) none none);
  agent_id = some "it_support";
  profile_id = some "it_support";
  task_id = none;
  priority = some SchedulePriority.medium;
  status = ScheduleStatus.scheduled;
  source = ScheduleSource.mission_control;
  notes = none;
  created_at = "2026-09-03T11:00:00.000Z";
}

abbrev expiration_warning : ScheduleItem
expiration_warning = record {
  id = "sched-004";
  type = ScheduleItemType.reminder;
  title = "Governance Gate Expiration Warning";
  description = some "Pending shell execution approval expires in 30 minutes.";
  start_at = "2026-09-10T16:30:00.000Z";
  end_at = some "2026-09-10T17:00:00.000Z";
  timezone = some "Asia/Jakarta";
  recurrence = some (rule RecurrenceFrequency.none none none none);
  agent_id = none;
  profile_id = none;
  task_id = none;
  priority = some SchedulePriority.critical;
  status = ScheduleStatus.scheduled;
  source = ScheduleSource.mission_control;
  notes = none;
  created_at = "2026-09-04T12:00:00.000Z";
}

abbrev editorial_dispatch : ScheduleItem
editorial_dispatch = record {
  id = "sched-005";
  type = ScheduleItemType.content;
  title = "Weekly Tech Editorial Dispatch";
  description = some "Weekly tech roundup generation and multiplatform broadcast validation.";
  start_at = "2026-09-11T10:00:00.000Z";
  end_at = some "2026-09-11T11:30:00.000Z";
  timezone = some "Asia/Jakarta";
  recurrence = some (rule RecurrenceFrequency.weekly (some 1) (some (5 ∷ [])) none);
  agent_id = some "marketing";
  profile_id = some "marketing";
  task_id = none;
  priority = some SchedulePriority.medium;
  status = ScheduleStatus.scheduled;
  source = ScheduleSource.mission_control;
  notes = none;
  created_at = "2026-09-05T09:00:00.000Z";
}

abbrev team_sync : ScheduleItem
team_sync = record {
  id = "sched-006";
  type = ScheduleItemType.event;
  title = "Team Sync & Agent Delegation Retrospective";
  description = some "Cross-functional review of agent delegations and operational costs.";
  start_at = "2026-09-12T14:00:00.000Z";
  end_at = some "2026-09-12T15:00:00.000Z";
  timezone = some "Asia/Jakarta";
  recurrence = some (rule RecurrenceFrequency.none none none none);
  agent_id = none;
  profile_id = none;
  task_id = none;
  priority = some SchedulePriority.low;
  status = ScheduleStatus.scheduled;
  source = ScheduleSource.mission_control;
  notes = none;
  created_at = "2026-09-05T14:00:00.000Z";
}

abbrev conflict_test : ScheduleItem
conflict_test = record {
  id = "sched-007";
  type = ScheduleItemType.task;
  title = "Advisory Conflict Test Task";
  description = some "Overlaps with Daily Marketing Briefing to verify advisory conflict banner.";
  start_at = "2026-09-10T09:15:00.000Z";
  end_at = some "2026-09-10T10:15:00.000Z";
  timezone = some "Asia/Jakarta";
  recurrence = some (rule RecurrenceFrequency.none none none none);
  agent_id = some "marketing";
  profile_id = some "marketing";
  task_id = none;
  priority = some SchedulePriority.medium;
  status = ScheduleStatus.scheduled;
  source = ScheduleSource.mission_control;
  notes = none;
  created_at = "2026-09-06T10:00:00.000Z";
}

abbrev pub initial_schedules : List ScheduleItem
initial_schedules =
    daily_briefing ∷ lead_follow_up ∷ health_review ∷ expiration_warning ∷ editorial_dispatch
    ∷ team_sync ∷ conflict_test ∷ []
