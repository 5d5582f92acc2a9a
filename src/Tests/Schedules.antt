-- ===== src/Tests/Schedules.antt =====
-- Schedules at concrete inputs.
use virtual_office_sagara_ag.Prelude.{
  ◌≡◌, refl, String, true, none, some, List, [], ◌∷◌, filter, length,
}
use virtual_office_sagara_ag.Schedule.Types.{ScheduleItem, ScheduleItemType, ScheduleStatus}
use virtual_office_sagara_ag.Schedule.Conflicts.{detect_schedule_conflicts}
use virtual_office_sagara_ag.Schedule.Overlaps.{is_wanted, count-detect_schedule_conflicts}
use virtual_office_sagara_ag.Schedule.Store.{
  Saved, ScheduleData, ScheduleState, created, item_of, empty_patch,
}
use virtual_office_sagara_ag.Schedule.Edits.{Edit, edit_all, or_initial, reload-edit_all}
use virtual_office_sagara_ag.Tests.Samples.{plain}

abbrev meeting : (title start end : String) → ScheduleData
meeting title start end = record {
  type = ScheduleItemType.event;
  title = title;
  description = none;
  start_at = start;
  end_at = some end;
  timezone = none;
  recurrence = none;
  agent_id = some "lead";
  profile_id = none;
  task_id = none;
  priority = none;
  status = ScheduleStatus.scheduled;
  notes = none;
}

abbrev items : List ScheduleItem
items =
    item_of "a" "nine" (meeting "Long" "nine" "ten")
    ∷ item_of "b" "nine" (meeting "Short" "half past nine" "ten")
    ∷ item_of "c" "nine" (meeting "Undated" "never" "ten")
    ∷ []

count-detect_schedule_conflicts_example :
    length (filter (is_wanted plain "lead" (λ a b. true)) (detect_schedule_conflicts plain items))
    ≡ 1
count-detect_schedule_conflicts_example =
    count-detect_schedule_conflicts plain "lead" (λ a b. true) items refl

abbrev one_item : ScheduleState
one_item = created (Saved.array (item_of "a" "nine" (meeting "Long" "nine" "ten") ∷ [])) true

abbrev edits : List Edit
edits =
    Edit.add "k1" "ten" (meeting "New" "nine" "ten")
    ∷ Edit.update "a"
        (record empty_patch { title = some "Longer"; end_at = some none; agent_id = some none })
    ∷ Edit.duplicate "k2" "ten" "a"
    ∷ Edit.delete "sched-k1"
    ∷ []

reload-edit_all_example :
    (created
      (edit_all edits
        (created (Saved.array (item_of "a" "nine" (meeting "Long" "nine" "ten") ∷ [])) true)).saved
      true).items
    ≡ or_initial
        (edit_all edits (
          created (Saved.array (item_of "a" "nine" (meeting "Long" "nine" "ten") ∷ [])) true)).items
reload-edit_all_example =
    reload-edit_all (Saved.array (item_of "a" "nine" (meeting "Long" "nine" "ten") ∷ [])) edits
