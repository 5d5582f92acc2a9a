-- ===== src/Schedule/Conflicts.antt =====
-- schedule-utils.ts: `detectScheduleConflicts`.
use virtual_office_sagara_ag.Prelude.{
  ℕ, ◌+◌, ◌*◌, String, Bool, false, ◌&&◌, Option, none, some, List, [], ◌∷◌, ◌++◌, ◌==◌,
  if◌then◌else◌, or_else, truthy, ltb, append_text,
}
use virtual_office_sagara_ag.Prelude.JsMap
use virtual_office_sagara_ag.Prelude.JsMap.{Map}
use virtual_office_sagara_ag.Engine.{Engine}
use virtual_office_sagara_ag.Schedule.Types.{ScheduleItem}

pub record ScheduleConflict : Type 0 where
  pub item_a : ScheduleItem
  pub item_b : ScheduleItem
  pub agent_id : String
  pub reason : String

-- one turn of the grouping loop: an item without an agent is skipped
unfoldable pub group_item : ScheduleItem → Map (List ScheduleItem) → Map (List ScheduleItem)
group_item item m = elim item.agent_id [
  | none ↦ m
  | some id ↦ if id == "" then m else JsMap.set m id (or_else (JsMap.get m id) [] ++ item ∷ [])
]

-- `byAgent`
unfoldable pub by_agent : List ScheduleItem → Map (List ScheduleItem) → Map (List ScheduleItem)
unfolding group_item
by_agent [] m = m
by_agent (item ∷ rest) m = by_agent rest (group_item item m)

-- `new Date(item.startAt).getTime()`; `none` is NaN
abbrev pub start_of : Engine → ScheduleItem → Option ℕ
start_of js item = js.get_time item.start_at

-- without an end, half an hour after the start
abbrev pub end_of : Engine → ScheduleItem → Option ℕ
end_of js item =
    if truthy item.end_at
    then js.get_time (or_else item.end_at "")
    else elim (start_of js item) [ none ↦ none | some t ↦ some (t + 30 * 60 * 1000) ]

-- `s < t`, false where one of them is NaN
abbrev pub before : Option ℕ → Option ℕ → Bool
before (some s) (some t) = ltb s t
before _ _ = false

-- `startA < endB && endA > startB`
abbrev pub overlaps : Engine → ScheduleItem → ScheduleItem → Bool
overlaps js a b = before (start_of js a) (end_of js b) && before (start_of js b) (end_of js a)

abbrev pub conflict_of : String → ScheduleItem → ScheduleItem → ScheduleConflict
conflict_of agent_id a b = record {
  item_a = a;
  item_b = b;
  agent_id = agent_id;
  reason =
      append_text "Overlapping schedule between \""
        (append_text a.title (append_text "\" and \"" (append_text b.title "\"")));
}

module _ (js : Engine) where
  -- the inner loop: `a` against the items after it
  unfoldable pub conflicts_with : String → ScheduleItem → List ScheduleItem → List ScheduleConflict
  conflicts_with id a [] = []
  conflicts_with id a (b ∷ rest) =
      if overlaps js a b
      then conflict_of id a b ∷ conflicts_with id a rest
      else conflicts_with id a rest

  -- the outer loop over one agent's items
  unfoldable pub conflicts_among : String → List ScheduleItem → List ScheduleConflict
  unfolding conflicts_with
  conflicts_among id [] = []
  conflicts_among id (a ∷ rest) = conflicts_with id a rest ++ conflicts_among id rest

  unfoldable pub conflicts_of_groups : Map (List ScheduleItem) → List ScheduleConflict
  unfolding conflicts_among
  conflicts_of_groups [] = []
  conflicts_of_groups ((id, items) ∷ rest) = conflicts_among id items ++ conflicts_of_groups rest

  -- `detectScheduleConflicts`
  unfoldable pub detect_schedule_conflicts : List ScheduleItem → List ScheduleConflict
  unfolding conflicts_of_groups by_agent
  detect_schedule_conflicts items = conflicts_of_groups (by_agent items [])
