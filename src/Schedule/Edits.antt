-- ===== src/Schedule/Edits.antt =====
-- What the edits of the schedule do, and what is left of them after the page is loaded again.
use virtual_office_sagara_ag.Prelude.{
  String, ◌≡◌, refl, Bool, true, false, List, [], ◌∷◌, ◌==◌, filter, find, any, append_text, arith,
  eq_refl, match_both,
}
use virtual_office_sagara_ag.Schedule.Types.{ScheduleItem}
use virtual_office_sagara_ag.Schedule.Initial.{initial_schedules}
use virtual_office_sagara_ag.Schedule.Store.{
  Saved, ScheduleState, ScheduleData, SchedulePatch, load_initial_schedules, created,
  save_schedules, put_items, add_schedule, update_schedule, delete_schedule, duplicate_schedule,
  reset_to_defaults, has_other_id,
}

abbrev pub has_id : String → ScheduleItem → Bool
has_id id it = it.id == id

filter-other_id :
    (id : String) (items : List ScheduleItem)
    → any (has_id id) items ≡ false
    → filter (has_other_id id) items ≡ items
filter-other_id id [] h = refl
filter-other_id id (it ∷ rest) h = ground (arith, h, filter-other_id id rest)

-- Adding an item and deleting it again leaves the items as they were, where the id that the clock
-- gives is not in use.
delete-add_schedule :
    (now_id now : String) (fields : ScheduleData) (st : ScheduleState)
    → any (has_id (append_text "sched-" now_id)) st.items ≡ false
    → (delete_schedule (append_text "sched-" now_id) (add_schedule now_id now fields st)).items
      ≡ st.items
unfolding delete_schedule add_schedule put_items
delete-add_schedule now_id now fields st h = ground (
  arith,
  eq_refl (append_text "sched-" now_id),
  filter-other_id (append_text "sched-" now_id) st.items h,
)

pub data Edit : Type 0 where
  add : (now_id now : String) (fields : ScheduleData) → Edit
  update : (id : String) (patch : SchedulePatch) → Edit
  delete : (id : String) → Edit
  duplicate : (now_id now id : String) → Edit
  reset : Edit

unfoldable pub edit : Edit → ScheduleState → ScheduleState
edit (Edit.add now_id now fields) st = add_schedule now_id now fields st
edit (Edit.update id patch) st = update_schedule id patch st
edit (Edit.delete id) st = delete_schedule id st
edit (Edit.duplicate now_id now id) st = duplicate_schedule now_id now id st
edit Edit.reset st = reset_to_defaults st

unfoldable pub edit_all : List Edit → ScheduleState → ScheduleState
edit_all [] st = st
edit_all (e ∷ rest) st = edit_all rest (edit e st)

-- The items that a list leaves after a reload: an empty one brings the initial items back.
abbrev pub or_initial : List ScheduleItem → List ScheduleItem
or_initial [] = initial_schedules
or_initial (it ∷ rest) = it ∷ rest

-- Writing works, and what is saved reads as the items, or as the initial ones where there are none.
pub record IsSaved (st : ScheduleState) : Type 0 where
  pub works : st.accepts ≡ true
  pub reads : load_initial_schedules st.saved ≡ or_initial st.items

load-array :
    (items : List ScheduleItem) → load_initial_schedules (Saved.array items) ≡ or_initial items
unfolding load_initial_schedules
load-array [] = refl
load-array (it ∷ rest) = refl

load-or_initial :
    (saved : Saved) → load_initial_schedules saved ≡ or_initial (load_initial_schedules saved)
unfolding load_initial_schedules
load-or_initial Saved.absent = refl
load-or_initial Saved.unreadable = refl
load-or_initial (Saved.array []) = refl
load-or_initial (Saved.array (it ∷ rest)) = refl

put_items-IsSaved :
    (items : List ScheduleItem) (st : ScheduleState)
    → st.accepts ≡ true
    → IsSaved (put_items items st)
unfolding put_items save_schedules
put_items-IsSaved items st h = record { works = ground (arith, h); reads = rw h (load-array items) }

edit-IsSaved : (e : Edit) (st : ScheduleState) → IsSaved st → IsSaved (edit e st)
unfolding edit add_schedule update_schedule delete_schedule duplicate_schedule reset_to_defaults
edit-IsSaved (Edit.add now_id now fields) st h = put_items-IsSaved _ st h.works
edit-IsSaved (Edit.update id patch) st h = put_items-IsSaved _ st h.works
edit-IsSaved (Edit.delete id) st h = put_items-IsSaved _ st h.works
edit-IsSaved (Edit.duplicate now_id now id) st h =
    match_both IsSaved (find (has_id id) st.items) (λ _. h) (λ _ _. put_items-IsSaved _ st h.works)
edit-IsSaved Edit.reset st h = put_items-IsSaved _ st h.works

edit_all-IsSaved : (es : List Edit) (st : ScheduleState) → IsSaved st → IsSaved (edit_all es st)
unfolding edit_all
edit_all-IsSaved [] st h = h
edit_all-IsSaved (e ∷ rest) st h = edit_all-IsSaved rest (edit e st) (edit-IsSaved e st h)

-- While writing works, a page that is loaded again after any edits has the items that the page before
-- had; but where the last item was deleted, it has the initial items.
pub reload-edit_all :
    (saved : Saved) (es : List Edit)
    → (created (edit_all es (created saved true)).saved true).items
      ≡ or_initial (edit_all es (created saved true)).items
reload-edit_all saved es =
    (edit_all-IsSaved es (created saved true)
      (record { works = refl; reads = load-or_initial saved })).reads
