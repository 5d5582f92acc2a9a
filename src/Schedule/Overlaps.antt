-- ===== src/Schedule/Overlaps.antt =====
-- The conflicts that are found are the overlapping pairs of one agent, each once.
use mathlib.Core.List.{append_assoc}
use virtual_office_sagara_ag.Prelude.{
  ℕ, ◌+◌, String, ◌≡◌, refl, sym, ap, ◌∙◌, Bool, false, ◌&&◌, Option, none, some, List, [], ◌∷◌,
  ◌++◌, ◌==◌, if◌then◌else◌, or_else, filter, length, length-append, filter-append, includes,
  is_text, arith, eq_iff, eq_refl, if_both, Bool-cases, inl, inr, true→eq, match_both,
}
use virtual_office_sagara_ag.Prelude.JsMap
use virtual_office_sagara_ag.Prelude.JsMap.{Map, get-set, set-IsDistinct, keys}
use virtual_office_sagara_ag.Prelude.JsSet.{IsDistinct}
use virtual_office_sagara_ag.Engine.{Engine}
use virtual_office_sagara_ag.Schedule.Types.{ScheduleItem}
use virtual_office_sagara_ag.Schedule.Conflicts.{
  ScheduleConflict, group_item, by_agent, overlaps, conflicts_with, conflicts_among,
  conflicts_of_groups, detect_schedule_conflicts,
}

append_nil {ℓ} : {A : Type ℓ} (xs : List A) → xs ++ [] ≡ xs
append_nil [] = refl
append_nil (x ∷ xs) = ap (λ ys. x ∷ ys) (append_nil xs)

abbrev pub is_of : String → ScheduleItem → Bool
is_of id item = is_text item.agent_id id

abbrev group : Map (List ScheduleItem) → String → List ScheduleItem
group m id = or_else (JsMap.get m id) []

group-group_item :
    (item : ScheduleItem) (m : Map (List ScheduleItem)) (id : String)
    → (id == "") ≡ false
    → group (group_item item m) id ≡ (group m id ++ filter (is_of id) (item ∷ []))
unfolding group_item
group-group_item item m id named = go item.agent_id
  where
    go :
        (o : Option String)
        → group (group_item (record item { agent_id = o }) m) id
          ≡ (group m id ++ filter (is_of id) (record item { agent_id = o } ∷ []))
    go none = sym (append_nil (group m id))
    go (some a) = ground (
      arith,
      named,
      append_nil (group m id),
      eq_iff a id,
      get-set m a (group m a ++ record item { agent_id = some a } ∷ []) id,
    )

group-by_agent :
    (items : List ScheduleItem) (m : Map (List ScheduleItem)) (id : String)
    → (id == "") ≡ false
    → group (by_agent items m) id ≡ (group m id ++ filter (is_of id) items)
unfolding by_agent
group-by_agent [] m id named = sym (append_nil (group m id))
group-by_agent (item ∷ rest) m id named =
    group-by_agent rest (group_item item m) id named
    ∙ ap (λ xs. xs ++ filter (is_of id) rest) (group-group_item item m id named)
    ∙ append_assoc (group m id) (filter (is_of id) (item ∷ [])) (filter (is_of id) rest)
    ∙ ap (λ xs. group m id ++ xs) (sym (filter-append (is_of id) (item ∷ []) rest))

group_item-IsDistinct :
    (item : ScheduleItem) (m : Map (List ScheduleItem))
    → IsDistinct (keys m)
    → IsDistinct (keys (group_item item m))
unfolding group_item
group_item-IsDistinct item m d =
    match_both (λ (x : Map (List ScheduleItem)). IsDistinct (keys x)) item.agent_id (λ _. d)
      (λ a _.
        if_both (λ (x : Map (List ScheduleItem)). IsDistinct (keys x)) (a == "") d
          (set-IsDistinct m a (group m a ++ item ∷ []) d))

by_agent-IsDistinct :
    (items : List ScheduleItem) (m : Map (List ScheduleItem))
    → IsDistinct (keys m)
    → IsDistinct (keys (by_agent items m))
unfolding by_agent
by_agent-IsDistinct [] m d = d
by_agent-IsDistinct (item ∷ rest) m d =
    by_agent-IsDistinct rest (group_item item m) (group_item-IsDistinct item m d)

module _ (js : Engine) (id : String) (p : ScheduleItem → ScheduleItem → Bool) where
  -- a conflict of the agent that passes a test on its items
  abbrev pub is_wanted : ScheduleConflict → Bool
  is_wanted c = c.agent_id == id && p c.item_a c.item_b

  abbrev pub overlaps_later : ScheduleItem → ScheduleItem → Bool
  overlaps_later a b = overlaps js a b && p a b

  -- How many pairs of the agent's items overlap and pass the test, the earlier item first.
  abbrev pub count_pairs : List ScheduleItem → ℕ
  count_pairs [] = 0
  count_pairs (a ∷ rest) =
      (if is_of id a then length (filter (λ b. is_of id b && overlaps_later a b) rest) else 0)
      + count_pairs rest

  -- the pairs of a list of items of one agent
  abbrev pairs_among : List ScheduleItem → ℕ
  pairs_among [] = 0
  pairs_among (a ∷ rest) = length (filter (overlaps_later a) rest) + pairs_among rest

  count-conflicts_with :
      (a : ScheduleItem) (xs : List ScheduleItem)
      → length (filter is_wanted (conflicts_with js id a xs))
        ≡ length (filter (overlaps_later a) xs)
  unfolding conflicts_with
  count-conflicts_with a [] = refl
  count-conflicts_with a (b ∷ rest) = ground (arith, eq_refl id, count-conflicts_with a rest)

  count-conflicts_among :
      (xs : List ScheduleItem)
      → length (filter is_wanted (conflicts_among js id xs)) ≡ pairs_among xs
  unfolding conflicts_among
  count-conflicts_among [] = refl
  count-conflicts_among (a ∷ rest) =
      ap length (filter-append is_wanted (conflicts_with js id a rest) (conflicts_among js id rest))
      ∙ length-append (filter is_wanted (conflicts_with js id a rest))
          (filter is_wanted (conflicts_among js id rest))
      ∙ omega (arith, count-conflicts_with a rest, count-conflicts_among rest)

  none-conflicts_with :
      (j : String) (a : ScheduleItem) (xs : List ScheduleItem)
      → (j == id) ≡ false
      → length (filter is_wanted (conflicts_with js j a xs)) ≡ 0
  unfolding conflicts_with
  none-conflicts_with j a [] h = refl
  none-conflicts_with j a (b ∷ rest) h = ground (arith, h, none-conflicts_with j a rest h)

  none-conflicts_among :
      (j : String) (xs : List ScheduleItem)
      → (j == id) ≡ false
      → length (filter is_wanted (conflicts_among js j xs)) ≡ 0
  unfolding conflicts_among
  none-conflicts_among j [] h = refl
  none-conflicts_among j (a ∷ rest) h =
      ap length (filter-append is_wanted (conflicts_with js j a rest) (conflicts_among js j rest))
      ∙ length-append (filter is_wanted (conflicts_with js j a rest))
          (filter is_wanted (conflicts_among js j rest))
      ∙ omega (arith, none-conflicts_with j a rest h, none-conflicts_among j rest h)

  none-conflicts_of_groups :
      (m : Map (List ScheduleItem))
      → includes (keys m) id ≡ false
      → length (filter is_wanted (conflicts_of_groups js m)) ≡ 0
  unfolding conflicts_of_groups
  none-conflicts_of_groups [] h = refl
  none-conflicts_of_groups ((j, xs) ∷ m) h =
      ap length (filter-append is_wanted (conflicts_among js j xs) (conflicts_of_groups js m))
      ∙ length-append (filter is_wanted (conflicts_among js j xs))
          (filter is_wanted (conflicts_of_groups js m))
      ∙ ground (arith, h, none-conflicts_among j xs, none-conflicts_of_groups m)

  count-conflicts_of_groups :
      (m : Map (List ScheduleItem))
      → IsDistinct (keys m)
      → length (filter is_wanted (conflicts_of_groups js m)) ≡ pairs_among (group m id)
  unfolding conflicts_of_groups JsMap.get
  count-conflicts_of_groups [] d = refl
  count-conflicts_of_groups ((j, xs) ∷ m) d =
      ap length (filter-append is_wanted (conflicts_among js j xs) (conflicts_of_groups js m))
      ∙ length-append (filter is_wanted (conflicts_among js j xs))
          (filter is_wanted (conflicts_of_groups js m))
      ∙ elim (Bool-cases (j == id)) [
        | inl e ↦ ground (
          arith,
          e,
          count-conflicts_among xs,
          none-conflicts_of_groups m,
          d.0,
          ap (λ i. length (filter is_wanted (conflicts_among js i xs))) (true→eq j id e),
          ap (includes (keys m)) (true→eq j id e),
        )
        | inr f ↦ ground (arith, f, none-conflicts_among j xs f, count-conflicts_of_groups m d.1)
      ]

  count-filter_of :
      (a : ScheduleItem) (xs : List ScheduleItem)
      → length (filter (overlaps_later a) (filter (is_of id) xs))
        ≡ length (filter (λ b. is_of id b && overlaps_later a b) xs)
  count-filter_of a [] = refl
  count-filter_of a (b ∷ rest) = ground (arith, count-filter_of a rest)

  pairs_among-filter :
      (items : List ScheduleItem) → pairs_among (filter (is_of id) items) ≡ count_pairs items
  pairs_among-filter [] = refl
  pairs_among-filter (a ∷ rest) = ground (arith, count-filter_of a rest, pairs_among-filter rest)

  -- For an agent with a name and any test on two items: the conflicts that are found of the agent and
  -- pass the test are as many as the pairs of the agent's items, the earlier one in the list first,
  -- that overlap in time and pass it. So every overlapping pair is found, once, and nothing else.
  pub count-detect_schedule_conflicts :
      (items : List ScheduleItem)
      → (id == "") ≡ false
      → length (filter is_wanted (detect_schedule_conflicts js items)) ≡ count_pairs items
  unfolding detect_schedule_conflicts JsMap.get
  count-detect_schedule_conflicts items named =
      count-conflicts_of_groups (by_agent items []) (by_agent-IsDistinct items [] tt)
      ∙ ap pairs_among (group-by_agent items [] id named)
      ∙ pairs_among-filter items
