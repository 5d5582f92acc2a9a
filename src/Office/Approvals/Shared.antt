-- ===== src/Office/Approvals/Shared.antt =====
-- The collaboration items, against the tasks and the delegations that they are made from.
use virtual_office_sagara_ag.Prelude.{
  ℕ, ◌+◌, ◌≤◌, ◌<◌, String, ◌≡◌, refl, sym, ap, ◌∙◌, Bool, true, false, not, ◌&&◌, ◌||◌, ◌==◌,
  Option, none, some, List, [], ◌∷◌, map, take, filter, filter_eq, filter-filter, any, any_eq,
  any-filter, length, includes, arith, if_cases, or_else,
}
use virtual_office_sagara_ag.Prelude.JsSet.{IsDistinct, add, add-IsDistinct, includes-add}
use virtual_office_sagara_ag.Domain.Task.{TaskProjection, TaskState}
use virtual_office_sagara_ag.Domain.Runtime.{DelegationProjection, DelegationState}
use virtual_office_sagara_ag.Office.Types.{OfficeCollaborationItem}
use virtual_office_sagara_ag.Office.Summaries.{
  push_origins, collaboration_item, collaboration_items, assigned_list, is_shared, works_on,
}

abbrev runs : DelegationState → Bool
runs DelegationState.running = true
runs _ = false

abbrev is_in_progress : TaskState → Bool
is_in_progress TaskState.running = true
is_in_progress _ = false

abbrev lists : Option (List String) → String → Bool
lists none id = false
lists (some ids) id = includes ids id

-- a running delegation that the task names
abbrev serves : TaskProjection → DelegationProjection → Bool
serves t d = lists t.delegation_ids d.id && runs d.state

-- the agent that the task is assigned to; an empty text is none
abbrev is_assigned : Option String → String → Bool
is_assigned none id = false
is_assigned (some agent) id = not (agent == "") && agent == id

-- What an item tells of a task: its delegations are those of the list that run and that the task names,
-- and its agents are, each once, the one that the task is assigned to and those that these delegations
-- come from.
pub record IsGroup (delegations : List DelegationProjection) (t : TaskProjection)
    (item : OfficeCollaborationItem) : Type 0 where
  pub named : item.task_id ≡ t.id
  pub state : item.state ≡ t.state
  pub counted :
      (p : DelegationProjection → Bool)
      → length (filter p item.delegations) ≡ length (filter (λ d. serves t d && p d) delegations)
  pub members :
      (id : String)
      → includes item.agent_ids id ≡ (
          is_assigned t.assigned_agent_id id
          || any (λ d. serves t d && d.origin_agent_id == id) delegations)
  pub distinct : IsDistinct item.agent_ids

abbrev participants : OfficeCollaborationItem → ℕ
participants item = length item.agent_ids + length item.delegations

-- The items of a list of tasks: one for each running task that has more than one agent and delegation
-- in all, in the order of the tasks, and none for any other.
pub data Groups (delegations : List DelegationProjection)
    : List TaskProjection → List OfficeCollaborationItem → Type 0 where
  nothing : Groups delegations [] []
  idle :
      {t : TaskProjection} {rest : List TaskProjection} {items : List OfficeCollaborationItem}
      → is_in_progress t.state ≡ false
      → Groups delegations rest items
      → Groups delegations (t ∷ rest) items
  alone :
      {t : TaskProjection} {rest : List TaskProjection} {items : List OfficeCollaborationItem}
      (item : OfficeCollaborationItem)
      → IsGroup delegations t item
      → participants item ≤ 1
      → Groups delegations rest items
      → Groups delegations (t ∷ rest) items
  shared :
      {t : TaskProjection} {rest : List TaskProjection} {items : List OfficeCollaborationItem}
      {item : OfficeCollaborationItem}
      → is_in_progress t.state ≡ true
      → IsGroup delegations t item
      → 1 < participants item
      → Groups delegations rest items
      → Groups delegations (t ∷ rest) (item ∷ items)

running-runs : (s : DelegationState) → virtual_office_sagara_ag.Domain.Runtime.is_running s ≡ runs s
running-runs DelegationState.queued = refl
running-runs DelegationState.claimed = refl
running-runs DelegationState.running = refl
running-runs DelegationState.completed = refl
running-runs DelegationState.failed = refl
running-runs DelegationState.cancelled = refl
running-runs DelegationState.unknown = refl

running-in_progress :
    (s : TaskState) → virtual_office_sagara_ag.Domain.Task.is_running s ≡ is_in_progress s
running-in_progress TaskState.draft = refl
running-in_progress TaskState.ready = refl
running-in_progress TaskState.queued = refl
running-in_progress TaskState.dispatching = refl
running-in_progress TaskState.running = refl
running-in_progress TaskState.awaiting_approval = refl
running-in_progress TaskState.blocked = refl
running-in_progress TaskState.completed = refl
running-in_progress TaskState.failed = refl
running-in_progress TaskState.cancelled = refl

includes-or_else :
    (o : Option (List String)) (id : String) → includes (or_else o []) id ≡ lists o id
includes-or_else none id = refl
includes-or_else (some ids) id = refl

works_on-serves : (t : TaskProjection) (d : DelegationProjection) → works_on t d ≡ serves t d
works_on-serves t d =
    ap (λ b. includes (or_else t.delegation_ids []) d.id && b) (running-runs d.state)
    ∙ ap (λ b. b && runs d.state) (includes-or_else t.delegation_ids d.id)

includes-assigned_list :
    (o : Option String) (id : String) → includes (assigned_list o) id ≡ is_assigned o id
includes-assigned_list none id = refl
includes-assigned_list (some agent) id = ground arith

includes-push_origins :
    (ds : List DelegationProjection) (ids : List String) (id : String)
    → includes (push_origins ds ids) id ≡ (includes ids id || any (λ d. d.origin_agent_id == id) ds)
unfolding push_origins add
includes-push_origins [] ids id = ground arith
includes-push_origins (d ∷ rest) ids id =
    includes-push_origins rest _ id ∙ ground (arith, includes-add ids d.origin_agent_id id)

push_origins-IsDistinct :
    (ds : List DelegationProjection) (ids : List String)
    → IsDistinct ids
    → IsDistinct (push_origins ds ids)
unfolding push_origins add
push_origins-IsDistinct [] ids h = h
push_origins-IsDistinct (d ∷ rest) ids h =
    push_origins-IsDistinct rest _ (add-IsDistinct ids d.origin_agent_id h)

assigned_list-IsDistinct : (o : Option String) → IsDistinct (assigned_list o)
assigned_list-IsDistinct none = tt
assigned_list-IsDistinct (some id) = ground arith

module _ (delegations : List DelegationProjection) where
  collaboration_item-IsGroup :
      (t : TaskProjection) → IsGroup delegations t (collaboration_item delegations t)
  unfolding collaboration_item
  collaboration_item-IsGroup t = record {
    named = refl;
    state = refl;
    counted = λ p. ap length (
        filter-filter p (works_on t) delegations
        ∙ filter_eq delegations (λ d. ap (λ b. b && p d) (works_on-serves t d)));
    members = λ id.
        includes-push_origins (filter (works_on t) delegations) (assigned_list t.assigned_agent_id)
          id
        ∙ ap (λ b. b || any (λ d. d.origin_agent_id == id) (filter (works_on t) delegations))
            (includes-assigned_list t.assigned_agent_id id)
        ∙ ap (λ b. is_assigned t.assigned_agent_id id || b)
            (any-filter (λ d. d.origin_agent_id == id) (works_on t) delegations
              ∙ any_eq delegations
                  (λ d. ap (λ b. b && d.origin_agent_id == id) (works_on-serves t d)));
    distinct =
        push_origins-IsDistinct (filter (works_on t) delegations) _
          (assigned_list-IsDistinct t.assigned_agent_id);
  }

  abbrev in_progress : List TaskProjection → List TaskProjection
  in_progress = filter (λ t. virtual_office_sagara_ag.Domain.Task.is_running t.state)

  all_items-Groups :
      (tasks : List TaskProjection)
      → Groups delegations tasks
          (filter is_shared (map (collaboration_item delegations) (in_progress tasks)))
  all_items-Groups [] = Groups.nothing
  all_items-Groups (t ∷ rest) =
      let P = λ (ts : List TaskProjection).
        Groups delegations (t ∷ rest)
          (filter is_shared (map (collaboration_item delegations) ts)) in
      let later = all_items-Groups rest in
      if_cases P (virtual_office_sagara_ag.Domain.Task.is_running t.state)
        (λ on.
          if_cases (Groups delegations (t ∷ rest)) (is_shared (collaboration_item delegations t))
            (λ many.
              Groups.shared (sym (running-in_progress t.state) ∙ on) (collaboration_item-IsGroup t)
                (ground (arith, many)) later)
            (λ few.
              Groups.alone (collaboration_item delegations t) (collaboration_item-IsGroup t)
                (ground (arith, few)) later))
        (λ off. Groups.idle (sym (running-in_progress t.state) ∙ off) later)

  -- The pod shows the first three of the items of the tasks. There is an item for exactly the running
  -- tasks that have more than one agent and running delegation in all, in their order. The
  -- delegations of an item are, for any test on them, the running ones that the task names, and its
  -- agents, each listed once, are the assigned one and those that these delegations come from.
  pub collaboration_items-IsGroup :
      (tasks : List TaskProjection)
      → (items : List OfficeCollaborationItem) × Groups delegations tasks items
        × (collaboration_items tasks delegations ≡ take 3 items)
  unfolding collaboration_items
  collaboration_items-IsGroup tasks = (
    filter is_shared (map (collaboration_item delegations) (in_progress tasks)),
    all_items-Groups tasks,
    refl,
  )
