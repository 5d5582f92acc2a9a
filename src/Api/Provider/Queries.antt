-- ===== src/Api/Provider/Queries.antt =====
-- The filters of `getTasks` together, and the task that `createTask` leaves.
use mathlib.Core.Bool.{and_assoc}
use virtual_office_sagara_ag.Prelude.{
  ◌≡◌, refl, sym, ap, ◌∙◌, String, Bool, true, false, not, ◌&&◌, ◌||◌, Option, none, some, List, [],
  ◌∷◌, ◌==◌, if◌then◌else◌, arith, filter, truthy, is_text, or_else, eq→true,
}
use virtual_office_sagara_ag.Engine.{Engine}
use virtual_office_sagara_ag.Domain.Agent.{AgentProjection}
use virtual_office_sagara_ag.Domain.Task.{
  TaskState, TaskPriority, TaskProjection, TaskAttention, TaskQuery, CreateTaskInput,
}
use virtual_office_sagara_ag.Api.Http.{Result}
use virtual_office_sagara_ag.Api.Provider.{ProviderState, Instant, Setting, is_mock}
use virtual_office_sagara_ag.Api.Provider.Tasks.{get_tasks, create_task, get_task_by_id}
use virtual_office_sagara_ag.Api.Provider.TaskFilters.{
  by_search, by_state, by_priority, by_agent_id, by_attention, by_skill, filter_tasks,
  matches_search, same_state, same_priority, list_includes,
}
use virtual_office_sagara_ag.Api.Provider.TaskChanges.{new_task}

-- What each field of a query asks of a task.
abbrev asks_search : Engine → List AgentProjection → Option String → TaskProjection → Bool
asks_search js agents none t = true
asks_search js agents (some text) t =
    text == "" || matches_search js agents (js.to_lower_case text) t

abbrev asks_state : Option (Option TaskState) → TaskProjection → Bool
asks_state (some (some s)) t = same_state t.state s
asks_state _ t = true

abbrev asks_priority : Option (Option TaskPriority) → TaskProjection → Bool
asks_priority (some (some p)) t = same_priority t.priority p
asks_priority _ t = true

abbrev asks_agent_id : Option String → TaskProjection → Bool
asks_agent_id none t = true
asks_agent_id (some id) t =
    (id == "" || id == "ALL")
    || (if id == "UNASSIGNED"
        then not (truthy t.assigned_agent_id)
        else is_text t.assigned_agent_id id)

abbrev asks_attention : Option TaskAttention → TaskProjection → Bool
asks_attention none t = true
asks_attention (some TaskAttention.all) t = true
asks_attention (some TaskAttention.approval) t = same_state t.state TaskState.awaiting_approval
asks_attention (some TaskAttention.blocked) t = same_state t.state TaskState.blocked
asks_attention (some TaskAttention.failed) t = same_state t.state TaskState.failed

abbrev asks_skill : Option String → TaskProjection → Bool
asks_skill none t = true
asks_skill (some skill) t =
    (skill == "" || skill == "ALL")
    || (list_includes t.requested_skills skill || list_includes t.capability_requirements skill)

-- A task is what the query asks for, in every field.
abbrev pub fits : Engine → List AgentProjection → TaskQuery → TaskProjection → Bool
fits js agents q t =
    asks_search js agents q.search t
    && (asks_state q.state t
        && (asks_priority q.priority t
            && (asks_agent_id q.agent_id t
                && (asks_attention q.attention t && asks_skill q.skill t))))

module _ {ℓ} {A : Type ℓ} where
  filter-all : (xs : List A) → filter (λ x. true) xs ≡ xs
  filter-all [] = refl
  filter-all (x ∷ xs) = ap (λ l. x ∷ l) (filter-all xs)

  filter-filter :
      (p q : A → Bool) (xs : List A) → filter p (filter q xs) ≡ filter (λ x. q x && p x) xs
  filter-filter p q [] = refl
  filter-filter p q (x ∷ xs) = ground (arith, filter-filter p q xs)

  unless-filter :
      (b : Bool) (p : A → Bool) (xs : List A)
      → (if b then xs else filter p xs) ≡ filter (λ x. b || p x) xs
  unless-filter true p xs = sym (filter-all xs)
  unless-filter false p xs = refl

  choose-filter :
      (b : Bool) (p q : A → Bool) (xs : List A)
      → (if b then filter p xs else filter q xs) ≡ filter (λ x. if b then p x else q x) xs
  choose-filter true p q xs = refl
  choose-filter false p q xs = refl

-- Each filter keeps what its field asks for.
by_search-filter :
    (js : Engine) (agents : List AgentProjection) (q : Option String) (ts : List TaskProjection)
    → by_search js agents q ts ≡ filter (asks_search js agents q) ts
unfolding by_search
by_search-filter js agents none ts = sym (filter-all ts)
by_search-filter js agents (some text) ts = unless-filter (text == "") _ ts

by_state-filter :
    (q : Option (Option TaskState)) (ts : List TaskProjection)
    → by_state q ts ≡ filter (asks_state q) ts
unfolding by_state
by_state-filter none ts = sym (filter-all ts)
by_state-filter (some none) ts = sym (filter-all ts)
by_state-filter (some (some s)) ts = refl

by_priority-filter :
    (q : Option (Option TaskPriority)) (ts : List TaskProjection)
    → by_priority q ts ≡ filter (asks_priority q) ts
unfolding by_priority
by_priority-filter none ts = sym (filter-all ts)
by_priority-filter (some none) ts = sym (filter-all ts)
by_priority-filter (some (some p)) ts = refl

by_agent_id-filter :
    (q : Option String) (ts : List TaskProjection) → by_agent_id q ts ≡ filter (asks_agent_id q) ts
unfolding by_agent_id
by_agent_id-filter none ts = sym (filter-all ts)
by_agent_id-filter (some id) ts =
    ap (λ rest. if id == "" || id == "ALL" then ts else rest)
      (choose-filter (id == "UNASSIGNED") _ _ ts)
    ∙ unless-filter (id == "" || id == "ALL") _ ts

by_attention-filter :
    (q : Option TaskAttention) (ts : List TaskProjection)
    → by_attention q ts ≡ filter (asks_attention q) ts
unfolding by_attention
by_attention-filter none ts = sym (filter-all ts)
by_attention-filter (some TaskAttention.all) ts = sym (filter-all ts)
by_attention-filter (some TaskAttention.approval) ts = refl
by_attention-filter (some TaskAttention.blocked) ts = refl
by_attention-filter (some TaskAttention.failed) ts = refl

by_skill-filter :
    (q : Option String) (ts : List TaskProjection) → by_skill q ts ≡ filter (asks_skill q) ts
unfolding by_skill
by_skill-filter none ts = sym (filter-all ts)
by_skill-filter (some skill) ts = unless-filter (skill == "" || skill == "ALL") _ ts

filter_tasks-fits :
    (js : Engine) (agents : List AgentProjection) (q : TaskQuery) (ts : List TaskProjection)
    → filter_tasks js agents (some q) ts ≡ filter (fits js agents q) ts
unfolding filter_tasks
filter_tasks-fits js agents q ts =
    rw
      (
        by_search-filter js agents q.search ts,
        by_state-filter q.state,
        by_priority-filter q.priority,
        by_agent_id-filter q.agent_id,
        by_attention-filter q.attention,
        by_skill-filter q.skill,
      )
      (simp (filter-filter, and_assoc))

module _ (setting : Setting) (st : ProviderState) where
  open setting use {js, fixtures}

  -- In mock mode `getTasks` gives the tasks that fit every field of the query, all of them, in their
  -- order, and changes nothing.
  pub get_tasks-fits :
      (q : TaskQuery)
      → is_mock setting ≡ true
      → get_tasks setting (some q) st
        ≡ (st, Result.ok (filter (fits js fixtures.mock_agents q) st.tasks_state))
  unfolding get_tasks
  get_tasks-fits q mock = rw (mock, filter_tasks-fits js fixtures.mock_agents q st.tasks_state) refl

  -- In mock mode the task that `createTask` returns is the one that `getTaskById` gives for its id
  -- afterwards; its state is the one that was asked for, or that of a draft.
  pub get-create_task :
      (now : Instant) (uuid : String) (input : CreateTaskInput)
      → is_mock setting ≡ true
      → (t : TaskProjection) × ((create_task setting now uuid input st).1 ≡ Result.ok t)
        × ((get_task_by_id setting t.id (create_task setting now uuid input st).0).1
            ≡ Result.ok (some t))
        × (t.state ≡ or_else input.state TaskState.draft)
  unfolding create_task get_task_by_id
  get-create_task now uuid input mock =
      let task = new_task now st.tasks_state input in
      (task, rw mock refl, rw (mock, eq→true task.id task.id refl) refl, refl)
