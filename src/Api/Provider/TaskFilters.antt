-- ===== src/Api/Provider/TaskFilters.antt =====
-- frontend/src/api/provider.ts: the filters of `getTasks`.
use virtual_office_sagara_ag.Prelude.{
  String, Bool, false, not, ◌||◌, Option, none, some, List, ◌==◌, if◌then◌else◌, truthy, is_text,
  filter, find, includes,
}
use virtual_office_sagara_ag.Prelude.Texts.{text_includes}
use virtual_office_sagara_ag.Engine.{Engine}
use virtual_office_sagara_ag.Domain.Agent.{AgentProjection}
use virtual_office_sagara_ag.Domain.Task.{
  TaskState, TaskPriority, TaskProjection, TaskAttention, TaskQuery,
}
use virtual_office_sagara_ag.Mapper.Task.{spell_state, spell_priority}

-- `a === b` on the values of the unions, which are texts
abbrev pub same_state : TaskState → TaskState → Bool
same_state s t = spell_state s == spell_state t

abbrev pub same_priority : TaskPriority → TaskPriority → Bool
same_priority s t = spell_priority s == spell_priority t

-- `a && a.toLowerCase().includes(q)`
abbrev pub optional_includes : Engine → Option String → String → Bool
optional_includes js none q = false
optional_includes js (some a) q = if a == "" then false else text_includes (js.to_lower_case a) q

-- `a?.includes(s)`
abbrev pub list_includes : Option (List String) → String → Bool
list_includes none s = false
list_includes (some xs) s = includes xs s

-- The filters of `getTasks`, one after the other.
abbrev pub matches_search : Engine → List AgentProjection → String → TaskProjection → Bool
matches_search js agents q t =
    text_includes (js.to_lower_case t.id) q
    || (text_includes (js.to_lower_case t.title) q
        || (optional_includes js t.description q
            || elim (find (λ a. is_text t.assigned_agent_id a.id) agents) [
              | none ↦ false
              | some a ↦ text_includes (js.to_lower_case a.definition.name) q
            ]))

unfoldable pub by_search :
    Engine → List AgentProjection → Option String → List TaskProjection → List TaskProjection
by_search js agents none tasks = tasks
by_search js agents (some text) tasks =
    if text == "" then tasks else filter (matches_search js agents (js.to_lower_case text)) tasks

unfoldable pub by_state : Option (Option TaskState) → List TaskProjection → List TaskProjection
by_state none tasks = tasks
by_state (some none) tasks = tasks
by_state (some (some s)) tasks = filter (λ t. same_state t.state s) tasks

unfoldable pub by_priority :
    Option (Option TaskPriority) → List TaskProjection → List TaskProjection
by_priority none tasks = tasks
by_priority (some none) tasks = tasks
by_priority (some (some p)) tasks = filter (λ t. same_priority t.priority p) tasks

unfoldable pub by_agent_id : Option String → List TaskProjection → List TaskProjection
by_agent_id none tasks = tasks
by_agent_id (some id) tasks =
    if id == "" || id == "ALL"
    then tasks
    else if id == "UNASSIGNED"
    then filter (λ t. not (truthy t.assigned_agent_id)) tasks
    else filter (λ t. is_text t.assigned_agent_id id) tasks

unfoldable pub by_attention : Option TaskAttention → List TaskProjection → List TaskProjection
by_attention none tasks = tasks
by_attention (some TaskAttention.all) tasks = tasks
by_attention (some TaskAttention.approval) tasks =
    filter (λ t. same_state t.state TaskState.awaiting_approval) tasks
by_attention (some TaskAttention.blocked) tasks =
    filter (λ t. same_state t.state TaskState.blocked) tasks
by_attention (some TaskAttention.failed) tasks =
    filter (λ t. same_state t.state TaskState.failed) tasks

unfoldable pub by_skill : Option String → List TaskProjection → List TaskProjection
by_skill none tasks = tasks
by_skill (some skill) tasks =
    if skill == "" || skill == "ALL"
    then tasks
    else filter
        (λ t.
          list_includes t.requested_skills skill || list_includes t.capability_requirements skill)
        tasks

unfoldable pub filter_tasks :
    Engine → List AgentProjection → Option TaskQuery → List TaskProjection → List TaskProjection
unfolding by_search by_state by_priority by_agent_id by_attention by_skill
filter_tasks js agents none tasks = tasks
filter_tasks js agents (some q) tasks = by_skill q.skill (
    by_attention q.attention (
      by_agent_id q.agent_id
        (by_priority q.priority (by_state q.state (by_search js agents q.search tasks)))))

-- The query as parameters, in the order of the fields of `TaskQuery`; `'ALL'` is sent too.
abbrev pub spell_all : Option String → Option String
spell_all none = some "ALL"
spell_all (some s) = some s

abbrev pub spell_attention : TaskAttention → String
spell_attention TaskAttention.all = "ALL"
spell_attention TaskAttention.approval = "APPROVAL"
spell_attention TaskAttention.blocked = "BLOCKED"
spell_attention TaskAttention.failed = "FAILED"
