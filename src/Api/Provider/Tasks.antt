-- ===== src/Api/Provider/Tasks.antt =====
-- frontend/src/api/provider.ts: the operations on tasks.
use mathlib.Core.Option
use virtual_office_sagara_ag.Prelude.{
  String, Bool, true, Option, none, some, List, [], ◌∷◌, map, if◌then◌else◌, find, update_first,
  append_text,
}
use virtual_office_sagara_ag.Domain.Task.{
  TaskProjection, CreateTaskInput, UpdateTaskInput, TaskQuery,
}
use virtual_office_sagara_ag.Mapper.Task.{
  spell_state, spell_priority, map_task_dto_to_domain, map_create_task_input_to_dto,
  map_update_task_input_to_dto,
}
use virtual_office_sagara_ag.Api.Client.{get_options, post_options, patch_options, delete_options}
use virtual_office_sagara_ag.Api.Http.{Result}
use virtual_office_sagara_ag.Api.Provider.{
  ProviderState, Instant, Sent, Setting, is_mock_mode, refuse, call, finish, finish_or_null,
  finish_done, is_mock,
}
use virtual_office_sagara_ag.Api.Provider.TaskChanges.{
  dispatched, has_id, is_dispatched, merge_input, new_task,
}
use virtual_office_sagara_ag.Api.Provider.TaskFilters.{filter_tasks, spell_all, spell_attention}

abbrev pub task_path : String → String
task_path id = append_text "/api/v1/tasks/" id

abbrev pub not_found : String → String → String
not_found kind id = append_text kind (append_text " " (append_text id " not found"))

module _ (setting : Setting) where
  open setting use {js, fixtures, Json}

  unfoldable pub get_tasks :
      Option TaskQuery → ProviderState → ProviderState × Result Json (List TaskProjection)
  unfolding filter_tasks finish is_mock_mode
  get_tasks filters st =
      if is_mock setting
      then (st, Result.ok (filter_tasks js fixtures.mock_agents filters st.tasks_state))
      else let params = elim filters as (λ _. Option (List (String × Option String))) [
        | none ↦ none
        | some q ↦ some (
            ("search", q.search)
            ∷ (
              "state",
              elim q.state [ none ↦ none | some s ↦ spell_all (Option.map spell_state s) ],
            )
            ∷ (
              "priority",
              elim q.priority [ none ↦ none | some p ↦ spell_all (Option.map spell_priority p) ],
            )
            ∷ ("agentId", q.agent_id)
            ∷ ("attention", Option.map spell_attention q.attention)
            ∷ ("skill", q.skill)
            ∷ [])
      ] in
        (
          st,
          finish setting setting.as_tasks (map (map_task_dto_to_domain js))
              (call setting "/api/v1/tasks" (get_options params)),
        )

  unfoldable pub get_task_by_id :
      String → ProviderState → ProviderState × Result Json (Option TaskProjection)
  unfolding finish_or_null is_mock_mode
  get_task_by_id id st =
      if is_mock setting then (st, Result.ok (find (has_id id) st.tasks_state)) else (
        st,
        finish_or_null setting setting.as_task (map_task_dto_to_domain js)
            (call setting (task_path id) (get_options none)),
      )

  -- `uuid` is `crypto.randomUUID()`
  unfoldable pub create_task :
      Instant
      → (uuid : String) → CreateTaskInput
      → ProviderState
      → ProviderState × Result Json TaskProjection
  unfolding new_task finish is_mock_mode
  create_task now uuid input st =
      if is_mock setting
      then (
        record st { tasks_state = new_task now st.tasks_state input ∷ st.tasks_state },
        Result.ok (new_task now st.tasks_state input),
      )
      else (
        st,
        finish setting setting.as_task (map_task_dto_to_domain js) (
            call setting "/api/v1/tasks" (
              post_options (some (Sent.create_task_body (map_create_task_input_to_dto input)))
                (("Idempotency-Key", uuid) ∷ []))),
      )

  unfoldable pub update_task :
      Instant
      → String
      → UpdateTaskInput
      → ProviderState
      → ProviderState × Result Json TaskProjection
  unfolding merge_input finish is_mock_mode
  update_task now id input st =
      if is_mock setting
      then elim (find (has_id id) st.tasks_state) [
        | none ↦ (st, refuse setting 404 (not_found "Task" id))
        | some current ↦ (
          record st {
            tasks_state = update_first (has_id id) (merge_input now input) st.tasks_state;
          },
          Result.ok (merge_input now input current),
        )
      ]
      else (
        st,
        finish setting setting.as_task (map_task_dto_to_domain js) (
            call setting (task_path id)
              (patch_options (Sent.update_task_body (map_update_task_input_to_dto input)))),
      )

  unfoldable pub dispatch_task :
      Instant
      → (uuid : String) → String
      → ProviderState
      → ProviderState × Result Json TaskProjection
  unfolding dispatched finish is_mock_mode
  dispatch_task now uuid id st =
      if is_mock setting
      then elim (find (has_id id) st.tasks_state) [
        | none ↦ (st, refuse setting 404 (not_found "Task" id))
        | some current ↦
            if is_dispatched current.state
            then (
              st,
              refuse setting 400 (
                  append_text "Task " (
                    append_text id
                      (append_text " is already " (js.to_lower_case (spell_state current.state))))),
            )
            else (
              record st { tasks_state = update_first (has_id id) (dispatched now) st.tasks_state },
              Result.ok (dispatched now current),
            )
      ]
      else (
        st,
        finish setting setting.as_task (map_task_dto_to_domain js) (
            call setting (append_text (task_path id) "/dispatch")
              (post_options (some Sent.empty_object) (("Idempotency-Key", uuid) ∷ []))),
      )

  -- `as_success` reads `{ success: boolean }`
  unfoldable pub delete_task : String → ProviderState → ProviderState × Result Json Bool
  unfolding finish is_mock_mode
  delete_task id st = if is_mock setting then (st, Result.ok true) else (
    st,
    finish setting setting.as_success (λ success. success)
        (call setting (task_path id) delete_options),
  )

  unfoldable pub cancel_task : String → ProviderState → ProviderState × Result Json Bool
  unfolding finish_done is_mock_mode
  cancel_task id st = if is_mock setting then (st, Result.ok true) else (
    st,
    finish_done setting
        (call setting (append_text (task_path id) "/cancel") (post_options none [])),
  )
