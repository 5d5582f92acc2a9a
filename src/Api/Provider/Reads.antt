-- ===== src/Api/Provider/Reads.antt =====
-- frontend/src/api/provider.ts: agents and delegations, which are only read.
use virtual_office_sagara_ag.Prelude.{
  String, Option, none, List, map, ◌==◌, if◌then◌else◌, find, append_text,
}
use virtual_office_sagara_ag.Domain.Agent.{AgentProjection}
use virtual_office_sagara_ag.Domain.Runtime.{DelegationProjection}
use virtual_office_sagara_ag.Mapper.Agent.{map_agent_dto_to_domain}
use virtual_office_sagara_ag.Mapper.Runtime.{map_delegation_dto_to_domain}
use virtual_office_sagara_ag.Api.Client.{get_options}
use virtual_office_sagara_ag.Api.Http.{Result}
use virtual_office_sagara_ag.Api.Provider.{
  Setting, is_mock_mode, call, finish, finish_or_null, is_mock,
}

module _ (setting : Setting) where
  open setting use {js, fixtures, Json}

  unfoldable pub get_agents : Result Json (List AgentProjection)
  unfolding finish is_mock_mode
  get_agents =
      if is_mock setting
      then Result.ok fixtures.mock_agents
      else finish setting setting.as_agents (map (map_agent_dto_to_domain js))
          (call setting "/api/v1/agents" (get_options none))

  unfoldable pub get_agent_by_id : String → Result Json (Option AgentProjection)
  unfolding finish_or_null is_mock_mode
  get_agent_by_id id =
      if is_mock setting
      then Result.ok (find (λ a. a.id == id) fixtures.mock_agents)
      else finish_or_null setting setting.as_agent (map_agent_dto_to_domain js)
          (call setting (append_text "/api/v1/agents/" id) (get_options none))

  unfoldable pub get_delegations : Result Json (List DelegationProjection)
  unfolding finish is_mock_mode
  get_delegations =
      if is_mock setting
      then Result.ok fixtures.mock_delegations
      else finish setting setting.as_delegations (map (map_delegation_dto_to_domain js))
          (call setting "/api/v1/delegations" (get_options none))

  unfoldable pub get_delegation_by_id : String → Result Json (Option DelegationProjection)
  unfolding finish_or_null is_mock_mode
  get_delegation_by_id id =
      if is_mock setting
      then Result.ok (find (λ d. d.id == id) fixtures.mock_delegations)
      else finish_or_null setting setting.as_delegation (map_delegation_dto_to_domain js)
          (call setting (append_text "/api/v1/delegations/" id) (get_options none))
