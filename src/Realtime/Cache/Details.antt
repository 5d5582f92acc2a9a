-- ===== src/Realtime/Cache/Details.antt =====
-- The cached agent list and the cached agent details after a delta.
use virtual_office_sagara_ag.Prelude.{
  String, ◌≡◌, ◌∙◌, none, some, List, [], map, or_else, or_some, if◌then◌else◌, includes,
}
use virtual_office_sagara_ag.Prelude.JsSet
use virtual_office_sagara_ag.Prelude.JsMap.Keyed.{find_key, last_key}
use virtual_office_sagara_ag.Engine.{Engine}
use virtual_office_sagara_ag.Domain.Agent.{AgentProjection}
use virtual_office_sagara_ag.Dto.Agent.{AgentDto}
use virtual_office_sagara_ag.Mapper.Agent.{map_agent_dto_to_domain}
use virtual_office_sagara_ag.Realtime.Protocol.{EntityDeltaDto}
use virtual_office_sagara_ag.Realtime.Queries.{QueryKey, QueryClient}
use virtual_office_sagara_ag.Realtime.Cache.{agent_id, patch_agents}
use virtual_office_sagara_ag.Realtime.Cache.Merge.{find-merge_agents}
use virtual_office_sagara_ag.Realtime.Cache.Reads.{
  get-set_details_detail, get-remove_details_detail, get-update_pulse_ne,
}

-- `changes.agents.upsert` as agents, and `changes.agents.remove`
abbrev pub upserts : Engine → EntityDeltaDto AgentDto → List AgentProjection
upserts js delta = map (map_agent_dto_to_domain js) (or_else delta.upsert [])

abbrev pub removals : EntityDeltaDto AgentDto → List String
removals delta = or_else delta.remove []

module _ (qc : QueryClient) (js : Engine) (delta : EntityDeltaDto AgentDto) where
  open qc use {Cache, get_query_data, get-set_self, get-set_ne}

  abbrev pub cached_agents : Cache → List AgentProjection
  cached_agents c = or_else (get_query_data c QueryKey.agents_all) []

  -- After an agent delta the cached list has, under every id, the last agent upserted with it; else
  -- the agent that was cached, if the id is not removed; else none.
  pub find-patch_agents :
      (c : Cache) (id : String)
      → find_key agent_id (cached_agents (patch_agents qc js (some delta) c)) id
        ≡ or_some
            (last_key agent_id (upserts js delta) id)
            (if includes (removals delta) id then none else last_key agent_id (cached_agents c) id)
  unfolding patch_agents
  find-patch_agents c id = rw (get-set_self _ QueryKey.agents_all _) (
      find-merge_agents js (JsSet.of_array (removals delta)) (upserts js delta) (cached_agents c) id
      ∙ rw (JsSet.includes-add_all [] (removals delta) id))

  -- The detail of an id is dropped if the id is removed, also when it is upserted at once; else it
  -- is the last agent upserted with the id, or what it was.
  pub detail-patch_agents :
      (c : Cache) (id : String)
      → get_query_data (patch_agents qc js (some delta) c) (QueryKey.agent_detail id) ≡ (
          if includes (removals delta) id
          then none
          else or_some
              (last_key agent_id (upserts js delta) id)
              (get_query_data c (QueryKey.agent_detail id)))
  unfolding patch_agents
  detail-patch_agents c id =
      get-set_ne _ QueryKey.agents_all (QueryKey.agent_detail id) _ (λ e. cc)
      ∙ get-update_pulse_ne qc _ _ (QueryKey.agent_detail id) (λ e. cc)
      ∙ get-remove_details_detail qc (JsSet.of_array (removals delta)) _ id
      ∙ rw (
        JsSet.includes-add_all [] (removals delta) id,
        get-set_details_detail qc (upserts js delta) c id,
      )
