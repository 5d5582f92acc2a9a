-- ===== src/Realtime/Queries.antt =====
-- The query client of TanStack Query, which the frontend only calls: the keys of
-- frontend/src/api/query-keys.ts that the realtime cache uses, and an interface with the documented
-- laws of the calls.
pub mod Table
use virtual_office_sagara_ag.Prelude.{String, ◌≡◌, ◌≢◌, Bool, true, Option, none, some, List}
use virtual_office_sagara_ag.Domain.Agent.{AgentProjection}
use virtual_office_sagara_ag.Domain.Runtime.{
  GatewayTelemetry, DelegationProjection, RuntimeOverview,
}
use virtual_office_sagara_ag.Domain.MissionControl.{MissionControlSnapshot}

pub data QueryKey : Type 0 where
  pulse agents_all runtime_gateway runtime_overview delegations_all tasks_all approvals_all :
      QueryKey
  agent_detail : String → QueryKey

-- The data behind a key. Tasks and approvals are only invalidated.
abbrev pub Data : QueryKey → Type 0
Data QueryKey.pulse = MissionControlSnapshot
Data QueryKey.agents_all = List AgentProjection
Data QueryKey.runtime_gateway = GatewayTelemetry
Data QueryKey.runtime_overview = RuntimeOverview
Data QueryKey.delegations_all = List DelegationProjection
Data QueryKey.tasks_all = Unit
Data QueryKey.approvals_all = Unit
Data (QueryKey.agent_detail id) = AgentProjection

-- `removeQueries` also removes what stands under longer keys, so that `agents_all` removes the details
-- too; the law on other keys is that of a detail, which no key continues.
pub record QueryClient : Type 1 where
  pub Cache : Type 0
  pub get_query_data : Cache → (k : QueryKey) → Option (Data k)
  pub set_query_data : Cache → (k : QueryKey) → Data k → Cache
  pub remove_queries : Cache → QueryKey → Cache
  pub invalidate_queries : Cache → QueryKey → Cache
  pub is_invalidated : Cache → QueryKey → Bool
  pub get-set_self :
      (c : Cache) (k : QueryKey) (v : Data k) → get_query_data (set_query_data c k v) k ≡ some v
  pub get-set_ne :
      (c : Cache) (k j : QueryKey) (v : Data k)
      → k ≢ j
      → get_query_data (set_query_data c k v) j ≡ get_query_data c j
  pub get-remove_self : (c : Cache) (k : QueryKey) → get_query_data (remove_queries c k) k ≡ none
  pub get-remove_ne :
      (c : Cache) (id : String) (j : QueryKey)
      → QueryKey.agent_detail id ≢ j
      → get_query_data (remove_queries c (QueryKey.agent_detail id)) j ≡ get_query_data c j
  pub get-invalidate :
      (c : Cache) (k j : QueryKey) → get_query_data (invalidate_queries c k) j ≡ get_query_data c j
  pub invalidated-invalidate :
      (c : Cache) (k : QueryKey) → is_invalidated (invalidate_queries c k) k ≡ true
