-- ===== src/Realtime/Cache.antt =====
-- realtime-cache.ts: how a snapshot and a delta write the query cache. `setQueryData` with an updater
-- calls it once on the data that is there, and leaves the cache alone on `undefined`.
pub mod Merge
mod Reads
pub mod Coherence
pub mod Details
pub mod Severity
use virtual_office_sagara_ag.Prelude.{
  ℕ, String, Bool, true, false, Option, none, some, List, [], ◌∷◌, map, ◌==◌, if◌then◌else◌,
  or_else, length, filter, includes,
}
use virtual_office_sagara_ag.Prelude.JsMap
use virtual_office_sagara_ag.Prelude.JsMap.{Map}
use virtual_office_sagara_ag.Prelude.JsMap.Keyed.{set_each, delete_each}
use virtual_office_sagara_ag.Prelude.JsSet
use virtual_office_sagara_ag.Prelude.Sort.{sort}
use virtual_office_sagara_ag.Engine.{Engine}
use virtual_office_sagara_ag.Domain.Agent.{AgentProjection, is_active}
use virtual_office_sagara_ag.Domain.MissionControl.{
  MissionControlSnapshot, AttentionItem, ActiveAgentsPulse, AttentionPulse, is_critical, is_high,
}
use virtual_office_sagara_ag.Dto.Agent.{AgentDto}
use virtual_office_sagara_ag.Dto.Runtime.{DelegationDto}
use virtual_office_sagara_ag.Dto.MissionControl.{AttentionItemDto}
use virtual_office_sagara_ag.Mapper.Agent.{map_agent_dto_to_domain}
use virtual_office_sagara_ag.Mapper.Runtime.{map_delegation_dto_to_domain}
use virtual_office_sagara_ag.Mapper.MissionControl.{map_attention_item_dto_to_domain}
use virtual_office_sagara_ag.Realtime.Protocol.{
  RealtimeGatewayDto, RealtimeRuntimeSummaryDto, EntityDeltaDto, RealtimeChangesDto,
  RealtimeSnapshotPayloadDto, RealtimeDeltaPayloadDto,
}
use virtual_office_sagara_ag.Realtime.Mappers.{
  map_realtime_gateway, map_realtime_runtime_overview, gateway_pulse,
}
use virtual_office_sagara_ag.Realtime.Queries.{QueryKey, QueryClient}

-- `agents.filter((a) => a.runtime.state === 'ACTIVE').length` and `agents.length`
abbrev pub active_agents_pulse : List AgentProjection → ActiveAgentsPulse
active_agents_pulse agents = record {
  active = length (filter (λ a. is_active a.runtime.state) agents);
  enabled_total = length agents;
}

abbrev pub attention_pulse : List AttentionItem → AttentionPulse
attention_pulse items = record {
  count = length items;
  critical_count = length (filter (λ i. is_critical i.severity) items);
  high_count = length (filter (λ i. is_high i.severity) items);
}

abbrev pub agent_id : AgentProjection → String
agent_id a = a.id

abbrev pub attention_id : AttentionItem → String
attention_id i = i.id

-- `map.set(a.id, a)` for each agent that is not removed
pub keep_agents : List String → List AgentProjection → Map AgentProjection → Map AgentProjection
keep_agents removed [] m = m
keep_agents removed (a ∷ rest) m =
    keep_agents removed rest (if includes removed a.id then m else JsMap.set m a.id a)

-- `a.id.localeCompare(b.id)` as a sort order
abbrev pub id_le : Engine → AgentProjection → AgentProjection → Bool
id_le js a b = js.locale_le a.id b.id

-- The agent list after a delta: kept and upserted agents, sorted by id.
unfoldable pub merge_agents :
    Engine → List String → List AgentProjection → List AgentProjection → List AgentProjection
unfolding keep_agents
merge_agents js removed upserted old =
    sort (id_le js) (JsMap.values (set_each agent_id upserted (keep_agents removed old [])))

-- The attention queue after a delta.
unfoldable pub merge_attention :
    List String → List AttentionItem → List AttentionItem → List AttentionItem
merge_attention removed upserted current =
    JsMap.values
      (set_each attention_id upserted (delete_each removed (set_each attention_id current [])))

-- the updaters of the pulse in `applyRealtimeDelta`
abbrev pub set_gateway : RealtimeGatewayDto → MissionControlSnapshot → MissionControlSnapshot
set_gateway gateway prev = record prev {
  pulse = record prev.pulse { gateway = gateway_pulse (some gateway) };
}

abbrev pub set_sessions :
    RealtimeRuntimeSummaryDto → MissionControlSnapshot → MissionControlSnapshot
set_sessions summary prev = record prev {
  pulse = record prev.pulse {
    sessions = record prev.pulse.sessions {
      active = or_else summary.active_sessions_count prev.pulse.sessions.active;
    };
  };
}

abbrev pub set_active_agents :
    List AgentProjection → MissionControlSnapshot → MissionControlSnapshot
set_active_agents agents prev = record prev {
  pulse = record prev.pulse { active_agents = active_agents_pulse agents };
}

abbrev pub set_attention :
    List String → List AttentionItem → MissionControlSnapshot → MissionControlSnapshot
set_attention removed upserted prev =
    let queue = merge_attention removed upserted prev.attention_queue in
    record prev {
      pulse = record prev.pulse { attention = attention_pulse queue };
      attention_queue = queue;
    }

module _ (qc : QueryClient) where
  open qc use {Cache, get_query_data, set_query_data, remove_queries, invalidate_queries}

  -- `for (const agent of agents) setQueryData(queryKeys.agents.detail(agent.id), agent)`
  pub set_details : List AgentProjection → Cache → Cache
  set_details [] c = c
  set_details (a ∷ rest) c = set_details rest (set_query_data c (QueryKey.agent_detail a.id) a)

  pub remove_details : List String → Cache → Cache
  remove_details [] c = c
  remove_details (id ∷ rest) c = remove_details rest (remove_queries c (QueryKey.agent_detail id))

  -- `setQueryData(queryKeys.pulse, (prev) => prev ? f(prev) : undefined)`
  unfoldable pub update_pulse : (MissionControlSnapshot → MissionControlSnapshot) → Cache → Cache
  update_pulse f c = elim (get_query_data c QueryKey.pulse) [
    | none ↦ c
    | some prev ↦ set_query_data c QueryKey.pulse (f prev)
  ]

  -- the pulse that a snapshot builds from the one before
  unfoldable pub snapshot_pulse :
      RealtimeSnapshotPayloadDto
      → List AgentProjection
      → List AttentionItem
      → Option MissionControlSnapshot
      → MissionControlSnapshot
  snapshot_pulse snapshot agents items prev = record {
    is_mock = elim prev [ none ↦ false | some p ↦ p.is_mock ];
    timestamp = snapshot.generated_at;
    pulse = record {
      gateway = gateway_pulse snapshot.gateway;
      profiles = elim prev [
        | none ↦ record { registered = 0; enabled = 0; incomplete = 0 }
        | some p ↦ p.pulse.profiles
      ];
      active_agents = active_agents_pulse agents;
      sessions = record {
        active = elim snapshot.runtime_summary [
          | none ↦ 0
          | some summary ↦ or_else summary.active_sessions_count 0
        ];
        total_agents = length agents;
      };
      skills = elim prev [
        | none ↦ record { healthy = 0; degraded = 0; missing = 0 }
        | some p ↦ p.pulse.skills
      ];
      attention = attention_pulse items;
    };
    attention_queue = items;
    recent_activity = elim prev [ none ↦ [] | some p ↦ p.recent_activity ];
  }

  unfoldable pub patch_gateway : Option RealtimeGatewayDto → Cache → Cache
  patch_gateway none c = c
  patch_gateway (some gateway) c =
      update_pulse (set_gateway gateway)
        (set_query_data c QueryKey.runtime_gateway (map_realtime_gateway (some gateway)))

  unfoldable pub patch_runtime_summary : Option RealtimeRuntimeSummaryDto → Cache → Cache
  patch_runtime_summary none c = c
  patch_runtime_summary (some summary) c =
      update_pulse (set_sessions summary)
        (set_query_data c QueryKey.runtime_overview (map_realtime_runtime_overview (some summary)))

  -- `if (summary) invalidateQueries(key)`
  unfoldable pub invalidate_if {ℓ} : {A : Type ℓ} → Option A → QueryKey → Cache → Cache
  invalidate_if none k c = c
  invalidate_if (some _) k c = invalidate_queries c k

  unfoldable pub patch_agents : Engine → Option (EntityDeltaDto AgentDto) → Cache → Cache
  patch_agents js none c = c
  patch_agents js (some delta) c =
      let upserted = map (map_agent_dto_to_domain js) (or_else delta.upsert []) in
      let removed = JsSet.of_array (or_else delta.remove []) in
      let old = or_else (get_query_data c QueryKey.agents_all) [] in
      let updated = merge_agents js removed upserted old in
      set_query_data
        (update_pulse (set_active_agents updated) (remove_details removed (set_details upserted c)))
        QueryKey.agents_all updated

  module _ (js : Engine) (now : String) where
    -- `applyRealtimeSnapshot`
    unfoldable pub apply_realtime_snapshot : RealtimeSnapshotPayloadDto → Cache → Cache
    apply_realtime_snapshot snapshot c₀ =
        let agents = map (map_agent_dto_to_domain js) (or_else snapshot.agents []) in
        let c₁ = set_query_data c₀ QueryKey.agents_all agents in
        let c₂ = set_details agents c₁ in
        let c₃ =
          set_query_data c₂ QueryKey.runtime_gateway (map_realtime_gateway snapshot.gateway) in
        let c₄ =
          set_query_data c₃ QueryKey.runtime_overview
            (map_realtime_runtime_overview snapshot.runtime_summary) in
        let c₅ =
          set_query_data c₄ QueryKey.delegations_all
            (map (map_delegation_dto_to_domain js) (or_else snapshot.active_delegations [])) in
        let items = map (map_attention_item_dto_to_domain js now) (or_else snapshot.attention []) in
        set_query_data c₅ QueryKey.pulse
          (snapshot_pulse snapshot agents items (get_query_data c₅ QueryKey.pulse))

    unfoldable pub patch_attention :
        Option (EntityDeltaDto (Option AttentionItemDto)) → Cache → Cache
    patch_attention none c = c
    patch_attention (some delta) c =
        let upserted = map (map_attention_item_dto_to_domain js now) (or_else delta.upsert []) in
        let removed = JsSet.of_array (or_else delta.remove []) in
        update_pulse (set_attention removed upserted) c

    unfoldable pub apply_changes : RealtimeChangesDto → Cache → Cache
    apply_changes changes c₀ =
        let c₁ = patch_gateway changes.gateway c₀ in
        let c₂ = patch_runtime_summary changes.runtime_summary c₁ in
        let c₃ = patch_agents js changes.agents c₂ in
        let c₄ = invalidate_if changes.task_summary QueryKey.tasks_all c₃ in
        let c₅ = invalidate_if changes.approval_summary QueryKey.approvals_all c₄ in
        let c₆ = invalidate_if changes.active_delegations QueryKey.delegations_all c₅ in
        patch_attention changes.attention c₆

    -- `applyRealtimeDelta`
    unfoldable pub apply_realtime_delta : RealtimeDeltaPayloadDto → Cache → Cache
    apply_realtime_delta delta c = elim delta.changes [
      | none ↦ c
      | some changes ↦ apply_changes changes c
    ]
