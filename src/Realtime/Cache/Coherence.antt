-- ===== src/Realtime/Cache/Coherence.antt =====
-- The counters of the pulse agree with the records that are cached beside them.
use mathlib.Core.Option
use virtual_office_sagara_ag.Prelude.{
  String, inl, inr, Option-cases, ◌≡◌, ◌≢◌, refl, sym, ◌∙◌, Option, none, some, List, [], map,
  or_else,
}
use virtual_office_sagara_ag.Prelude.JsSet
use virtual_office_sagara_ag.Engine.{Engine}
use virtual_office_sagara_ag.Domain.Agent.{AgentProjection}
use virtual_office_sagara_ag.Domain.MissionControl.{MissionControlSnapshot}
use virtual_office_sagara_ag.Dto.Agent.{AgentDto}
use virtual_office_sagara_ag.Dto.MissionControl.{AttentionItemDto}
use virtual_office_sagara_ag.Mapper.Agent.{map_agent_dto_to_domain}
use virtual_office_sagara_ag.Mapper.MissionControl.{map_attention_item_dto_to_domain}
use virtual_office_sagara_ag.Realtime.Protocol.{
  RealtimeGatewayDto, RealtimeRuntimeSummaryDto, EntityDeltaDto, RealtimeChangesDto,
  RealtimeSnapshotPayloadDto, RealtimeDeltaPayloadDto,
}
use virtual_office_sagara_ag.Realtime.Queries.{QueryKey, QueryClient}
use virtual_office_sagara_ag.Realtime.Cache.{
  active_agents_pulse, attention_pulse, set_gateway, set_sessions, set_active_agents, set_attention,
  merge_agents, set_details, remove_details, update_pulse, snapshot_pulse, apply_realtime_snapshot,
  patch_gateway, patch_runtime_summary, patch_agents, invalidate_if, patch_attention, apply_changes,
  apply_realtime_delta,
}
use virtual_office_sagara_ag.Realtime.Cache.Reads.{
  get-set_details_shared, get-remove_details_shared, get-update_pulse, get-update_pulse_ne,
}

-- The agent counters count the cached agent list, if there is one, and the attention counters count
-- the attention queue.
abbrev pub Agrees : Option MissionControlSnapshot → Option (List AgentProjection) → Type 0
Agrees none agents = Unit
Agrees (some p) none = p.pulse.attention ≡ attention_pulse p.attention_queue
Agrees (some p) (some agents) =
    (p.pulse.active_agents ≡ active_agents_pulse agents)
    × (p.pulse.attention ≡ attention_pulse p.attention_queue)

Agrees-keep :
    (p q : MissionControlSnapshot)
    → p.pulse.active_agents ≡ q.pulse.active_agents
    → (p.pulse.attention ≡ attention_pulse p.attention_queue
        → q.pulse.attention ≡ attention_pulse q.attention_queue)
    → (agents : Option (List AgentProjection)) → Agrees (some p) agents
    → Agrees (some q) agents
Agrees-keep p q same f none h = f h
Agrees-keep p q same f (some agents) h = (sym same ∙ h.0, f h.1)

-- The pulse of a new agent list, whatever list was there before.
Agrees-recount :
    (p? : Option MissionControlSnapshot) (before : Option (List AgentProjection))
    (agents : List AgentProjection)
    → Agrees p? before
    → Agrees (Option.map (set_active_agents agents) p?) (some agents)
Agrees-recount none before agents h = tt
Agrees-recount (some p) none agents h = (refl, h)
Agrees-recount (some p) (some before) agents h = (refl, h.1)

module _ (qc : QueryClient) where
  open qc use {
    Cache, get_query_data, set_query_data, invalidate_queries, get-set_self, get-set_ne,
    get-invalidate,
  }

  abbrev pub IsCoherent : Cache → Type 0
  IsCoherent c = Agrees (get_query_data c QueryKey.pulse) (get_query_data c QueryKey.agents_all)

  -- An update of the pulse that leaves its counters and queue alone.
  update_pulse-IsCoherent :
      (f : MissionControlSnapshot → MissionControlSnapshot)
      → ((p : MissionControlSnapshot) (agents : Option (List AgentProjection))
          → Agrees (some p) agents
          → Agrees (some (f p)) agents)
      → (c : Cache) → IsCoherent c
      → IsCoherent (update_pulse qc f c)
  update_pulse-IsCoherent f keeps c h =
      rw (get-update_pulse qc f c, get-update_pulse_ne qc f c QueryKey.agents_all (λ e. cc))
        (step (get_query_data c QueryKey.pulse) (get_query_data c QueryKey.agents_all) h)
    where
      step :
          (p? : Option MissionControlSnapshot) (agents : Option (List AgentProjection))
          → Agrees p? agents
          → Agrees (Option.map f p?) agents
      step none agents h = tt
      step (some p) agents h = keeps p agents h

  set_other-IsCoherent :
      (k : QueryKey) (v : virtual_office_sagara_ag.Realtime.Queries.Data k) (c : Cache)
      → k ≢ QueryKey.pulse
      → k ≢ QueryKey.agents_all
      → IsCoherent c
      → IsCoherent (set_query_data c k v)
  set_other-IsCoherent k v c hp ha h = rw (get-set_ne c k _ v hp, get-set_ne c k _ v ha) h

  patch_gateway-IsCoherent :
      (gateway : Option RealtimeGatewayDto) (c : Cache)
      → IsCoherent c
      → IsCoherent (patch_gateway qc gateway c)
  unfolding patch_gateway
  patch_gateway-IsCoherent none c h = h
  patch_gateway-IsCoherent (some gateway) c h =
      update_pulse-IsCoherent _ (λ p. Agrees-keep p (set_gateway gateway p) refl (λ k. k)) _
        (set_other-IsCoherent QueryKey.runtime_gateway _ c (λ e. cc) (λ e. cc) h)

  patch_runtime_summary-IsCoherent :
      (summary : Option RealtimeRuntimeSummaryDto) (c : Cache)
      → IsCoherent c
      → IsCoherent (patch_runtime_summary qc summary c)
  unfolding patch_runtime_summary
  patch_runtime_summary-IsCoherent none c h = h
  patch_runtime_summary-IsCoherent (some summary) c h =
      update_pulse-IsCoherent _ (λ p. Agrees-keep p (set_sessions summary p) refl (λ k. k)) _
        (set_other-IsCoherent QueryKey.runtime_overview _ c (λ e. cc) (λ e. cc) h)

  invalidate_if-IsCoherent {ℓ} :
      {A : Type ℓ} (summary : Option A) (k : QueryKey) (c : Cache)
      → IsCoherent c
      → IsCoherent (invalidate_if qc summary k c)
  unfolding invalidate_if
  invalidate_if-IsCoherent none k c h = h
  invalidate_if-IsCoherent (some _) k c h =
      rw (get-invalidate c k QueryKey.pulse, get-invalidate c k QueryKey.agents_all) h

  patch_agents-IsCoherent :
      (js : Engine) (delta : Option (EntityDeltaDto AgentDto)) (c : Cache)
      → IsCoherent c
      → IsCoherent (patch_agents qc js delta c)
  unfolding patch_agents
  patch_agents-IsCoherent js none c h = h
  patch_agents-IsCoherent js (some delta) c h =
      let upserted = map (map_agent_dto_to_domain js) (or_else delta.upsert []) in
      let removed = JsSet.of_array (or_else delta.remove []) in
      let c' = remove_details qc removed (set_details qc upserted c) in
      rw
        (
          get-set_self _ QueryKey.agents_all _,
          get-set_ne _ QueryKey.agents_all QueryKey.pulse _ (λ e. cc),
          get-update_pulse qc _ c',
          get-remove_details_shared qc QueryKey.pulse removed _ tt,
          get-set_details_shared qc QueryKey.pulse upserted c tt,
        )
        (Agrees-recount (get_query_data c QueryKey.pulse) (get_query_data c QueryKey.agents_all)
          (merge_agents js removed upserted (or_else (get_query_data c QueryKey.agents_all) [])) h)

  module _ (js : Engine) (now : String) where
    patch_attention-IsCoherent :
        (delta : Option (EntityDeltaDto (Option AttentionItemDto))) (c : Cache)
        → IsCoherent c
        → IsCoherent (patch_attention qc js now delta c)
    unfolding patch_attention
    patch_attention-IsCoherent none c h = h
    patch_attention-IsCoherent (some delta) c h =
        let upserted = map (map_attention_item_dto_to_domain js now) (or_else delta.upsert []) in
        let removed = JsSet.of_array (or_else delta.remove []) in
        update_pulse-IsCoherent _
          (λ p. Agrees-keep p (set_attention removed upserted p) refl (λ _. refl)) c h

    apply_changes-IsCoherent :
        (changes : RealtimeChangesDto) (c : Cache)
        → IsCoherent c
        → IsCoherent (apply_changes qc js now changes c)
    unfolding apply_changes
    apply_changes-IsCoherent changes c h = patch_attention-IsCoherent changes.attention _ (
        invalidate_if-IsCoherent changes.active_delegations _ _ (
          invalidate_if-IsCoherent changes.approval_summary _ _ (
            invalidate_if-IsCoherent changes.task_summary _ _ (
              patch_agents-IsCoherent js changes.agents _ (
                patch_runtime_summary-IsCoherent changes.runtime_summary _
                  (patch_gateway-IsCoherent changes.gateway c h))))))

    -- A delta, whatever it changes, keeps the counters of the pulse in step with the cached agent
    -- list and with the attention queue.
    pub apply_realtime_delta-IsCoherent :
        (delta : RealtimeDeltaPayloadDto) (c : Cache)
        → IsCoherent c
        → IsCoherent (apply_realtime_delta qc js now delta c)
    unfolding apply_realtime_delta
    apply_realtime_delta-IsCoherent delta c h = elim (Option-cases delta.changes) [
      | inl nothing ↦ rw (nothing, apply_realtime_delta) h
      | inr (changes, e) ↦ rw (e, apply_realtime_delta) (apply_changes-IsCoherent changes c h)
    ]

    -- A snapshot brings the counters of the pulse in step with the cached agent list and with the
    -- attention queue, whatever the cache held before.
    pub apply_realtime_snapshot-IsCoherent :
        (snapshot : RealtimeSnapshotPayloadDto) (c : Cache)
        → IsCoherent (apply_realtime_snapshot qc js now snapshot c)
    unfolding apply_realtime_snapshot snapshot_pulse
    apply_realtime_snapshot-IsCoherent snapshot c =
        rw
          (
            get-set_self _ QueryKey.pulse _,
            get-set_ne _ QueryKey.pulse QueryKey.agents_all _ (λ e. cc),
            get-set_ne _ QueryKey.delegations_all QueryKey.agents_all _ (λ e. cc),
            get-set_ne _ QueryKey.runtime_overview QueryKey.agents_all _ (λ e. cc),
            get-set_ne _ QueryKey.runtime_gateway QueryKey.agents_all _ (λ e. cc),
            get-set_details_shared qc QueryKey.agents_all _ _ tt,
            get-set_self _ QueryKey.agents_all _,
          )
          (refl, refl)
