-- ===== src/Realtime/Cache/Merge.antt =====
-- The agent list and the attention queue after a delta: which record stands under an id.
use virtual_office_sagara_ag.Prelude.{
  String, ◌≡◌, refl, ◌∙◌, not, none, List, [], ◌∷◌, arith, eq_iff, if◌then◌else◌, or_some, filter,
  includes,
}
use virtual_office_sagara_ag.Prelude.JsMap
use virtual_office_sagara_ag.Prelude.JsMap.{Map}
use virtual_office_sagara_ag.Prelude.JsMap.Keyed.{
  set_each, delete_each, find_key, last_key, keys_of, IsKeyed, get-set_each, get-delete_each,
  set_each-IsKeyed, delete_each-IsKeyed, set_each-IsDistinct, delete_each-IsDistinct, find-values,
  keys-values,
}
use virtual_office_sagara_ag.Prelude.JsSet.{IsDistinct}
use virtual_office_sagara_ag.Prelude.Sort.{IsSorted, sort-IsSorted}
use virtual_office_sagara_ag.Prelude.Sort.Keyed.{sort-IsDistinct, find-sort}
use virtual_office_sagara_ag.Engine.{Engine, HasLocaleOrder}
use virtual_office_sagara_ag.Domain.Agent.{AgentProjection}
use virtual_office_sagara_ag.Domain.MissionControl.{AttentionItem}
use virtual_office_sagara_ag.Realtime.Cache.{
  agent_id, attention_id, keep_agents, id_le, merge_agents, merge_attention,
}

-- The loop with its guard is a loop over the agents that pass the guard.
keep_agents-eq :
    (removed : List String) (old : List AgentProjection) (m : Map AgentProjection)
    → keep_agents removed old m
      ≡ set_each agent_id (filter (λ a. not (includes removed a.id)) old) m
unfolding keep_agents set_each
keep_agents-eq removed [] m = refl
keep_agents-eq removed (a ∷ rest) m =
    ground (arith, keep_agents-eq removed rest m, keep_agents-eq removed rest (JsMap.set m a.id a))

last_key-filter :
    (removed : List String) (old : List AgentProjection) (id : String)
    → last_key agent_id (filter (λ a. not (includes removed a.id)) old) id
      ≡ (if includes removed id then none else last_key agent_id old id)
unfolding last_key
last_key-filter removed [] id = ground arith
last_key-filter removed (a ∷ rest) id =
    ground (arith, last_key-filter removed rest id, eq_iff a.id id)

module _ (removed : List String) (upserted old : List AgentProjection) where
  merged : Map AgentProjection
  merged = set_each agent_id upserted (keep_agents removed old [])

  merged-IsKeyed : IsKeyed agent_id merged
  unfolding merged
  merged-IsKeyed =
      rw (keep_agents-eq removed old [])
        (set_each-IsKeyed agent_id upserted _ (set_each-IsKeyed agent_id _ [] tt))

  merged-IsDistinct : IsDistinct (JsMap.keys merged)
  unfolding merged
  merged-IsDistinct =
      rw (keep_agents-eq removed old [])
        (set_each-IsDistinct agent_id upserted _ (set_each-IsDistinct agent_id _ [] tt))

  values-IsDistinct : IsDistinct (keys_of agent_id (JsMap.values merged))
  values-IsDistinct = rw (keys-values agent_id merged merged-IsKeyed) merged-IsDistinct

  get-merged :
      (id : String)
      → JsMap.get merged id
        ≡ or_some
            (last_key agent_id upserted id)
            (if includes removed id then none else last_key agent_id old id)
  unfolding merged JsMap.get
  get-merged id = ground (
    arith,
    get-set_each agent_id upserted (keep_agents removed old []) id,
    keep_agents-eq removed old [],
    get-set_each agent_id (filter (λ a. not (includes removed a.id)) old) [] id,
    last_key-filter removed old id,
  )

module _ (js : Engine) (removed : List String) (upserted old : List AgentProjection) where
  -- Under every id the merged list has the last agent that was upserted with it; else, the last
  -- agent of the old list if the id is not removed; else none.
  pub find-merge_agents :
      (id : String)
      → find_key agent_id (merge_agents js removed upserted old) id
        ≡ or_some
            (last_key agent_id upserted id)
            (if includes removed id then none else last_key agent_id old id)
  unfolding merge_agents merged
  find-merge_agents id =
      find-sort agent_id (id_le js) _ id (values-IsDistinct removed upserted old)
      ∙ find-values agent_id _ id (merged-IsKeyed removed upserted old)
      ∙ get-merged removed upserted old id

  -- No id stands twice in the merged list.
  merge_agents-IsDistinct : IsDistinct (keys_of agent_id (merge_agents js removed upserted old))
  unfolding merge_agents merged
  merge_agents-IsDistinct =
      sort-IsDistinct agent_id (id_le js) _ (values-IsDistinct removed upserted old)

  -- The merged list is in the order of the engine's collation of ids.
  merge_agents-IsSorted :
      HasLocaleOrder js → IsSorted (id_le js) (merge_agents js removed upserted old)
  unfolding merge_agents
  merge_agents-IsSorted order =
      sort-IsSorted (id_le js) (λ a b. order.total a.id b.id) (λ a b c. order.trans a.id b.id c.id)
        _

module _ (removed : List String) (upserted current : List AttentionItem) where
  kept_attention : Map AttentionItem
  kept_attention = delete_each removed (set_each attention_id current [])

  kept_attention-IsKeyed : IsKeyed attention_id kept_attention
  unfolding kept_attention
  kept_attention-IsKeyed =
      delete_each-IsKeyed attention_id removed _ (set_each-IsKeyed attention_id current [] tt)

  -- Under every id the merged queue has the last item that was upserted with it; else, the last
  -- item of the old queue if the id is not removed; else none.
  pub find-merge_attention :
      (id : String)
      → find_key attention_id (merge_attention removed upserted current) id
        ≡ or_some
            (last_key attention_id upserted id)
            (if includes removed id then none else last_key attention_id current id)
  unfolding merge_attention kept_attention JsMap.get
  find-merge_attention id =
      find-values attention_id _ id
        (set_each-IsKeyed attention_id upserted _ kept_attention-IsKeyed)
      ∙ ground (
        arith,
        get-set_each attention_id upserted kept_attention id,
        get-delete_each removed (set_each attention_id current []) id,
        get-set_each attention_id current [] id,
      )

  -- No id stands twice in the merged queue.
  pub merge_attention-IsDistinct :
      IsDistinct (keys_of attention_id (merge_attention removed upserted current))
  unfolding merge_attention kept_attention
  merge_attention-IsDistinct =
      rw
        (keys-values attention_id _
          (set_each-IsKeyed attention_id upserted _ kept_attention-IsKeyed))
        (set_each-IsDistinct attention_id upserted _
          (delete_each-IsDistinct removed _ (set_each-IsDistinct attention_id current [] tt)))
