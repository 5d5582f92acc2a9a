-- ===== src/Realtime/Cache/Reads.antt =====
-- What each write of the realtime cache does to the data behind a key.
use mathlib.Core.Option
use mathlib.Core.Path.{subst}
use virtual_office_sagara_ag.Prelude.{
  String, ◌≡◌, ◌≢◌, refl, ◌∙◌, Option, none, some, List, [], ◌∷◌, ◌==◌, if◌then◌else◌, or_some,
  includes, Bool, true, false, ◌||◌, inl, inr, Bool-cases, Option-cases, true→eq, false→ne,
}
use virtual_office_sagara_ag.Prelude.JsMap.Keyed.{last_key}
use virtual_office_sagara_ag.Domain.Agent.{AgentProjection}
use virtual_office_sagara_ag.Domain.MissionControl.{MissionControlSnapshot}
use virtual_office_sagara_ag.Realtime.Queries.{QueryKey, QueryClient}
use virtual_office_sagara_ag.Realtime.Cache.{agent_id, set_details, remove_details, update_pulse}

or_some_if {ℓ} :
    {A : Type ℓ} (o : Option A) (b : Bool) (a : A) (rest : Option A)
    → or_some o (if b then some a else rest) ≡ or_some (or_some o (if b then some a else none)) rest
or_some_if none true a rest = refl
or_some_if none false a rest = refl
or_some_if (some x) b a rest = refl

none_if {ℓ} :
    {A : Type ℓ} (b d : Bool) (o : Option A)
    → (if d then none else if b then none else o) ≡ (if b || d then none else o)
none_if true true o = refl
none_if true false o = refl
none_if false d o = refl

-- A key of shared data, not of one agent.
abbrev pub IsShared : QueryKey → Type 0
IsShared (QueryKey.agent_detail id) = ⊥
IsShared _ = Unit

pub detail-ne : (k : QueryKey) (id : String) → IsShared k → QueryKey.agent_detail id ≢ k
detail-ne QueryKey.pulse id h e = cc
detail-ne QueryKey.agents_all id h e = cc
detail-ne QueryKey.runtime_gateway id h e = cc
detail-ne QueryKey.runtime_overview id h e = cc
detail-ne QueryKey.delegations_all id h e = cc
detail-ne QueryKey.tasks_all id h e = cc
detail-ne QueryKey.approvals_all id h e = cc
detail-ne (QueryKey.agent_detail j) id h e = absurd h

detail_ne_of_id : (i j : String) → i ≢ j → QueryKey.agent_detail i ≢ QueryKey.agent_detail j
detail_ne_of_id i j h e = h cc

module _ (qc : QueryClient) where
  open qc use {
    Cache, get_query_data, set_query_data, remove_queries, get-set_self, get-set_ne,
    get-remove_self, get-remove_ne,
  }

  pub get-set_details_shared :
      (k : QueryKey) (agents : List AgentProjection) (c : Cache)
      → IsShared k
      → get_query_data (set_details qc agents c) k ≡ get_query_data c k
  unfolding set_details
  get-set_details_shared k [] c h = refl
  get-set_details_shared k (a ∷ rest) c h =
      get-set_details_shared k rest _ h ∙ get-set_ne c _ k a (detail-ne k a.id h)

  pub get-remove_details_shared :
      (k : QueryKey) (ids : List String) (c : Cache)
      → IsShared k
      → get_query_data (remove_details qc ids c) k ≡ get_query_data c k
  unfolding remove_details
  get-remove_details_shared k [] c h = refl
  get-remove_details_shared k (id ∷ rest) c h =
      get-remove_details_shared k rest _ h ∙ get-remove_ne c id k (detail-ne k id h)

  get-set_detail :
      (c : Cache) (i : String) (a : AgentProjection) (id : String)
      → get_query_data (set_query_data c (QueryKey.agent_detail i) a) (QueryKey.agent_detail id)
        ≡ (if i == id then some a else get_query_data c (QueryKey.agent_detail id))
  get-set_detail c i a id = elim (Bool-cases (i == id)) [
    | inl same ↦ rw same (
        subst
          (λ j.
            get_query_data (set_query_data c (QueryKey.agent_detail i) a) (QueryKey.agent_detail j)
            ≡ some a)
          (true→eq i id same) (get-set_self c (QueryKey.agent_detail i) a))
    | inr other ↦ rw other (
        get-set_ne c (QueryKey.agent_detail i) (QueryKey.agent_detail id) a
          (detail_ne_of_id i id (false→ne i id other)))
  ]

  -- The detail of an id is the last agent of that id in the list, if there is one.
  pub get-set_details_detail :
      (agents : List AgentProjection) (c : Cache) (id : String)
      → get_query_data (set_details qc agents c) (QueryKey.agent_detail id)
        ≡ or_some (last_key agent_id agents id) (get_query_data c (QueryKey.agent_detail id))
  unfolding set_details last_key
  get-set_details_detail [] c id = refl
  get-set_details_detail (a ∷ rest) c id =
      get-set_details_detail rest _ id
      ∙ rw (get-set_detail c a.id a id) (or_some_if (last_key agent_id rest id) (a.id == id) a _)

  get-remove_detail :
      (c : Cache) (i id : String)
      → get_query_data (remove_queries c (QueryKey.agent_detail i)) (QueryKey.agent_detail id)
        ≡ (if i == id then none else get_query_data c (QueryKey.agent_detail id))
  get-remove_detail c i id = elim (Bool-cases (i == id)) [
    | inl same ↦ rw same (
        subst
          (λ j.
            get_query_data (remove_queries c (QueryKey.agent_detail i)) (QueryKey.agent_detail j)
            ≡ none)
          (true→eq i id same) (get-remove_self c (QueryKey.agent_detail i)))
    | inr other ↦
        rw other (
          get-remove_ne c i (QueryKey.agent_detail id) (detail_ne_of_id i id (false→ne i id other)))
  ]

  -- A removed id has no detail; the others keep theirs.
  pub get-remove_details_detail :
      (ids : List String) (c : Cache) (id : String)
      → get_query_data (remove_details qc ids c) (QueryKey.agent_detail id)
        ≡ (if includes ids id then none else get_query_data c (QueryKey.agent_detail id))
  unfolding remove_details
  get-remove_details_detail [] c id = refl
  get-remove_details_detail (i ∷ rest) c id =
      get-remove_details_detail rest _ id
      ∙ rw (get-remove_detail c i id) (none_if (i == id) (includes rest id) _)

  pub get-update_pulse :
      (f : MissionControlSnapshot → MissionControlSnapshot) (c : Cache)
      → get_query_data (update_pulse qc f c) QueryKey.pulse
        ≡ Option.map f (get_query_data c QueryKey.pulse)
  unfolding update_pulse
  get-update_pulse f c = elim (Option-cases (get_query_data c QueryKey.pulse)) [
    | inl missing ↦ rw (missing, update_pulse) missing
    | inr (p, found) ↦ rw (found, update_pulse) (get-set_self c QueryKey.pulse (f p))
  ]

  pub get-update_pulse_ne :
      (f : MissionControlSnapshot → MissionControlSnapshot) (c : Cache) (k : QueryKey)
      → QueryKey.pulse ≢ k
      → get_query_data (update_pulse qc f c) k ≡ get_query_data c k
  unfolding update_pulse
  get-update_pulse_ne f c k h = elim (Option-cases (get_query_data c QueryKey.pulse)) [
    | inl missing ↦ rw (missing, update_pulse)
    | inr (p, found) ↦ rw (found, update_pulse) (get-set_ne c QueryKey.pulse k (f p) h)
  ]
