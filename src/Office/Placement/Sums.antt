-- ===== src/Office/Placement/Sums.antt =====
-- Sums of a measure over the agents, room by room.
use virtual_office_sagara_ag.Prelude.{
  ℕ, ◌+◌, String, ◌≡◌, refl, ap, ◌∙◌, Bool, true, false, Option, none, some, List, [], ◌∷◌, ◌++◌,
  ◌==◌, includes, is_text, arith, eq_iff, Bool-cases, inl, inr, true→eq,
}
use virtual_office_sagara_ag.Prelude.JsSet.{IsDistinct}
use virtual_office_sagara_ag.Prelude.JsMap.Keyed.{keys_of}
use virtual_office_sagara_ag.Prelude.Sort.{insert, sort}
use virtual_office_sagara_ag.Engine.{Engine}
use virtual_office_sagara_ag.Domain.Agent.{AgentProjection}
use virtual_office_sagara_ag.Office.Types.{OfficeZoneType, OfficePresentationConfig}
use virtual_office_sagara_ag.Office.Rooms.{Rooms, push_agent, separate_agents, resolve_agent_zone}
use virtual_office_sagara_ag.Office.Desks.{command_list}

module _ {ℓ} {A : Type ℓ} (μ : A → ℕ) where
  abbrev pub sum : List A → ℕ
  sum [] = 0
  sum (x ∷ xs) = μ x + sum xs

  pub sum-append : (xs ys : List A) → sum (xs ++ ys) ≡ sum xs + sum ys
  sum-append [] ys = omega arith
  sum-append (x ∷ xs) ys = omega (arith, sum-append xs ys)

  sum-insert : (le : A → A → Bool) (x : A) (xs : List A) → sum (insert le x xs) ≡ μ x + sum xs
  unfolding insert
  sum-insert le x [] = refl
  sum-insert le x (y ∷ ys) = ground (arith, sum-insert le x ys)

  pub sum-sort : (le : A → A → Bool) (xs : List A) → sum (sort le xs) ≡ sum xs
  unfolding sort
  sum-sort le [] = refl
  sum-sort le (x ∷ xs) = omega (arith, sum-insert le x (sort le xs), sum-sort le xs)

is_text-some : (o : Option String) (s : String) → is_text o s ≡ true → o ≡ some s
is_text-some none s h = cc h
is_text-some (some t) s h = ap some (true→eq t s h)

abbrev pub agent_key : AgentProjection → String
agent_key a = a.id

module _ (μ : AgentProjection → ℕ) where
  -- all the agents of the rooms
  abbrev pub sum_rooms : Rooms → ℕ
  sum_rooms rooms =
      sum μ (command_list rooms.command_agent)
      + (sum μ rooms.dev_agents + (sum μ rooms.career_agents + sum μ rooms.marketing_agents))

  sum_rooms-push_agent :
      (zone : OfficeZoneType) (agent : AgentProjection) (rooms : Rooms)
      → sum_rooms (push_agent zone agent rooms) ≡ sum_rooms rooms + μ agent
  sum_rooms-push_agent zone agent rooms = ground (
    arith,
    sum-append μ rooms.dev_agents (agent ∷ []),
    sum-append μ rooms.career_agents (agent ∷ []),
    sum-append μ rooms.marketing_agents (agent ∷ []),
  )

  command_agent-push_agent :
      (zone : OfficeZoneType) (agent : AgentProjection) (rooms : Rooms)
      → (push_agent zone agent rooms).command_agent ≡ rooms.command_agent
  command_agent-push_agent zone agent rooms = ground arith

  module _ (js : Engine) (config : OfficePresentationConfig) (command_id : Option String) where
    separate-none : (rooms : Rooms) → separate_agents js config command_id [] rooms ≡ rooms
    unfolding separate_agents
    separate-none rooms = refl

    separate-command :
        (a : AgentProjection) (rest : List AgentProjection) (rooms : Rooms)
        → is_text command_id a.id ≡ true
        → separate_agents js config command_id (a ∷ rest) rooms
          ≡ separate_agents js config command_id rest (record rooms { command_agent = some a })
    unfolding separate_agents
    separate-command a rest rooms t = rw (separate_agents, t) refl

    separate-other :
        (a : AgentProjection) (rest : List AgentProjection) (rooms : Rooms)
        → is_text command_id a.id ≡ false
        → separate_agents js config command_id (a ∷ rest) rooms
          ≡ separate_agents js config command_id rest
              (push_agent (resolve_agent_zone js config a) a rooms)
    unfolding separate_agents
    separate-other a rest rooms t = rw (separate_agents, t) refl

    -- After the command room was given away, no further agent has its id.
    sum_rooms-separate_rest :
        (agents : List AgentProjection) (rooms : Rooms) (id : String)
        → command_id ≡ some id
        → includes (keys_of agent_key agents) id ≡ false
        → sum_rooms (separate_agents js config command_id agents rooms)
          ≡ sum_rooms rooms + sum μ agents
    sum_rooms-separate_rest [] rooms id e h = ground (arith, separate-none rooms)
    sum_rooms-separate_rest (a ∷ rest) rooms id e h =
        ap sum_rooms (separate-other a rest rooms (rw e other))
        ∙ sum_rooms-separate_rest rest (push_agent (resolve_agent_zone js config a) a rooms) id e
            (ground (arith, h))
        ∙ omega (arith, sum_rooms-push_agent (resolve_agent_zone js config a) a rooms)
      where
        other : (id == a.id) ≡ false
        other = ground (arith, h, eq_iff id a.id, eq_iff a.id id)

    -- Agents of different ids are all put into the rooms.
    pub sum_rooms-separate_agents :
        (agents : List AgentProjection) (rooms : Rooms)
        → rooms.command_agent ≡ none
        → IsDistinct (keys_of agent_key agents)
        → sum_rooms (separate_agents js config command_id agents rooms)
          ≡ sum_rooms rooms + sum μ agents
    sum_rooms-separate_agents [] rooms h d = ground (arith, separate-none rooms)
    sum_rooms-separate_agents (a ∷ rest) rooms h d = elim (Bool-cases (is_text command_id a.id)) [
      | inl t ↦
          ap sum_rooms (separate-command a rest rooms t)
          ∙ sum_rooms-separate_rest rest (record rooms { command_agent = some a }) a.id
              (is_text-some command_id a.id t) d.0
          ∙ omega (arith, ap (λ c. sum μ (command_list c)) h)
      | inr f ↦
          ap sum_rooms (separate-other a rest rooms f)
          ∙ sum_rooms-separate_agents rest (push_agent (resolve_agent_zone js config a) a rooms)
              (command_agent-push_agent (resolve_agent_zone js config a) a rooms ∙ h) d.1
          ∙ omega (arith, sum_rooms-push_agent (resolve_agent_zone js config a) a rooms)
    ]
