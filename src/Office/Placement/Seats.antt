-- ===== src/Office/Placement/Seats.antt =====
-- Every agent has one desk, and a zone counts its desks.
use virtual_office_sagara_ag.Prelude.{
  ℕ, ◌+◌, ◌≡◌, refl, ◌∙◌, List, [], ◌∷◌, map, filter, length, length-append, filter-append, All,
  arith,
}
use virtual_office_sagara_ag.Prelude.JsMap.{Map}
use virtual_office_sagara_ag.Prelude.JsSet.{IsDistinct}
use virtual_office_sagara_ag.Prelude.JsMap.Keyed.{keys_of}
use virtual_office_sagara_ag.Prelude.Sort.Keyed.{sort-IsDistinct}
use virtual_office_sagara_ag.Engine.{Engine}
use virtual_office_sagara_ag.Domain.Agent.{AgentProjection}
use virtual_office_sagara_ag.Domain.Runtime.{DelegationProjection}
use virtual_office_sagara_ag.Domain.Task.{TaskProjection}
use virtual_office_sagara_ag.Office.Types.{
  OfficeZoneType, is_zone, OfficeDeskProjection, OfficeZoneConfig,
}
use virtual_office_sagara_ag.Office.Rooms.{Rooms, sort_agents, empty_rooms}
use virtual_office_sagara_ag.Office.Desks.{
  Room, Placed, place_agents, place_rooms, empty_placed, command_list, command_room, dev_room,
  career_room, marketing_room, desk_of,
}
use virtual_office_sagara_ag.Office.Scene.{
  BuildOfficeSceneParams, rooms_of, placed_of, build_office_scene, zone_projection,
}
use virtual_office_sagara_ag.Office.Placement.Sums.{
  sum, sum-append, sum-sort, sum_rooms, sum_rooms-separate_agents, agent_key,
}

abbrev pub at_desk {ℓ} : {A : Type ℓ} → (AgentProjection → A) → OfficeDeskProjection → A
at_desk f d = f d.agent

-- the desks of a zone
abbrev pub desks_in : OfficeZoneType → List OfficeDeskProjection → List OfficeDeskProjection
desks_in z desks = filter (λ d. is_zone d.zone z) desks

-- Each zone is counted as often as it has desks.
pub record IsCounted (placed : Placed) : Type 0 where
  pub counted : (z : OfficeZoneType) → placed.zone_counts z ≡ length (desks_in z placed.desks)

module _ (js : Engine) (tasks : Map TaskProjection)
    (delegations : Map (List DelegationProjection)) where
  sum-place_agents :
      (μ : AgentProjection → ℕ) (room : Room) (i : ℕ) (agents : List AgentProjection)
      (placed : Placed)
      → sum (at_desk μ) (place_agents js tasks delegations room i agents placed).desks
        ≡ sum (at_desk μ) placed.desks + sum μ agents
  unfolding place_agents
  sum-place_agents μ room i [] placed = omega arith
  sum-place_agents μ room i (a ∷ rest) placed =
      sum-place_agents μ room (i + 1) rest _
      ∙ omega
          (arith, sum-append (at_desk μ) placed.desks (desk_of js tasks delegations room i a ∷ []))

  sum-place_rooms :
      (μ : AgentProjection → ℕ) (rooms : Rooms)
      → sum (at_desk μ) (place_rooms js tasks delegations rooms).desks ≡ sum_rooms μ rooms
  unfolding place_rooms
  sum-place_rooms μ rooms = ground (
    arith,
    sum-place_agents μ command_room 0 (command_list rooms.command_agent) empty_placed,
    sum-place_agents μ dev_room 0 rooms.dev_agents (
        place_agents js tasks delegations command_room 0 (command_list rooms.command_agent)
          empty_placed),
    sum-place_agents μ career_room 0 rooms.career_agents (
        place_agents js tasks delegations dev_room 0 rooms.dev_agents (
          place_agents js tasks delegations command_room 0 (command_list rooms.command_agent)
            empty_placed)),
    sum-place_agents μ marketing_room 0 rooms.marketing_agents (
        place_agents js tasks delegations career_room 0 rooms.career_agents (
          place_agents js tasks delegations dev_room 0 rooms.dev_agents (
            place_agents js tasks delegations command_room 0 (command_list rooms.command_agent)
              empty_placed))),
  )

  place_agents-IsCounted :
      (room : Room) (i : ℕ) (agents : List AgentProjection) (placed : Placed)
      → IsCounted placed
      → IsCounted (place_agents js tasks delegations room i agents placed)
  unfolding place_agents
  place_agents-IsCounted room i [] placed h = h
  place_agents-IsCounted room i (a ∷ rest) placed h =
      place_agents-IsCounted room (i + 1) rest _ (record {
        counted = λ z. ground (
          arith,
          h.counted z,
          filter-append (λ d. is_zone d.zone z) placed.desks
              (desk_of js tasks delegations room i a ∷ []),
          length-append (desks_in z placed.desks)
              (desks_in z (desk_of js tasks delegations room i a ∷ [])),
        );
      })

  place_rooms-IsCounted : (rooms : Rooms) → IsCounted (place_rooms js tasks delegations rooms)
  unfolding place_rooms
  place_rooms-IsCounted rooms = place_agents-IsCounted marketing_room 0 rooms.marketing_agents _ (
      place_agents-IsCounted career_room 0 rooms.career_agents _ (
        place_agents-IsCounted dev_room 0 rooms.dev_agents _ (
          place_agents-IsCounted command_room 0 (command_list rooms.command_agent) empty_placed
            (record { counted = λ z. refl }))))

-- Where agents have different ids, the desks of the scene are those of the agents, one for each:
-- whatever is counted over the agents is the same over the desks.
pub sum-build_office_scene :
    (js : Engine) (params : BuildOfficeSceneParams) (μ : AgentProjection → ℕ)
    → IsDistinct (keys_of agent_key params.agents)
    → sum (at_desk μ) (build_office_scene js params).desks ≡ sum μ params.agents
unfolding build_office_scene placed_of rooms_of
sum-build_office_scene js params μ d =
    sum-place_rooms js _ _ μ (rooms_of js params.config params.agents)
    ∙ sum_rooms-separate_agents μ js params.config _ (sort_agents js params.agents) empty_rooms refl
        (sort-IsDistinct agent_key (λ a b. js.locale_le a.id b.id) params.agents d)
    ∙ omega (arith, sum-sort μ (λ a b. js.locale_le a.id b.id) params.agents)

All-zone_projection :
    (counts : OfficeZoneType → ℕ) (desks : List OfficeDeskProjection)
    (zones : List OfficeZoneConfig)
    → ((z : OfficeZoneType) → counts z ≡ length (desks_in z desks))
    → All (λ z. z.agent_count ≡ length (desks_in z.type desks)) (map (zone_projection counts) zones)
All-zone_projection counts desks [] h = tt
All-zone_projection counts desks (z ∷ rest) h = (h z.type, All-zone_projection counts desks rest h)

-- Each zone of a scene, whatever the input, counts as many agents as the scene has desks in it.
pub agent_count-build_office_scene :
    (js : Engine) (params : BuildOfficeSceneParams)
    → All
        (λ z. z.agent_count ≡ length (desks_in z.type (build_office_scene js params).desks))
        (build_office_scene js params).zones
unfolding build_office_scene placed_of
agent_count-build_office_scene js params =
    All-zone_projection _ _ params.config.zones
      (place_rooms-IsCounted js _ _ (rooms_of js params.config params.agents)).counted
