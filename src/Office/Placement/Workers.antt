-- ===== src/Office/Placement/Workers.antt =====
-- The workers of a scene are the active delegations of its agents.
use virtual_office_sagara_ag.Prelude.{
  ℕ, ◌+◌, String, ◌≡◌, refl, sym, ap, ◌∙◌, Bool, false, ◌&&◌, ◌||◌, List, [], ◌∷◌, ◌++◌, ◌==◌,
  filter, length, length-append, filter-append, includes, arith, or_else, eq_iff,
}
use virtual_office_sagara_ag.Prelude.JsMap
use virtual_office_sagara_ag.Prelude.JsMap.{Map, get-set}
use virtual_office_sagara_ag.Prelude.JsMap.Keyed.{keys_of}
use virtual_office_sagara_ag.Prelude.JsSet.{IsDistinct}
use virtual_office_sagara_ag.Prelude.Sort.Keyed.{sort-IsDistinct}
use virtual_office_sagara_ag.Engine.{Engine}
use virtual_office_sagara_ag.Domain.Agent.{AgentProjection}
use virtual_office_sagara_ag.Domain.Runtime.{DelegationProjection}
use virtual_office_sagara_ag.Domain.Task.{TaskProjection}
use virtual_office_sagara_ag.Office.Types.{Point, OfficeWorkerProjection}
use virtual_office_sagara_ag.Office.Rooms.{Rooms, sort_agents, empty_rooms}
use virtual_office_sagara_ag.Office.Work.{
  active_tasks_by_agent, delegations_by_agent, is_active_delegation,
}
use virtual_office_sagara_ag.Office.Desks.{
  Room, Placed, place_agents, place_workers, place_rooms, empty_placed, command_list, command_room,
  dev_room, career_room, marketing_room, active_of,
}
use virtual_office_sagara_ag.Office.Scene.{
  BuildOfficeSceneParams, rooms_of, placed_of, build_office_scene,
}
use virtual_office_sagara_ag.Office.Placement.Sums.{
  sum, sum-sort, sum_rooms, sum_rooms-separate_agents, agent_key,
}

-- an active delegation whose id passes a test
abbrev pub is_shown : (String → Bool) → DelegationProjection → Bool
is_shown q d = is_active_delegation d.state && q d.id

-- How many delegations of an agent pass a test, from the groups.
count-delegations_by_agent :
    (p : DelegationProjection → Bool) (ds : List DelegationProjection)
    (m : Map (List DelegationProjection)) (id : String)
    → length (filter p (or_else (JsMap.get (delegations_by_agent ds m) id) []))
      ≡ length (filter p (or_else (JsMap.get m id) []))
        + length (filter (λ d. d.origin_agent_id == id && p d) ds)
unfolding delegations_by_agent
count-delegations_by_agent p [] m id = omega arith
count-delegations_by_agent p (d ∷ rest) m id =
    count-delegations_by_agent p rest
      (JsMap.set m d.origin_agent_id (or_else (JsMap.get m d.origin_agent_id) [] ++ d ∷ [])) id
    ∙ ground (
      arith,
      get-set m d.origin_agent_id (or_else (JsMap.get m d.origin_agent_id) [] ++ d ∷ []) id,
      filter-append p (or_else (JsMap.get m d.origin_agent_id) []) (d ∷ []),
      length-append (filter p (or_else (JsMap.get m d.origin_agent_id) [])) (filter p (d ∷ [])),
      eq_iff d.origin_agent_id id,
    )

count-filter :
    (a q : DelegationProjection → Bool) (ds : List DelegationProjection)
    → length (filter q (filter a ds)) ≡ length (filter (λ d. a d && q d) ds)
count-filter a q [] = refl
count-filter a q (d ∷ rest) = ground (arith, count-filter a q rest)

-- Agents of different ids have different delegations.
count-one_more :
    (p : DelegationProjection → Bool) (id : String) (ids : List String)
    (ds : List DelegationProjection)
    → includes ids id ≡ false
    → length (filter (λ d. d.origin_agent_id == id && p d) ds)
        + length (filter (λ d. includes ids d.origin_agent_id && p d) ds)
      ≡ length (filter (λ d. (id == d.origin_agent_id || includes ids d.origin_agent_id) && p d) ds)
count-one_more p id ids [] h = omega arith
count-one_more p id ids (d ∷ rest) h = ground (
  arith,
  h,
  count-one_more p id ids rest h,
  eq_iff d.origin_agent_id id,
  eq_iff id d.origin_agent_id,
)

count-none_of :
    (p : DelegationProjection → Bool) (ds : List DelegationProjection)
    → length (filter (λ d. includes [] d.origin_agent_id && p d) ds) ≡ 0
count-none_of p [] = refl
count-none_of p (d ∷ rest) = count-none_of p rest

sum-delegations :
    (p : DelegationProjection → Bool) (ds : List DelegationProjection)
    (agents : List AgentProjection)
    → IsDistinct (keys_of agent_key agents)
    → sum (λ a. length (filter (λ d. d.origin_agent_id == a.id && p d) ds)) agents
      ≡ length (filter (λ d. includes (keys_of agent_key agents) d.origin_agent_id && p d) ds)
sum-delegations p ds [] h = sym (count-none_of p ds)
sum-delegations p ds (a ∷ rest) h =
    ap (λ n. length (filter (λ d. d.origin_agent_id == a.id && p d) ds) + n)
      (sum-delegations p ds rest h.1)
    ∙ count-one_more p a.id (keys_of agent_key rest) ds h.0

-- the workers of delegations that pass a test on their id
abbrev pub by_delegation : (String → Bool) → OfficeWorkerProjection → Bool
by_delegation q w = q w.delegation_id

count-place_workers :
    (q : String → Bool) (position : ℕ → Point) (id : String) (k : ℕ)
    (ds : List DelegationProjection)
    → length (filter (by_delegation q) (place_workers position id k ds))
      ≡ length (filter (λ d. q d.id) ds)
unfolding place_workers
count-place_workers q position id k [] = refl
count-place_workers q position id k (d ∷ rest) =
    ground (arith, count-place_workers q position id (k + 1) rest)

empty_group :
    (p : DelegationProjection → Bool) (id : String)
    → length (filter p (or_else (JsMap.get [] id) [])) ≡ 0
unfolding JsMap.get
empty_group p id = refl

module _ (js : Engine) (tasks : Map TaskProjection) (ds : List DelegationProjection)
    (q : String → Bool) where
  abbrev measure : AgentProjection → ℕ
  measure a = length (filter (λ d. d.origin_agent_id == a.id && is_shown q d) ds)

  abbrev groups : Map (List DelegationProjection)
  groups = delegations_by_agent ds []

  count-active_of :
      (a : AgentProjection)
      → length (filter (λ d. q d.id) (active_of js tasks groups a)) ≡ measure a
  count-active_of a =
      count-filter (λ d. is_active_delegation d.state) (λ d. q d.id)
        (or_else (JsMap.get groups a.id) [])
      ∙ omega
          (arith, count-delegations_by_agent (is_shown q) ds [] a.id, empty_group (is_shown q) a.id)

  count-place_agents :
      (room : Room) (i : ℕ) (agents : List AgentProjection) (placed : Placed)
      → length
          (filter (by_delegation q) (place_agents js tasks groups room i agents placed).workers)
        ≡ length (filter (by_delegation q) placed.workers) + sum measure agents
  unfolding place_agents
  count-place_agents room i [] placed = omega arith
  count-place_agents room i (a ∷ rest) placed =
      count-place_agents room (i + 1) rest _
      ∙ omega (
        arith,
        ap length (
            filter-append (by_delegation q) placed.workers
              (place_workers (room.worker_position i) a.id 0 (active_of js tasks groups a))),
        length-append (filter (by_delegation q) placed.workers) (
            filter (by_delegation q)
              (place_workers (room.worker_position i) a.id 0 (active_of js tasks groups a))),
        count-place_workers q (room.worker_position i) a.id 0 (active_of js tasks groups a),
        count-active_of a,
      )

  count-place_rooms :
      (rooms : Rooms)
      → length (filter (by_delegation q) (place_rooms js tasks groups rooms).workers)
        ≡ sum_rooms measure rooms
  unfolding place_rooms
  count-place_rooms rooms = ground (
    arith,
    count-place_agents command_room 0 (command_list rooms.command_agent) empty_placed,
    count-place_agents dev_room 0 rooms.dev_agents (
        place_agents js tasks groups command_room 0 (command_list rooms.command_agent)
          empty_placed),
    count-place_agents career_room 0 rooms.career_agents (
        place_agents js tasks groups dev_room 0 rooms.dev_agents (
          place_agents js tasks groups command_room 0 (command_list rooms.command_agent)
            empty_placed)),
    count-place_agents marketing_room 0 rooms.marketing_agents (
        place_agents js tasks groups career_room 0 rooms.career_agents (
          place_agents js tasks groups dev_room 0 rooms.dev_agents (
            place_agents js tasks groups command_room 0 (command_list rooms.command_agent)
              empty_placed))),
  )

-- Where agents have different ids, the workers of the scene stand for the delegations that are
-- running, queued or claimed and come from one of the agents, each as often as it is recorded.
pub workers-build_office_scene :
    (js : Engine) (params : BuildOfficeSceneParams) (q : String → Bool)
    → IsDistinct (keys_of agent_key params.agents)
    → length (filter (by_delegation q) (build_office_scene js params).workers)
      ≡ length (
          filter
            (λ d. includes (keys_of agent_key params.agents) d.origin_agent_id && is_shown q d)
            params.delegations)
unfolding build_office_scene placed_of rooms_of
workers-build_office_scene js params q d =
    count-place_rooms js (active_tasks_by_agent params.tasks []) params.delegations q
      (rooms_of js params.config params.agents)
    ∙ sum_rooms-separate_agents
        (measure js (active_tasks_by_agent params.tasks []) params.delegations q) js params.config _
        (sort_agents js params.agents) empty_rooms refl
        (sort-IsDistinct agent_key (λ a b. js.locale_le a.id b.id) params.agents d)
    ∙ omega (
      arith,
      sum-sort (measure js (active_tasks_by_agent params.tasks []) params.delegations q)
          (λ a b. js.locale_le a.id b.id) params.agents,
    )
    ∙ sum-delegations (is_shown q) params.delegations params.agents d
