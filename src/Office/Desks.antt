-- ===== src/Office/Desks.antt =====
-- office-layout-engine.ts: desks and workers, room by room.
use virtual_office_sagara_ag.Prelude.{
  ℕ, ◌+◌, ◌-◌, ◌*◌, ◌/◌, ◌%◌, String, Option, none, some, List, [], ◌∷◌, ◌++◌, if◌then◌else◌,
  or_else, filter, eqb, append_text,
}
use virtual_office_sagara_ag.Prelude.JsMap
use virtual_office_sagara_ag.Prelude.JsMap.{Map}
use virtual_office_sagara_ag.Engine.{Engine}
use virtual_office_sagara_ag.Domain.Agent.{AgentProjection}
use virtual_office_sagara_ag.Domain.Runtime.{DelegationProjection}
use virtual_office_sagara_ag.Domain.Task.{TaskProjection}
use virtual_office_sagara_ag.Office.Types.{
  OfficeZoneType, is_zone, Point, Orientation, OfficeDeskProjection, OfficeWorkerProjection,
}
use virtual_office_sagara_ag.Office.Rooms.{Rooms, get_deterministic_avatar_variant}
use virtual_office_sagara_ag.Office.Work.{is_active_delegation}

-- What tells the rooms apart: the zone, the desk, where the desk number `i` stands, and where the
-- worker number `k` of that desk stands.
pub record Room : Type 0 where
  pub zone : OfficeZoneType
  pub desk_variant : String
  pub desk_position : ℕ → Point
  pub worker_position : ℕ → ℕ → Point

abbrev pub command_room : Room
command_room = record {
  zone = OfficeZoneType.command;
  desk_variant = "command-console";
  desk_position = λ i. record { x = 205; y = 190 };
  worker_position = λ i k. record { x = 205 + 85; y = 190 - 10 + k * 40 };
}

abbrev pub dev_x : ℕ → ℕ
dev_x i = 510 + i % 3 * 190

abbrev pub dev_y : ℕ → ℕ
dev_y i = 140 + i / 3 * 115

abbrev pub dev_room : Room
dev_room = record {
  zone = OfficeZoneType.dev_zone;
  desk_variant = "workstation-standard";
  desk_position = λ i. record { x = dev_x i; y = dev_y i };
  worker_position = λ i k. record {
    x = if eqb (i % 3) 2 then dev_x i - 72 else dev_x i + 72;
    y = dev_y i - 8 + k * 30;
  };
}

abbrev pub career_room : Room
career_room = record {
  zone = OfficeZoneType.career_zone;
  desk_variant = "workstation-career";
  desk_position = λ i. record { x = 1195; y = 190 + i * 115 };
  worker_position = λ i k. record { x = 1195 - 72; y = 190 + i * 115 - 8 + k * 30 };
}

abbrev pub marketing_room : Room
marketing_room = record {
  zone = OfficeZoneType.marketing_zone;
  desk_variant = "workstation-marketing";
  desk_position = λ i. record { x = 205; y = 512 + i * 115 };
  worker_position = λ i k. record { x = 205 + 72; y = 512 + i * 115 - 8 + k * 30 };
}

-- `zoneCounts`
abbrev pub ZoneCounts : Type 0
ZoneCounts = OfficeZoneType → ℕ

abbrev pub no_agents : ZoneCounts
no_agents z = 0

abbrev pub count_agent : OfficeZoneType → ZoneCounts → ZoneCounts
count_agent z counts z' = if is_zone z z' then counts z' + 1 else counts z'

-- The arrays that the rooms push to.
pub record Placed : Type 0 where
  pub desks : List OfficeDeskProjection
  pub workers : List OfficeWorkerProjection
  pub zone_counts : ZoneCounts

abbrev pub empty_placed : Placed
empty_placed = record { desks = []; workers = []; zone_counts = no_agents }

-- `activeWorkers.forEach((d, k) => workers.push(…))`
unfoldable pub place_workers :
    (ℕ → Point) → String → ℕ → List DelegationProjection → List OfficeWorkerProjection
place_workers position agent_id k [] = []
place_workers position agent_id k (d ∷ rest) =
    record {
      id = append_text "worker-" d.id;
      delegation_id = d.id;
      parent_agent_id = agent_id;
      position = position k;
      state = d.state;
      task_title = d.task_title;
      worker_pid = d.owner_pid;
      started_at = d.started_at;
    }
    ∷ place_workers position agent_id (k + 1) rest

-- `if (commandAgent)`
abbrev pub command_list : Option AgentProjection → List AgentProjection
command_list none = []
command_list (some agent) = agent ∷ []

module _ (js : Engine) (tasks : Map TaskProjection)
    (delegations : Map (List DelegationProjection)) where
  -- `agentDelegations.filter((d) => isActiveDelegation(d.state))`
  abbrev pub active_of : AgentProjection → List DelegationProjection
  active_of agent =
      filter (λ d. is_active_delegation d.state) (or_else (JsMap.get delegations agent.id) [])

  abbrev pub desk_of : Room → ℕ → AgentProjection → OfficeDeskProjection
  desk_of room i agent = record {
    agent_id = agent.id;
    agent = agent;
    zone = room.zone;
    position = room.desk_position i;
    orientation = Orientation.south;
    visual = record {
      avatar_variant = get_deterministic_avatar_variant js agent.id;
      desk_variant = room.desk_variant;
    };
    current_task = JsMap.get tasks agent.id;
    active_delegations = active_of agent;
  }

  -- A room's `forEach`, from the desk number `i` on.
  unfoldable pub place_agents : Room → ℕ → List AgentProjection → Placed → Placed
  unfolding place_workers
  place_agents room i [] placed = placed
  place_agents room i (agent ∷ rest) placed = place_agents room (i + 1) rest (record {
    desks = placed.desks ++ desk_of room i agent ∷ [];
    workers = placed.workers ++ place_workers (room.worker_position i) agent.id 0 (active_of agent);
    zone_counts = count_agent room.zone placed.zone_counts;
  })

  -- the four rooms, in the order of the source
  unfoldable pub place_rooms : Rooms → Placed
  unfolding place_agents
  place_rooms rooms =
      let p₁ = place_agents command_room 0 (command_list rooms.command_agent) empty_placed in
      let p₂ = place_agents dev_room 0 rooms.dev_agents p₁ in
      let p₃ = place_agents career_room 0 rooms.career_agents p₂ in
      place_agents marketing_room 0 rooms.marketing_agents p₃
