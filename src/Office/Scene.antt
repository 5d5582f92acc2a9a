-- ===== src/Office/Scene.antt =====
-- office-layout-engine.ts: `buildOfficeScene`.
use virtual_office_sagara_ag.Prelude.{Option, List, [], map}
use virtual_office_sagara_ag.Engine.{Engine}
use virtual_office_sagara_ag.Domain.Agent.{AgentProjection}
use virtual_office_sagara_ag.Domain.Runtime.{DelegationProjection, RuntimeOverview}
use virtual_office_sagara_ag.Domain.Approval.{ApprovalProjection}
use virtual_office_sagara_ag.Domain.Task.{TaskProjection}
use virtual_office_sagara_ag.Office.Types.{
  OfficeSceneProjection, OfficeZoneConfig, OfficeZoneProjection, OfficePresentationConfig,
}
use virtual_office_sagara_ag.Office.Rooms.{
  Rooms, empty_rooms, sort_agents, command_agent_id, separate_agents,
}
use virtual_office_sagara_ag.Office.Work.{active_tasks_by_agent, delegations_by_agent}
use virtual_office_sagara_ag.Office.Desks.{Placed, ZoneCounts, place_rooms}
use virtual_office_sagara_ag.Office.Summaries.{
  approval_summary, runtime_summary, vault_summary, collaboration_items,
}

pub record BuildOfficeSceneParams : Type 0 where
  pub agents : List AgentProjection
  pub delegations : List DelegationProjection
  pub approvals : List ApprovalProjection
  pub runtime_overview : Option RuntimeOverview
  pub tasks : List TaskProjection
  pub config : OfficePresentationConfig

abbrev pub zone_projection : ZoneCounts → OfficeZoneConfig → OfficeZoneProjection
zone_projection counts z = record {
  id = z.id;
  name = z.name;
  subtitle = z.subtitle;
  type = z.type;
  bounds = z.bounds;
  description = z.description;
  agent_count = counts z.type;
}

-- the agents by room, from the unsorted agents
unfoldable pub rooms_of : Engine → OfficePresentationConfig → List AgentProjection → Rooms
rooms_of js config agents =
    let sorted_agents = sort_agents js agents in
    separate_agents js config (command_agent_id js config sorted_agents) sorted_agents empty_rooms

unfoldable pub placed_of : Engine → BuildOfficeSceneParams → Placed
unfolding rooms_of
placed_of js params =
    place_rooms js (active_tasks_by_agent params.tasks [])
      (delegations_by_agent params.delegations []) (rooms_of js params.config params.agents)

-- `buildOfficeScene`
unfoldable pub build_office_scene : Engine → BuildOfficeSceneParams → OfficeSceneProjection
unfolding placed_of
build_office_scene js params =
    let placed = placed_of js params in
    record {
      delegation_records = params.delegations;
      zones = map (zone_projection placed.zone_counts) params.config.zones;
      desks = placed.desks;
      workers = placed.workers;
      approval_summary = approval_summary js params.approvals;
      runtime_summary = runtime_summary params.runtime_overview params.delegations;
      vault_summary = vault_summary params.tasks;
      collaboration_items = collaboration_items params.tasks params.delegations;
    }
