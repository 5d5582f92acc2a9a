-- ===== src/Mapper/Runtime.antt =====
-- `mapDelegationDtoToDomain` of frontend/src/api/mappers/runtime.mapper.ts
use virtual_office_sagara_ag.Prelude.{
  none, some, [], ◌∷◌, map, if◌then◌else◌, or_else, or_text, truthy,
}
use virtual_office_sagara_ag.Engine.{Engine}
use virtual_office_sagara_ag.Domain.Runtime.{
  GatewayState, DelegationState, DeliveryState, DelegationTimelineEvent, DelegationProjection,
}
use virtual_office_sagara_ag.Dto.Runtime.{DelegationTimelineEventDto, DelegationDto}
use virtual_office_sagara_ag.Mapper.Common.{Spellings, map_unknown_enum, preserve_number}
use virtual_office_sagara_ag.Mapper.Agent.{allowed_delegation_states}

abbrev pub allowed_gateway_states : Spellings GatewayState
allowed_gateway_states =
    ("HEALTHY", GatewayState.healthy)
    ∷ ("STALE", GatewayState.stale)
    ∷ ("DEGRADED", GatewayState.degraded)
    ∷ ("OFFLINE", GatewayState.offline)
    ∷ ("UNKNOWN", GatewayState.unknown)
    ∷ []

abbrev pub allowed_delivery_states : Spellings DeliveryState
allowed_delivery_states =
    ("PENDING", DeliveryState.pending)
    ∷ ("DELIVERED", DeliveryState.delivered)
    ∷ ("ACKNOWLEDGED", DeliveryState.acknowledged)
    ∷ ("FAILED", DeliveryState.failed)
    ∷ ("UNKNOWN", DeliveryState.unknown)
    ∷ []

map_timeline_event : DelegationTimelineEventDto → DelegationTimelineEvent
map_timeline_event t = record {
  stage = or_text (some t.stage) "Started";
  timestamp = t.timestamp;
  details = t.details;
}

-- `mapDelegationDtoToDomain`
unfoldable pub map_delegation_dto_to_domain : Engine → DelegationDto → DelegationProjection
unfolding map_timeline_event
map_delegation_dto_to_domain js dto = record {
  id = dto.id;
  task_title = dto.task_title;
  task_description = dto.task_description;
  origin_agent_id = dto.origin_agent_id;
  origin_agent_name = or_text dto.origin_agent_name "Agent";
  origin_session_id = dto.origin_session_id;
  parent_session_id = dto.parent_session_id;
  state = map_unknown_enum js (some dto.state) allowed_delegation_states DelegationState.unknown;
  owner_pid = preserve_number dto.owner_pid;
  delivery_state =
      if truthy dto.delivery_state
      then some
          (map_unknown_enum js dto.delivery_state allowed_delivery_states DeliveryState.unknown)
      else none;
  started_at = dto.started_at;
  updated_at = dto.updated_at;
  completed_at = dto.completed_at;
  result_summary = dto.result_summary;
  timeline = map map_timeline_event (or_else dto.timeline []);
}
