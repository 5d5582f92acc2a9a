-- ===== src/Realtime/Mappers.antt =====
-- realtime-mappers.ts. Agents, delegations and attention items go through the mappers of the API.
use virtual_office_sagara_ag.Prelude.{
  false, ◌||◌, Option, none, some, [], if◌then◌else◌, or_else, or_text, is_text, append_text,
}
use virtual_office_sagara_ag.Prelude.NumberText.{number_text}
use virtual_office_sagara_ag.Domain.Runtime.{
  GatewayState, GatewayTelemetry, SourceHealth, RuntimeOverview,
}
use virtual_office_sagara_ag.Domain.MissionControl.{GatewayHealth, GatewayPulse}
use virtual_office_sagara_ag.Mapper.Common.{spelled}
use virtual_office_sagara_ag.Mapper.Runtime.{allowed_gateway_states}
use virtual_office_sagara_ag.Realtime.Protocol.{RealtimeGatewayDto, RealtimeRuntimeSummaryDto}

abbrev pub no_gateway : RealtimeGatewayDto
no_gateway = record {
  status = none;
  state = none;
  connected = none;
  latency_ms = none;
  last_heartbeat_at = none;
  host = none;
  pid = none;
  backend_id = none;
  heartbeat_age_seconds = none;
  restart_count = none;
}

-- `mapRealtimeGateway`; a missing record reads like one with no field
unfoldable pub map_realtime_gateway : Option RealtimeGatewayDto → GatewayTelemetry
map_realtime_gateway dto? =
    let dto = or_else dto? no_gateway in
    let raw_state = or_text dto.status (or_text dto.state "UNKNOWN") in
    record {
      state = or_else (spelled allowed_gateway_states raw_state) GatewayState.unknown;
      backend_id = or_text dto.backend_id "unknown-backend";
      pid = dto.pid;
      host = or_text dto.host "localhost";
      started_at = none;
      last_heartbeat = dto.last_heartbeat_at;
      last_heartbeat_at = dto.last_heartbeat_at;
      heartbeat_age_seconds = dto.heartbeat_age_seconds;
      restart_count = dto.restart_count;
      status_message = none;
    }

abbrev no_summary : RealtimeRuntimeSummaryDto
no_summary = record {
  status = none;
  uptime_seconds = none;
  active_sessions_count = none;
  active_workers_count = none;
  confidence = none;
  gateway = none;
}

-- `mapRealtimeRuntimeOverview`
unfoldable pub map_realtime_runtime_overview : Option RealtimeRuntimeSummaryDto → RuntimeOverview
unfolding map_realtime_gateway
map_realtime_runtime_overview dto? =
    let dto = or_else dto? no_summary in
    record {
      health = record {
        gateway =
            or_else (spelled allowed_gateway_states (or_text dto.status "HEALTHY"))
              GatewayState.healthy;
        runtime_data = SourceHealth.healthy;
        sessions = SourceHealth.healthy;
        delegations = SourceHealth.healthy;
        usage = SourceHealth.healthy;
      };
      gateway = map_realtime_gateway dto.gateway;
      active_sessions_count = some (or_else dto.active_sessions_count 0);
      running_delegations_count = some (or_else dto.active_workers_count 0);
      recent_events = [];
      system_load = none;
    }

-- `isGwHealthy` and the pulse entry that both handlers of realtime-cache.ts build from it
unfoldable pub gateway_pulse : Option RealtimeGatewayDto → GatewayPulse
gateway_pulse dto? =
    let dto = or_else dto? no_gateway in
    record {
      status =
          if is_text dto.status "HEALTHY" || or_else dto.connected false
          then GatewayHealth.healthy
          else GatewayHealth.degraded;
      detail = append_text "Latency: " (append_text (number_text (or_else dto.latency_ms 0)) "ms");
    }
