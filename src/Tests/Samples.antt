-- ===== src/Tests/Samples.antt =====
-- Sample engine, agents, messages and worlds.
use Prim.Native.String.{len}
use virtual_office_sagara_ag.Prelude.{
  String, ◌≡◌, ◌⊎◌, true, none, some, [], ◌∷◌, leb, arith, if◌then◌else◌, ◌==◌,
}
use virtual_office_sagara_ag.Engine.{Engine, HasLocaleOrder}
use virtual_office_sagara_ag.Domain.Agent.{AgentProjection, AgentStatus, RuntimeConfidence}
use virtual_office_sagara_ag.Domain.Runtime.{DelegationProjection, DelegationState}
use virtual_office_sagara_ag.Dto.Agent.{AgentDto}
use virtual_office_sagara_ag.Realtime.Protocol.{
  RealtimeSnapshotPayloadDto, RealtimeDeltaPayloadDto, EntityDeltaDto,
}
use virtual_office_sagara_ag.Realtime.Store.{initial}
use virtual_office_sagara_ag.Realtime.Client.{World, Client, Socket, ReadyState, new_client}
use virtual_office_sagara_ag.Realtime.Queries.Table.{Table, empty_table}

-- Texts are ordered by length, and a few texts are dates.
abbrev pub plain : Engine
plain = record {
  trim = λ s. s;
  to_upper_case = λ s. s;
  to_lower_case = λ s. s;
  locale_le = λ a b. leb (len a) (len b);
  get_time = λ s.
      if s == "nine"
      then some 9000000
      else if s == "half past nine"
      then some 10800000
      else if s == "ten"
      then some 12600000
      else none;
  code_units = λ s. [];
}

pub by_length : (a b : String) → (leb (len a) (len b) ≡ true) ⊎ (leb (len b) (len a) ≡ true)
by_length a b = ground arith

pub by_length_trans :
    (a b c : String)
    → leb (len a) (len b) ≡ true
    → leb (len b) (len c) ≡ true
    → leb (len a) (len c) ≡ true
by_length_trans a b c h k = ground (arith, h, k)

abbrev pub plain_order : HasLocaleOrder plain
plain_order = record { total = by_length; trans = by_length_trans }

abbrev pub agent : (id name : String) → AgentProjection
agent id name = record {
  id = id;
  definition = record {
    id = none;
    name = name;
    role = none;
    description = none;
    enabled = true;
    memory_namespace = none;
    allowed_skills = none;
    configuration_state = none;
    category = none;
    assigned_agents_count = none;
    tags = none;
    is_system = none;
  };
  runtime = record {
    state = AgentStatus.active;
    confidence = RuntimeConfidence.confirmed;
    last_activity_at = none;
    session_count = none;
    active_delegations = none;
    current_session_id = none;
    current_task_id = none;
    model = none;
    current_activity = none;
  };
  capabilities = record { total = none; healthy = none; degraded = none; missing = none };
  usage = none;
  skills = none;
  sessions = none;
  delegations = none;
}

abbrev pub agent_dto : (id state : String) → AgentDto
agent_dto id state = record {
  id = id;
  definition = record {
    id = none;
    name = id;
    role = none;
    description = none;
    enabled = true;
    memory_namespace = none;
    configuration_state = none;
  };
  runtime = record {
    state = state;
    confidence = "CONFIRMED";
    last_activity_at = none;
    session_count = none;
    active_delegations = none;
    current_session_id = none;
    current_task_id = none;
    model = none;
    current_activity = none;
  };
  capabilities = record { total = none; healthy = none; degraded = none; missing = none };
  usage = none;
  skills = none;
  sessions = none;
  delegations = none;
}

abbrev pub delegation : (id origin : String) → DelegationState → DelegationProjection
delegation id origin state = record {
  id = id;
  task_title = id;
  task_description = none;
  origin_agent_id = origin;
  origin_agent_name = origin;
  origin_session_id = "";
  parent_session_id = none;
  state = state;
  owner_pid = none;
  delivery_state = none;
  started_at = "nine";
  updated_at = "nine";
  completed_at = none;
  result_summary = none;
  timeline = [];
}

abbrev pub snapshot : RealtimeSnapshotPayloadDto
snapshot = record {
  generated_at = "nine";
  revision = none;
  gateway = none;
  runtime_summary = none;
  agents = some (agent_dto "scout" "ACTIVE" ∷ agent_dto "lead" "IDLE" ∷ []);
  task_summary = none;
  approval_summary = none;
  active_delegations = none;
  attention = none;
}

abbrev pub agents_delta : EntityDeltaDto AgentDto
agents_delta = record {
  upsert = some (agent_dto "scribe" "ACTIVE" ∷ []);
  remove = some ("scout" ∷ []);
}

abbrev pub delta : RealtimeDeltaPayloadDto
delta = record {
  base_revision = none;
  revision = none;
  generated_at = none;
  changes = some (record {
    gateway = none;
    runtime_summary = none;
    agents = some agents_delta;
    task_summary = none;
    approval_summary = none;
    active_delegations = none;
    attention = none;
  });
}

abbrev pub new_world : World Table
new_world = record { client = new_client none; store = initial; cache = empty_table; sockets = [] }

-- a client at the number 7 of a server, over an open socket
abbrev pub streaming_client : Client
streaming_client = record (new_client none) {
  ws = some 3;
  server_instance_id = some "server";
  last_sequence = some 7;
}

abbrev pub open_socket_3 : Socket
open_socket_3 = record { id = 3; ready_state = ReadyState.open_state; parameters = [] }

abbrev pub streaming_world : World Table
streaming_world = record {
  client = streaming_client;
  store = initial;
  cache = empty_table;
  sockets = open_socket_3 ∷ [];
}
