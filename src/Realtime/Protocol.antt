-- ===== src/Realtime/Protocol.antt =====
-- realtime-protocol.ts: the messages of the WebSocket, and the guard on incoming envelopes
use virtual_office_sagara_ag.Prelude.{ℕ, String, Bool, Option, none, some, List}
use virtual_office_sagara_ag.Dto.Agent.{AgentDto}
use virtual_office_sagara_ag.Dto.Runtime.{DelegationDto}
use virtual_office_sagara_ag.Dto.MissionControl.{AttentionItemDto}

abbrev pub protocol_version : String
protocol_version = "1"

pub record RealtimeGatewayDto : Type 0 where
  pub status : Option String
  pub state : Option String
  pub connected : Option Bool
  pub latency_ms : Option ℕ
  pub last_heartbeat_at : Option String
  pub host : Option String
  pub pid : Option ℕ
  pub backend_id : Option String
  pub heartbeat_age_seconds : Option ℕ
  pub restart_count : Option ℕ

-- `system_load` and `health` are read by nobody.
pub record RealtimeRuntimeSummaryDto : Type 0 where
  pub status : Option String
  pub uptime_seconds : Option ℕ
  pub active_sessions_count : Option ℕ
  pub active_workers_count : Option ℕ
  pub confidence : Option String
  pub gateway : Option RealtimeGatewayDto

pub record EntityDeltaDto {ℓ} (T : Type ℓ) : Type ℓ where
  pub upsert : Option (List T)
  pub remove : Option (List String)

pub record RealtimeChangesDto : Type 0 where
  pub gateway : Option RealtimeGatewayDto
  pub runtime_summary : Option RealtimeRuntimeSummaryDto
  pub agents : Option (EntityDeltaDto AgentDto)
  pub task_summary : Option (List (String × ℕ))
  pub approval_summary : Option (List (String × ℕ))
  pub active_delegations : Option (EntityDeltaDto DelegationDto)
  pub attention : Option (EntityDeltaDto (Option AttentionItemDto))

-- The code reads these fields guardedly, so each may be absent.
pub record RealtimeSnapshotPayloadDto : Type 0 where
  pub generated_at : String
  pub revision : Option ℕ
  pub gateway : Option RealtimeGatewayDto
  pub runtime_summary : Option RealtimeRuntimeSummaryDto
  pub agents : Option (List AgentDto)
  pub task_summary : Option (List (String × ℕ))
  pub approval_summary : Option (List (String × ℕ))
  pub active_delegations : Option (List DelegationDto)
  pub attention : Option (List (Option AttentionItemDto))

pub record RealtimeDeltaPayloadDto : Type 0 where
  pub base_revision : Option ℕ
  pub revision : Option ℕ
  pub generated_at : Option String
  pub changes : Option RealtimeChangesDto

-- A parsed JSON value where the guard looks at no more than its kind.
pub data JsValue : Type 0 where
  null bool object : JsValue
  number : ℕ → JsValue
  string : String → JsValue

-- The payload of an envelope: `null`, on which the first property access throws, or a value with
-- the properties that are read of it as a snapshot and those that are read of it as a delta.
pub data Payload : Type 0 where
  null_payload : Payload
  payload : RealtimeSnapshotPayloadDto → RealtimeDeltaPayloadDto → Payload

-- An object as `JSON.parse` returns it, by the properties that the client looks at; `none` is a
-- missing property.
pub record RawEnvelope : Type 0 where
  pub protocol_version : Option JsValue
  pub type : Option JsValue
  pub sequence : Option JsValue
  pub generated_at : Option JsValue
  pub server_instance_id : Option JsValue
  pub payload : Option Payload

-- What a message's text is to `JSON.parse`: it throws, or gives a primitive or `null`, or an object.
pub data Parsed : Type 0 where
  throws primitive : Parsed
  object : RawEnvelope → Parsed

pub record RealtimeEnvelopeDto : Type 0 where
  pub protocol_version : String
  pub type : String
  pub sequence : ℕ
  pub generated_at : String
  pub server_instance_id : String
  pub payload : Payload

-- `typeof v === 'string'`, with the text
abbrev pub as_string : Option JsValue → Option String
as_string (some (string s)) = some s
as_string _ = none

-- `typeof v === 'number'`, with the number
abbrev pub as_number : Option JsValue → Option ℕ
as_number (some (number n)) = some n
as_number _ = none

-- A missing or ill-typed field ends the test.
module _ {ℓ κ} {A : Type ℓ} {B : Type κ} where
  infixl 5 ◌>>=◌
  abbrev ◌>>=◌ : Option A → (A → Option B) → Option B
  field >>= continue_with = elim field [ none ↦ none | some v ↦ continue_with v ]

-- `isValidRealtimeEnvelope`, with the envelope that a valid object is cast to
unfoldable pub valid_realtime_envelope : Parsed → Option RealtimeEnvelopeDto
valid_realtime_envelope throws = none
valid_realtime_envelope primitive = none
valid_realtime_envelope (object env) = do
  version ← as_string env.protocol_version
  kind ← as_string env.type
  sequence ← as_number env.sequence
  generated ← as_string env.generated_at
  server ← as_string env.server_instance_id
  body ← env.payload
  some (record {
    protocol_version = version;
    type = kind;
    sequence = sequence;
    generated_at = generated;
    server_instance_id = server;
    payload = body;
  })
