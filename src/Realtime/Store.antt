-- ===== src/Realtime/Store.antt =====
-- realtime-store.ts: what the user interface sees of the connection. `now` is the time text that
-- `new Date().toISOString()` gives.
use virtual_office_sagara_ag.Prelude.{ℕ, String, Option, none, some}

pub data RealtimeConnectionStatus : Type 0 where
  connecting connected reconnecting disconnected degraded : RealtimeConnectionStatus

pub record RealtimeState : Type 0 where
  pub status : RealtimeConnectionStatus
  pub server_instance_id : Option String
  pub last_sequence : Option ℕ
  pub last_connected_at : Option String
  pub last_message_at : Option String
  pub reconnect_attempts : ℕ
  pub last_error : Option String

abbrev pub initial : RealtimeState
initial = record {
  status = RealtimeConnectionStatus.disconnected;
  server_instance_id = none;
  last_sequence = none;
  last_connected_at = none;
  last_message_at = none;
  reconnect_attempts = 0;
  last_error = none;
}

unfoldable pub set_status : RealtimeConnectionStatus → RealtimeState → RealtimeState
set_status status s = record s { status = status }

unfoldable pub set_connected : String → String → ℕ → RealtimeState → RealtimeState
set_connected now server_instance_id initial_sequence s = record {
  status = RealtimeConnectionStatus.connected;
  server_instance_id = some server_instance_id;
  last_sequence = some initial_sequence;
  last_connected_at = some now;
  last_message_at = some now;
  reconnect_attempts = 0;
  last_error = none;
}

unfoldable pub set_disconnected : Option String → RealtimeState → RealtimeState
set_disconnected error s = record s {
  status = RealtimeConnectionStatus.disconnected;
  last_error = error;
}

unfoldable pub set_reconnecting : ℕ → RealtimeState → RealtimeState
set_reconnecting attempt s = record s {
  status = RealtimeConnectionStatus.reconnecting;
  reconnect_attempts = attempt;
}

unfoldable pub record_message : String → ℕ → RealtimeState → RealtimeState
record_message now sequence s = record s {
  last_sequence = some sequence;
  last_message_at = some now;
}

unfoldable pub reset : RealtimeState → RealtimeState
reset s = initial
