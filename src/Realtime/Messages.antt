-- ===== src/Realtime/Messages.antt =====
-- realtime-client.ts: `handleMessage` and its branches.
use virtual_office_sagara_ag.Prelude.{
  ◌+◌, String, Bool, false, not, ◌&&◌, Option, none, some, ◌==◌, if◌then◌else◌, ltb, leb,
}
use virtual_office_sagara_ag.Engine.{Engine}
use virtual_office_sagara_ag.Realtime.Protocol.{
  RealtimeEnvelopeDto, null_payload, payload, Parsed, protocol_version, valid_realtime_envelope,
}
use virtual_office_sagara_ag.Realtime.Store.{
  RealtimeConnectionStatus, set_status, set_connected, record_message,
}
use virtual_office_sagara_ag.Realtime.Queries.{QueryClient}
use virtual_office_sagara_ag.Realtime.Cache.{apply_realtime_snapshot, apply_realtime_delta}
use virtual_office_sagara_ag.Realtime.Client.{World, resync}

-- `this.serverInstanceId && this.serverInstanceId !== id`: the server was restarted
unfoldable pub is_restarted : Option String → String → Bool
is_restarted none id = false
is_restarted (some known) id = not (known == "") && not (known == id)

module _ {ℓ} {Cache : Type ℓ} where
  -- the reaction of `handleMessage` to another server instance
  unfoldable pub note_restart : RealtimeEnvelopeDto → World Cache → World Cache
  unfolding is_restarted
  note_restart env w =
      if is_restarted w.client.server_instance_id env.server_instance_id
      then record w {
        client = record w.client {
          server_instance_id = some env.server_instance_id;
          last_sequence = none;
        };
      }
      else w

  unfoldable pub on_heartbeat : String → World Cache → World Cache
  on_heartbeat now w = elim w.client.last_sequence [
    | none ↦ w
    | some n ↦ record w { store = record_message now n w.store }
  ]

module _ (qc : QueryClient) (js : Engine) (now : String) where
  open qc use {Cache}

  -- A `null` payload throws after the client's fields are written, and `handleMessage` catches it.
  unfoldable pub on_snapshot : RealtimeEnvelopeDto → World Cache → World Cache
  on_snapshot env w₀ =
      let w = record w₀ {
        client = record w₀.client {
          server_instance_id = some env.server_instance_id;
          last_sequence = some env.sequence;
          reconnect_attempt = 0;
        };
      } in
      elim env.payload [
        | null_payload ↦ w
        | payload snapshot _ ↦ record w {
          cache = apply_realtime_snapshot qc js now snapshot w.cache;
          store = set_connected now env.server_instance_id env.sequence w.store;
        }
      ]

  -- a delta that passed the continuity test
  unfoldable pub accept_delta : RealtimeEnvelopeDto → World Cache → World Cache
  accept_delta env w₀ =
      let w = record w₀ { client = record w₀.client { last_sequence = some env.sequence } } in
      elim env.payload [
        | null_payload ↦ w
        | payload _ delta ↦ record w {
          cache = apply_realtime_delta qc js now delta w.cache;
          store = record_message now env.sequence w.store;
        }
      ]

  unfoldable pub on_delta : RealtimeEnvelopeDto → World Cache → World Cache
  on_delta env w = elim w.client.last_sequence [
    | none ↦ accept_delta env w
    | some n ↦
        if leb env.sequence n
        then w
        else if ltb (n + 1) env.sequence
        then resync w
        else accept_delta env w
  ]

  -- the `switch` of `handleMessage`; an `error` and any other type change nothing
  unfoldable pub dispatch : RealtimeEnvelopeDto → World Cache → World Cache
  dispatch env w =
      if env.type == "snapshot"
      then on_snapshot env w
      else if env.type == "delta"
      then on_delta env w
      else if env.type == "heartbeat"
      then on_heartbeat now w
      else if env.type == "resync_required"
      then resync w
      else w

  unfoldable pub handle_envelope : RealtimeEnvelopeDto → World Cache → World Cache
  handle_envelope env w =
      if not (env.protocol_version == protocol_version)
      then record w { store = set_status RealtimeConnectionStatus.degraded w.store }
      else dispatch env (note_restart env w)

  -- `handleMessage`
  unfoldable pub handle_message : Parsed → World Cache → World Cache
  handle_message message w = elim (valid_realtime_envelope message) [
    | none ↦ w
    | some env ↦ handle_envelope env w
  ]
