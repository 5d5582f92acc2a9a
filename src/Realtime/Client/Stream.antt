-- ===== src/Realtime/Client/Stream.antt =====
-- A connection's stream of messages: a snapshot, and deltas of consecutive numbers.
use virtual_office_sagara_ag.Prelude.{
  ℕ, String, ◌≡◌, refl, false, none, some, List, [], ◌∷◌, length, ◌≤◌, ◌+◌, arith, eq_refl,
}
use virtual_office_sagara_ag.Engine.{Engine}
use virtual_office_sagara_ag.Realtime.Protocol.{
  RealtimeSnapshotPayloadDto, RealtimeDeltaPayloadDto, Payload, payload, Parsed, JsValue,
  protocol_version, valid_realtime_envelope,
}
use virtual_office_sagara_ag.Realtime.Store.{
  RealtimeConnectionStatus, set_connected, record_message,
}
use virtual_office_sagara_ag.Realtime.Queries.{QueryClient}
use virtual_office_sagara_ag.Realtime.Cache.{apply_realtime_snapshot, apply_realtime_delta}
use virtual_office_sagara_ag.Realtime.Client.{World}
use virtual_office_sagara_ag.Realtime.Messages.{
  note_restart, is_restarted, on_snapshot, accept_delta, on_delta, dispatch, handle_envelope,
  handle_message,
}
use virtual_office_sagara_ag.Realtime.Client.Branches.{handle_messages}

-- A message of the protocol version of the client, as the backend serializes it.
abbrev pub message_of : String → String → ℕ → Payload → Parsed
message_of kind server n body = Parsed.object (record {
  protocol_version = some (JsValue.string protocol_version);
  type = some (JsValue.string kind);
  sequence = some (JsValue.number n);
  generated_at = some (JsValue.string "");
  server_instance_id = some (JsValue.string server);
  payload = some body;
})

-- A delta as it is sent: when it comes, and what a snapshot's reader would see of it.
abbrev pub Sent : Type 0
Sent = String × RealtimeSnapshotPayloadDto × RealtimeDeltaPayloadDto

-- The deltas of a server that has sent number `n`.
unfoldable pub in_order : String → ℕ → List Sent → List (String × Parsed)
in_order server n [] = []
in_order server n ((now, s, d) ∷ rest) =
    (now, message_of "delta" server (n + 1) (payload s d)) ∷ in_order server (n + 1) rest

pub is_restarted_self : (server : String) → is_restarted (some server) server ≡ false
unfolding is_restarted
is_restarted_self server = ground (arith, eq_refl server)

-- What a client keeps of a stream.
pub record IsAt {ℓ} {Cache : Type ℓ} (server : String) (n : ℕ) (c : Cache) (w : World Cache)
    : Type ℓ where
  pub server_known : w.client.server_instance_id ≡ some server
  pub number : w.client.last_sequence ≡ some n
  pub cached : w.cache ≡ c

-- Connected in the user interface, with no reconnection counted.
pub record IsConnected {ℓ} {Cache : Type ℓ} (w : World Cache) : Type ℓ where
  pub status : w.store.status ≡ RealtimeConnectionStatus.connected
  pub attempt : w.client.reconnect_attempt ≡ 0
  pub no_error : w.store.last_error ≡ none

module _ (qc : QueryClient) (js : Engine) where
  -- the deltas, applied one after the other
  unfoldable pub apply_deltas : List Sent → qc.Cache → qc.Cache
  apply_deltas [] c = c
  apply_deltas ((now, s, d) ∷ rest) c = apply_deltas rest (apply_realtime_delta qc js now d c)

  -- The next delta of the known server is accepted.
  handle-next_delta :
      (now server : String) (n : ℕ) (s : RealtimeSnapshotPayloadDto) (d : RealtimeDeltaPayloadDto)
      (w : World qc.Cache)
      → w.client.server_instance_id ≡ some server
      → w.client.last_sequence ≡ some n
      → handle_message qc js now (message_of "delta" server (n + 1) (payload s d)) w ≡ record w {
        client = record w.client { last_sequence = some (n + 1) };
        cache = apply_realtime_delta qc js now d w.cache;
        store = record_message now (n + 1) w.store;
      }
  unfolding handle_message valid_realtime_envelope handle_envelope dispatch note_restart on_delta
      accept_delta
  handle-next_delta now server n s d w hs hn =
      rw (hs, is_restarted_self server, hn) (ground (arith, hs, hn))

  in_order-IsAt :
      (server : String) (n m : ℕ) (sent : List Sent) (c : qc.Cache) (w : World qc.Cache)
      → m ≡ n + length sent
      → IsAt server n c w
      → IsAt server m (apply_deltas sent c) (handle_messages qc js (in_order server n sent) w)
  unfolding in_order apply_deltas handle_messages
  in_order-IsAt server n m [] c w e h = record {
    server_known = h.server_known;
    number = ground (arith, h.number, e);
    cached = h.cached;
  }
  in_order-IsAt server n m ((now, s, d) ∷ rest) c w e h =
      rw (handle_messages, handle-next_delta now server n s d w h.server_known h.number, h.cached)
        (in_order-IsAt server (n + 1) m rest (apply_realtime_delta qc js now d c) _
          (omega (arith, e))
          (record { server_known = h.server_known; number = refl; cached = refl }))

  next_delta-IsConnected :
      (now : String) (n : ℕ) (c : qc.Cache) (w : World qc.Cache)
      → IsConnected w
      → IsConnected (record w {
        client = record w.client { last_sequence = some n };
        cache = c;
        store = record_message now n w.store;
      })
  unfolding record_message
  next_delta-IsConnected now n c w k = record {
    status = k.status;
    attempt = k.attempt;
    no_error = k.no_error;
  }

  in_order-IsConnected :
      (server : String) (n : ℕ) (sent : List Sent) (w : World qc.Cache)
      → w.client.server_instance_id ≡ some server
      → w.client.last_sequence ≡ some n
      → IsConnected w
      → IsConnected (handle_messages qc js (in_order server n sent) w)
  unfolding in_order handle_messages
  in_order-IsConnected server n [] w hs hn h = h
  in_order-IsConnected server n ((now, s, d) ∷ rest) w hs hn h =
      rw (handle_messages, handle-next_delta now server n s d w hs hn)
        (in_order-IsConnected server (n + 1) rest _ hs refl
          (next_delta-IsConnected now (n + 1) _ w h))

  -- A snapshot is taken in any state, also of a new server.
  pub handle-snapshot :
      (now server : String) (n : ℕ) (s : RealtimeSnapshotPayloadDto) (d : RealtimeDeltaPayloadDto)
      (w : World qc.Cache)
      → handle_message qc js now (message_of "snapshot" server n (payload s d)) w ≡ record w {
        client = record w.client {
          server_instance_id = some server;
          last_sequence = some n;
          reconnect_attempt = 0;
        };
        cache = apply_realtime_snapshot qc js now s w.cache;
        store = set_connected now server n w.store;
      }
  unfolding handle_message valid_realtime_envelope handle_envelope dispatch note_restart on_snapshot
  handle-snapshot now server n s d w = ground arith

  -- In whatever state a client is, a snapshot and then deltas of consecutive numbers, all of one
  -- server, bring its cache to the snapshot with the deltas applied in order, its number to the last
  -- one sent, and its status to connected, with no reconnection counted.
  pub stream-IsAt :
      (now server : String) (n : ℕ) (s : RealtimeSnapshotPayloadDto) (d : RealtimeDeltaPayloadDto)
      (sent : List Sent) (w : World qc.Cache)
      → IsAt server
          (n + length sent)
          (apply_deltas sent (apply_realtime_snapshot qc js now s w.cache))
          (handle_messages qc js
            ((now, message_of "snapshot" server n (payload s d)) ∷ in_order server n sent)
            w)
        × IsConnected (
            handle_messages qc js
              ((now, message_of "snapshot" server n (payload s d)) ∷ in_order server n sent)
              w)
  unfolding handle_messages set_connected
  stream-IsAt now server n s d sent w =
      rw (handle_messages, handle-snapshot now server n s d w)
        (
          in_order-IsAt server n (n + length sent) sent _ _ refl
              (record { server_known = refl; number = refl; cached = refl }),
          in_order-IsConnected server n sent _ refl refl
              (record { status = refl; attempt = refl; no_error = refl }),
        )

  -- A delta that is not newer changes nothing.
  handle-old_delta :
      (now server : String) (m n : ℕ) (body : Payload) (w : World qc.Cache)
      → w.client.server_instance_id ≡ some server
      → w.client.last_sequence ≡ some n
      → m ≤ n
      → handle_message qc js now (message_of "delta" server m body) w ≡ w
  unfolding handle_message valid_realtime_envelope handle_envelope dispatch note_restart on_delta
  handle-old_delta now server m n body w hs hn h =
      rw (hs, is_restarted_self server, hn) (ground (arith, hs, hn, h))

  -- Deltas that a server sends again, up to the number that the client has reached, change nothing at
  -- all.
  redelivery-ignored :
      (server : String) (n m : ℕ) (sent : List Sent) (w : World qc.Cache)
      → w.client.server_instance_id ≡ some server
      → w.client.last_sequence ≡ some m
      → n + length sent ≤ m
      → handle_messages qc js (in_order server n sent) w ≡ w
  unfolding in_order handle_messages
  redelivery-ignored server n m [] w hs hm h = refl
  redelivery-ignored server n m ((now, s, d) ∷ rest) w hs hm h =
      rw
        (
          handle_messages,
          handle-old_delta now server (n + 1) m (payload s d) w hs hm (omega (arith, h)),
        )
        (redelivery-ignored server (n + 1) m rest w hs hm (omega (arith, h)))
