-- ===== src/Realtime/Client/Status.antt =====
-- Which messages can bring the status back to connected.
use virtual_office_sagara_ag.Prelude.{
  ℕ, String, ◌≡◌, ◌≢◌, Bool, false, none, some, List, [], ◌∷◌, if_both, match_both, All, ◌+◌, ltb,
  leb, ◌==◌,
}
use virtual_office_sagara_ag.Engine.{Engine}
use virtual_office_sagara_ag.Realtime.Protocol.{
  RealtimeEnvelopeDto, Payload, null_payload, payload, Parsed, valid_realtime_envelope,
}
use virtual_office_sagara_ag.Realtime.Store.{RealtimeConnectionStatus, record_message, set_status}
use virtual_office_sagara_ag.Realtime.Queries.{QueryClient}
use virtual_office_sagara_ag.Realtime.Client.{World, resync}
use virtual_office_sagara_ag.Realtime.Messages.{
  note_restart, accept_delta, on_delta, on_heartbeat, dispatch, handle_message, is_restarted,
}
use virtual_office_sagara_ag.Realtime.Client.Branches.{
  handle_messages, dispatch-cases, handle_message-cases,
}

abbrev pub is_snapshot : Parsed → Bool
is_snapshot message = elim (valid_realtime_envelope message) [
  | none ↦ false
  | some env ↦ env.type == "snapshot"
]

-- Not shown as connected, with `k` reconnections counted.
pub record IsOffline {ℓ} {Cache : Type ℓ} (k : ℕ) (w : World Cache) : Type ℓ where
  pub not_connected : w.store.status ≢ RealtimeConnectionStatus.connected
  pub attempt : w.client.reconnect_attempt ≡ k

module _ {ℓ} {Cache : Type ℓ} (k : ℕ) where
  resync-IsOffline : (w : World Cache) → IsOffline k w → IsOffline k (resync w)
  unfolding resync
  resync-IsOffline w h =
      match_both (IsOffline k) w.client.ws (λ _. h)
        (λ _ _. record { not_connected = h.not_connected; attempt = h.attempt })

  note_restart-IsOffline :
      (env : RealtimeEnvelopeDto) (w : World Cache)
      → IsOffline k w
      → IsOffline k (note_restart env w)
  unfolding note_restart
  note_restart-IsOffline env w h =
      if_both (IsOffline k) (is_restarted w.client.server_instance_id env.server_instance_id)
        (record { not_connected = h.not_connected; attempt = h.attempt }) h

  on_heartbeat-IsOffline :
      (now : String) (w : World Cache) → IsOffline k w → IsOffline k (on_heartbeat now w)
  unfolding on_heartbeat record_message
  on_heartbeat-IsOffline now w h =
      match_both (IsOffline k) w.client.last_sequence (λ _. h)
        (λ _ _. record { not_connected = h.not_connected; attempt = h.attempt })

module _ (qc : QueryClient) (js : Engine) (k : ℕ) where
  accept_delta-IsOffline :
      (now : String) (env : RealtimeEnvelopeDto) (w : World qc.Cache)
      → IsOffline k w
      → IsOffline k (accept_delta qc js now env w)
  unfolding accept_delta record_message
  accept_delta-IsOffline now env w h = go env.payload
    where
      go : (p : Payload) → IsOffline k (accept_delta qc js now (record env { payload = p }) w)
      go null_payload = record { not_connected = h.not_connected; attempt = h.attempt }
      go (payload s d) = record { not_connected = h.not_connected; attempt = h.attempt }

  on_delta-IsOffline :
      (now : String) (env : RealtimeEnvelopeDto) (w : World qc.Cache)
      → IsOffline k w
      → IsOffline k (on_delta qc js now env w)
  unfolding on_delta
  on_delta-IsOffline now env w h =
      match_both (IsOffline k) w.client.last_sequence (λ _. accept_delta-IsOffline now env w h)
        (λ n _. if_both (IsOffline k) (leb env.sequence n) h (
          if_both (IsOffline k) (ltb (n + 1) env.sequence) (resync-IsOffline k w h)
            (accept_delta-IsOffline now env w h)))

  handle_message-IsOffline :
      (now : String) (message : Parsed) (w : World qc.Cache)
      → is_snapshot message ≡ false
      → IsOffline k w
      → IsOffline k (handle_message qc js now message w)
  unfolding set_status
  handle_message-IsOffline now message w e h =
      handle_message-cases qc js (IsOffline k) now message w h
        (record { not_connected = λ f. cc f; attempt = h.attempt })
        (λ env valid.
          dispatched env (rw (is_snapshot, valid) at e) (note_restart env w)
            (note_restart-IsOffline k env w h))
    where
      dispatched :
          (env : RealtimeEnvelopeDto)
          → (env.type == "snapshot") ≡ false
          → (v : World qc.Cache) → IsOffline k v
          → IsOffline k (dispatch qc js now env v)
      dispatched env other v u =
          dispatch-cases qc js (IsOffline k) now env v (λ yes_. absurd (cc (yes_, other)))
            (on_delta-IsOffline now env v u) (on_heartbeat-IsOffline k now v u)
            (resync-IsOffline k v u) u

  -- Messages that are no snapshots, the replayed deltas of a resumed connection among them, never
  -- bring a client that is not shown as connected back to connected, nor do they change the number of
  -- reconnections that it counts.
  pub replay-IsOffline :
      (messages : List (String × Parsed)) (w : World qc.Cache)
      → All (λ m. is_snapshot m.1 ≡ false) messages
      → IsOffline k w
      → IsOffline k (handle_messages qc js messages w)
  unfolding handle_messages
  replay-IsOffline [] w h u = u
  replay-IsOffline ((now, message) ∷ rest) w h u =
      replay-IsOffline rest _ h.1 (handle_message-IsOffline now message w h.0 u)
