-- ===== src/Realtime/Client/Keeps.antt =====
-- What the handling of a message leaves alone of the connection.
use virtual_office_sagara_ag.Prelude.{
  ℕ, String, ◌≡◌, refl, Bool, Option, List, [], ◌∷◌, arith, if_both, match_both, leb, ltb, ◌+◌,
  length,
}
use virtual_office_sagara_ag.Engine.{Engine}
use virtual_office_sagara_ag.Realtime.Protocol.{
  RealtimeEnvelopeDto, Payload, null_payload, payload, Parsed,
}
use virtual_office_sagara_ag.Realtime.Queries.{QueryClient}
use virtual_office_sagara_ag.Realtime.Client.{
  World, Socket, ReadyState, set_ready_state, close_socket, resync,
}
use virtual_office_sagara_ag.Realtime.Messages.{
  note_restart, on_snapshot, accept_delta, on_delta, on_heartbeat, dispatch, handle_message,
}
use virtual_office_sagara_ag.Realtime.Client.Branches.{dispatch-cases, handle_message-cases}

pub length-set_ready_state :
    (i : ℕ) (r : ReadyState) (sockets : List Socket)
    → length (set_ready_state i r sockets) ≡ length sockets
unfolding set_ready_state
length-set_ready_state i r [] = refl
length-set_ready_state i r (s ∷ rest) = ground (arith, length-set_ready_state i r rest)

pub length-close_socket :
    (i : ℕ) (sockets : List Socket) → length (close_socket i sockets) ≡ length sockets
unfolding close_socket
length-close_socket i sockets = ground (arith, length-set_ready_state i ReadyState.closing sockets)

-- How a client is connected: its current socket, its timer and flags, and how many sockets it opened.
pub record Connection : Type 0 where
  pub ws : Option ℕ
  pub reconnect_timer : Option ℕ
  pub is_explicitly_closed : Bool
  pub enabled : Bool
  pub opened_sockets : ℕ

abbrev pub connection {ℓ} : {Cache : Type ℓ} → World Cache → Connection
connection w = record {
  ws = w.client.ws;
  reconnect_timer = w.client.reconnect_timer;
  is_explicitly_closed = w.client.is_explicitly_closed;
  enabled = w.client.enabled;
  opened_sockets = length w.sockets;
}

-- `v` is connected as `w` is.
pub record SameConnection {ℓ} {Cache : Type ℓ} (w v : World Cache) : Type ℓ where
  pub same : connection v ≡ connection w

module _ {ℓ} {Cache : Type ℓ} (w : World Cache) where
  resync-SameConnection : (v : World Cache) → SameConnection w v → SameConnection w (resync v)
  unfolding resync
  resync-SameConnection v h =
      match_both (SameConnection w) v.client.ws (λ _. h)
        (λ i _. record { same = rw (length-close_socket i v.sockets) h.same })

module _ (qc : QueryClient) (js : Engine) (now : String) (w : World qc.Cache) where
  abbrev Keeps : World qc.Cache → Type 0
  Keeps v = SameConnection w v

  on_snapshot-SameConnection :
      (env : RealtimeEnvelopeDto) (v : World qc.Cache)
      → Keeps v
      → Keeps (on_snapshot qc js now env v)
  unfolding on_snapshot
  on_snapshot-SameConnection env v h = go env.payload
    where
      go : (p : Payload) → Keeps (on_snapshot qc js now (record env { payload = p }) v)
      go null_payload = record { same = h.same }
      go (payload s d) = record { same = h.same }

  accept_delta-SameConnection :
      (env : RealtimeEnvelopeDto) (v : World qc.Cache)
      → Keeps v
      → Keeps (accept_delta qc js now env v)
  unfolding accept_delta
  accept_delta-SameConnection env v h = go env.payload
    where
      go : (p : Payload) → Keeps (accept_delta qc js now (record env { payload = p }) v)
      go null_payload = record { same = h.same }
      go (payload s d) = record { same = h.same }

  on_delta-SameConnection :
      (env : RealtimeEnvelopeDto) (v : World qc.Cache) → Keeps v → Keeps (on_delta qc js now env v)
  unfolding on_delta
  on_delta-SameConnection env v h =
      match_both (SameConnection w) v.client.last_sequence
        (λ _. accept_delta-SameConnection env v h)
        (λ n _. if_both (SameConnection w) (leb env.sequence n) h (
          if_both (SameConnection w) (ltb (n + 1) env.sequence) (resync-SameConnection w v h)
            (accept_delta-SameConnection env v h)))

  note_restart-SameConnection : (env : RealtimeEnvelopeDto) → Keeps (note_restart env w)
  unfolding note_restart
  note_restart-SameConnection env =
      if_both (SameConnection w) _ (record { same = refl }) (record { same = refl })

  on_heartbeat-SameConnection : (v : World qc.Cache) → Keeps v → Keeps (on_heartbeat now v)
  unfolding on_heartbeat
  on_heartbeat-SameConnection v h =
      match_both (SameConnection w) v.client.last_sequence (λ _. h)
        (λ n _. record { same = h.same })

  dispatch-SameConnection :
      (env : RealtimeEnvelopeDto) (v : World qc.Cache) → Keeps v → Keeps (dispatch qc js now env v)
  dispatch-SameConnection env v h =
      dispatch-cases qc js (SameConnection w) now env v (λ _. on_snapshot-SameConnection env v h)
        (on_delta-SameConnection env v h) (on_heartbeat-SameConnection v h)
        (resync-SameConnection w v h) h

  -- A message never touches the current socket, the timer or the flags of the client, and opens no
  -- socket.
  pub handle_message-SameConnection : (text : Parsed) → Keeps (handle_message qc js now text w)
  handle_message-SameConnection text =
      handle_message-cases qc js (SameConnection w) now text w (record { same = refl })
        (record { same = refl })
        (λ env _.
          dispatch-SameConnection env (note_restart env w) (note_restart-SameConnection env))
