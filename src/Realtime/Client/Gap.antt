-- ===== src/Realtime/Client/Gap.antt =====
-- A gap in the numbers of the deltas: the client drops its socket, and comes back without a number.
use virtual_office_sagara_ag.Prelude.{
  ℕ, String, ◌≡◌, refl, true, false, none, some, List, [], ◌∷◌, if◌then◌else◌, ◌<◌, ◌+◌, arith,
  ◌==◌,
}
use virtual_office_sagara_ag.Engine.{Engine}
use virtual_office_sagara_ag.Realtime.Protocol.{Payload, protocol_version, valid_realtime_envelope}
use virtual_office_sagara_ag.Realtime.Store.{set_disconnected}
use virtual_office_sagara_ag.Realtime.Queries.{QueryClient}
use virtual_office_sagara_ag.Realtime.Client.{
  World, Client, Socket, ReadyState, ready_state, is_live, resync, close_socket, resume_parameters,
  fresh, connect, open_socket, timer_fired, socket_closed, schedule_reconnect, has_live_socket,
  reconnect_delay, set_ready_state,
}
use virtual_office_sagara_ag.Realtime.Messages.{
  note_restart, on_delta, dispatch, handle_envelope, handle_message,
}
use virtual_office_sagara_ag.Realtime.Client.Events.{Event, step, run}
use virtual_office_sagara_ag.Realtime.Client.Stream.{message_of, is_restarted_self}
use virtual_office_sagara_ag.Realtime.Client.Sockets.{ready_state-close_socket}

module _ (qc : QueryClient) (js : Engine) (w : World qc.Cache) (i : ℕ) where
  -- The client is in a stream of the server at the number `n`, over the live socket `i`.
  pub record IsStreaming (server : String) (n : ℕ) : Type 0 where
    pub server_known : w.client.server_instance_id ≡ some server
    pub number : w.client.last_sequence ≡ some n
    pub current : w.client.ws ≡ some i
    pub live : is_live (ready_state i w.sockets) ≡ true
    pub wanted : w.client.is_explicitly_closed ≡ false
    pub on : w.client.enabled ≡ true
    pub idle : w.client.reconnect_timer ≡ none

  abbrev pub after_gap : World qc.Cache
  after_gap = record w {
    client = record w.client { last_sequence = none };
    sockets = close_socket i w.sockets;
  }

  handle-gap :
      (now server : String) (n m : ℕ) (body : Payload)
      → IsStreaming server n
      → n + 1 < m
      → handle_message qc js now (message_of "delta" server m body) w ≡ after_gap
  unfolding handle_message valid_realtime_envelope handle_envelope dispatch note_restart on_delta
      resync
  handle-gap now server n m body h gap =
      rw (h.server_known, is_restarted_self server, h.number, h.current)
        (ground (arith, gap, h.server_known, h.number, h.current))

  -- The socket `i` reports its closing: a timer is pending.
  closed-after_gap :
      (server reason : String) (n jitter : ℕ)
      → IsStreaming server n
      → step qc js (Event.closed i reason jitter) after_gap ≡ record after_gap {
        client = record after_gap.client {
          ws = none;
          reconnect_attempt = w.client.reconnect_attempt + 1;
          reconnect_timer = some (reconnect_delay (w.client.reconnect_attempt + 1) jitter);
        };
        store = set_disconnected (if reason == "" then none else some reason) w.store;
        sockets = set_ready_state i ReadyState.closed (close_socket i w.sockets);
      }
  unfolding step socket_closed schedule_reconnect
  closed-after_gap server reason n jitter h =
      ground (arith, ready_state-close_socket i w.sockets h.live, h.wanted, h.idle)

-- The newest socket is current, and its address asks for no resumption.
pub record StartsOver {ℓ} {Cache : Type ℓ} (w : World Cache) : Type ℓ where
  pub socket : ℕ
  pub others : List Socket
  pub current : w.client.ws ≡ some socket
  pub newest :
      w.sockets
      ≡ record {
        id = socket;
        ready_state = ReadyState.connecting;
        parameters = ("protocol_version", protocol_version) ∷ [];
      }
        ∷ others

-- Without a number, the address names the protocol only.
resume-unknown :
    (c : Client)
    → c.last_sequence ≡ none
    → resume_parameters c ≡ (("protocol_version", protocol_version) ∷ [])
unfolding resume_parameters
resume-unknown c h = ground (arith, h)

-- Without a number, no current socket and a timer pending: the timer starts over.
timer_due-StartsOver :
    (qc : QueryClient) (js : Engine) (d jitter : ℕ) (w : World qc.Cache)
    → w.client.reconnect_timer ≡ some d
    → w.client.ws ≡ none
    → w.client.enabled ≡ true
    → w.client.last_sequence ≡ none
    → StartsOver (step qc js (Event.timer_due none jitter) w)
unfolding step timer_fired connect open_socket has_live_socket
timer_due-StartsOver qc js d jitter w timer gone on unknown =
    rw (timer, gone, on, unknown)
      (record {
        socket = fresh w.sockets;
        others = w.sockets;
        current = refl;
        newest = rw (resume-unknown (record w.client { reconnect_timer = none }) unknown) refl;
      })

module _ (qc : QueryClient) (js : Engine) (w : World qc.Cache) (i : ℕ) where
  -- A delta that leaves out a number writes nothing: the cache and the store stay, and the socket is
  -- closing. When the browser then reports the closing and runs the timer, the client has a new
  -- socket whose address asks for no resumption.
  pub gap-StartsOver :
      (now server reason : String) (n m jitter later : ℕ) (body : Payload)
      → IsStreaming qc js w i server n
      → n + 1 < m
      → ((handle_message qc js now (message_of "delta" server m body) w).cache ≡ w.cache)
        × ((handle_message qc js now (message_of "delta" server m body) w).store ≡ w.store)
        × (ready_state i (handle_message qc js now (message_of "delta" server m body) w).sockets
            ≡ ReadyState.closing)
        × StartsOver (
            run qc js
              (Event.closed i reason jitter ∷ Event.timer_due none later ∷ [])
              (handle_message qc js now (message_of "delta" server m body) w))
  unfolding run
  gap-StartsOver now server reason n m jitter later body h gap =
      rw (handle-gap qc js w i now server n m body h gap)
        (refl, refl, ready_state-close_socket i w.sockets h.live, started)
    where
      started : StartsOver (
          run qc js
            (Event.closed i reason jitter ∷ Event.timer_due none later ∷ [])
            (after_gap qc js w i))
      started =
          rw (closed-after_gap qc js w i server reason n jitter h)
            (timer_due-StartsOver qc js _ later _ refl refl h.on refl)
