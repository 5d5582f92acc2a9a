-- ===== src/Realtime/Client.antt =====
-- realtime-client.ts: the client, the sockets that it opens, and its event handlers. A handler takes
-- the world to the next one. `typeof window` is defined: the code runs in a browser.
pub mod Branches
pub mod Replica
pub mod Sequence
pub mod Events
mod Keeps
pub mod Shut
pub mod Recovery
pub mod Stream
mod Sockets
mod Presence
pub mod Liveness
pub mod Gap
pub mod Status
pub mod Stale
use virtual_office_sagara_ag.Prelude.{
  ℕ, zero, suc, ◌+◌, ◌*◌, ◌^◌, ◌-◌, String, Bool, true, false, not, ◌&&◌, ◌||◌, Option, none, some,
  List, [], ◌∷◌, ◌++◌, ◌==◌, if◌then◌else◌, min, ltb, leb, eqb, or_some, truthy,
}
use virtual_office_sagara_ag.Prelude.NumberText.{number_text}
use virtual_office_sagara_ag.Engine.{Engine}
use virtual_office_sagara_ag.Realtime.Protocol.{
  RealtimeEnvelopeDto, Payload, null_payload, payload, Parsed, protocol_version,
  valid_realtime_envelope,
}
use virtual_office_sagara_ag.Realtime.Store.{
  RealtimeConnectionStatus, RealtimeState, set_status, set_connected, set_disconnected,
  set_reconnecting, record_message, reset,
}
use virtual_office_sagara_ag.Realtime.Queries.{QueryClient}
use virtual_office_sagara_ag.Realtime.Cache.{apply_realtime_snapshot, apply_realtime_delta}

pub data ReadyState : Type 0 where
  connecting open_state closing closed : ReadyState

-- A `WebSocket`: its state, and the query parameters of the address that it was opened with.
pub record Socket : Type 0 where
  pub id : ℕ
  pub ready_state : ReadyState
  pub parameters : List (String × String)

-- The fields of `RealtimeClient` that change; `ws` is the id of a socket and `reconnect_timer` the
-- delay of the pending timer.
pub record Client : Type 0 where
  pub ws : Option ℕ
  pub reconnect_timer : Option ℕ
  pub reconnect_attempt : ℕ
  pub is_explicitly_closed : Bool
  pub enabled : Bool
  pub server_instance_id : Option String
  pub last_sequence : Option ℕ

-- `new RealtimeClient(options)`
abbrev pub new_client : Option Bool → Client
new_client enabled = record {
  ws = none;
  reconnect_timer = none;
  reconnect_attempt = 0;
  is_explicitly_closed = false;
  enabled = virtual_office_sagara_ag.Prelude.or_else enabled true;
  server_instance_id = none;
  last_sequence = none;
}

pub record World {ℓ} (Cache : Type ℓ) : Type ℓ where
  pub client : Client
  pub store : RealtimeState
  pub cache : Cache
  pub sockets : List Socket

-- `readyState` of a socket; one that the world does not know is closed.
unfoldable pub ready_state : ℕ → List Socket → ReadyState
ready_state i [] = ReadyState.closed
ready_state i (s ∷ rest) = if eqb s.id i then s.ready_state else ready_state i rest

unfoldable pub set_ready_state : ℕ → ReadyState → List Socket → List Socket
set_ready_state i r [] = []
set_ready_state i r (s ∷ rest) =
    if eqb s.id i then record s { ready_state = r } ∷ rest else s ∷ set_ready_state i r rest

abbrev pub is_live : ReadyState → Bool
is_live ReadyState.connecting = true
is_live ReadyState.open_state = true
is_live _ = false

-- `ws.close(…)`: a socket that is closing or closed stays so.
unfoldable pub close_socket : ℕ → List Socket → List Socket
unfolding set_ready_state ready_state
close_socket i sockets =
    if is_live (ready_state i sockets)
    then set_ready_state i ReadyState.closing sockets
    else sockets

-- The next free socket id.
unfoldable pub fresh : List Socket → ℕ
fresh [] = 0
fresh (s ∷ rest) = virtual_office_sagara_ag.Prelude.max (suc s.id) (fresh rest)

-- the parameters that `resolveWebSocketUrl` puts into the address
unfoldable pub resume_parameters : Client → List (String × String)
resume_parameters c = ("protocol_version", protocol_version) ∷ elim c.server_instance_id [
  | none ↦ []
  | some server ↦ if server == "" then [] else elim c.last_sequence [
    | none ↦ []
    | some n ↦ ("server_instance_id", server) ∷ ("from_sequence", number_text n) ∷ []
  ]
]

-- `Math.min(15000, 1000 * Math.pow(2, attempt - 1)) + Math.random() * 500`
unfoldable pub reconnect_delay : ℕ → ℕ → ℕ
reconnect_delay attempt jitter = min 15000 (1000 * 2 ^ (attempt - 1)) + jitter

module _ {ℓ} {Cache : Type ℓ} where
  -- `scheduleReconnect`
  unfoldable pub schedule_reconnect : ℕ → World Cache → World Cache
  schedule_reconnect jitter w =
      if w.client.is_explicitly_closed then w else elim w.client.reconnect_timer [
        | some _ ↦ w
        | none ↦ record w {
          client = record w.client {
            reconnect_attempt = w.client.reconnect_attempt + 1;
            reconnect_timer = some (reconnect_delay (w.client.reconnect_attempt + 1) jitter);
          };
        }
      ]

  -- `this.ws && (OPEN || CONNECTING)`
  unfoldable pub has_live_socket : World Cache → Bool
  unfolding ready_state
  has_live_socket w = elim w.client.ws [ none ↦ false | some i ↦ is_live (ready_state i w.sockets) ]

  -- what `connect` does once its guards are passed; `failure` is what the constructor throws
  unfoldable pub open_socket : Option String → ℕ → World Cache → World Cache
  unfolding fresh resume_parameters
  open_socket failure jitter w =
      let store =
        if ltb 0 w.client.reconnect_attempt
        then set_reconnecting w.client.reconnect_attempt w.store
        else set_status RealtimeConnectionStatus.connecting w.store in
      elim failure [
        | none ↦ record w {
          client = record w.client { is_explicitly_closed = false; ws = some (fresh w.sockets) };
          store = store;
          sockets =
              record {
                id = fresh w.sockets;
                ready_state = ReadyState.connecting;
                parameters = resume_parameters w.client;
              }
              ∷ w.sockets;
        }
        | some err ↦ schedule_reconnect jitter (record w {
          client = record w.client { is_explicitly_closed = false; ws = none };
          store = set_disconnected (some err) store;
        })
      ]

  -- `connect`
  unfoldable pub connect : Option String → ℕ → World Cache → World Cache
  connect failure jitter w =
      if not w.client.enabled || has_live_socket w then w else open_socket failure jitter w

  -- the timer's callback
  unfoldable pub timer_fired : Option String → ℕ → World Cache → World Cache
  timer_fired failure jitter w =
      connect failure jitter (record w { client = record w.client { reconnect_timer = none } })

  -- `disconnect`
  unfoldable pub disconnect : World Cache → World Cache
  unfolding close_socket
  disconnect w = record w {
    client = record w.client { is_explicitly_closed = true; reconnect_timer = none; ws = none };
    sockets = elim w.client.ws [ none ↦ w.sockets | some i ↦ close_socket i w.sockets ];
    store = reset w.store;
  }

  -- `ws.onclose` of the socket `i`; an empty reason is no error text
  unfoldable pub socket_closed : ℕ → String → ℕ → World Cache → World Cache
  unfolding set_ready_state
  socket_closed i reason jitter w₀ =
      let w = record w₀ {
        client = record w₀.client { ws = none };
        sockets = set_ready_state i ReadyState.closed w₀.sockets;
      } in
      if w.client.is_explicitly_closed
      then record w { store = reset w.store }
      else schedule_reconnect jitter (record w {
        store = set_disconnected (if reason == "" then none else some reason) w.store;
      })

  -- `ws.onopen` does nothing; the socket is open.
  unfoldable pub socket_opened : ℕ → World Cache → World Cache
  unfolding set_ready_state
  socket_opened i w = record w { sockets = set_ready_state i ReadyState.open_state w.sockets }

  -- `resync`
  unfoldable pub resync : World Cache → World Cache
  unfolding close_socket
  resync w = elim w.client.ws [
    | none ↦ w
    | some i ↦ record w {
      client = record w.client { last_sequence = none };
      sockets = close_socket i w.sockets;
    }
  ]
