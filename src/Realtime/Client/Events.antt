-- ===== src/Realtime/Client/Events.antt =====
-- The life of a RealtimeClient as a sequence of events: the calls of its public methods, and what the
-- browser reports. The browser runs a timer only while it is pending, reports a message only of an
-- open socket, and the opening and the closing only of a socket that is not closed.
use virtual_office_sagara_ag.Prelude.{
  ℕ, String, Bool, true, false, Option, none, some, List, [], ◌∷◌, if◌then◌else◌,
}
use virtual_office_sagara_ag.Engine.{Engine}
use virtual_office_sagara_ag.Realtime.Protocol.{Parsed}
use virtual_office_sagara_ag.Realtime.Queries.{QueryClient}
use virtual_office_sagara_ag.Realtime.Client.{
  World, ReadyState, ready_state, connect, disconnect, timer_fired, socket_closed, socket_opened,
}
use virtual_office_sagara_ag.Realtime.Messages.{handle_message}

-- `failure` is what the constructor of the socket throws, `jitter` the random part of a delay.
pub data Event : Type 0 where
  connect_called timer_due : (failure : Option String) (jitter : ℕ) → Event
  disconnect_called : Event
  opened : (id : ℕ) → Event
  closed : (id : ℕ) (reason : String) (jitter : ℕ) → Event
  message : (id : ℕ) (now : String) (text : Parsed) → Event

abbrev pub is_open : ReadyState → Bool
is_open ReadyState.open_state = true
is_open _ = false

abbrev pub is_connecting : ReadyState → Bool
is_connecting ReadyState.connecting = true
is_connecting _ = false

abbrev pub is_closed : ReadyState → Bool
is_closed ReadyState.closed = true
is_closed _ = false

module _ (qc : QueryClient) (js : Engine) where
  unfoldable pub step : Event → World qc.Cache → World qc.Cache
  step (Event.connect_called failure jitter) w = connect failure jitter w
  step (Event.timer_due failure jitter) w = elim w.client.reconnect_timer [
    | none ↦ w
    | some _ ↦ timer_fired failure jitter w
  ]
  step Event.disconnect_called w = disconnect w
  step (Event.opened id) w =
      if is_connecting (ready_state id w.sockets) then socket_opened id w else w
  step (Event.closed id reason jitter) w =
      if is_closed (ready_state id w.sockets) then w else socket_closed id reason jitter w
  step (Event.message id now text) w =
      if is_open (ready_state id w.sockets) then handle_message qc js now text w else w

  unfoldable pub run : List Event → World qc.Cache → World qc.Cache
  run [] w = w
  run (event ∷ rest) w = run rest (step event w)
