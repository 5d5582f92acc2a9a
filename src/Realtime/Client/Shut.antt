-- ===== src/Realtime/Client/Shut.antt =====
-- A client that was closed by the user.
use virtual_office_sagara_ag.Prelude.{
  ℕ, String, ◌≡◌, refl, ap, ◌∙◌, Bool, true, false, Option, none, some, List, [], ◌∷◌, if_both,
  if_cases, match_both, length, All,
}
use virtual_office_sagara_ag.Engine.{Engine}
use virtual_office_sagara_ag.Realtime.Queries.{QueryClient}
use virtual_office_sagara_ag.Realtime.Client.{
  World, ReadyState, ready_state, close_socket, disconnect, socket_closed, socket_opened,
}
use virtual_office_sagara_ag.Realtime.Messages.{handle_message}
use virtual_office_sagara_ag.Realtime.Client.Events.{
  Event, step, run, is_open, is_connecting, is_closed,
}
use virtual_office_sagara_ag.Realtime.Client.Keeps.{
  SameConnection, handle_message-SameConnection, length-set_ready_state, length-close_socket,
}

-- The client is closed by the user: no socket of its own, no timer, and `n` sockets opened so far.
pub record IsShut {ℓ} {Cache : Type ℓ} (n : ℕ) (w : World Cache) : Type ℓ where
  pub closed : w.client.is_explicitly_closed ≡ true
  pub no_socket : w.client.ws ≡ none
  pub no_timer : w.client.reconnect_timer ≡ none
  pub opened : length w.sockets ≡ n

-- every event but a call of `connect`
abbrev pub is_not_connect : Event → Bool
is_not_connect (Event.connect_called _ _) = false
is_not_connect _ = true

module _ {ℓ} {Cache : Type ℓ} where
  disconnect-IsShut : (n : ℕ) (w : World Cache) → length w.sockets ≡ n → IsShut n (disconnect w)
  unfolding disconnect
  disconnect-IsShut n w h = record {
    closed = refl;
    no_socket = refl;
    no_timer = refl;
    opened = count w.client.ws ∙ h;
  }
    where
      count :
          (ws : Option ℕ)
          → length (elim ws [ none ↦ w.sockets | some i ↦ close_socket i w.sockets ])
            ≡ length w.sockets
      count none = refl
      count (some i) = length-close_socket i w.sockets

  socket_closed-IsShut :
      (n i : ℕ) (reason : String) (jitter : ℕ) (w : World Cache)
      → IsShut n w
      → IsShut n (socket_closed i reason jitter w)
  unfolding socket_closed
  socket_closed-IsShut n i reason jitter w h =
      if_cases (IsShut n) w.client.is_explicitly_closed
        (λ _. record {
          closed = h.closed;
          no_socket = refl;
          no_timer = h.no_timer;
          opened = length-set_ready_state i ReadyState.closed w.sockets ∙ h.opened;
        })
        (λ e. cc (e, h.closed))

  socket_opened-IsShut : (n i : ℕ) (w : World Cache) → IsShut n w → IsShut n (socket_opened i w)
  unfolding socket_opened
  socket_opened-IsShut n i w h = record {
    closed = h.closed;
    no_socket = h.no_socket;
    no_timer = h.no_timer;
    opened = length-set_ready_state i ReadyState.open_state w.sockets ∙ h.opened;
  }

  same-IsShut : (n : ℕ) (w v : World Cache) → SameConnection w v → IsShut n w → IsShut n v
  same-IsShut n w v s h = record {
    closed = ap (λ c. c.is_explicitly_closed) s.same ∙ h.closed;
    no_socket = ap (λ c. c.ws) s.same ∙ h.no_socket;
    no_timer = ap (λ c. c.reconnect_timer) s.same ∙ h.no_timer;
    opened = ap (λ c. c.opened_sockets) s.same ∙ h.opened;
  }

module _ (qc : QueryClient) (js : Engine) where
  step-IsShut :
      (n : ℕ) (event : Event) (w : World qc.Cache)
      → is_not_connect event ≡ true
      → IsShut n w
      → IsShut n (step qc js event w)
  unfolding step
  step-IsShut n (Event.connect_called failure jitter) w e h = cc e
  step-IsShut n (Event.timer_due failure jitter) w e h =
      match_both (IsShut n) w.client.reconnect_timer (λ _. h) (λ d f. cc (f, h.no_timer))
  step-IsShut n Event.disconnect_called w e h = disconnect-IsShut n w h.opened
  step-IsShut n (Event.opened i) w e h =
      if_both (IsShut n) (is_connecting (ready_state i w.sockets)) (socket_opened-IsShut n i w h) h
  step-IsShut n (Event.closed i reason jitter) w e h =
      if_both (IsShut n) (is_closed (ready_state i w.sockets)) h
        (socket_closed-IsShut n i reason jitter w h)
  step-IsShut n (Event.message i now text) w e h =
      if_both (IsShut n) (is_open (ready_state i w.sockets))
        (same-IsShut n w (handle_message qc js now text w)
          (handle_message-SameConnection qc js now w text) h)
        h

  run-IsShut :
      (n : ℕ) (events : List Event) (w : World qc.Cache)
      → All (λ e. is_not_connect e ≡ true) events
      → IsShut n w
      → IsShut n (run qc js events w)
  unfolding run
  run-IsShut n [] w h shut = shut
  run-IsShut n (event ∷ rest) w h shut =
      run-IsShut n rest (step qc js event w) h.1 (step-IsShut n event w h.0 shut)

  -- After `disconnect`, whatever happens except a call of `connect`, the client stays closed: it keeps
  -- no socket and no timer, and it opens no further socket.
  pub disconnect-run-IsShut :
      (events : List Event) (w : World qc.Cache)
      → All (λ e. is_not_connect e ≡ true) events
      → IsShut (length w.sockets) (run qc js events (disconnect w))
  disconnect-run-IsShut events w h =
      run-IsShut (length w.sockets) events (disconnect w) h
        (disconnect-IsShut (length w.sockets) w refl)
