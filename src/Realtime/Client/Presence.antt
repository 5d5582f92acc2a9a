-- ===== src/Realtime/Client/Presence.antt =====
-- The current socket of a client is one that the browser has not closed.
use virtual_office_sagara_ag.Prelude.{
  ℕ, ◌+◌, ap, ◌∙◌, String, ◌≡◌, refl, true, false, not, ◌||◌, Option, none, some, List, [], ◌∷◌,
  if_both, if_cases, match_both, arith, leb, ltb, eqb, inl, inr, Bool-cases,
}
use virtual_office_sagara_ag.Engine.{Engine}
use virtual_office_sagara_ag.Realtime.Protocol.{
  RealtimeEnvelopeDto, Payload, null_payload, payload, Parsed,
}
use virtual_office_sagara_ag.Realtime.Queries.{QueryClient}
use virtual_office_sagara_ag.Realtime.Client.{
  World, Socket, ReadyState, ready_state, set_ready_state, close_socket, is_live, connect,
  open_socket, disconnect, socket_closed, socket_opened, timer_fired, schedule_reconnect, resync,
  has_live_socket,
}
use virtual_office_sagara_ag.Realtime.Messages.{
  note_restart, on_snapshot, accept_delta, on_delta, on_heartbeat, dispatch, handle_message,
}
use virtual_office_sagara_ag.Realtime.Client.Branches.{dispatch-cases, handle_message-cases}
use virtual_office_sagara_ag.Realtime.Client.Events.{
  Event, step, run, is_open, is_connecting, is_closed,
}
use virtual_office_sagara_ag.Realtime.Client.Sockets.{
  ready_state-set_ready_state_self, ready_state-set_ready_state_ne, ready_state-close_socket,
}

abbrev pub IsHeld : Option ℕ → List Socket → Type 0
IsHeld none sockets = Unit
IsHeld (some i) sockets = is_closed (ready_state i sockets) ≡ false

-- The socket that the client has is not closed.
abbrev pub HasSocket {ℓ} : {Cache : Type ℓ} → World Cache → Type 0
HasSocket w = IsHeld w.client.ws w.sockets

connecting-is_live : (r : ReadyState) → is_connecting r ≡ true → is_live r ≡ true
connecting-is_live ReadyState.connecting h = refl
connecting-is_live ReadyState.open_state h = refl
connecting-is_live ReadyState.closing h = cc
connecting-is_live ReadyState.closed h = cc

close_socket-IsHeld :
    (i : ℕ) (sockets : List Socket)
    → IsHeld (some i) sockets
    → IsHeld (some i) (close_socket i sockets)
unfolding close_socket
close_socket-IsHeld i sockets h = elim (Bool-cases (is_live (ready_state i sockets))) [
  | inl live ↦ ap is_closed (ready_state-close_socket i sockets live)
  | inr dead ↦ rw dead h
]

opened-IsHeld :
    (i : ℕ) (ws : Option ℕ) (sockets : List Socket)
    → is_live (ready_state i sockets) ≡ true
    → IsHeld ws sockets
    → IsHeld ws (set_ready_state i ReadyState.open_state sockets)
opened-IsHeld i none sockets live h = tt
opened-IsHeld i (some j) sockets live h = elim (Bool-cases (eqb i j)) [
  | inl same ↦
      let e : i ≡ j = ground (arith, same) in
      rw (← e)
        (ap is_closed (ready_state-set_ready_state_self i ReadyState.open_state sockets live))
  | inr other ↦
      ap is_closed (
        ready_state-set_ready_state_ne i j ReadyState.open_state sockets
          (λ e. ground (arith, other, e)))
      ∙ h
]

module _ {ℓ} {Cache : Type ℓ} where
  schedule_reconnect-HasSocket :
      (jitter : ℕ) (w : World Cache) → HasSocket w → HasSocket (schedule_reconnect jitter w)
  unfolding schedule_reconnect
  schedule_reconnect-HasSocket jitter w h =
      if_both HasSocket w.client.is_explicitly_closed h
        (match_both HasSocket w.client.reconnect_timer (λ _. h) (λ d _. h))

  open_socket-HasSocket :
      (failure : Option String) (jitter : ℕ) (w : World Cache)
      → HasSocket (open_socket failure jitter w)
  unfolding open_socket ready_state
  open_socket-HasSocket none jitter w = ground arith
  open_socket-HasSocket (some err) jitter w = schedule_reconnect-HasSocket jitter _ tt

  pub connect-HasSocket :
      (failure : Option String) (jitter : ℕ) (w : World Cache)
      → HasSocket w
      → HasSocket (connect failure jitter w)
  unfolding connect
  connect-HasSocket failure jitter w h =
      if_both HasSocket (not w.client.enabled || has_live_socket w) h
        (open_socket-HasSocket failure jitter w)

  socket_closed-HasSocket :
      (i : ℕ) (reason : String) (jitter : ℕ) (w : World Cache)
      → HasSocket (socket_closed i reason jitter w)
  unfolding socket_closed
  socket_closed-HasSocket i reason jitter w =
      if_both HasSocket w.client.is_explicitly_closed tt (schedule_reconnect-HasSocket jitter _ tt)

  resync-HasSocket : (w : World Cache) → HasSocket w → HasSocket (resync w)
  unfolding resync
  resync-HasSocket w h =
      match_both HasSocket w.client.ws (λ _. h)
        (λ i e. rw e (close_socket-IsHeld i w.sockets (rw e at h)))

module _ (qc : QueryClient) (js : Engine) where
  on_snapshot-HasSocket :
      (now : String) (env : RealtimeEnvelopeDto) (w : World qc.Cache)
      → HasSocket w
      → HasSocket (on_snapshot qc js now env w)
  unfolding on_snapshot
  on_snapshot-HasSocket now env w h = go env.payload
    where
      go : (p : Payload) → HasSocket (on_snapshot qc js now (record env { payload = p }) w)
      go null_payload = h
      go (payload s d) = h

  accept_delta-HasSocket :
      (now : String) (env : RealtimeEnvelopeDto) (w : World qc.Cache)
      → HasSocket w
      → HasSocket (accept_delta qc js now env w)
  unfolding accept_delta
  accept_delta-HasSocket now env w h = go env.payload
    where
      go : (p : Payload) → HasSocket (accept_delta qc js now (record env { payload = p }) w)
      go null_payload = h
      go (payload s d) = h

  on_delta-HasSocket :
      (now : String) (env : RealtimeEnvelopeDto) (w : World qc.Cache)
      → HasSocket w
      → HasSocket (on_delta qc js now env w)
  unfolding on_delta
  on_delta-HasSocket now env w h =
      match_both HasSocket w.client.last_sequence (λ _. accept_delta-HasSocket now env w h)
        (λ n _. if_both HasSocket (leb env.sequence n) h (
          if_both HasSocket (ltb (n + 1) env.sequence) (resync-HasSocket w h)
            (accept_delta-HasSocket now env w h)))

  dispatch-HasSocket :
      (now : String) (env : RealtimeEnvelopeDto) (w : World qc.Cache)
      → HasSocket w
      → HasSocket (dispatch qc js now env w)
  unfolding on_heartbeat
  dispatch-HasSocket now env w h =
      dispatch-cases qc js HasSocket now env w (λ _. on_snapshot-HasSocket now env w h)
        (on_delta-HasSocket now env w h)
        (match_both HasSocket w.client.last_sequence (λ _. h) (λ n _. h)) (resync-HasSocket w h) h

  handle_message-HasSocket :
      (now : String) (text : Parsed) (w : World qc.Cache)
      → HasSocket w
      → HasSocket (handle_message qc js now text w)
  unfolding note_restart
  handle_message-HasSocket now text w h =
      handle_message-cases qc js HasSocket now text w h h
        (λ env _. dispatch-HasSocket now env (note_restart env w) (if_both HasSocket _ h h))

  step-HasSocket :
      (event : Event) (w : World qc.Cache) → HasSocket w → HasSocket (step qc js event w)
  unfolding step timer_fired disconnect socket_opened
  step-HasSocket (Event.connect_called failure jitter) w h = connect-HasSocket failure jitter w h
  step-HasSocket (Event.timer_due failure jitter) w h =
      match_both HasSocket w.client.reconnect_timer (λ _. h)
        (λ _ _. connect-HasSocket failure jitter _ h)
  step-HasSocket Event.disconnect_called w h = tt
  step-HasSocket (Event.opened i) w h =
      if_cases HasSocket (is_connecting (ready_state i w.sockets))
        (λ e. opened-IsHeld i w.client.ws w.sockets (connecting-is_live _ e) h) (λ _. h)
  step-HasSocket (Event.closed i reason jitter) w h =
      if_both HasSocket (is_closed (ready_state i w.sockets)) h
        (socket_closed-HasSocket i reason jitter w)
  step-HasSocket (Event.message i now text) w h =
      if_both HasSocket (is_open (ready_state i w.sockets)) (handle_message-HasSocket now text w h)
        h

  -- Through any events the current socket, if there is one, is not closed.
  pub run-HasSocket :
      (events : List Event) (w : World qc.Cache) → HasSocket w → HasSocket (run qc js events w)
  unfolding run
  run-HasSocket [] w h = h
  run-HasSocket (event ∷ rest) w h =
      run-HasSocket rest (step qc js event w) (step-HasSocket event w h)
