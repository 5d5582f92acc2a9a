-- ===== src/Realtime/Client/Liveness.antt =====
-- A client that is wanted can always come back.
use virtual_office_sagara_ag.Prelude.{
  ℕ, String, ◌≡◌, refl, ap, ◌∙◌, true, false, Option, none, some, List, [], ◌∷◌, All, ◌<◌, arith,
  match_both,
}
use virtual_office_sagara_ag.Engine.{Engine}
use virtual_office_sagara_ag.Realtime.Protocol.{
  RealtimeSnapshotPayloadDto, RealtimeDeltaPayloadDto, payload,
}
use virtual_office_sagara_ag.Realtime.Store.{set_connected, set_disconnected}
use virtual_office_sagara_ag.Realtime.Queries.{QueryClient}
use virtual_office_sagara_ag.Realtime.Cache.{apply_realtime_snapshot}
use virtual_office_sagara_ag.Realtime.Client.{
  World, ReadyState, ready_state, set_ready_state, connect, open_socket, socket_closed,
  socket_opened, timer_fired, schedule_reconnect, fresh, has_live_socket,
}
use virtual_office_sagara_ag.Realtime.Client.Events.{Event, step, run}
use virtual_office_sagara_ag.Realtime.Client.Recovery.{
  IsBounded, HasJitter, HasWayOn, connect-run-IsRecoverable,
}
use virtual_office_sagara_ag.Realtime.Client.Sockets.{ready_state-set_ready_state_self}
use virtual_office_sagara_ag.Realtime.Client.Presence.{
  IsHeld, HasSocket, connect-HasSocket, run-HasSocket,
}
use virtual_office_sagara_ag.Realtime.Client.Stream.{message_of, IsConnected, handle-snapshot}

-- An event that the browser reports, no call of the user.
abbrev pub IsReported : Event → Type 0
IsReported (Event.connect_called failure jitter) = ⊥
IsReported Event.disconnect_called = ⊥
IsReported _ = Unit

module _ (qc : QueryClient) (js : Engine) (now server : String) (n : ℕ)
    (s : RealtimeSnapshotPayloadDto) (d : RealtimeDeltaPayloadDto) where
  -- Events that the browser may report bring the client to connected, with the snapshot in the cache.
  pub record CanConnect (w : World qc.Cache) : Type 0 where
    pub events : List Event
    pub reported : All IsReported events
    pub connected : IsConnected (run qc js events w)
    pub cached : (run qc js events w).cache ≡ apply_realtime_snapshot qc js now s w.cache

  before :
      (event : Event) (w v : World qc.Cache)
      → IsReported event
      → step qc js event w ≡ v
      → v.cache ≡ w.cache
      → CanConnect v
      → CanConnect w
  unfolding run
  before event w v reported e same r = record {
    events = event ∷ r.events;
    reported = (reported, r.reported);
    connected = rw (run, e) r.connected;
    cached = rw (run, e) (r.cached ∙ ap (apply_realtime_snapshot qc js now s) same);
  }

  open-CanConnect :
      (i : ℕ) (w : World qc.Cache) → ready_state i w.sockets ≡ ReadyState.open_state → CanConnect w
  unfolding run step set_connected
  open-CanConnect i w h = record {
    events = Event.message i now (message_of "snapshot" server n (payload s d)) ∷ [];
    reported = (tt, tt);
    connected =
        rw (h, handle-snapshot qc js now server n s d w)
          (record { status = refl; attempt = refl; no_error = refl });
    cached = rw (h, handle-snapshot qc js now server n s d w) refl;
  }

  connecting-CanConnect :
      (i : ℕ) (w : World qc.Cache) → ready_state i w.sockets ≡ ReadyState.connecting → CanConnect w
  unfolding step socket_opened
  connecting-CanConnect i w h = before (Event.opened i) w _ tt (rw h refl) refl (
      open-CanConnect i (socket_opened i w)
        (ready_state-set_ready_state_self i ReadyState.open_state w.sockets (rw h refl)))

  -- Without a current socket and with a timer pending: the timer opens a new socket.
  timer-CanConnect :
      (delay : ℕ) (w : World qc.Cache)
      → w.client.reconnect_timer ≡ some delay
      → w.client.ws ≡ none
      → w.client.enabled ≡ true
      → CanConnect w
  unfolding step timer_fired connect open_socket has_live_socket ready_state
  timer-CanConnect delay w timer gone on =
      before (Event.timer_due none 0) w
        (connect none 0 (record w { client = record w.client { reconnect_timer = none } })) tt
        (rw timer refl) (rw (gone, on) refl)
        (connecting-CanConnect (fresh w.sockets) _ (rw (gone, on) (ground arith)))

  -- What `scheduleReconnect` leaves of a client without a current socket.
  scheduled-CanConnect :
      (w : World qc.Cache)
      → w.client.is_explicitly_closed ≡ false
      → w.client.ws ≡ none
      → w.client.enabled ≡ true
      → CanConnect (schedule_reconnect 0 w) × ((schedule_reconnect 0 w).cache ≡ w.cache)
  unfolding schedule_reconnect
  scheduled-CanConnect w wanted gone on = rw wanted (
      match_both (λ v. CanConnect v × (v.cache ≡ w.cache)) w.client.reconnect_timer
        (λ _. (timer-CanConnect _ _ refl gone on, refl))
        (λ delay timer. (timer-CanConnect delay w timer gone on, refl)))

  closing-CanConnect :
      (i : ℕ) (w : World qc.Cache)
      → ready_state i w.sockets ≡ ReadyState.closing
      → w.client.is_explicitly_closed ≡ false
      → w.client.enabled ≡ true
      → CanConnect w
  unfolding step socket_closed
  closing-CanConnect i w h wanted on =
      let w₁ = record w {
        client = record w.client { ws = none };
        sockets = set_ready_state i ReadyState.closed w.sockets;
        store = set_disconnected none w.store;
      } in
      let later = scheduled-CanConnect w₁ wanted refl on in
      before (Event.closed i "" 0) w (schedule_reconnect 0 w₁) tt (rw (h, wanted) refl) later.1
        later.0

  held-CanConnect :
      (i : ℕ) (w : World qc.Cache)
      → IsHeld (some i) w.sockets
      → w.client.is_explicitly_closed ≡ false
      → w.client.enabled ≡ true
      → CanConnect w
  held-CanConnect i w held wanted on = go (ready_state i w.sockets) refl
    where
      go : (r : ReadyState) → ready_state i w.sockets ≡ r → CanConnect w
      go ReadyState.connecting e = connecting-CanConnect i w e
      go ReadyState.open_state e = open-CanConnect i w e
      go ReadyState.closing e = closing-CanConnect i w e wanted on
      go ReadyState.closed e = absurd (cc (e, held))

  ways-CanConnect :
      (ws timer : Option ℕ) (w : World qc.Cache)
      → w.client.ws ≡ ws
      → w.client.reconnect_timer ≡ timer
      → HasWayOn ws timer
      → IsHeld ws w.sockets
      → w.client.is_explicitly_closed ≡ false
      → w.client.enabled ≡ true
      → CanConnect w
  ways-CanConnect (some i) timer w e f way held wanted on = held-CanConnect i w held wanted on
  ways-CanConnect none (some delay) w e f way held wanted on = timer-CanConnect delay w f e on
  ways-CanConnect none none w e f way held wanted on = absurd way

  -- Once `connect` was called, whatever happens then: as long as the client is enabled and the user has
  -- not closed it, there are events which the browser may report, among them one message of the server,
  -- the given snapshot, that bring the client to connected with that snapshot applied to its cache.
  pub connect-run-CanConnect :
      (failure : Option String) (jitter : ℕ) (events : List Event) (w : World qc.Cache)
      → jitter < 500
      → IsBounded 15500 w.client.reconnect_timer
      → All HasJitter events
      → HasSocket w
      → (run qc js events (connect failure jitter w)).client.is_explicitly_closed ≡ false
      → (run qc js events (connect failure jitter w)).client.enabled ≡ true
      → CanConnect (run qc js events (connect failure jitter w))
  connect-run-CanConnect failure jitter events w j bounded h held wanted on =
      let v = run qc js events (connect failure jitter w) in
      ways-CanConnect v.client.ws v.client.reconnect_timer v refl refl
        ((connect-run-IsRecoverable qc js failure jitter events w j bounded h).way_on wanted on)
        (run-HasSocket qc js events (connect failure jitter w)
          (connect-HasSocket failure jitter w held))
        wanted on
