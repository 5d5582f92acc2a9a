-- ===== src/Realtime/Client/Recovery.antt =====
-- A client that is not closed always has a way on: a current socket, or a timer with a bounded delay.
use virtual_office_sagara_ag.Prelude.{
  ℕ, String, ◌≡◌, sym, ap, ◌∙◌, true, false, not, ◌||◌, Option, none, some, List, [], ◌∷◌, if_both,
  if_cases, match_both, All, ◌≤◌, ◌<◌, ◌+◌, ◌-◌, ◌^◌, suc, zero, arith,
}
use virtual_office_sagara_ag.Engine.{Engine}
use virtual_office_sagara_ag.Realtime.Queries.{QueryClient}
use virtual_office_sagara_ag.Realtime.Client.{
  World, ready_state, is_live, connect, open_socket, disconnect, timer_fired, socket_closed,
  socket_opened, schedule_reconnect, reconnect_delay, has_live_socket,
}
use virtual_office_sagara_ag.Realtime.Messages.{handle_message}
use virtual_office_sagara_ag.Realtime.Client.Events.{
  Event, step, run, is_open, is_connecting, is_closed,
}
use virtual_office_sagara_ag.Realtime.Client.Keeps.{SameConnection, handle_message-SameConnection}

pow_positive : (k : ℕ) → 1 ≤ 2 ^ k
pow_positive zero = omega arith
pow_positive (suc k) = omega (arith, pow_positive k)

-- A delay is at least a second, and at most fifteen seconds and the jitter.
reconnect_delay-bounds :
    (attempt jitter : ℕ)
    → 1000 ≤ reconnect_delay attempt jitter × reconnect_delay attempt jitter ≤ 15000 + jitter
unfolding reconnect_delay
reconnect_delay-bounds attempt jitter = (omega (arith, pow_positive (attempt - 1)), omega arith)

-- The delay of a pending timer, if there is one.
abbrev pub IsBounded : ℕ → Option ℕ → Type 0
IsBounded most none = Unit
IsBounded most (some d) = 1000 ≤ d × d ≤ most

abbrev pub HasWayOn : Option ℕ → Option ℕ → Type 0
HasWayOn (some i) timer = Unit
HasWayOn none (some d) = Unit
HasWayOn none none = ⊥

-- Pending delays are bounded, and an enabled client that the user has not closed has a current
-- socket or a pending timer.
pub record IsRecoverable {ℓ} {Cache : Type ℓ} (w : World Cache) : Type ℓ where
  pub bounded : IsBounded 15500 w.client.reconnect_timer
  pub way_on :
      w.client.is_explicitly_closed ≡ false
      → w.client.enabled ≡ true
      → HasWayOn w.client.ws w.client.reconnect_timer

-- the random part of a delay is below half a second
abbrev pub HasJitter : Event → Type 0
HasJitter (Event.connect_called failure jitter) = jitter < 500
HasJitter (Event.timer_due failure jitter) = jitter < 500
HasJitter (Event.closed i reason jitter) = jitter < 500
HasJitter _ = Unit

module _ {ℓ} {Cache : Type ℓ} where
  schedule_reconnect-IsRecoverable :
      (jitter : ℕ) (w : World Cache)
      → jitter < 500
      → IsBounded 15500 w.client.reconnect_timer
      → IsRecoverable (schedule_reconnect jitter w)
  unfolding schedule_reconnect
  schedule_reconnect-IsRecoverable jitter w h bounded =
      if_cases IsRecoverable w.client.is_explicitly_closed
        (λ e. record { bounded = bounded; way_on = λ f _. absurd (cc (e, f)) })
        (λ e.
          match_both IsRecoverable w.client.reconnect_timer
            (λ f. record {
              bounded = (bounds.0, omega (arith, bounds.1, h));
              way_on = λ _ _. any_way w.client.ws _;
            })
            (λ d f. record { bounded = bounded; way_on = λ _ _. rw f (any_way w.client.ws d) }))
    where
      bounds :
          1000 ≤ reconnect_delay (w.client.reconnect_attempt + 1) jitter
          × reconnect_delay (w.client.reconnect_attempt + 1) jitter ≤ 15000 + jitter
      bounds = reconnect_delay-bounds (w.client.reconnect_attempt + 1) jitter

      any_way : (ws : Option ℕ) (d : ℕ) → HasWayOn ws (some d)
      any_way none d = tt
      any_way (some i) d = tt

  open_socket-IsRecoverable :
      (failure : Option String) (jitter : ℕ) (w : World Cache)
      → jitter < 500
      → IsBounded 15500 w.client.reconnect_timer
      → IsRecoverable (open_socket failure jitter w)
  unfolding open_socket
  open_socket-IsRecoverable none jitter w h bounded = record {
    bounded = bounded;
    way_on = λ _ _. tt;
  }
  open_socket-IsRecoverable (some err) jitter w h bounded =
      schedule_reconnect-IsRecoverable jitter _ h bounded

  has_live_socket-HasWayOn :
      (w : World Cache) (timer : Option ℕ) → has_live_socket w ≡ true → HasWayOn w.client.ws timer
  unfolding has_live_socket
  has_live_socket-HasWayOn w timer h = go w.client.ws h
    where
      go :
          (ws : Option ℕ)
          → elim ws [ none ↦ false | some i ↦ is_live (ready_state i w.sockets) ] ≡ true
          → HasWayOn ws timer
      go none h = absurd (cc h)
      go (some i) h = tt

  -- `connect` needs nothing but a bounded timer.
  connect-IsRecoverable :
      (failure : Option String) (jitter : ℕ) (w : World Cache)
      → jitter < 500
      → IsBounded 15500 w.client.reconnect_timer
      → IsRecoverable (connect failure jitter w)
  unfolding connect
  connect-IsRecoverable failure jitter w h bounded =
      if_cases IsRecoverable (not w.client.enabled || has_live_socket w)
        (λ e. record {
          bounded = bounded;
          way_on = λ _ on. has_live_socket-HasWayOn w _ (ground (arith, e, on));
        })
        (λ _. open_socket-IsRecoverable failure jitter w h bounded)

  disconnect-IsRecoverable : (w : World Cache) → IsRecoverable (disconnect w)
  unfolding disconnect
  disconnect-IsRecoverable w = record { bounded = tt; way_on = λ e _. absurd (cc e) }

  socket_closed-IsRecoverable :
      (i : ℕ) (reason : String) (jitter : ℕ) (w : World Cache)
      → jitter < 500
      → IsRecoverable w
      → IsRecoverable (socket_closed i reason jitter w)
  unfolding socket_closed
  socket_closed-IsRecoverable i reason jitter w h r =
      if_cases IsRecoverable w.client.is_explicitly_closed
        (λ e. record { bounded = r.bounded; way_on = λ f _. absurd (cc (e, f)) })
        (λ _. schedule_reconnect-IsRecoverable jitter _ h r.bounded)

  socket_opened-IsRecoverable :
      (i : ℕ) (w : World Cache) → IsRecoverable w → IsRecoverable (socket_opened i w)
  unfolding socket_opened
  socket_opened-IsRecoverable i w r = record { bounded = r.bounded; way_on = r.way_on }

  same-IsRecoverable : (w v : World Cache) → SameConnection w v → IsRecoverable w → IsRecoverable v
  same-IsRecoverable w v s r = record {
    bounded = rw (ap (λ c. c.reconnect_timer) s.same) r.bounded;
    way_on = λ open_ on.
        rw (ap (λ c. c.reconnect_timer) s.same, ap (λ c. c.ws) s.same)
          (r.way_on (sym (ap (λ c. c.is_explicitly_closed) s.same) ∙ open_)
            (sym (ap (λ c. c.enabled) s.same) ∙ on));
  }

module _ (qc : QueryClient) (js : Engine) where
  -- Every event keeps the client recoverable.
  pub step-IsRecoverable :
      (event : Event) (w : World qc.Cache)
      → HasJitter event
      → IsRecoverable w
      → IsRecoverable (step qc js event w)
  unfolding step timer_fired
  step-IsRecoverable (Event.connect_called failure jitter) w h r =
      connect-IsRecoverable failure jitter w h r.bounded
  step-IsRecoverable (Event.timer_due failure jitter) w h r =
      match_both IsRecoverable w.client.reconnect_timer (λ _. r)
        (λ _ _. connect-IsRecoverable failure jitter _ h tt)
  step-IsRecoverable Event.disconnect_called w h r = disconnect-IsRecoverable w
  step-IsRecoverable (Event.opened i) w h r =
      if_both IsRecoverable (is_connecting (ready_state i w.sockets))
        (socket_opened-IsRecoverable i w r) r
  step-IsRecoverable (Event.closed i reason jitter) w h r =
      if_both IsRecoverable (is_closed (ready_state i w.sockets)) r
        (socket_closed-IsRecoverable i reason jitter w h r)
  step-IsRecoverable (Event.message i now text) w h r =
      if_both IsRecoverable (is_open (ready_state i w.sockets))
        (same-IsRecoverable w (handle_message qc js now text w)
          (handle_message-SameConnection qc js now w text) r)
        r

  run-IsRecoverable :
      (events : List Event) (w : World qc.Cache)
      → All HasJitter events
      → IsRecoverable w
      → IsRecoverable (run qc js events w)
  unfolding run
  run-IsRecoverable [] w h r = r
  run-IsRecoverable (event ∷ rest) w h r =
      run-IsRecoverable rest (step qc js event w) h.1 (step-IsRecoverable event w h.0 r)

  -- Once `connect` was called while no delay beyond the bound was pending, whatever happens then: an
  -- enabled client that the user has not closed since has a current socket or a pending timer, and a
  -- pending delay is between one second and fifteen and a half.
  pub connect-run-IsRecoverable :
      (failure : Option String) (jitter : ℕ) (events : List Event) (w : World qc.Cache)
      → jitter < 500
      → IsBounded 15500 w.client.reconnect_timer
      → All HasJitter events
      → IsRecoverable (run qc js events (connect failure jitter w))
  connect-run-IsRecoverable failure jitter events w j bounded h =
      run-IsRecoverable events (connect failure jitter w) h
        (connect-IsRecoverable failure jitter w j bounded)
