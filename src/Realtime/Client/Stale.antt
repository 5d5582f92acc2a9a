-- ===== src/Realtime/Client/Stale.antt =====
-- A socket that is no longer current reports its closing.
use virtual_office_sagara_ag.Prelude.{
  ℕ, String, ◌≡◌, ◌≢◌, refl, true, false, none, some, [], ◌∷◌, if◌then◌else◌, ◌+◌, arith, ◌==◌,
}
use virtual_office_sagara_ag.Engine.{Engine}
use virtual_office_sagara_ag.Realtime.Queries.{QueryClient}
use virtual_office_sagara_ag.Realtime.Store.{set_disconnected}
use virtual_office_sagara_ag.Realtime.Client.{
  World, ReadyState, ready_state, is_live, fresh, connect, open_socket, timer_fired, socket_closed,
  schedule_reconnect, has_live_socket, set_ready_state, reconnect_delay,
}
use virtual_office_sagara_ag.Realtime.Client.Events.{Event, step, run, is_closed}
use virtual_office_sagara_ag.Realtime.Client.Sockets.{
  ready_state-set_ready_state_ne, live-below_fresh,
}

-- The socket `j` is current and live, and an older socket `i` is not closed yet.
pub record IsReplaced {ℓ} {Cache : Type ℓ} (i j : ℕ) (w : World Cache) : Type ℓ where
  pub distinct : i ≢ j
  pub current : w.client.ws ≡ some j
  pub live : is_live (ready_state j w.sockets) ≡ true
  pub old_pending : is_closed (ready_state i w.sockets) ≡ false
  pub wanted : w.client.is_explicitly_closed ≡ false
  pub on : w.client.enabled ≡ true
  pub idle : w.client.reconnect_timer ≡ none

-- Two live sockets, of which the client knows the newer one only.
pub record HasTwoSockets {ℓ} {Cache : Type ℓ} (j : ℕ) (w : World Cache) : Type ℓ where
  pub newer : ℕ
  pub distinct : newer ≢ j
  pub current : w.client.ws ≡ some newer
  pub newer_live : is_live (ready_state newer w.sockets) ≡ true
  pub older_live : is_live (ready_state j w.sockets) ≡ true

module _ (qc : QueryClient) (js : Engine) (i j : ℕ) (w : World qc.Cache) where
  closed-old :
      (reason : String) (jitter : ℕ)
      → IsReplaced i j w
      → step qc js (Event.closed i reason jitter) w ≡ record w {
        client = record w.client {
          ws = none;
          reconnect_attempt = w.client.reconnect_attempt + 1;
          reconnect_timer = some (reconnect_delay (w.client.reconnect_attempt + 1) jitter);
        };
        store = set_disconnected (if reason == "" then none else some reason) w.store;
        sockets = set_ready_state i ReadyState.closed w.sockets;
      }
  unfolding step socket_closed schedule_reconnect
  closed-old reason jitter h = ground (arith, h.old_pending, h.wanted, h.idle)

-- With no current socket, the timer opens a new one; a live socket stays live.
timer_due-HasTwoSockets :
    (qc : QueryClient) (js : Engine) (j d jitter : ℕ) (w : World qc.Cache)
    → w.client.reconnect_timer ≡ some d
    → w.client.ws ≡ none
    → w.client.enabled ≡ true
    → is_live (ready_state j w.sockets) ≡ true
    → HasTwoSockets j (step qc js (Event.timer_due none jitter) w)
unfolding step timer_fired connect open_socket has_live_socket ready_state
timer_due-HasTwoSockets qc js j d jitter w timer gone on live =
    rw (timer, gone, on)
      (record {
        newer = fresh w.sockets;
        distinct = omega (arith, live-below_fresh j w.sockets live);
        current = refl;
        newer_live = ground arith;
        older_live = ground (arith, live, live-below_fresh j w.sockets live);
      })

module _ (qc : QueryClient) (js : Engine) (i j : ℕ) (w : World qc.Cache) where
  -- `onclose` of a socket that was replaced clears the current one all the same: the store says
  -- disconnected while the socket `j` is live, and after the timer the client has a second live socket
  -- and no longer knows the first.
  pub closed-HasTwoSockets :
      (reason : String) (jitter later : ℕ)
      → IsReplaced i j w
      → ((step qc js (Event.closed i reason jitter) w).client.ws ≡ none)
        × (is_live (ready_state j (step qc js (Event.closed i reason jitter) w).sockets) ≡ true)
        × HasTwoSockets j
            (run qc js (Event.closed i reason jitter ∷ Event.timer_due none later ∷ []) w)
  unfolding run
  closed-HasTwoSockets reason jitter later h =
      rw (run, closed-old qc js i j w reason jitter h)
        (refl, still, timer_due-HasTwoSockets qc js j _ later _ refl refl h.on still)
    where
      still : is_live (ready_state j (set_ready_state i ReadyState.closed w.sockets)) ≡ true
      still = rw (ready_state-set_ready_state_ne i j ReadyState.closed w.sockets h.distinct) h.live
