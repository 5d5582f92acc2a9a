-- ===== src/Realtime/Client/Sockets.antt =====
-- Laws of the list of sockets.
use virtual_office_sagara_ag.Prelude.{ℕ, ◌≡◌, ◌≢◌, refl, true, List, [], ◌∷◌, arith, ◌<◌}
use virtual_office_sagara_ag.Realtime.Client.{
  Socket, ReadyState, ready_state, set_ready_state, close_socket, is_live, fresh,
}

pub ready_state-set_ready_state_self :
    (i : ℕ) (r : ReadyState) (sockets : List Socket)
    → is_live (ready_state i sockets) ≡ true
    → ready_state i (set_ready_state i r sockets) ≡ r
unfolding ready_state set_ready_state
ready_state-set_ready_state_self i r [] h = cc h
ready_state-set_ready_state_self i r (s ∷ rest) h =
    ground (arith, h, ready_state-set_ready_state_self i r rest)

pub ready_state-set_ready_state_ne :
    (i j : ℕ) (r : ReadyState) (sockets : List Socket)
    → i ≢ j
    → ready_state j (set_ready_state i r sockets) ≡ ready_state j sockets
unfolding ready_state set_ready_state
ready_state-set_ready_state_ne i j r [] h = refl
ready_state-set_ready_state_ne i j r (s ∷ rest) h =
    ground (arith, h, ready_state-set_ready_state_ne i j r rest h)

-- A socket that is closed by its owner is closing.
pub ready_state-close_socket :
    (i : ℕ) (sockets : List Socket)
    → is_live (ready_state i sockets) ≡ true
    → ready_state i (close_socket i sockets) ≡ ReadyState.closing
unfolding close_socket
ready_state-close_socket i sockets h =
    rw h (ready_state-set_ready_state_self i ReadyState.closing sockets h)

-- The number of a new socket is larger than that of any socket that is known.
pub live-below_fresh :
    (i : ℕ) (sockets : List Socket) → is_live (ready_state i sockets) ≡ true → i < fresh sockets
unfolding ready_state fresh
live-below_fresh i [] h = cc h
live-below_fresh i (s ∷ rest) h = ground (arith, h, live-below_fresh i rest)
