-- ===== src/Tests/Lifetime.antt =====
-- A client's life at concrete inputs.
use virtual_office_sagara_ag.Prelude.{◌≡◌, refl, true, none, some, List, [], ◌∷◌, arith}
use virtual_office_sagara_ag.Realtime.Protocol.{payload}
use virtual_office_sagara_ag.Realtime.Client.{
  World, ReadyState, ready_state, is_live, connect, disconnect, has_live_socket, open_socket,
  socket_opened, socket_closed, schedule_reconnect,
}
use virtual_office_sagara_ag.Realtime.Client.Events.{Event, step, run}
use virtual_office_sagara_ag.Realtime.Client.Shut.{IsShut, disconnect-run-IsShut}
use virtual_office_sagara_ag.Realtime.Client.Recovery.{IsRecoverable, connect-run-IsRecoverable}
use virtual_office_sagara_ag.Realtime.Client.Stream.{message_of}
use virtual_office_sagara_ag.Realtime.Client.Liveness.{CanConnect, connect-run-CanConnect}
use virtual_office_sagara_ag.Realtime.Client.Stale.{IsReplaced, HasTwoSockets, closed-HasTwoSockets}
use virtual_office_sagara_ag.Realtime.Queries.Table.{Table, table_client}
use virtual_office_sagara_ag.Tests.Samples.{
  plain, snapshot, delta, new_world, streaming_world, open_socket_3,
}

abbrev after_closing : List Event
after_closing =
    Event.message 3 "ten" (message_of "delta" "server" 8 (payload snapshot delta))
    ∷ Event.closed 3 "" 100
    ∷ Event.timer_due none 100
    ∷ []

disconnect-run-IsShut_example :
    IsShut 1 (run table_client plain after_closing (disconnect streaming_world))
disconnect-run-IsShut_example =
    disconnect-run-IsShut table_client plain after_closing streaming_world
      (refl, (refl, (refl, tt)))

abbrev ups_and_downs : List Event
ups_and_downs =
    Event.opened 0
    ∷ Event.message 0 "nine" (message_of "snapshot" "server" 5 (payload snapshot delta))
    ∷ Event.message 0 "nine" (message_of "delta" "server" 9 (payload snapshot delta))
    ∷ Event.closed 0 "Resync requested" 400
    ∷ Event.timer_due (some "refused") 400
    ∷ []

connect-run-IsRecoverable_example :
    IsRecoverable (run table_client plain ups_and_downs (connect none 100 new_world))
connect-run-IsRecoverable_example =
    connect-run-IsRecoverable table_client plain none 100 ups_and_downs new_world (omega arith) tt
      (tt, (tt, (tt, (omega arith, (omega arith, tt)))))

-- the socket 2 is closing, and the socket 3 has replaced it
abbrev replaced_world : World Table
replaced_world = record streaming_world {
  sockets =
      open_socket_3 ∷ record { id = 2; ready_state = ReadyState.closing; parameters = [] } ∷ [];
}

replaced : IsReplaced 2 3 replaced_world
unfolding ready_state
replaced = record {
  distinct = omega arith;
  current = refl;
  live = refl;
  old_pending = refl;
  wanted = refl;
  on = refl;
  idle = refl;
}

closed-HasTwoSockets_example :
    ((step table_client plain (Event.closed 2 "" 100) replaced_world).client.ws ≡ none)
    × (is_live
          (ready_state 3 (step table_client plain (Event.closed 2 "" 100) replaced_world).sockets)
        ≡ true)
    × HasTwoSockets 3 (
        run table_client plain
          (Event.closed 2 "" 100 ∷ Event.timer_due none 200 ∷ [])
          replaced_world)
closed-HasTwoSockets_example =
    closed-HasTwoSockets table_client plain 2 3 replaced_world "" 100 200 replaced

abbrev lost : List Event
lost = Event.opened 0 ∷ Event.closed 0 "gone" 400 ∷ []

connect-run-CanConnect_example :
    CanConnect table_client plain "ten" "server" 7 snapshot delta
      (run table_client plain lost (connect none 100 new_world))
unfolding run step ready_state connect has_live_socket open_socket socket_opened socket_closed
    schedule_reconnect
connect-run-CanConnect_example =
    connect-run-CanConnect table_client plain "ten" "server" 7 snapshot delta none 100 lost
      new_world (omega arith) tt (tt, (omega arith, tt)) tt refl refl
