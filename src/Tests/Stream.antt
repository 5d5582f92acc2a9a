-- ===== src/Tests/Stream.antt =====
-- Streams of messages at concrete inputs.
use virtual_office_sagara_ag.Prelude.{◌+◌, ◌≡◌, refl, String, none, List, [], ◌∷◌, length, arith}
use virtual_office_sagara_ag.Realtime.Protocol.{payload, valid_realtime_envelope, Parsed}
use virtual_office_sagara_ag.Realtime.Cache.{apply_realtime_snapshot}
use virtual_office_sagara_ag.Realtime.Client.{ReadyState, ready_state}
use virtual_office_sagara_ag.Realtime.Messages.{handle_message}
use virtual_office_sagara_ag.Realtime.Client.Branches.{handle_messages}
use virtual_office_sagara_ag.Realtime.Client.Events.{Event, run}
use virtual_office_sagara_ag.Realtime.Client.Replica.{replica_of, Replays}
use virtual_office_sagara_ag.Realtime.Client.Sequence.{handle_messages-Follows}
use virtual_office_sagara_ag.Realtime.Client.Stream.{
  message_of, Sent, in_order, IsAt, IsConnected, apply_deltas, stream-IsAt,
}
use virtual_office_sagara_ag.Realtime.Client.Gap.{IsStreaming, StartsOver, gap-StartsOver}
use virtual_office_sagara_ag.Realtime.Client.Status.{IsOffline, replay-IsOffline}
use virtual_office_sagara_ag.Realtime.Queries.Table.{table_client, empty_table}
use virtual_office_sagara_ag.Tests.Samples.{plain, snapshot, delta, new_world, streaming_world}

abbrev sent : List Sent
sent = ("ten", snapshot, delta) ∷ ("ten", snapshot, delta) ∷ []

abbrev messages : List (String × Parsed)
messages =
    ("nine", message_of "snapshot" "server" 5 (payload snapshot delta))
    ∷ ("nine", message_of "delta" "server" 9 (payload snapshot delta))
    ∷ ("ten", Parsed.throws)
    ∷ in_order "server" 5 sent

handle_messages-Follows_example :
    Replays table_client plain messages
      (replica_of new_world)
      (replica_of (handle_messages table_client plain messages new_world))
handle_messages-Follows_example = handle_messages-Follows table_client plain messages new_world

stream-IsAt_example :
    IsAt "server"
      (5 + length sent)
      (apply_deltas table_client plain sent
        (apply_realtime_snapshot table_client plain "nine" snapshot empty_table))
      (handle_messages table_client plain
        (("nine", message_of "snapshot" "server" 5 (payload snapshot delta))
          ∷ in_order "server" 5 sent)
        new_world)
    × IsConnected (
        handle_messages table_client plain
          (("nine", message_of "snapshot" "server" 5 (payload snapshot delta))
            ∷ in_order "server" 5 sent)
          new_world)
stream-IsAt_example = stream-IsAt table_client plain "nine" "server" 5 snapshot delta sent new_world

streaming : IsStreaming table_client plain streaming_world 3 "server" 7
unfolding ready_state
streaming = record {
  server_known = refl;
  number = refl;
  current = refl;
  live = refl;
  wanted = refl;
  on = refl;
  idle = refl;
}

gap-StartsOver_example :
    ((handle_message table_client plain "ten"
        (message_of "delta" "server" 9 (payload snapshot delta))
        streaming_world).cache
      ≡ empty_table)
    × ((handle_message table_client plain "ten"
          (message_of "delta" "server" 9 (payload snapshot delta))
          streaming_world).store
        ≡ streaming_world.store)
    × (ready_state 3
          (handle_message table_client plain "ten"
            (message_of "delta" "server" 9 (payload snapshot delta))
            streaming_world).sockets
        ≡ ReadyState.closing)
    × StartsOver (
        run table_client plain (Event.closed 3 "" 100 ∷ Event.timer_due none 200 ∷ []) (
          handle_message table_client plain "ten"
            (message_of "delta" "server" 9 (payload snapshot delta))
            streaming_world))
gap-StartsOver_example =
    gap-StartsOver table_client plain streaming_world 3 "ten" "server" "" 7 9 100 200
      (payload snapshot delta) streaming (omega arith)

offline : IsOffline 0 streaming_world
offline = record { not_connected = λ e. cc e; attempt = refl }

replay-IsOffline_example : IsOffline 0 (
    handle_messages table_client plain
      (("ten", message_of "delta" "server" 8 (payload snapshot delta)) ∷ [])
      streaming_world)
unfolding valid_realtime_envelope
replay-IsOffline_example =
    replay-IsOffline table_client plain 0
      (("ten", message_of "delta" "server" 8 (payload snapshot delta)) ∷ []) streaming_world
      (refl, tt) offline
