-- ===== src/Realtime/Client/Sequence.antt =====
-- The client follows the replica: `handleMessage`, branch by branch.
use virtual_office_sagara_ag.Prelude.{
  ℕ, ◌+◌, String, true, false, not, ◌≡◌, refl, Option, none, some, List, [], ◌∷◌, ◌==◌, arith,
  true→eq, if_cases, match_both, leb, ltb,
}
use virtual_office_sagara_ag.Engine.{Engine}
use virtual_office_sagara_ag.Realtime.Protocol.{
  RealtimeEnvelopeDto, Payload, null_payload, payload, Parsed, protocol_version,
  valid_realtime_envelope,
}
use virtual_office_sagara_ag.Realtime.Queries.{QueryClient}
use virtual_office_sagara_ag.Realtime.Client.Branches.{handle_messages}
use virtual_office_sagara_ag.Realtime.Client.{World, resync}
use virtual_office_sagara_ag.Realtime.Messages.{
  is_restarted, note_restart, on_snapshot, accept_delta, on_delta, on_heartbeat, dispatch,
  handle_envelope, handle_message,
}
use virtual_office_sagara_ag.Realtime.Client.Replica.{
  replica_of, IsRestart, IsNext, asking, Reacts, Handles, Replays,
}

module _ (qc : QueryClient) (js : Engine) where
  open qc use {Cache}

  module _ (now : String) where
    resync-asking : (w : World Cache) → replica_of (resync w) ≡ asking (replica_of w)
    unfolding resync
    resync-asking w = go w.client.ws
      where
        go :
            (o : Option ℕ)
            → replica_of (resync (record w { client = record w.client { ws = o } }))
              ≡ asking (replica_of (record w { client = record w.client { ws = o } }))
        go none = refl
        go (some i) = refl

    on_snapshot-Reacts :
        (env : RealtimeEnvelopeDto) (w : World Cache)
        → (env.type == "snapshot") ≡ true
        → Reacts qc js now env (replica_of w) (replica_of (on_snapshot qc js now env w))
    unfolding on_snapshot
    on_snapshot-Reacts env w h = go env.payload
      where
        go :
            (p : Payload)
            → Reacts qc js now
                (record env { payload = p })
                (replica_of w)
                (replica_of (on_snapshot qc js now (record env { payload = p }) w))
        go null_payload = Reacts.empty_snapshot h refl
        go (payload s d) = Reacts.snapshot s d h refl

    accept_delta-Reacts :
        (env : RealtimeEnvelopeDto) (w : World Cache)
        → (env.type == "delta") ≡ true
        → IsNext w.client.last_sequence env.sequence
        → Reacts qc js now env (replica_of w) (replica_of (accept_delta qc js now env w))
    unfolding accept_delta
    accept_delta-Reacts env w h next_number = go env.payload
      where
        go :
            (p : Payload)
            → Reacts qc js now
                (record env { payload = p })
                (replica_of w)
                (replica_of (accept_delta qc js now (record env { payload = p }) w))
        go null_payload = Reacts.empty_delta h refl next_number
        go (payload s d) = Reacts.delta s d h refl next_number

    on_delta-Reacts :
        (env : RealtimeEnvelopeDto) (w : World Cache)
        → (env.type == "delta") ≡ true
        → Reacts qc js now env (replica_of w) (replica_of (on_delta qc js now env w))
    unfolding on_delta
    on_delta-Reacts env w h =
        match_both (λ v. Reacts qc js now env (replica_of w) (replica_of v)) w.client.last_sequence
          (λ unknown. accept_delta-Reacts env w h (rw unknown tt))
          (λ n known.
            if_cases (λ v. Reacts qc js now env (replica_of w) (replica_of v)) (leb env.sequence n)
              (λ old. Reacts.old_delta n h known (ground arith))
              (λ newer.
                if_cases (λ v. Reacts qc js now env (replica_of w) (replica_of v))
                  (ltb (n + 1) env.sequence)
                  (λ above. rw (resync-asking w) (Reacts.gap n h known (ground arith)))
                  (λ within. accept_delta-Reacts env w h (rw known (ground arith)))))

    on_heartbeat-same : (w : World Cache) → replica_of (on_heartbeat now w) ≡ replica_of w
    unfolding on_heartbeat
    on_heartbeat-same w =
        match_both (λ v. replica_of v ≡ replica_of w) w.client.last_sequence (λ _. refl)
          (λ n _. refl)

    dispatch-Reacts :
        (env : RealtimeEnvelopeDto) (w : World Cache)
        → Reacts qc js now env (replica_of w) (replica_of (dispatch qc js now env w))
    unfolding dispatch
    dispatch-Reacts env w =
        let P = λ (v : World Cache). Reacts qc js now env (replica_of w) (replica_of v) in
        if_cases P (env.type == "snapshot") (on_snapshot-Reacts env w) (λ a.
          if_cases P (env.type == "delta") (on_delta-Reacts env w) (λ b.
            if_cases P (env.type == "heartbeat")
              (λ c.
                rw (on_heartbeat-same w)
                  (Reacts.other a b (rw (true→eq env.type "heartbeat" c) refl)))
              (λ _.
                if_cases P (env.type == "resync_required")
                  (λ c. rw (resync-asking w) (Reacts.resync_required c))
                  (λ c. Reacts.other a b c))))

    IsRestart-cases :
        (known : Option String) (id : String)
        → (is_restarted known id ≡ true → IsRestart known id)
          × (is_restarted known id ≡ false → ¬ IsRestart known id)
    unfolding is_restarted
    IsRestart-cases none id = (ground arith, λ h k. k)
    IsRestart-cases (some known) id = (ground arith, ground arith)

    handle_message-Handles :
        (message : Parsed) (w : World Cache)
        → Handles qc js now message (replica_of w) (replica_of (handle_message qc js now message w))
    unfolding handle_message handle_envelope note_restart
    handle_message-Handles message w =
        let P = λ (v : World Cache). Handles qc js now message (replica_of w) (replica_of v) in
        match_both P (valid_realtime_envelope message) (λ e. Handles.ignored e)
          (λ env e.
            if_cases P (not (env.protocol_version == protocol_version))
              (λ n. Handles.foreign env e (ground (arith, n)))
              (λ y.
                if_cases
                  (λ v.
                    Handles qc js now message (replica_of w)
                      (replica_of (dispatch qc js now env v)))
                  (is_restarted w.client.server_instance_id env.server_instance_id)
                  (λ t.
                    Handles.restarted env e (ground (arith, y)) ((IsRestart-cases _ _).0 t)
                      (dispatch-Reacts env _))
                  (λ f.
                    Handles.same_server env e (ground (arith, y)) ((IsRestart-cases _ _).1 f)
                      (dispatch-Reacts env w))))

  -- The client follows the replica: whatever messages arrive, valid or not, in order or not, its server
  -- instance, its number and its cache become what the replica's are after the same messages. The
  -- replica applies a delta where its number follows the last one, or where no number is known; it
  -- drops an older one, does not apply one after a gap, and forgets its number where the server was
  -- restarted, or where it asks for a snapshot by closing its socket.
  pub handle_messages-Follows :
      (messages : List (String × Parsed)) (w : World Cache)
      → Replays qc js messages (replica_of w) (replica_of (handle_messages qc js messages w))
  unfolding handle_messages
  handle_messages-Follows [] w = Replays.done
  handle_messages-Follows ((now, message) ∷ rest) w =
      Replays.next (handle_message-Handles now message w)
        (handle_messages-Follows rest (handle_message qc js now message w))
