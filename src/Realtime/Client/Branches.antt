-- ===== src/Realtime/Client/Branches.antt =====
-- Case analysis on the handlers of realtime-client.ts, for any predicate on the world.
use virtual_office_sagara_ag.Prelude.{
  String, ◌≡◌, true, not, some, List, [], ◌∷◌, ◌==◌, if_both, if_cases, match_both,
}
use virtual_office_sagara_ag.Engine.{Engine}
use virtual_office_sagara_ag.Realtime.Protocol.{
  RealtimeEnvelopeDto, Parsed, protocol_version, valid_realtime_envelope,
}
use virtual_office_sagara_ag.Realtime.Store.{RealtimeConnectionStatus, set_status}
use virtual_office_sagara_ag.Realtime.Queries.{QueryClient}
use virtual_office_sagara_ag.Realtime.Client.{World, resync}
use virtual_office_sagara_ag.Realtime.Messages.{
  note_restart, on_snapshot, on_delta, on_heartbeat, dispatch, handle_envelope, handle_message,
}

-- `handleMessage` for each message, with the time at which it comes
unfoldable pub handle_messages :
    (qc : QueryClient) → Engine → List (String × Parsed) → World qc.Cache → World qc.Cache
handle_messages qc js [] w = w
handle_messages qc js ((now, message) ∷ rest) w =
    handle_messages qc js rest (handle_message qc js now message w)

module _ {ℓ} (qc : QueryClient) (js : Engine) (P : World qc.Cache → Type ℓ) where
  pub dispatch-cases :
      (now : String) (env : RealtimeEnvelopeDto) (w : World qc.Cache)
      → ((env.type == "snapshot") ≡ true → P (on_snapshot qc js now env w))
      → P (on_delta qc js now env w)
      → P (on_heartbeat now w)
      → P (resync w)
      → P w
      → P (dispatch qc js now env w)
  unfolding dispatch
  dispatch-cases now env w snapshot delta heartbeat resync_required other =
      if_cases P (env.type == "snapshot") snapshot (λ _. if_both P (env.type == "delta") delta (
        if_both P (env.type == "heartbeat") heartbeat
          (if_both P (env.type == "resync_required") resync_required other)))

  pub handle_message-cases :
      (now : String) (message : Parsed) (w : World qc.Cache)
      → P w
      → P (record w { store = set_status RealtimeConnectionStatus.degraded w.store })
      → ((env : RealtimeEnvelopeDto)
          → valid_realtime_envelope message ≡ some env
          → P (dispatch qc js now env (note_restart env w)))
      → P (handle_message qc js now message w)
  unfolding handle_message handle_envelope
  handle_message-cases now message w ignored degraded valid =
      match_both P (valid_realtime_envelope message) (λ _. ignored)
        (λ env e. if_both P (not (env.protocol_version == protocol_version)) degraded (valid env e))

  -- What every message keeps, all of them keep.
  pub handle_messages-keeps :
      ((now : String) (message : Parsed) (w : World qc.Cache)
        → P w
        → P (handle_message qc js now message w))
      → (messages : List (String × Parsed)) (w : World qc.Cache) → P w
      → P (handle_messages qc js messages w)
  unfolding handle_messages
  handle_messages-keeps keeps [] w h = h
  handle_messages-keeps keeps ((now, message) ∷ rest) w h =
      handle_messages-keeps keeps rest _ (keeps now message w h)
