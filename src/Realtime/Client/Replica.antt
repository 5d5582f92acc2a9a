-- ===== src/Realtime/Client/Replica.antt =====
-- What the realtime client keeps of the server's state, without sockets, timers and status, and how each
-- message of a list changes it.
use virtual_office_sagara_ag.Prelude.{
  ℕ, ◌+◌, ◌≤◌, ◌<◌, String, Bool, true, false, ◌≡◌, Option, none, some, List, [], ◌∷◌, ◌==◌,
  if◌then◌else◌,
}
use virtual_office_sagara_ag.Engine.{Engine}
use virtual_office_sagara_ag.Realtime.Protocol.{
  RealtimeEnvelopeDto, RealtimeSnapshotPayloadDto, RealtimeDeltaPayloadDto, null_payload, payload,
  Parsed, protocol_version, valid_realtime_envelope,
}
use virtual_office_sagara_ag.Realtime.Queries.{QueryClient}
use virtual_office_sagara_ag.Realtime.Cache.{apply_realtime_snapshot, apply_realtime_delta}
use virtual_office_sagara_ag.Realtime.Client.{World}

-- What the client knows of the server: the instance, the number of the last message, the cache, and
-- whether it holds a socket.
pub record Replica (Cache : Type 0) : Type 0 where
  pub server : Option String
  pub number : Option ℕ
  pub cache : Cache
  pub attached : Bool

abbrev pub is_attached : Option ℕ → Bool
is_attached none = false
is_attached (some i) = true

abbrev pub replica_of : {Cache : Type 0} → World Cache → Replica Cache
replica_of w = record {
  server = w.client.server_instance_id;
  number = w.client.last_sequence;
  cache = w.cache;
  attached = is_attached w.client.ws;
}

-- Another instance than the known one; an empty text is not known.
abbrev pub IsRestart : Option String → String → Type 0
IsRestart none id = ⊥
IsRestart (some known) id = ((known == "") ≡ false) × ((known == id) ≡ false)

-- The number that follows; where none is known, every number does.
abbrev pub IsNext : Option ℕ → ℕ → Type 0
IsNext none m = Unit
IsNext (some n) m = m ≡ n + 1

-- A replica that asks for a new snapshot by closing its socket.
abbrev pub asking : {Cache : Type 0} → Replica Cache → Replica Cache
asking r = record r { number = if r.attached then none else r.number }

module _ (qc : QueryClient) (js : Engine) where
  open qc use {Cache}

  -- One message of the current instance. A snapshot replaces the cache, a delta changes it exactly
  -- where its number follows; an older one is dropped, and a gap is not applied. A `null` payload
  -- takes the number and leaves the cache.
  pub data Reacts (now : String) (env : RealtimeEnvelopeDto) (r : Replica Cache)
      : Replica Cache → Type 0 where
    snapshot :
        (s : RealtimeSnapshotPayloadDto) (d : RealtimeDeltaPayloadDto)
        → (env.type == "snapshot") ≡ true
        → env.payload ≡ payload s d
        → Reacts now env r (record r {
          server = some env.server_instance_id;
          number = some env.sequence;
          cache = apply_realtime_snapshot qc js now s r.cache;
        })
    empty_snapshot :
        (env.type == "snapshot") ≡ true
        → env.payload ≡ null_payload
        → Reacts now env r
            (record r { server = some env.server_instance_id; number = some env.sequence })
    delta :
        (s : RealtimeSnapshotPayloadDto) (d : RealtimeDeltaPayloadDto)
        → (env.type == "delta") ≡ true
        → env.payload ≡ payload s d
        → IsNext r.number env.sequence
        → Reacts now env r (record r {
          number = some env.sequence;
          cache = apply_realtime_delta qc js now d r.cache;
        })
    empty_delta :
        (env.type == "delta") ≡ true
        → env.payload ≡ null_payload
        → IsNext r.number env.sequence
        → Reacts now env r (record r { number = some env.sequence })
    old_delta :
        (n : ℕ)
        → (env.type == "delta") ≡ true
        → r.number ≡ some n
        → env.sequence ≤ n
        → Reacts now env r r
    gap :
        (n : ℕ)
        → (env.type == "delta") ≡ true
        → r.number ≡ some n
        → n + 1 < env.sequence
        → Reacts now env r (asking r)
    resync_required : (env.type == "resync_required") ≡ true → Reacts now env r (asking r)
    other :
        (env.type == "snapshot") ≡ false
        → (env.type == "delta") ≡ false
        → (env.type == "resync_required") ≡ false
        → Reacts now env r r

  -- One message: what is no envelope of this protocol changes nothing, and another instance makes the
  -- number unknown before the message counts.
  pub data Handles (now : String) (message : Parsed) (r : Replica Cache)
      : Replica Cache → Type 0 where
    ignored : valid_realtime_envelope message ≡ none → Handles now message r r
    foreign :
        (env : RealtimeEnvelopeDto)
        → valid_realtime_envelope message ≡ some env
        → (env.protocol_version == protocol_version) ≡ false
        → Handles now message r r
    restarted :
        (env : RealtimeEnvelopeDto) {after : Replica Cache}
        → valid_realtime_envelope message ≡ some env
        → (env.protocol_version == protocol_version) ≡ true
        → IsRestart r.server env.server_instance_id
        → Reacts now env (record r { server = some env.server_instance_id; number = none }) after
        → Handles now message r after
    same_server :
        (env : RealtimeEnvelopeDto) {after : Replica Cache}
        → valid_realtime_envelope message ≡ some env
        → (env.protocol_version == protocol_version) ≡ true
        → ¬ IsRestart r.server env.server_instance_id
        → Reacts now env r after
        → Handles now message r after

  pub data Replays : List (String × Parsed) → Replica Cache → Replica Cache → Type 0 where
    done : {r : Replica Cache} → Replays [] r r
    next :
        {now : String} {message : Parsed} {rest : List (String × Parsed)}
        {r mid after : Replica Cache}
        → Handles now message r mid
        → Replays rest mid after
        → Replays ((now, message) ∷ rest) r after
