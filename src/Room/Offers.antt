-- ===== src/Room/Offers.antt =====
-- apps/realtime/src/drawing-room.ts: `issueSnapshotOffer`, `consumeSnapshotReadTicket`, and what `fetch`
-- replays to a socket that joins. The hash of a token and the random token are parameters. `none` is an
-- exception.
pub mod Offered
pub mod Joins
pub mod ReadTickets
mod Tests
use echa.Prelude.{
  ℕ, ◌+◌, ◌*◌, String, Bool, true, false, not, ◌&&◌, ◌||◌, Option, none, some, List, [], ◌∷◌, ltb,
  leb, ◌==◌, same, if◌then◌else◌, is_some, is_none, find?, update, delete, ◌>>=◌, ◌>>◌,
}
use echa.Protocol.Value.{Serializer}
use echa.Protocol.Value.Text.{is_identifier, is_hash}
use echa.Protocol.Server.{PublicSnapshotManifest}
use echa.Room.Snapshots.{
  snapshot_renderer_version, SnapshotManifest, SnapshotStore, manifest_is, supported_manifest,
  current_snapshot, previous_snapshot, last_room_seq,
}
use echa.Room.Log.{StoredEvent}
use echa.Room.Snapshots.Commit.{is_active_room}
use echa.Room.Snapshots.Compaction.{CompactionState, snapshot_compaction_state}
use echa.Room.Replay.{ReplayFrameCacheEntry, Replay, send_replay}

abbrev pub snapshot_read_ttl_ms : ℕ
snapshot_read_ttl_ms = 60_000

-- A row of `snapshot_read_tickets`, by its key `token_hash`.
pub record SnapshotReadTicket : Type 0 where
  pub token_hash : String
  pub job_id : String
  pub expires_at : ℕ
  pub consumed_at : Option ℕ

-- `SnapshotOfferMessage`.
pub record SnapshotOffer : Type 0 where
  pub manifest : PublicSnapshotManifest
  pub read_token : String
  pub expires_at : ℕ

pub record SnapshotReadGrant : Type 0 where
  pub manifest : SnapshotManifest
  pub expires_at : ℕ

abbrev pub public_snapshot_manifest : SnapshotManifest → PublicSnapshotManifest
public_snapshot_manifest m = record {
  job_id = m.job_id;
  room_id = m.room_id;
  base_room_seq = m.base_room_seq;
  generation = m.generation;
  object_bytes = m.object_bytes;
  object_hash = m.object_hash;
  rgba_hash = m.rgba_hash;
  created_at = m.created_at;
}

-- `excludedJobIds.has(…)`.
abbrev pub is_excluded : List String → SnapshotManifest → Bool
is_excluded ids m = is_some (find? (λ id. same id m.job_id) ids)

-- The first of the two that is there and not excluded.
abbrev pub candidate :
    List String → Option SnapshotManifest → Option SnapshotManifest → Option SnapshotManifest
candidate ids none none = none
candidate ids none (some p) = if is_excluded ids p then none else some p
candidate ids (some c) none = if is_excluded ids c then none else some c
candidate ids (some c) (some p) =
    if is_excluded ids c then if is_excluded ids p then none else some p else some c

abbrev pub has_hash : String → SnapshotReadTicket → Bool
has_hash hash t = same t.token_hash hash

-- The key of a new row must be new.
abbrev pub insert_read_ticket :
    SnapshotReadTicket → List SnapshotReadTicket → Option (List SnapshotReadTicket)
insert_read_ticket t ts = if is_some (find? (has_hash t.token_hash) ts) then none else some (t ∷ ts)

abbrev pub is_expired : ℕ → SnapshotReadTicket → Bool
is_expired now t = ltb t.expires_at now

abbrev pub can_read : (token_hash job_id : String) (now : ℕ) → SnapshotReadTicket → Bool
can_read hash job_id now t =
    same t.token_hash hash && same t.job_id job_id && is_none t.consumed_at && leb now t.expires_at

abbrev pub manifest_for : (room_id job_id : String) → SnapshotManifest → Bool
manifest_for room_id job_id m = manifest_is job_id m && same m.room_id room_id

-- `WHERE token_hash = ? AND consumed_at IS NULL`.
abbrev pub is_unread : String → SnapshotReadTicket → Bool
is_unread hash t = same t.token_hash hash && is_none t.consumed_at

abbrev pub read_at : ℕ → SnapshotReadTicket → SnapshotReadTicket
read_at now t = record t { consumed_at = some now }

-- The row of the `JOIN`, decoded, and the `UPDATE`.
abbrev pub grant_of :
    String
    → ℕ
    → Option SnapshotReadTicket
    → Option SnapshotManifest
    → List SnapshotReadTicket
    → Option (Option SnapshotReadGrant × List SnapshotReadTicket)
grant_of hash now (some t) (some m) ts =
    if supported_manifest m
    then some (
      some (record { manifest = m; expires_at = t.expires_at }),
      update (is_unread hash) (read_at now) ts,
    )
    else none
grant_of hash now _ _ ts = some (none, ts)

abbrev pub new_ticket : String → SnapshotManifest → ℕ → SnapshotReadTicket
new_ticket hash m now = record {
  token_hash = hash;
  job_id = m.job_id;
  expires_at = now + snapshot_read_ttl_ms;
  consumed_at = none;
}

abbrev pub new_offer : SnapshotManifest → (read_token : String) (now : ℕ) → SnapshotOffer
new_offer m read_token now = record {
  manifest = public_snapshot_manifest m;
  read_token = read_token;
  expires_at = now + snapshot_read_ttl_ms;
}

-- The request of a socket, past the tests of its headers.
pub record JoinRequest : Type 0 where
  pub room_id : String
  pub resume_after_room_seq : ℕ
  pub renderer_version : ℕ
  pub snapshot_recovery_enabled : Bool
  pub excluded_snapshot_jobs : List String

pub data Recovery : Type 0 where
  resume_cursor_exceeds_room snapshot_recovery_required : Recovery
  recovers : Option SnapshotOffer → (after through : ℕ) → Recovery

abbrev pub start_of : ℕ → Option SnapshotOffer → ℕ
start_of resume_after none = resume_after
start_of resume_after (some o) = o.manifest.base_room_seq

abbrev pub needs_snapshot : CompactionState → ℕ → Option SnapshotOffer → Bool
needs_snapshot c resume_after offer =
    c.is_compacted && is_none offer && ltb resume_after c.compacted_through

-- What a socket is sent of the drawing: `n` rounds of the replay, where it is not refused.
abbrev pub replay_to :
    (packer : Serializer) (n : ℕ)
    → List StoredEvent
    → Option (ReplayFrameCacheEntry packer)
    → Recovery
    → Option (Option (Replay packer))
replay_to packer n es cache (recovers offer after through) = do
  p ← send_replay packer n after through es cache
  some (some p)
replay_to packer n es cache _ = some none

module _ (sha256_hex : String → String) where
  abbrev pub offer_snapshot :
      String
      → (resume_after : ℕ) (read_token : String) (now : ℕ) → Option SnapshotManifest
      → List SnapshotReadTicket
      → Option (Option SnapshotOffer × List SnapshotReadTicket)
  offer_snapshot room_id resume_after read_token now none ts = some (none, ts)
  offer_snapshot room_id resume_after read_token now (some m) ts =
      if not (same m.room_id room_id) || ltb m.base_room_seq resume_after
      then some (none, ts)
      else (do
        ts' ←
            insert_read_ticket (new_ticket (sha256_hex read_token) m now)
              (delete (is_expired now) ts)
        some (some (new_offer m read_token now), ts'))

  unfoldable pub issue_snapshot_offer :
      String
      → (resume_after : ℕ) (excluded : List String) (read_token : String) (now : ℕ) → SnapshotStore
      → List SnapshotReadTicket
      → Option (Option SnapshotOffer × List SnapshotReadTicket)
  issue_snapshot_offer room_id resume_after excluded read_token now s ts = do
    is_active ← is_active_room s
    (if is_active
        then (do
          current ← current_snapshot s
          previous ← previous_snapshot s
          offer_snapshot room_id resume_after read_token now (candidate excluded current previous)
              ts)
        else some (none, ts))

  unfoldable pub consume_snapshot_read_ticket :
      (room_id job_id read_token : String) (now : ℕ)
      → SnapshotStore
      → List SnapshotReadTicket
      → Option (Option SnapshotReadGrant × List SnapshotReadTicket)
  consume_snapshot_read_ticket room_id job_id read_token now s ts =
      if is_identifier 8 128 room_id && is_identifier 8 128 job_id && is_hash 64 read_token
      then (do
        is_active ← is_active_room s
        (if is_active
            then (let hash = sha256_hex read_token in
                grant_of hash now (find? (can_read hash job_id now) ts)
                  (find? (manifest_for room_id job_id) s.manifests) ts)
            else some (none, ts)))
      else some (none, ts)

  abbrev pub offer_for :
      JoinRequest
      → (read_token : String) (now : ℕ) → SnapshotStore
      → List SnapshotReadTicket
      → Option (Option SnapshotOffer × List SnapshotReadTicket)
  offer_for q read_token now s ts =
      if q.snapshot_recovery_enabled && q.renderer_version == snapshot_renderer_version
      then issue_snapshot_offer q.room_id q.resume_after_room_seq q.excluded_snapshot_jobs
          read_token now s ts
      else some (none, ts)

  -- Where the replay starts, or why the socket is refused. All that is read of `s` is read before the
  -- await of the token's hash; `ts` are the tickets, and `now` the time, after it.
  unfoldable pub select_recovery :
      JoinRequest
      → (read_token : String) (now : ℕ) → SnapshotStore
      → List SnapshotReadTicket
      → Option (Recovery × List SnapshotReadTicket)
  select_recovery q read_token now s ts =
      if ltb (last_room_seq s) q.resume_after_room_seq
      then some (resume_cursor_exceeds_room, ts)
      else (do
        c ← snapshot_compaction_state s
        r ← offer_for q read_token now s ts
        (if needs_snapshot c q.resume_after_room_seq r.0
            then some (snapshot_recovery_required, r.1)
            else some (recovers r.0 (start_of q.resume_after_room_seq r.0) (last_room_seq s), r.1)))

  -- The number where the replay ends is read from `s` before that await, and the log `es` and the
  -- cache that are replayed are those after it: events may have been accepted meanwhile.
  unfoldable pub join_recovery :
      (packer : Serializer) (n : ℕ)
      → JoinRequest
      → (read_token : String) (now : ℕ) → SnapshotStore
      → List SnapshotReadTicket
      → List StoredEvent
      → Option (ReplayFrameCacheEntry packer)
      → Option (Recovery × List SnapshotReadTicket × Option (Replay packer))
  join_recovery packer n q read_token now s ts es cache = do
    r ← select_recovery q read_token now s ts
    sent ← replay_to packer n es cache r.0
    some (r.0, r.1, sent)
