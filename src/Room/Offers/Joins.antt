-- ===== src/Room/Offers/Joins.antt =====
-- apps/realtime/src/drawing-room.ts: what `fetch` replays to a socket that joins.
use echa.Prelude.{
  ℕ, ◌*◌, ◌≤◌, ◌<◌, ◌≡◌, refl, ◌∙◌, inl, inr, String, Bool, Bool-cases, true, false, Option, none,
  some, List, arith, ltb, find?, length, All, bind_of,
}
use echa.Protocol.Value.{Serializer}
use echa.Room.Log.{StoredEvent}
use echa.Room.Snapshots.{SnapshotStore, last_room_seq}
use echa.Room.Snapshots.Rows.{IsRun}
use echa.Room.Snapshots.Commit.{is_active_room}
use echa.Room.Snapshots.Compaction.{CompactionState, state_with, snapshot_compaction_state}
use echa.Room.Snapshots.Invariant.{SnapshotInv, last_room_seq-SnapshotInv}
use echa.Room.Snapshots.Deletion.{snapshot_compaction_state_lem}
use echa.Room.Replay.{ReplayFrameCacheEntry, Replay}
use echa.Room.Replay.Sent.{IsSendableRow}
use echa.Room.Replay.Cache.{CacheHolds, Replays, send_replay_lem}
use echa.Room.Offers.{
  SnapshotReadTicket, SnapshotOffer, has_hash, JoinRequest, Recovery, resume_cursor_exceeds_room,
  snapshot_recovery_required, recovers, start_of, needs_snapshot, select_recovery, replay_to,
  join_recovery,
}
use echa.Room.Offers.Offered.{offer_for-OfferFits, OfferFits}

-- What comes of a request: it is refused for a cursor past the log, or one in the compacted part where
-- no snapshot can be offered, or the replay starts at the snapshot or the cursor.
abbrev pub Recovers : (through last resume_after : ℕ) → Recovery → Type 0
Recovers through last resume_after resume_cursor_exceeds_room = last < resume_after
Recovers through last resume_after snapshot_recovery_required =
    (resume_after ≤ last) × (resume_after < through)
Recovers through last resume_after (recovers offer after to) =
    (to ≡ last)
    × (after ≡ start_of resume_after offer)
    × (resume_after ≤ after)
    × (through ≤ after)
    × (after ≤ last)

-- A socket that is not refused is sent the events from there on, up to the number of its recovery or
-- a later one: `now_last` is the last number of the log that is replayed.
abbrev pub IsReplayed :
    (packer : Serializer) (through now_last : ℕ)
    → List StoredEvent
    → Recovery
    → Option (Replay packer)
    → Type 0
IsReplayed packer through now_last es (recovers offer after to) none = ⊥
IsReplayed packer through now_last es (recovers offer after to) (some p) =
    Replays packer through after to now_last es p
IsReplayed packer through now_last es _ none = Unit
IsReplayed packer through now_last es _ (some p) = ⊥

start-Recovers :
    (through last resume_after : ℕ) (o : Option SnapshotOffer)
    → resume_after ≤ last
    → (o ≡ none → through ≤ resume_after)
    → OfferFits through last resume_after o
    → Recovers through last resume_after (recovers o (start_of resume_after o) last)
start-Recovers through last resume_after none h k f = (refl, refl, omega arith, k refl, h)
start-Recovers through last resume_after (some o) h k f = (refl, refl, f.2, f.0, f.1)

-- Without a snapshot the cursor is not in the compacted part.
not_needed :
    (c : CompactionState) (resume_after : ℕ) (o : Option SnapshotOffer)
    → (c.is_compacted ≡ false → c.compacted_through ≡ 0)
    → needs_snapshot c resume_after o ≡ false
    → o ≡ none
    → c.compacted_through ≤ resume_after
not_needed c resume_after (some o) shadow h k = let z : ⊥ = ground (arith, k) in absurd z
not_needed c resume_after none shadow h k = elim (Bool-cases c.is_compacted) [
  | inl e ↦ ground (arith, rw e at h)
  | inr e ↦ omega (arith, shadow e)
]

needed :
    (c : CompactionState) (resume_after : ℕ) (o : Option SnapshotOffer)
    → needs_snapshot c resume_after o ≡ true
    → resume_after < c.compacted_through
needed c resume_after o h = ground (arith, h)

module _ (sha256_hex : String → String) (token : String) (now : ℕ) (ts : List SnapshotReadTicket)
    (fresh : find? (has_hash (sha256_hex token)) ts ≡ none) (last : ℕ) (s : SnapshotStore)
    (inv : SnapshotInv last s) (is_active : Bool) (known : is_active_room s ≡ some is_active)
    (q : JoinRequest) where
  select_recovery-Recovers :
      (r : Recovery × List SnapshotReadTicket) × (select_recovery sha256_hex q token now s ts
        ≡ some r)
      × Recovers s.state.compacted_through last q.resume_after_room_seq r.0
  unfolding select_recovery
  select_recovery-Recovers = elim (Bool-cases (ltb (last_room_seq s) q.resume_after_room_seq)) [
    | inl past ↦ ((resume_cursor_exceeds_room, ts), rw past refl, ground (arith, past, at_last))
    | inr within ↦ selected (ground (arith, within, at_last))
  ]
    where
      at_last : last_room_seq s ≡ last
      at_last = last_room_seq-SnapshotInv last s inv

      read : snapshot_compaction_state s ≡ some (state_with inv.current inv.previous s)
      read = snapshot_compaction_state_lem last s inv

      selected :
          q.resume_after_room_seq ≤ last
          → (r : Recovery × List SnapshotReadTicket) × (select_recovery sha256_hex q token now s ts
              ≡ some r)
            × Recovers s.state.compacted_through last q.resume_after_room_seq r.0
      selected within =
          let c = state_with inv.current inv.previous s in
          let resume_after = q.resume_after_room_seq in
          let (o, is_o, fits) =
            offer_for-OfferFits sha256_hex token now ts fresh last s inv is_active known q in
          let reached : ltb (last_room_seq s) resume_after ≡ false =
            ground (arith, within, at_last) in
          elim (Bool-cases (needs_snapshot c resume_after o.0)) [
            | inl e ↦ (
              (snapshot_recovery_required, o.1),
              rw reached (bind_of _ read ∙ bind_of _ is_o ∙ rw e refl),
              (within, needed c resume_after o.0 e),
            )
            | inr e ↦ (
              (recovers o.0 (start_of resume_after o.0) last, o.1),
              rw reached (bind_of _ read ∙ bind_of _ is_o ∙ rw (e, at_last) refl),
              start-Recovers s.state.compacted_through last resume_after o.0 within
                  (not_needed c resume_after o.0 inv.shadow e) fits,
            )
          ]

  module _ (packer : Serializer) (n : ℕ) (now_last : ℕ) (es : List StoredEvent)
      (run : IsRun s.state.compacted_through es now_last) (grown : last ≤ now_last)
      (enough : length es < n * 500) (sendable : All (IsSendableRow packer) es)
      (cache : Option (ReplayFrameCacheEntry packer))
      (holds : CacheHolds packer s.state.compacted_through now_last es cache) where
    replay_to-IsReplayed :
        (r : Recovery)
        → Recovers s.state.compacted_through last q.resume_after_room_seq r
        → (p : Option (Replay packer)) × (replay_to packer n es cache r ≡ some p)
          × IsReplayed packer s.state.compacted_through now_last es r p
    replay_to-IsReplayed resume_cursor_exceeds_room h = (none, refl, tt)
    replay_to-IsReplayed snapshot_recovery_required h = (none, refl, tt)
    replay_to-IsReplayed (recovers offer after to) h =
        let (p, is_p, replays) =
          send_replay_lem packer s.state.compacted_through now_last es run sendable n after to cache
            enough h.3 (omega (arith, h.4, grown)) (omega (arith, h.0, grown)) holds in
        (some p, bind_of _ is_p, replays)

    -- A request to join is answered: it is refused for a cursor past the last number, or for one
    -- before what is compacted, or the replay goes from the offered snapshot or else the cursor,
    -- which is at or past what is compacted and what the client has, up to the last number, and all
    -- the events between are sent, perhaps with some of those right after them. The last number and
    -- the tables are those before the await of the token's hash, when they are consistent; the log
    -- that is replayed is the one after it, which may have grown, but of which no more is to be
    -- compacted. The room's status is to be readable, the token new, and the cache to hold the
    -- frames of the events after its start wherever it would be used; each event is to fit a frame
    -- alone, with enough rounds.
    pub join_recovery_lem :
        (r : Recovery × List SnapshotReadTicket × Option (Replay packer)) × (join_recovery
            sha256_hex packer n q token now s ts es cache
          ≡ some r)
        × Recovers s.state.compacted_through last q.resume_after_room_seq r.0
        × IsReplayed packer s.state.compacted_through now_last es r.0 r.2
    unfolding join_recovery
    join_recovery_lem =
        let (r, is_r, recovered) = select_recovery-Recovers in
        let (p, is_p, replayed) = replay_to-IsReplayed r.0 recovered in
        ((r.0, r.1, p), bind_of _ is_r ∙ bind_of _ is_p, recovered, replayed)
