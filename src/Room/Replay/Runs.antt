-- ===== src/Room/Replay/Runs.antt =====
-- apps/realtime/src/drawing-room.ts: replays over the life of a room, with its `replayFrameCache`.
use mathlib.Core.Path.{subst}
use echa.Prelude.{
  ℕ, suc, ◌*◌, ◌≤◌, ◌<◌, ◌≡◌, refl, ap, sym, ◌∙◌, inl, inr, Bool, Bool-cases, true, false, Option,
  none, some, List, [], ◌∷◌, ◌++◌, arith, leb, ◌&&◌, if◌then◌else◌, length, map, All, select,
  delete, some_inj,
}
use echa.Protocol.Value.{Serializer}
use echa.Room.Log.{StoredEvent}
use echa.Room.Snapshots.Rows.{IsRun, IsRun-le, IsRun-append, last_of-IsRun, delete-IsRun}
use echa.Room.Snapshots.Events.{last_of, in_range}
use echa.Room.Snapshots.Compaction.{delete_rows}
use echa.Room.Replay.{accepted_of, ReplayFrameCacheEntry, Replay, send_replay}
use echa.Room.Replay.Chunks.{Framed, All-append}
use echa.Room.Replay.Sent.{IsSendableRow}
use echa.Room.Replay.Cache.{ranged, CacheHolds, CacheHolds-append, Replays, send_replay_lem}

-- The rows of the numbers in a range.
abbrev pub between : (first through : ℕ) → StoredEvent → Bool
between first through d = leb first d.room_seq && leb d.room_seq through

delete_first :
    (low through : ℕ) (e : StoredEvent) (rows es : List StoredEvent)
    → IsRun low (e ∷ rows) through
    → delete_rows (e ∷ rows) es ≡ delete (between (suc low) through) es
delete_first low through e rows es h =
    ap (λ n. delete (between n (last_of n rows)) es) h.0
    ∙ ap (λ n. delete (between (suc low) n) es) (last_of-IsRun (suc low) through rows h.1)

module _ {κ} (P : StoredEvent → Type κ) (p : StoredEvent → Bool) where
  All-delete : (es : List StoredEvent) → All P es → All P (delete p es)
  All-delete [] h = tt
  All-delete (e ∷ es) h = elim (Bool-cases (p e)) [
    | inl k ↦ rw k (All-delete es h.1)
    | inr k ↦ rw k (h.0, All-delete es h.1)
  ]

-- A deletion does not touch what is after it.
select-delete :
    (first through after end : ℕ) (es : List StoredEvent)
    → through ≤ after
    → select (in_range after end) (delete (between first through) es)
      ≡ select (in_range after end) es
select-delete first through after end [] h = refl
select-delete first through after end (e ∷ es) h =
    let rest = select-delete first through after end es h in
    elim (Bool-cases (between first through e)) [
      | inl gone ↦
          let earlier : in_range after end e ≡ false = ground (arith, gone, h) in
          rw (gone, earlier) rest
      | inr stays ↦ rw stays (kept (in_range after end e) e rest)
    ]
  where
    kept :
        (b : Bool) (x : StoredEvent) {xs ys : List StoredEvent}
        → xs ≡ ys
        → (if b then x ∷ xs else xs) ≡ (if b then x ∷ ys else ys)
    kept true x k = ap (λ r. x ∷ r) k
    kept false x k = k

module _ (packer : Serializer) where
  -- What happens to the log, whose rows are numbered from the one after `low` up to `last`, and to the
  -- cache: an event is accepted, a socket is sent a replay, the first rows are deleted, the object is
  -- evicted from memory.
  pub data ReplayRun
      : (low last : ℕ) → List StoredEvent → Option (ReplayFrameCacheEntry packer) → Type 0 where
    begins : ReplayRun 0 0 [] none
    accepts :
        {low last : ℕ} {es : List StoredEvent} {c : Option (ReplayFrameCacheEntry packer)}
        → ReplayRun low last es c
        → (e : StoredEvent) → e.room_seq ≡ suc last
        → IsSendableRow packer e
        → ReplayRun low (suc last) (es ++ e ∷ []) c
    replays :
        {low last : ℕ} {es : List StoredEvent} {c : Option (ReplayFrameCacheEntry packer)}
        → ReplayRun low last es c
        → (n after through : ℕ) → length es < n * 500
        → low ≤ after
        → after ≤ last
        → through ≤ last
        → (p : Replay packer) → send_replay packer n after through es c ≡ some p
        → ReplayRun low last es p.cache
    compacts :
        {low last : ℕ} {es : List StoredEvent} {c : Option (ReplayFrameCacheEntry packer)}
        → ReplayRun low last es c
        → (through : ℕ) (rows : List StoredEvent) → IsRun low rows through
        → through ≤ last
        → ReplayRun through last (delete_rows rows es) c
    evicts :
        {low last : ℕ} {es : List StoredEvent} {c : Option (ReplayFrameCacheEntry packer)}
        → ReplayRun low last es c
        → ReplayRun low last es none

  pub record ReplayInv (low last : ℕ) (es : List StoredEvent)
      (c : Option (ReplayFrameCacheEntry packer)) : Type 0 where
    pub run : IsRun low es last
    pub sendable : All (IsSendableRow packer) es
    pub cached : CacheHolds packer low last es c

  -- The rows from a later number on keep the cache.
  CacheHolds-delete :
      (low through last : ℕ) (es : List StoredEvent) (c : Option (ReplayFrameCacheEntry packer))
      → low ≤ through
      → CacheHolds packer low last es c
      → CacheHolds packer through last (delete (between (suc low) through) es) c
  CacheHolds-delete low through last es none h k = tt
  CacheHolds-delete low through last es (some c) h k = λ lower.
      let entry = k (omega (arith, h, lower)) in
      let after = c.after_room_seq in
      let same : ranged after entry.end es
          ≡ ranged after entry.end (delete (between (suc low) through) es) =
        ap (map accepted_of) (sym (select-delete (suc low) through after entry.end es lower)) in
      record {
        end = entry.end;
        reached = entry.reached;
        in_log = entry.in_log;
        framed = subst (λ xs. Framed packer 500 xs c.frames) same entry.framed;
        counted = entry.counted;
        weighed = entry.weighed;
        fits = entry.fits;
      }

  delete_rows-ReplayInv :
      (low through last : ℕ) (es rows : List StoredEvent)
      (c : Option (ReplayFrameCacheEntry packer))
      → ReplayInv low last es c
      → IsRun low rows through
      → through ≤ last
      → ReplayInv through last (delete_rows rows es) c
  delete_rows-ReplayInv low through last es [] c inv h k = subst (λ t. ReplayInv t last es c) h inv
  delete_rows-ReplayInv low through last es (e ∷ rows) c inv h k =
      let further = IsRun-le low through (e ∷ rows) h in
      subst (λ xs. ReplayInv through last xs c) (sym (delete_first low through e rows es h))
        (record {
          run = delete-IsRun low last (suc low) through es inv.run (omega arith) further k;
          sendable = All-delete (IsSendableRow packer) (between (suc low) through) es inv.sendable;
          cached = CacheHolds-delete low through last es c further inv.cached;
        })

  ReplayRun-ReplayInv :
      {low last : ℕ} {es : List StoredEvent} {c : Option (ReplayFrameCacheEntry packer)}
      → ReplayRun low last es c
      → ReplayInv low last es c
  ReplayRun-ReplayInv begins = record { run = refl; sendable = tt; cached = tt }
  ReplayRun-ReplayInv (accepts {low} {last} {es} {c} before e next sendable) =
      let inv = ReplayRun-ReplayInv before in
      record {
        run = IsRun-append low last (suc last) es (e ∷ []) inv.run (next, refl);
        sendable = All-append (IsSendableRow packer) es (e ∷ []) inv.sendable (sendable, tt);
        cached = CacheHolds-append packer low last es e c next inv.cached;
      }
  ReplayRun-ReplayInv
        (replays {low} {last} {es} {c} before n after through enough lower upper bound p sent) =
      let inv = ReplayRun-ReplayInv before in
      let (p', is_p', replayed) =
        send_replay_lem packer low last es inv.run inv.sendable n after through c enough lower upper
          bound inv.cached in
      let same : p' ≡ p = some_inj p' p (sym is_p' ∙ sent) in
      record {
        run = inv.run;
        sendable = inv.sendable;
        cached =
            subst (λ (x : Replay packer). CacheHolds packer low last es x.cache) same
              replayed.cached;
      }
  ReplayRun-ReplayInv (compacts {low} {last} {es} {c} before through rows h k) =
      delete_rows-ReplayInv low through last es rows c (ReplayRun-ReplayInv before) h k
  ReplayRun-ReplayInv (evicts before) =
      let inv = ReplayRun-ReplayInv before in
      record { run = inv.run; sendable = inv.sendable; cached = tt }

  -- In any run of accepted events, deletions of the first rows, replays and evictions of the
  -- object from an empty log on, in which each event fits a frame alone, a replay from a number
  -- at or past the deleted rows and in the log, asked for up to a number that the log has reached
  -- and may have passed, sends the frames of exactly the events after the first number up to some
  -- number of the log that is not before the one asked for, from the log or from the cache, in
  -- their order, with at most 500 events and within the size of a frame each, and counts them. It
  -- is given a round for 500 events each and one more. The events after that number up to the
  -- end of the log need not be sent: an entry of the cache may be older than they are.
  pub ReplayRun-Replays :
      {low last : ℕ} {es : List StoredEvent} {c : Option (ReplayFrameCacheEntry packer)}
      → ReplayRun low last es c
      → (n after through : ℕ) → length es < n * 500
      → low ≤ after
      → after ≤ last
      → through ≤ last
      → (p : Replay packer) × (send_replay packer n after through es c ≡ some p)
        × Replays packer low after through last es p
  ReplayRun-Replays {low} {last} {es} {c} run n after through enough lower upper bound =
      let inv = ReplayRun-ReplayInv run in
      send_replay_lem packer low last es inv.run inv.sendable n after through c enough lower upper
        bound inv.cached
