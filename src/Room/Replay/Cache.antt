-- ===== src/Room/Replay/Cache.antt =====
-- apps/realtime/src/drawing-room.ts: `sendReplay` and its `replayFrameCache`.
use mathlib.Core.Path.{subst}
use echa.Room.Snapshots.Events.{in_range}
use echa.Prelude.{
  ℕ, suc, ◌+◌, ◌-◌, ◌*◌, ◌≤◌, ◌<◌, ◌≡◌, refl, ap, sym, ◌∙◌, inl, inr, Bool-cases, true, Option,
  none, some, List, [], ◌++◌, arith, length, map, All, select, bind_of, ◌∷◌, false,
}
use echa.Protocol.Messages.{AcceptedStrokeEvent}
use echa.Protocol.Value.{Serializer}
use echa.Room.Log.{StoredEvent}
use echa.Room.Snapshots.Rows.{IsRun, IsRun-length, IsRun-le, select-IsRun}
use echa.Room.Replay.{
  drop, accepted_of, is_after, max_replay_frame_cache_bytes, encoded_bytes, Replaying, not_started,
  ReplayFrameCacheEntry, is_of, Replay, finish, from_log, from_cache, send_replay,
}
use echa.Room.Replay.Chunks.{Framed, length-drop, All-drop}
use echa.Protocol.Outbox.Drawing.{append_nil}
use echa.Room.Replay.Sent.{Sends, Sends-start, IsSendableRow, replay_loop_lem, length-accepted_of}
use echa.Room.Replay.Places.{select_after}

-- The events with the numbers after `after` up to `end`.
abbrev pub ranged : (after end : ℕ) → List StoredEvent → List AcceptedStrokeEvent
ranged after end es = map accepted_of (select (in_range after end) es)

-- In a log that ends there, they are all the events after the first number.
select_to_end :
    (low last after : ℕ) (es : List StoredEvent)
    → IsRun low es last
    → select (in_range after last) es ≡ select (is_after after) es
select_to_end low last after [] h = refl
select_to_end low last after (e ∷ es) h =
    let rest = select_to_end (suc low) last after es h.1 in
    let further = IsRun-le (suc low) last es h.1 in
    elim (Bool-cases (is_after after e)) [
      | inl k ↦
          let here : in_range after last e ≡ true = ground (arith, h.0, k) in
          rw (here, k) (ap (λ r. e ∷ r) rest)
      | inr k ↦ let here : in_range after last e ≡ false = ground (arith, k) in rw (here, k) rest
    ]

-- An event past the range is not in it.
select_past :
    (after end : ℕ) (e : StoredEvent) (es : List StoredEvent)
    → end < e.room_seq
    → select (in_range after end) (es ++ e ∷ []) ≡ select (in_range after end) es
select_past after end e [] h =
    let here : in_range after end e ≡ false = ground arith in rw here refl
select_past after end e (d ∷ es) h =
    let rest = select_past after end e es h in
    elim (Bool-cases (in_range after end d)) [
      | inl k ↦ rw k (ap (λ r. d ∷ r) rest)
      | inr k ↦ rw k rest
    ]

module _ (packer : Serializer) where
  -- The entry holds the frames of all the events from its first number on, up to one that may be past
  -- its last number and that the log has reached, within its size.
  pub record CacheOf (last : ℕ) (es : List StoredEvent) (c : ReplayFrameCacheEntry packer)
      : Type 0 where
    pub end : ℕ
    pub reached : c.through_room_seq ≤ end
    pub in_log : end ≤ last
    pub framed : Framed packer 500 (ranged c.after_room_seq end es) c.frames
    pub counted : c.after_room_seq + c.event_count ≡ end
    pub weighed : c.encoded_bytes ≡ encoded_bytes packer c.frames
    pub fits : c.encoded_bytes ≤ max_replay_frame_cache_bytes

  -- The log goes from the number after `low` up to `last`. An entry that starts before it is not used.
  abbrev pub CacheHolds :
      (low last : ℕ) → List StoredEvent → Option (ReplayFrameCacheEntry packer) → Type 0
  CacheHolds low last es none = Unit
  CacheHolds low last es (some c) = low ≤ c.after_room_seq → CacheOf last es c

  -- Accepting an event keeps the cache.
  pub CacheHolds-append :
      (low last : ℕ) (es : List StoredEvent) (e : StoredEvent)
      (c : Option (ReplayFrameCacheEntry packer))
      → e.room_seq ≡ suc last
      → CacheHolds low last es c
      → CacheHolds low (suc last) (es ++ e ∷ []) c
  CacheHolds-append low last es e none next h = tt
  CacheHolds-append low last es e (some c) next h = λ lower.
      let entry = h lower in
      let after = c.after_room_seq in
      let within = entry.in_log in
      let past : entry.end < e.room_seq = omega (arith, next, within) in
      let same : ranged after entry.end es ≡ ranged after entry.end (es ++ e ∷ []) =
        ap (map accepted_of) (sym (select_past after entry.end e es past)) in
      record {
        end = entry.end;
        reached = entry.reached;
        in_log = omega (arith, within);
        framed = subst (λ xs. Framed packer 500 xs c.frames) same entry.framed;
        counted = entry.counted;
        weighed = entry.weighed;
        fits = entry.fits;
      }

  -- The replay sends the frames of the events after the number, up to one that the log has reached and
  -- that is not before the last one asked for, and leaves a cache of them.
  pub record Replays (low after through last : ℕ) (es : List StoredEvent) (p : Replay packer)
      : Type 0 where
    pub end : ℕ
    pub reached : through ≤ end
    pub in_log : end ≤ last
    pub framed : Framed packer 500 (ranged after end es) p.frames
    pub counted : after + p.event_count ≡ end
    pub cached : CacheHolds low last es p.cache

  is_of-same :
      (after through : ℕ) (c : ReplayFrameCacheEntry packer)
      → is_of packer after through c ≡ true
      → (c.after_room_seq ≡ after) × (c.through_room_seq ≡ through)
  is_of-same after through c h = ground (arith, h)

  module _ (low last : ℕ) (es : List StoredEvent) (run : IsRun low es last) where
    length-ranged :
        (after : ℕ) → low ≤ after → after ≤ last → after + length (ranged after last es) ≡ last
    length-ranged after lower upper =
        let rows = select (in_range after last) es in
        let part = select-IsRun low last after last es run lower upper (omega arith) in
        omega (arith, length-accepted_of packer rows, IsRun-length after last rows part)

    finish-Replays :
        (after through : ℕ) (r : Replaying packer)
        → low ≤ after
        → after ≤ last
        → through ≤ last
        → Sends packer (ranged after last es) r
        → Replays low after through last es (finish packer after through r)
    finish-Replays after through r lower upper bound p =
        let count : after + r.replayed ≡ last =
          omega (arith, p.counted, length-ranged after lower upper) in
        elim (Bool-cases r.cacheable) [
          | inl h ↦
              let only_held : r.sent ++ r.frames ≡ r.frames =
                ap (λ xs. xs ++ r.frames) (p.held h) in
              rw h (record {
                end = last;
                reached = bound;
                in_log = omega arith;
                framed = p.framed;
                counted = count;
                cached = λ _. record {
                  end = last;
                  reached = bound;
                  in_log = omega arith;
                  framed = subst (Framed packer 500 (ranged after last es)) only_held p.framed;
                  counted = count;
                  weighed = p.weighed ∙ ap (encoded_bytes packer) only_held;
                  fits = p.fits h;
                };
              })
          | inr h ↦
              let only_sent : r.sent ++ r.frames ≡ r.sent =
                ap (λ xs. r.sent ++ xs) (p.passed_on h) ∙ append_nil r.sent in
              rw h (record {
                end = last;
                reached = bound;
                in_log = omega arith;
                framed = subst (Framed packer 500 (ranged after last es)) only_sent p.framed;
                counted = count;
                cached = tt;
              })
        ]

    hit-Replays :
        (c : ReplayFrameCacheEntry packer) (after through : ℕ)
        → low ≤ after
        → CacheHolds low last es (some c)
        → c.after_room_seq ≡ after
        → c.through_room_seq ≡ through
        → Replays low after through last es (from_cache packer c)
    hit-Replays c after through lower holds same_after same_end =
        let entry = holds (omega (arith, same_after)) in
        let same : ranged c.after_room_seq entry.end es ≡ ranged after entry.end es =
          ap (λ a. ranged a entry.end es) same_after in
        record {
          end = entry.end;
          reached = omega (arith, entry.reached, same_end);
          in_log = entry.in_log;
          framed = subst (λ xs. Framed packer 500 xs c.frames) same entry.framed;
          counted = omega (arith, entry.counted, same_after);
          cached = holds;
        }

    module _ (sendable : All (IsSendableRow packer) es) where
      from_log-Replays :
          (n after through : ℕ)
          → length es < n * 500
          → low ≤ after
          → after ≤ last
          → through ≤ last
          → (p : Replay packer) × (from_log packer n after through es ≡ some p)
            × Replays low after through last es p
      from_log-Replays n after through enough lower upper bound =
          let m = after - low in
          let at_m : after ≡ low + m = omega arith in
          let within : m ≤ length es = omega (arith, IsRun-length low last es run) in
          let (r, is_r, sent) =
            replay_loop_lem packer low last es run n m after [] (not_started packer) at_m within
              (omega (arith, enough, length-drop m es within))
              (All-drop (IsSendableRow packer) m es sendable) (Sends-start packer) in
          let to_end : select (in_range after last) es ≡ drop m es =
            select_to_end low last after es run ∙ select_after m low last after es run at_m in
          let all : map accepted_of (drop m es) ≡ ranged after last es =
            ap (map accepted_of) (sym to_end) in
          (
            finish packer after through r,
            bind_of _ is_r,
            finish-Replays after through r lower upper bound
                (subst (λ xs. Sends packer xs r) all sent),
          )

      -- From the log or from a cache that holds, all events after a number of the log are sent, up to
      -- the last number asked for or a later one.
      pub send_replay_lem :
          (n after through : ℕ) (cache : Option (ReplayFrameCacheEntry packer))
          → length es < n * 500
          → low ≤ after
          → after ≤ last
          → through ≤ last
          → CacheHolds low last es cache
          → (p : Replay packer) × (send_replay packer n after through es cache ≡ some p)
            × Replays low after through last es p
      unfolding send_replay
      send_replay_lem n after through none enough lower upper bound holds =
          from_log-Replays n after through enough lower upper bound
      send_replay_lem n after through (some c) enough lower upper bound holds =
          elim (Bool-cases (is_of packer after through c)) [
            | inl hit ↦
                let (same_after, same_end) = is_of-same after through c hit in
                (
                  from_cache packer c,
                  rw hit refl,
                  hit-Replays c after through lower holds same_after same_end,
                )
            | inr miss ↦
                let (p, is_p, replays) =
                  from_log-Replays n after through enough lower upper bound in
                (p, rw miss is_p, replays)
          ]
