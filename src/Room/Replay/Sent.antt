-- ===== src/Room/Replay/Sent.antt =====
-- apps/realtime/src/drawing-room.ts: the loop of `sendReplay`.
use mathlib.Core.List.{append_assoc, map-append}
use mathlib.Core.Path.{subst}
use echa.Prelude.{
  ℕ, zero, suc, ◌+◌, ◌*◌, ◌≤◌, ◌<◌, ◌≡◌, refl, ap, sym, ◌∙◌, inl, inr, Bool, Bool-cases, true,
  false, some, List, [], ◌∷◌, ◌++◌, arith, ltb, leb, ◌&&◌, length, length-append, min, map, All,
}
use echa.Protocol.Messages.{AcceptedStrokeEvent}
use echa.Protocol.Value.{Serializer}
use echa.Protocol.Outbox.Drawing.{append_nil}
use echa.Room.Log.{StoredEvent}
use echa.Room.Snapshots.Events.{take, last_of}
use echa.Room.Snapshots.Rows.{IsRun, IsRun-length, take-IsRun, last_of-IsRun}
use echa.Room.Replay.{
  drop, accepted_of, rows_after, events_after, max_replay_frame_cache_bytes, encode_replay_chunk,
  encoded_bytes, Replaying, not_started, hold_or_send, add_chunk, replay_loop,
}
use echa.Room.Replay.Chunks.{
  take-drop, IsSendable, Framed, Framed-append, encode_replay_chunk_lem, length-take_le,
  length-drop, All-take, All-drop,
}
use echa.Room.Replay.Places.{select_after, drop-IsRun, lt_or_ge, ltb_ge, take_all, drop-drop}

module _ (packer : Serializer) where
  pub encoded_bytes-append :
      (xs ys : List packer.Frame)
      → encoded_bytes packer (xs ++ ys) ≡ encoded_bytes packer xs + encoded_bytes packer ys
  encoded_bytes-append [] ys = omega arith
  encoded_bytes-append (x ∷ xs) ys = omega (arith, encoded_bytes-append xs ys)

  -- What the loop has held or sent, when it has read `es`.
  pub record Sends (es : List AcceptedStrokeEvent) (r : Replaying packer) : Type 0 where
    pub framed : Framed packer 500 es (r.sent ++ r.frames)
    pub counted : r.replayed ≡ length es
    pub weighed : r.encoded_bytes ≡ encoded_bytes packer (r.sent ++ r.frames)
    pub held : r.cacheable ≡ true → r.sent ≡ []
    pub fits : r.cacheable ≡ true → r.encoded_bytes ≤ max_replay_frame_cache_bytes
    pub passed_on : r.cacheable ≡ false → r.frames ≡ []

  pub Sends-start : Sends [] (not_started packer)
  Sends-start = record {
    framed = record { groups = []; are_frames = refl; are_whole = refl; short = tt; small = tt };
    counted = refl;
    weighed = refl;
    held = λ _. refl;
    fits = λ _. omega arith;
    passed_on = λ h. absurd (ground (arith, h));
  }

  module _ (es fs : List AcceptedStrokeEvent) (chunk : List packer.Frame) (r : Replaying packer)
      (p : Sends es r) (q : Framed packer 500 fs chunk) where
    abbrev bytes : ℕ
    bytes = r.encoded_bytes + encoded_bytes packer chunk

    abbrev counted_r : Replaying packer
    counted_r = record r { replayed = r.replayed + length fs; encoded_bytes = bytes }

    both : Framed packer 500 (es ++ fs) ((r.sent ++ r.frames) ++ chunk)
    both = Framed-append packer 500 es fs (r.sent ++ r.frames) chunk p.framed q

    counted_both : r.replayed + length fs ≡ length (es ++ fs)
    counted_both = omega (arith, p.counted, length-append es fs)

    weighed_both : bytes ≡ encoded_bytes packer ((r.sent ++ r.frames) ++ chunk)
    weighed_both = omega (arith, p.weighed, encoded_bytes-append (r.sent ++ r.frames) chunk)

    held-Sends :
        r.cacheable ≡ true
        → bytes ≤ max_replay_frame_cache_bytes
        → Sends (es ++ fs) (hold_or_send packer chunk true counted_r)
    held-Sends h small = record {
      framed = subst (Framed packer 500 (es ++ fs)) (append_assoc r.sent r.frames chunk) both;
      counted = counted_both;
      weighed = weighed_both ∙ ap (encoded_bytes packer) (append_assoc r.sent r.frames chunk);
      held = p.held;
      fits = λ _. small;
      passed_on = λ k. absurd (ground (arith, h, k));
    }

    over-Sends : r.cacheable ≡ true → Sends (es ++ fs) (hold_or_send packer chunk false counted_r)
    over-Sends h =
        let all = (r.sent ++ r.frames) ++ chunk in
        rw h (record {
          framed = subst (Framed packer 500 (es ++ fs)) (sym (append_nil all)) both;
          counted = counted_both;
          weighed = weighed_both ∙ ap (encoded_bytes packer) (sym (append_nil all));
          held = λ k. absurd (ground (arith, k));
          fits = λ k. absurd (ground (arith, k));
          passed_on = λ _. refl;
        })

    sent-Sends : r.cacheable ≡ false → Sends (es ++ fs) (hold_or_send packer chunk false counted_r)
    sent-Sends h =
        let no_frames = p.passed_on h in
        let all : (r.sent ++ r.frames) ++ chunk ≡ (r.sent ++ chunk) ++ r.frames =
          rw (no_frames, append_nil r.sent, append_nil (r.sent ++ chunk)) refl in
        rw h (record {
          framed = subst (Framed packer 500 (es ++ fs)) all both;
          counted = counted_both;
          weighed = weighed_both ∙ ap (encoded_bytes packer) all;
          held = λ k. absurd (ground (arith, h, k));
          fits = λ k. absurd (ground (arith, h, k));
          passed_on = λ _. no_frames;
        })

    by_room :
        (b : Bool)
        → (r.cacheable && leb bytes max_replay_frame_cache_bytes) ≡ b
        → Sends (es ++ fs) (hold_or_send packer chunk b counted_r)
        → Sends (es ++ fs) (add_chunk packer (length fs) chunk r)
    by_room b h k = subst (λ c. Sends (es ++ fs) (hold_or_send packer chunk c counted_r)) (sym h) k

    -- The frames of a chunk follow those before it, held or sent.
    add_chunk-Sends : Sends (es ++ fs) (add_chunk packer (length fs) chunk r)
    add_chunk-Sends = elim (Bool-cases r.cacheable) [
      | inl h ↦ elim (Bool-cases (leb bytes max_replay_frame_cache_bytes)) [
        | inl small ↦ by_room true (rw (h, small) refl) (held-Sends h (ground arith))
        | inr over ↦ by_room false (rw (h, over) refl) (over-Sends h)
      ]
      | inr h ↦ by_room false (rw h refl) (sent-Sends h)
    ]

  abbrev pub IsSendableRow : StoredEvent → Type 0
  IsSendableRow e = IsSendable packer (accepted_of e)

  pub length-accepted_of : (es : List StoredEvent) → length (map accepted_of es) ≡ length es
  length-accepted_of [] = refl
  length-accepted_of (e ∷ es) = ap suc (length-accepted_of es)

  All-rows :
      (es : List StoredEvent) → All IsSendableRow es → All (IsSendable packer) (map accepted_of es)
  All-rows [] h = tt
  All-rows (e ∷ es) h = (h.0, All-rows es h.1)

  -- A round that reads `es`.
  round :
      (es : List StoredEvent) (seen : List AcceptedStrokeEvent) (r : Replaying packer)
      → length es ≤ 500
      → All IsSendableRow es
      → Sends seen r
      → (chunk : List packer.Frame) × (encode_replay_chunk packer
            (suc (length es))
            (map accepted_of es)
          ≡ some chunk)
        × Sends (seen ++ map accepted_of es) (add_chunk packer (length es) chunk r)
  round es seen r few sendable p =
      let same = length-accepted_of es in
      let (chunk, is_chunk, framed) =
        encode_replay_chunk_lem packer (suc (length es)) 500 (map accepted_of es)
          (omega (arith, same)) (omega (arith, same)) (All-rows es sendable) in
      (
        chunk,
        is_chunk,
        subst (λ k. Sends (seen ++ map accepted_of es) (add_chunk packer k chunk r)) same
            (add_chunk-Sends seen (map accepted_of es) chunk r p framed),
      )

  module _ (low high : ℕ) (es : List StoredEvent) (run : IsRun low es high) where
    -- What is left after a full round.
    left_after : (m : ℕ) → drop 500 (drop m es) ≡ drop (m + 500) es
    left_after m = drop-drop 500 m es

    seen_after :
        (m : ℕ) (seen : List AcceptedStrokeEvent)
        → (seen ++ map accepted_of (take 500 (drop m es))) ++ map accepted_of (drop (m + 500) es)
          ≡ seen ++ map accepted_of (drop m es)
    seen_after m seen =
        let parts : map accepted_of (take 500 (drop m es)) ++ map accepted_of (drop (m + 500) es)
            ≡ map accepted_of (drop m es) =
          ap (λ xs. map accepted_of (take 500 (drop m es)) ++ map accepted_of xs)
            (sym (left_after m))
          ∙ sym (map-append accepted_of (take 500 (drop m es)) (drop 500 (drop m es)))
          ∙ ap (map accepted_of) (take-drop 500 (drop m es)) in
        append_assoc seen (map accepted_of (take 500 (drop m es)))
          (map accepted_of (drop (m + 500) es))
        ∙ ap (λ xs. seen ++ xs) parts

    cursor_after :
        (m cursor : ℕ)
        → cursor ≡ low + m
        → m + 500 ≤ length es
        → last_of cursor (take 500 (drop m es)) ≡ low + (m + 500)
    cursor_after m cursor at_m more =
        let left_run = drop-IsRun m low high es run (omega arith) in
        let here = subst (λ c. IsRun c (drop m es) high) (sym at_m) left_run in
        last_of-IsRun cursor (min (cursor + 500) high) (take 500 (drop m es))
          (take-IsRun 500 cursor high (drop m es) here)
        ∙ omega (arith, at_m, IsRun-length low high es run)

    -- The rounds from the place `m` of the log on, when enough are left.
    pub replay_loop_lem :
        (n m cursor : ℕ) (seen : List AcceptedStrokeEvent) (r : Replaying packer)
        → cursor ≡ low + m
        → m ≤ length es
        → length (drop m es) < n * 500
        → All IsSendableRow (drop m es)
        → Sends seen r
        → (r' : Replaying packer) × (replay_loop packer n cursor es r ≡ some r')
          × Sends (seen ++ map accepted_of (drop m es)) r'
    unfolding replay_loop events_after
    replay_loop_lem zero m cursor seen r at_m within enough sendable p =
        absurd (omega (arith, enough))
    replay_loop_lem (suc n) m cursor seen r at_m within enough sendable p =
        let left = drop m es in
        let rows : rows_after cursor 500 es ≡ take 500 left =
          ap (take 500) (select_after m low high cursor es run at_m) in
        let size = length-drop m es within in
        elim (lt_or_ge (length left) 500) [
          | inl (last_round, few) ↦
              let all : take 500 left ≡ left = take_all 500 left (omega (arith, few)) in
              let (chunk, is_chunk, sent) = round left seen r (omega (arith, few)) sendable p in
              (
                add_chunk packer (length left) chunk r,
                rw (rows, all, is_chunk, last_round) refl,
                sent,
              )
          | inr full ↦
              let more : m + 500 ≤ length es = omega (arith, size, full) in
              let five_hundred = length-take_le 500 left full in
              let (chunk, is_chunk, sent) =
                round (take 500 left) seen r (omega (arith, five_hundred))
                  (All-take IsSendableRow 500 left sendable) p in
              let (r', is_r', sent_all) =
                replay_loop_lem n (m + 500) (last_of cursor (take 500 left))
                  (seen ++ map accepted_of (take 500 left))
                  (add_chunk packer (length (take 500 left)) chunk r)
                  (cursor_after m cursor at_m more) more
                  (omega (arith, size, length-drop (m + 500) es more, enough))
                  (subst (All IsSendableRow) (left_after m)
                    (All-drop IsSendableRow 500 left sendable))
                  sent in
              let not_last : ltb (length (take 500 left)) 500 ≡ false =
                ltb_ge _ 500 (omega (arith, five_hundred)) in
              (
                r',
                rw (rows, is_chunk, not_last) is_r',
                subst (λ xs. Sends xs r') (seen_after m seen) sent_all,
              )
        ]
