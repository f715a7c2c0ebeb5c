-- ===== src/Room/Replay/Chunks.antt =====
-- apps/realtime/src/drawing-room.ts: `encodeReplayChunk`.
use mathlib.Core.List.{append_assoc, map-append}
use mathlib.Core.Path.{subst}
use echa.Prelude.{
  ℕ, zero, suc, ◌+◌, ◌≤◌, ◌<◌, ◌≡◌, refl, ap, sym, ◌∙◌, inl, inr, Bool-cases, false, Option, some,
  List, [], ◌∷◌, ◌++◌, arith, length, length-append, map, All, leb, leb_of_le, ◌==◌,
}
use echa.Protocol.Limits.{max_frame_bytes}
use echa.Protocol.Messages.{AcceptedStrokeEvent}
use echa.Protocol.Value.{Serializer}
use echa.Protocol.Wire.{message_too_large, Outcome, returns, throws}
use echa.Protocol.Server.{replay}
use echa.Protocol.Server.Records.{wire_message}
use echa.Protocol.Server.Codec.{encode_server_message}
use echa.Room.Snapshots.Events.{take}
use echa.Room.Replay.{drop, middle, joined, whole_or_split, encode_replay_chunk}

module _ {ℓ} {A : Type ℓ} where
  abbrev pub concat : List (List A) → List A
  concat [] = []
  concat (xs ∷ xss) = xs ++ concat xss

  pub concat-append : (xss yss : List (List A)) → concat (xss ++ yss) ≡ concat xss ++ concat yss
  concat-append [] yss = refl
  concat-append (xs ∷ xss) yss =
      ap (λ r. xs ++ r) (concat-append xss yss) ∙ sym (append_assoc xs (concat xss) (concat yss))

  pub All-append {κ} : (P : A → Type κ) (xs ys : List A) → All P xs → All P ys → All P (xs ++ ys)
  All-append P [] ys h k = k
  All-append P (x ∷ xs) ys h k = (h.0, All-append P xs ys h.1 k)

  pub take-drop : (n : ℕ) (xs : List A) → take n xs ++ drop n xs ≡ xs
  take-drop zero xs = refl
  take-drop (suc n) [] = refl
  take-drop (suc n) (x ∷ xs) = ap (λ r. x ∷ r) (take-drop n xs)

  pub length-take_le : (n : ℕ) (xs : List A) → n ≤ length xs → length (take n xs) ≡ n
  length-take_le zero xs h = refl
  length-take_le (suc n) [] h = absurd (omega arith)
  length-take_le (suc n) (x ∷ xs) h = ap suc (length-take_le n xs (omega arith))

  pub length-drop : (n : ℕ) (xs : List A) → n ≤ length xs → length (drop n xs) + n ≡ length xs
  length-drop n xs h =
      let parts = ap length (take-drop n xs) in
      omega (arith, length-append (take n xs) (drop n xs), length-take_le n xs h, parts)

  pub All-take {κ} : (P : A → Type κ) (n : ℕ) (xs : List A) → All P xs → All P (take n xs)
  All-take P zero xs h = tt
  All-take P (suc n) [] h = tt
  All-take P (suc n) (x ∷ xs) h = (h.0, All-take P n xs h.1)

  pub All-drop {κ} : (P : A → Type κ) (n : ℕ) (xs : List A) → All P xs → All P (drop n xs)
  All-drop P zero xs h = h
  All-drop P (suc n) [] h = tt
  All-drop P (suc n) (x ∷ xs) h = All-drop P n xs h.1

  -- Two or more elements have two halves that are shorter.
  halves :
      (x y : A) (zs : List A)
      → let xs = x ∷ y ∷ zs in
        (length (take (middle xs) xs) < length xs) × (length (drop (middle xs) xs) < length xs)
  halves x y zs =
      let n : middle (x ∷ y ∷ zs) ≤ length (x ∷ y ∷ zs) = omega arith in
      (
        omega (arith, length-take_le (middle (x ∷ y ∷ zs)) (x ∷ y ∷ zs) n),
        omega (arith, length-drop (middle (x ∷ y ∷ zs)) (x ∷ y ∷ zs) n),
      )

module _ (packer : Serializer) where
  abbrev pub replay_frame : List AcceptedStrokeEvent → packer.Frame
  replay_frame es = packer.encode (wire_message (replay es))

  abbrev pub IsSmall : List AcceptedStrokeEvent → Type 0
  IsSmall es = packer.byte_length (replay_frame es) ≤ max_frame_bytes

  -- The event can be sent at all: the frame of a chunk that has it alone is not too large.
  abbrev pub IsSendable : AcceptedStrokeEvent → Type 0
  IsSendable e = IsSmall (e ∷ [])

  -- The frames are those of groups of the events, in their order; each has at most `k` events and is
  -- not too large.
  pub record Framed (k : ℕ) (es : List AcceptedStrokeEvent) (frames : List packer.Frame)
      : Type 0 where
    pub groups : List (List AcceptedStrokeEvent)
    pub are_frames : frames ≡ map replay_frame groups
    pub are_whole : concat groups ≡ es
    pub short : All (λ (g : List AcceptedStrokeEvent). length g ≤ k) groups
    pub small : All IsSmall groups

  pub Framed-append :
      (k : ℕ) (es fs : List AcceptedStrokeEvent) (xs ys : List packer.Frame)
      → Framed k es xs
      → Framed k fs ys
      → Framed k (es ++ fs) (xs ++ ys)
  Framed-append k es fs xs ys p q = record {
    groups = p.groups ++ q.groups;
    are_frames =
        ap (λ a. a ++ ys) p.are_frames
        ∙ ap (λ b. map replay_frame p.groups ++ b) q.are_frames
        ∙ sym (map-append replay_frame p.groups q.groups);
    are_whole =
        concat-append p.groups q.groups
        ∙ ap (λ a. a ++ concat q.groups) p.are_whole
        ∙ ap (λ b. es ++ b) q.are_whole;
    short =
        All-append (λ (g : List AcceptedStrokeEvent). length g ≤ k) p.groups q.groups p.short
          q.short;
    small = All-append IsSmall p.groups q.groups p.small q.small;
  }

  encode_small :
      (es : List AcceptedStrokeEvent)
      → IsSmall es
      → encode_server_message packer (replay es) ≡ returns (replay_frame es)
  unfolding encode_server_message
  encode_small es h = let ok = leb_of_le _ max_frame_bytes h in rw ok refl

  encode_large :
      (es : List AcceptedStrokeEvent)
      → (leb (packer.byte_length (replay_frame es)) max_frame_bytes ≡ false)
      → encode_server_message packer (replay es) ≡ throws message_too_large
  unfolding encode_server_message
  encode_large es h = rw h refl

  one_group :
      (k : ℕ) (es : List AcceptedStrokeEvent)
      → length es ≤ k
      → IsSmall es
      → Framed k es (replay_frame es ∷ [])
  one_group k es h small = record {
    groups = es ∷ [];
    are_frames = refl;
    are_whole = append_nil_of es;
    short = (h, tt);
    small = (small, tt);
  }
    where
      append_nil_of : (xs : List AcceptedStrokeEvent) → xs ++ [] ≡ xs
      append_nil_of [] = refl
      append_nil_of (x ∷ xs) = ap (λ r. x ∷ r) (append_nil_of xs)

  two_are_split :
      (out : Outcome packer.Frame) (d e : AcceptedStrokeEvent) (es : List AcceptedStrokeEvent)
      (left right : Option (List packer.Frame)) (xs ys : List packer.Frame)
      → out ≡ throws message_too_large
      → left ≡ some xs
      → right ≡ some ys
      → whole_or_split packer out (d ∷ e ∷ es) (joined packer left right) ≡ some (xs ++ ys)
  two_are_split out d e es left right xs ys large l r =
      let more : (length (d ∷ e ∷ es) == 1) ≡ false = ground arith in rw (large, more, l, r) refl

  -- Whatever its size, the chunk is sent whole in frames, when each event can be sent.
  pub encode_replay_chunk_lem :
      (n k : ℕ) (es : List AcceptedStrokeEvent)
      → length es < n
      → length es ≤ k
      → All IsSendable es
      → (frames : List packer.Frame) × (encode_replay_chunk packer n es ≡ some frames)
        × Framed k es frames
  unfolding encode_replay_chunk
  encode_replay_chunk_lem zero k es h l s = absurd (omega arith)
  encode_replay_chunk_lem (suc n) k [] h l s = (
    [],
    refl,
    record { groups = []; are_frames = refl; are_whole = refl; short = tt; small = tt },
  )
  encode_replay_chunk_lem (suc n) k (e ∷ []) h l s =
      (replay_frame (e ∷ []) ∷ [], rw (encode_small (e ∷ []) s.0) refl, one_group k (e ∷ []) l s.0)
  encode_replay_chunk_lem (suc n) k (d ∷ e ∷ es) h l s =
      elim (Bool-cases (leb (packer.byte_length (replay_frame (d ∷ e ∷ es))) max_frame_bytes)) [
        | inl fits ↦
            let small : IsSmall (d ∷ e ∷ es) = ground arith in
            (
              replay_frame (d ∷ e ∷ es) ∷ [],
              rw (encode_small (d ∷ e ∷ es) small) refl,
              one_group k (d ∷ e ∷ es) l small,
            )
        | inr large ↦
            let both = d ∷ e ∷ es in
            let m = middle both in
            let parts = halves d e es in
            let left =
              encode_replay_chunk_lem n k (take m both) (omega (arith, parts.0))
                (omega (arith, parts.0)) (All-take IsSendable m both s) in
            let right =
              encode_replay_chunk_lem n k (drop m both) (omega (arith, parts.1))
                (omega (arith, parts.1)) (All-drop IsSendable m both s) in
            (
              left.0 ++ right.0,
              two_are_split _ d e es _ _ left.0 right.0 (encode_large both large) left.1 right.1,
              subst (λ xs. Framed k xs (left.0 ++ right.0)) (take-drop m both)
                  (Framed-append k (take m both) (drop m both) left.0 right.0 left.2 right.2),
            )
      ]
