-- ===== src/Room/Replay.antt =====
-- apps/realtime/src/drawing-room.ts: `eventsAfter`, `encodeReplayChunk` and `sendReplay`. The rows of
-- `stroke_events` are given in the order of their key, decoded. What is sent to the socket is a list.
-- `none` is an exception.
pub mod Chunks
pub mod Places
pub mod Sent
pub mod Cache
pub mod Runs
use echa.Prelude.{
  ℕ, zero, suc, ◌+◌, ◌*◌, ◌/◌, Bool, true, false, ◌&&◌, ◌||◌, Option, none, some, List, [], ◌∷◌,
  ◌++◌, ltb, leb, ◌==◌, if◌then◌else◌, select, length, max, min, map, ◌>>=◌,
}
use echa.Protocol.Messages.{AcceptedStrokeEvent}
use echa.Protocol.Value.{Serializer}
use echa.Protocol.Wire.{Failure, message_too_large, Outcome, returns, throws}
use echa.Protocol.Server.{replay}
use echa.Protocol.Server.Codec.{encode_server_message}
use echa.Room.Log.{StoredEvent}
use echa.Room.Snapshots.Events.{take, last_of}

abbrev pub drop {ℓ} : {A : Type ℓ} → ℕ → List A → List A
drop zero xs = xs
drop (suc n) [] = []
drop (suc n) (x ∷ xs) = drop n xs

abbrev pub accepted_of : StoredEvent → AcceptedStrokeEvent
accepted_of e = record {
  room_seq = e.room_seq;
  actor = e.actor;
  connection_id = e.connection_id;
  accepted_at = e.accepted_at;
  event = e.event;
}

-- `WHERE room_seq > after`.
abbrev pub is_after : ℕ → StoredEvent → Bool
is_after after e = ltb after e.room_seq

-- The rows of `eventsAfter(after, limit)`, before they are decoded.
abbrev pub rows_after : (after limit : ℕ) → List StoredEvent → List StoredEvent
rows_after after limit es = take (min 500 (max 1 limit)) (select (is_after after) es)

unfoldable pub events_after : (after limit : ℕ) → List StoredEvent → List AcceptedStrokeEvent
events_after after limit es = map accepted_of (rows_after after limit es)

abbrev pub max_replay_frame_cache_bytes : ℕ
max_replay_frame_cache_bytes = 8 * 1_024 * 1_024

-- `Math.ceil(events.length / 2)`.
abbrev pub middle {ℓ} : {A : Type ℓ} → List A → ℕ
middle xs = (length xs + 1) / 2

module _ (packer : Serializer) where
  -- What becomes of the attempt to encode a whole chunk: a `RangeError` splits it, unless it has one
  -- event only.
  abbrev pub whole_or_split :
      Outcome packer.Frame
      → List AcceptedStrokeEvent
      → Option (List packer.Frame)
      → Option (List packer.Frame)
  whole_or_split (returns frame) es split = some (frame ∷ [])
  whole_or_split (throws message_too_large) es split = if length es == 1 then none else split
  whole_or_split (throws _) es split = none

  abbrev pub joined :
      Option (List packer.Frame) → Option (List packer.Frame) → Option (List packer.Frame)
  joined left right = do fs ← left; gs ← right; some (fs ++ gs)

  -- The halves are shorter, so that one more round than there are events is enough.
  unfoldable pub encode_replay_chunk : ℕ → List AcceptedStrokeEvent → Option (List packer.Frame)
  encode_replay_chunk zero es = none
  encode_replay_chunk (suc n) [] = some []
  encode_replay_chunk (suc n) (e ∷ es) =
      let split =
        joined (encode_replay_chunk n (take (middle (e ∷ es)) (e ∷ es)))
          (encode_replay_chunk n (drop (middle (e ∷ es)) (e ∷ es))) in
      whole_or_split (encode_server_message packer (replay (e ∷ es))) (e ∷ es) split

  abbrev pub encoded_bytes : List packer.Frame → ℕ
  encoded_bytes [] = 0
  encoded_bytes (f ∷ fs) = packer.byte_length f + encoded_bytes fs

  pub record ReplayFrameCacheEntry : Type 0 where
    pub after_room_seq : ℕ
    pub through_room_seq : ℕ
    pub event_count : ℕ
    pub frames : List packer.Frame
    pub encoded_bytes : ℕ

  -- The variables of the loop, with what the socket was sent.
  pub record Replaying : Type 0 where
    pub replayed : ℕ
    pub frames : List packer.Frame
    pub encoded_bytes : ℕ
    pub cacheable : Bool
    pub sent : List packer.Frame

  abbrev pub not_started : Replaying
  not_started = record { replayed = 0; frames = []; encoded_bytes = 0; cacheable = true; sent = [] }

  abbrev pub hold_or_send : List packer.Frame → Bool → Replaying → Replaying
  hold_or_send chunk true r = record r { frames = r.frames ++ chunk }
  hold_or_send chunk false r =
      if r.cacheable
      then record r { sent = (r.sent ++ r.frames) ++ chunk; frames = []; cacheable = false }
      else record r { sent = r.sent ++ chunk }

  -- One round with its chunk.
  abbrev pub add_chunk : ℕ → List packer.Frame → Replaying → Replaying
  add_chunk events chunk r =
      let bytes = r.encoded_bytes + encoded_bytes chunk in
      hold_or_send chunk (r.cacheable && leb bytes max_replay_frame_cache_bytes)
        (record r { replayed = r.replayed + events; encoded_bytes = bytes })

  -- A round for each 500 events and one more is enough.
  unfoldable pub replay_loop : ℕ → (cursor : ℕ) → List StoredEvent → Replaying → Option Replaying
  replay_loop zero cursor es r = none
  replay_loop (suc n) cursor es r =
      let rows = rows_after cursor 500 es in
      encode_replay_chunk (suc (length rows)) (events_after cursor 500 es) >>= λ chunk.
      let r' = add_chunk (length rows) chunk r in
      let rest = replay_loop n (last_of cursor rows) es r' in
      if ltb (length rows) 500 then some r' else rest

  abbrev pub is_of : (after through : ℕ) → ReplayFrameCacheEntry → Bool
  is_of after through c = c.after_room_seq == after && c.through_room_seq == through

  -- What is sent, the number that `replay_event` grows by, and the cache.
  pub record Replay : Type 0 where
    pub frames : List packer.Frame
    pub event_count : ℕ
    pub cache : Option ReplayFrameCacheEntry

  abbrev pub finish : (after through : ℕ) → Replaying → Replay
  finish after through r =
      if r.cacheable
      then record {
        frames = r.sent ++ r.frames;
        event_count = r.replayed;
        cache = some (record {
          after_room_seq = after;
          through_room_seq = through;
          event_count = r.replayed;
          frames = r.frames;
          encoded_bytes = r.encoded_bytes;
        });
      }
      else record { frames = r.sent; event_count = r.replayed; cache = none }

  abbrev pub from_log : ℕ → (after through : ℕ) → List StoredEvent → Option Replay
  from_log n after through es = do
    r ← replay_loop n after es not_started
    some (finish after through r)

  abbrev pub from_cache : ReplayFrameCacheEntry → Replay
  from_cache c = record { frames = c.frames; event_count = c.event_count; cache = some c }

  -- `n` rounds of the loop.
  unfoldable pub send_replay :
      ℕ → (after through : ℕ) → List StoredEvent → Option ReplayFrameCacheEntry → Option Replay
  send_replay n after through es none = from_log n after through es
  send_replay n after through es (some c) =
      if is_of after through c then some (from_cache c) else from_log n after through es
