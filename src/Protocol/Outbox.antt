-- ===== src/Protocol/Outbox.antt =====
-- packages/protocol/src/outbox.ts: `StrokeOutbox`, the client's queue of drawing events.
-- A method returns `none` where it throws; each throws before it changes a field.
pub mod Queue
pub mod Calls
pub mod Drawing
pub mod Strokes
use echa.Prelude.{
  ℕ, zero, suc, ◌+◌, ◌-◌, String, Bool, true, false, ◌||◌, ◌&&◌, Option, none, some, List, [], ◌∷◌,
  ◌++◌, max, ltb, leb, ◌==◌, if◌then◌else◌, is_some, is_none, length, find?, delete, ◌>>=◌, ◌>>◌,
  guard, map, ◌*◌,
}
use echa.Protocol.Limits.{max_points_per_stroke, max_points_per_append, append_interval_ms}
use echa.Protocol.Messages.{
  Point, StrokeStyle, StrokeOp, begin as begin_op, append as append_op, end as end_op,
  cancel as cancel_op, ClientStrokeEvent,
}
use echa.Protocol.Validation.{Coordinate, normalize_point}

pub record ActiveStroke : Type 0 where
  pub id : String
  pub started_at : ℕ
  pub last_flush_at : ℕ
  pub point_count : ℕ
  pub pending : List Point

-- `#unsent` is a set and `#unacknowledged` a map, each in the order of insertion. The map's keys are
-- the numbers of its events.
pub record StrokeOutbox : Type 0 where
  pub next_client_seq : ℕ
  pub active : Option ActiveStroke
  pub last_acknowledged : ℕ
  pub unsent : List ℕ
  pub unacknowledged : List ClientStrokeEvent

abbrev pub empty_outbox : StrokeOutbox
empty_outbox = record {
  next_client_seq = 1;
  active = none;
  last_acknowledged = 0;
  unsent = [];
  unacknowledged = [];
}

abbrev pub last_issued : StrokeOutbox → ℕ
last_issued o = o.next_client_seq - 1

-- `Set.add`.
abbrev pub set_add : ℕ → List ℕ → List ℕ
set_add n [] = n ∷ []
set_add n (m ∷ ms) = let rest = m ∷ set_add n ms in if m == n then m ∷ ms else rest

-- `Map.set` under the event's number.
abbrev pub map_set : ClientStrokeEvent → List ClientStrokeEvent → List ClientStrokeEvent
map_set e [] = e ∷ []
map_set e (d ∷ ds) =
    let rest = d ∷ map_set e ds in if d.client_seq == e.client_seq then e ∷ ds else rest

abbrev pub take {ℓ} : {A : Type ℓ} → ℕ → List A → List A
take n [] = []
take zero (x ∷ xs) = []
take (suc n) (x ∷ xs) = x ∷ take n xs

abbrev pub drop {ℓ} : {A : Type ℓ} → ℕ → List A → List A
drop n [] = []
drop zero (x ∷ xs) = x ∷ xs
drop (suc n) (x ∷ xs) = drop n xs

-- `#takeClientSeq` and `#remember`: the event gets the next number and is queued.
unfoldable pub issue : String → StrokeOp → StrokeOutbox → StrokeOutbox × ClientStrokeEvent
issue id op o =
    let event : ClientStrokeEvent = record { client_seq = o.next_client_seq; id = id; op = op } in
    (
      record o {
        next_client_seq = suc o.next_client_seq;
        unsent = set_add event.client_seq o.unsent;
        unacknowledged = map_set event o.unacknowledged;
      },
      event,
    )

-- The new stroke's id is what `createStrokeId` returns.
unfoldable pub begin :
    String
    → StrokeStyle
    → Coordinate
    → Coordinate
    → ℕ
    → StrokeOutbox
    → Option (StrokeOutbox × ClientStrokeEvent)
unfolding normalize_point
begin id style x y now o =
    if is_some o.active
    then none
    else some (
        issue id (begin_op style (normalize_point x y 0)) (record o {
          active = some (record {
            id = id;
            started_at = now;
            last_flush_at = now;
            point_count = 1;
            pending = [];
          });
        }))

-- `flush` for the stroke that is active, and for the points that are pending.
abbrev pub flush_pending :
    ℕ → ActiveStroke → List Point → StrokeOutbox → StrokeOutbox × Option ClientStrokeEvent
unfolding issue
flush_pending now a [] o = (o, none)
flush_pending now a (p ∷ ps) o =
    let (o', event) = issue a.id (append_op (take max_points_per_append (p ∷ ps))) (record o {
      active =
          some (record a { last_flush_at = now; pending = drop max_points_per_append (p ∷ ps) });
    }) in
    (o', some event)

unfoldable pub flush_active :
    ℕ → ActiveStroke → StrokeOutbox → StrokeOutbox × Option ClientStrokeEvent
unfolding flush_pending
flush_active now a o = flush_pending now a a.pending o

unfoldable pub flush : ℕ → StrokeOutbox → Option (StrokeOutbox × Option ClientStrokeEvent)
flush now o = do a ← o.active; some (flush_active now a o)

-- The stroke with one more point pending.
abbrev pub appended_to : Coordinate → Coordinate → ℕ → ActiveStroke → ActiveStroke
appended_to x y now a = record a {
  pending = a.pending ++ normalize_point x y (1_000 * (now - a.started_at)) ∷ [];
  point_count = a.point_count + 1;
}

unfoldable pub append_active :
    Coordinate
    → Coordinate
    → ℕ
    → ActiveStroke
    → StrokeOutbox
    → Option (StrokeOutbox × Option ClientStrokeEvent)
append_active x y now a o =
    if leb max_points_per_stroke a.point_count
    then none
    else let a' = appended_to x y now a in
      let o' : StrokeOutbox = record o { active = some a' } in
      if leb max_points_per_append (length a'.pending)
        || leb append_interval_ms (now - a.last_flush_at)
      then some (flush_active now a' o')
      else some (o', none)

unfoldable pub append :
    Coordinate → Coordinate → ℕ → StrokeOutbox → Option (StrokeOutbox × Option ClientStrokeEvent)
append x y now o = do a ← o.active; append_active x y now a o

abbrev pub with_event : Option ClientStrokeEvent → List ClientStrokeEvent → List ClientStrokeEvent
with_event none es = es
with_event (some e) es = e ∷ es

-- One round of the loop of `end`, which runs while points are pending.
abbrev pub drain_round :
    (StrokeOutbox → Option (StrokeOutbox × List ClientStrokeEvent))
    → ℕ
    → List Point
    → StrokeOutbox
    → Option (StrokeOutbox × List ClientStrokeEvent)
drain_round next now [] o = some (o, [])
drain_round next now (p ∷ ps) o = do
  (o', event) ← flush now o
  (o'', events) ← next o'
  some (o'', with_event event events)

-- The loop: each round takes a point, so that as many rounds as there are points are enough.
unfoldable pub drain : ℕ → ℕ → StrokeOutbox → Option (StrokeOutbox × List ClientStrokeEvent)
drain zero now o = do a ← o.active; drain_round (λ o'. none) now a.pending o
drain (suc n) now o = do a ← o.active; drain_round (λ o'. drain n now o') now a.pending o

-- `stroke.end` and `stroke.cancel`, after which no stroke is active.
abbrev pub finish : String → StrokeOp → StrokeOutbox → StrokeOutbox × ClientStrokeEvent
finish id op o = let (o', event) = issue id op o in (record o' { active = none }, event)

unfoldable pub end : ℕ → StrokeOutbox → Option (StrokeOutbox × List ClientStrokeEvent)
end now o = do
  a ← o.active
  (o', events) ← drain (length a.pending) now o
  (let (o'', event) = finish a.id end_op o' in some (o'', events ++ event ∷ []))

unfoldable pub cancel : StrokeOutbox → Option (StrokeOutbox × ClientStrokeEvent)
cancel o = do a ← o.active; some (finish a.id cancel_op o)

abbrev pub event_of : ℕ → ClientStrokeEvent → Bool
event_of n e = e.client_seq == n

abbrev pub has_event : ℕ → List ClientStrokeEvent → Bool
has_event n es = is_some (find? (event_of n) es)

unfoldable pub acknowledge : ℕ → StrokeOutbox → Option StrokeOutbox
acknowledge seq o =
    if ltb (last_issued o) seq
    then none
    else some (record o {
      last_acknowledged = max o.last_acknowledged seq;
      unacknowledged = delete (λ (e : ClientStrokeEvent). leb e.client_seq seq) o.unacknowledged;
      unsent = delete (λ n. leb n seq && has_event n o.unacknowledged) o.unsent;
    })

unfoldable pub mark_sent : ℕ → StrokeOutbox → Option StrokeOutbox
mark_sent seq o =
    if has_event seq o.unacknowledged
    then some (record o { unsent = delete (λ n. n == seq) o.unsent })
    else none

-- `sort` by the number.
abbrev pub insert_sorted {ℓ} : {A : Type ℓ} → (A → ℕ) → A → List A → List A
insert_sorted key x [] = x ∷ []
insert_sorted key x (y ∷ ys) =
    let rest = y ∷ insert_sorted key x ys in if leb (key x) (key y) then x ∷ y ∷ ys else rest

abbrev pub sort {ℓ} : {A : Type ℓ} → (A → ℕ) → List A → List A
sort key [] = []
sort key (x ∷ xs) = insert_sorted key x (sort key xs)

abbrev pub lookup_all : List ClientStrokeEvent → List ℕ → List ClientStrokeEvent
lookup_all es [] = []
lookup_all es (n ∷ ns) = with_event (find? (event_of n) es) (lookup_all es ns)

unfoldable pub events_to_send : StrokeOutbox → List ClientStrokeEvent
events_to_send o = lookup_all o.unacknowledged (sort (λ n. n) o.unsent)

unfoldable pub events_to_retry : StrokeOutbox → List ClientStrokeEvent
events_to_retry o = sort (λ (e : ClientStrokeEvent). e.client_seq) o.unacknowledged
