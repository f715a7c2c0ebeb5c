-- ===== src/Protocol/Outbox/Calls.antt =====
-- packages/protocol/src/outbox.ts: any sequence of calls on an outbox.
use echa.Prelude.{
  ℕ, zero, suc, ◌≤◌, ◌<◌, String, ◌≡◌, refl, ap, ◌∙◌, Option, none, some, List, [], ◌∷◌, is_some,
  length, find?, map, arith, Option-cases, Bool-cases, inl, inr, bind-some,
}
use echa.Protocol.Messages.{
  Point, StrokeOp, StrokeStyle, ClientStrokeEvent, begin as begin_op, end as end_op,
  cancel as cancel_op,
}
use echa.Protocol.Validation.{Coordinate, normalize_point}
use echa.Protocol.Outbox.{
  StrokeOutbox, ActiveStroke, empty_outbox, flush_pending, flush_active, flush, appended_to,
  append_active, append, begin, drain_round, drain, finish, end, cancel, acknowledge, mark_sent,
  event_of, insert_sorted, sort, lookup_all, events_to_send, events_to_retry,
}
use echa.Protocol.Outbox.Queue.{
  IsRange, IsAscending, QueueInv, issue-QueueInv, with_active, acknowledge-QueueInv,
  mark_sent-QueueInv,
}

flush_pending-QueueInv :
    (now : ℕ) (a : ActiveStroke) (ps : List Point) (o : StrokeOutbox)
    → QueueInv o
    → QueueInv (flush_pending now a ps o).0
unfolding flush_pending
flush_pending-QueueInv now a [] o inv = inv
flush_pending-QueueInv now a (p ∷ ps) o inv = issue-QueueInv a.id _ _ (with_active _ o inv)

flush_active-QueueInv :
    (now : ℕ) (a : ActiveStroke) (o : StrokeOutbox) → QueueInv o → QueueInv (flush_active now a o).0
unfolding flush_active
flush_active-QueueInv now a o inv = flush_pending-QueueInv now a a.pending o inv

flush-QueueInv :
    (now : ℕ) (o : StrokeOutbox) {o' : StrokeOutbox} {e : Option ClientStrokeEvent}
    → QueueInv o
    → flush now o ≡ some (o', e)
    → QueueInv o'
unfolding flush
flush-QueueInv now o {o'} inv h = elim (Option-cases o.active) [
  | inl idle ↦ absurd (let x : ⊥ = ground arith in x)
  | inr (a, is) ↦
      let kept = flush_active-QueueInv now a o inv in
      let eq : (flush_active now a o).0 ≡ o' = ground arith in rw eq at kept
]

begin-QueueInv :
    (id : String) (style : StrokeStyle) (x y : Coordinate) (now : ℕ) (o : StrokeOutbox)
    {o' : StrokeOutbox} {e : ClientStrokeEvent}
    → QueueInv o
    → begin id style x y now o ≡ some (o', e)
    → QueueInv o'
unfolding begin
begin-QueueInv id style x y now o inv h = elim (Bool-cases (is_some o.active)) [
  | inl busy ↦ absurd (let x : ⊥ = (let h' = rw busy at h in cc h') in x)
  | inr idle ↦
      let h' = rw idle at h in
      let kept = issue-QueueInv id (begin_op style (normalize_point x y 0)) _ (
        with_active
          (some (record {
            id = id;
            started_at = now;
            last_flush_at = now;
            point_count = 1;
            pending = [];
          }))
          o inv) in
      ground (arith, kept)
]

append-QueueInv :
    (x y : Coordinate) (now : ℕ) (o : StrokeOutbox) {o' : StrokeOutbox}
    {e : Option ClientStrokeEvent}
    → QueueInv o
    → append x y now o ≡ some (o', e)
    → QueueInv o'
unfolding append append_active
append-QueueInv x y now o {o'} inv h = elim (Option-cases o.active) [
  | inl idle ↦ absurd (let x : ⊥ = ground arith in x)
  | inr (a, is) ↦
      let grown : ActiveStroke = appended_to x y now a in
      let o1 : StrokeOutbox = record o { active = some grown } in
      let waits : QueueInv o1 = with_active (some grown) o inv in
      let flushed = flush_active-QueueInv now grown o1 waits in
      let h' = rw is at h in ground (arith, waits, flushed)
]

drain_round-QueueInv :
    (next : StrokeOutbox → Option (StrokeOutbox × List ClientStrokeEvent)) (now : ℕ)
    → ((o o' : StrokeOutbox) (es : List ClientStrokeEvent)
        → QueueInv o
        → next o ≡ some (o', es)
        → QueueInv o')
    → (ps : List Point) (o o' : StrokeOutbox) (es : List ClientStrokeEvent) → QueueInv o
    → drain_round next now ps o ≡ some (o', es)
    → QueueInv o'
drain_round-QueueInv next now keeps [] o o' es inv h = let eq : o ≡ o' = cc h in rw eq at inv
drain_round-QueueInv next now keeps (p ∷ ps) o o' es inv h =
    let (s1, f, h3) = bind-some (flush now o) _ h in
    let (s2, g, h4) = bind-some (next s1.0) _ h3 in
    let eq : s2.0 ≡ o' = cc h4 in
    let kept = keeps s1.0 s2.0 s2.1 (flush-QueueInv now o inv f) g in rw eq at kept

drain-QueueInv :
    (n now : ℕ) (o o' : StrokeOutbox) (es : List ClientStrokeEvent)
    → QueueInv o
    → drain n now o ≡ some (o', es)
    → QueueInv o'
unfolding drain
drain-QueueInv zero now o o' es inv h =
    let (a, is, h1) = bind-some o.active _ h in
    drain_round-QueueInv (λ p. none) now (λ p q fs kept e. absurd (let x : ⊥ = cc e in x)) a.pending
      o o' es inv h1
drain-QueueInv (suc n) now o o' es inv h =
    let (a, is, h1) = bind-some o.active _ h in
    drain_round-QueueInv (λ p. drain n now p) now (drain-QueueInv n now) a.pending o o' es inv h1

finish-QueueInv :
    (id : String) (op : StrokeOp) (o : StrokeOutbox) → QueueInv o → QueueInv (finish id op o).0
finish-QueueInv id op o inv = with_active none _ (issue-QueueInv id op o inv)

end-QueueInv :
    (now : ℕ) (o : StrokeOutbox) {o' : StrokeOutbox} {es : List ClientStrokeEvent}
    → QueueInv o
    → end now o ≡ some (o', es)
    → QueueInv o'
unfolding end
end-QueueInv now o {o'} {es} inv h =
    let (a, is, h1) = bind-some o.active _ h in
    let (s, f, h2) = bind-some (drain (length a.pending) now o) _ h1 in
    let kept =
      finish-QueueInv a.id end_op s.0 (drain-QueueInv (length a.pending) now o s.0 s.1 inv f) in
    let eq : (finish a.id end_op s.0).0 ≡ o' = cc h2 in rw eq at kept

cancel-QueueInv :
    (o : StrokeOutbox) {o' : StrokeOutbox} {e : ClientStrokeEvent}
    → QueueInv o
    → cancel o ≡ some (o', e)
    → QueueInv o'
unfolding cancel
cancel-QueueInv o {o'} inv h =
    let (a, is, h1) = bind-some o.active _ h in
    let kept = finish-QueueInv a.id cancel_op o inv in
    let eq : (finish a.id cancel_op o).0 ≡ o' = cc h1 in rw eq at kept

-- A call that returns.
pub data Call : StrokeOutbox → StrokeOutbox → Type 0 where
  begins :
      (id : String) (style : StrokeStyle) (x y : Coordinate) (now : ℕ) {o o' : StrokeOutbox}
      {e : ClientStrokeEvent}
      → begin id style x y now o ≡ some (o', e)
      → Call o o'
  appends :
      (x y : Coordinate) (now : ℕ) {o o' : StrokeOutbox} {e : Option ClientStrokeEvent}
      → append x y now o ≡ some (o', e)
      → Call o o'
  flushes :
      (now : ℕ) {o o' : StrokeOutbox} {e : Option ClientStrokeEvent}
      → flush now o ≡ some (o', e)
      → Call o o'
  ends :
      (now : ℕ) {o o' : StrokeOutbox} {es : List ClientStrokeEvent}
      → end now o ≡ some (o', es)
      → Call o o'
  cancels : {o o' : StrokeOutbox} {e : ClientStrokeEvent} → cancel o ≡ some (o', e) → Call o o'
  acknowledges : (seq : ℕ) {o o' : StrokeOutbox} → acknowledge seq o ≡ some o' → Call o o'
  marks : (seq : ℕ) {o o' : StrokeOutbox} → mark_sent seq o ≡ some o' → Call o o'

-- The outboxes that calls reach from a new one.
pub data Reached : StrokeOutbox → Type 0 where
  new : Reached empty_outbox
  called : {o o' : StrokeOutbox} → Reached o → Call o o' → Reached o'

Call-QueueInv : {o o' : StrokeOutbox} → QueueInv o → Call o o' → QueueInv o'
Call-QueueInv inv (begins id style x y now {o} h) = begin-QueueInv id style x y now o inv h
Call-QueueInv inv (appends x y now {o} h) = append-QueueInv x y now o inv h
Call-QueueInv inv (flushes now {o} h) = flush-QueueInv now o inv h
Call-QueueInv inv (ends now {o} h) = end-QueueInv now o inv h
Call-QueueInv inv (cancels {o} h) = cancel-QueueInv o inv h
Call-QueueInv inv (acknowledges seq {o} h) = acknowledge-QueueInv seq o inv h
Call-QueueInv inv (marks seq {o} h) = mark_sent-QueueInv seq o inv h

Reached-QueueInv : {o : StrokeOutbox} → Reached o → QueueInv o
Reached-QueueInv new = record { acknowledged = omega arith; range = refl; ascending = tt }
Reached-QueueInv (called before call) = Call-QueueInv (Reached-QueueInv before) call

-- Sorting what is in order changes nothing.
insert-range :
    (c next : ℕ) (d : ClientStrokeEvent) (es : List ClientStrokeEvent)
    → IsRange (suc c) next es
    → d.client_seq ≡ c
    → insert_sorted (λ (e : ClientStrokeEvent). e.client_seq) d es ≡ d ∷ es
insert-range c next d [] h k = refl
insert-range c next d (e ∷ es) h k = ground arith

sort-range :
    (c next : ℕ) (es : List ClientStrokeEvent)
    → IsRange c next es
    → sort (λ (e : ClientStrokeEvent). e.client_seq) es ≡ es
sort-range c next [] h = refl
sort-range c next (e ∷ es) h =
    rw (sort-range (suc c) next es h.1) (insert-range c next e es h.1 h.0)

insert-ascending :
    (lo next n : ℕ) (ns : List ℕ) → IsAscending n next ns → insert_sorted (λ m. m) n ns ≡ n ∷ ns
insert-ascending lo next n [] h = refl
insert-ascending lo next n (m ∷ ms) h = ground arith

sort-ascending : (lo next : ℕ) (ns : List ℕ) → IsAscending lo next ns → sort (λ m. m) ns ≡ ns
sort-ascending lo next [] h = refl
sort-ascending lo next (n ∷ ns) h =
    rw (sort-ascending n next ns h.2) (insert-ascending lo next n ns h.2)

abbrev pub seqs : List ClientStrokeEvent → List ℕ
seqs es = map (λ (e : ClientStrokeEvent). e.client_seq) es

find-range :
    (c next n : ℕ) (es : List ClientStrokeEvent)
    → IsRange c next es
    → c ≤ n
    → n < next
    → (e : ClientStrokeEvent) × (find? (event_of n) es ≡ some e) × (e.client_seq ≡ n)
find-range c next n [] h k l = absurd (let x : ⊥ = omega arith in x)
find-range c next n (e ∷ es) h k l = elim (Bool-cases (event_of n e)) [
  | inl here ↦ (e, ground arith, ground arith)
  | inr away ↦
      let (d, found, is) = find-range (suc c) next n es h.1 (ground arith) l in
      (d, rw away found, is)
]

lookup-ascending :
    (lo c next : ℕ) (es : List ClientStrokeEvent) (ns : List ℕ)
    → IsRange c next es
    → c ≤ suc lo
    → IsAscending lo next ns
    → seqs (lookup_all es ns) ≡ ns
lookup-ascending lo c next es [] h k a = refl
lookup-ascending lo c next es (n ∷ ns) h k a =
    let (e, found, is) = find-range c next n es h (omega (arith, a.0)) a.1 in
    let rest = lookup-ascending n c next es ns h (omega (arith, a.0)) a.2 in
    rw (found, is, rest) refl

-- Whatever calls an outbox has answered, the events to retry are those it issued and that are not
-- acknowledged, in the order in which they were issued and without a gap from the first number that
-- is not acknowledged; and the events to send are the unsent ones, each found, in ascending order.
pub queue_in_order :
    (o : StrokeOutbox)
    → Reached o
    → IsRange (suc o.last_acknowledged) o.next_client_seq (events_to_retry o)
      × (events_to_retry o ≡ o.unacknowledged)
      × (seqs (events_to_send o) ≡ o.unsent)
      × IsAscending o.last_acknowledged o.next_client_seq o.unsent
unfolding events_to_retry events_to_send
queue_in_order o reached =
    let inv = Reached-QueueInv reached in
    let sorted =
      sort-range (suc o.last_acknowledged) o.next_client_seq o.unacknowledged inv.range in
    let ns = sort-ascending o.last_acknowledged o.next_client_seq o.unsent inv.ascending in
    (
      rw sorted inv.range,
      sorted,
      ap (λ xs. seqs (lookup_all o.unacknowledged xs)) ns
          ∙ lookup-ascending o.last_acknowledged (suc o.last_acknowledged) o.next_client_seq
              o.unacknowledged o.unsent inv.range (omega arith) inv.ascending,
      inv.ascending,
    )
