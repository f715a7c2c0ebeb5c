-- ===== src/Protocol/Outbox/Drawing.antt =====
-- packages/protocol/src/outbox.ts: a stroke drawn through an outbox, from `begin` to `end`.
use echa.Prelude.{
  bind_of, ℕ, zero, suc, ◌+◌, ◌≤◌, ◌<◌, String, ◌≡◌, refl, ap, sym, ◌∙◌, Option, none, some, List,
  [], ◌∷◌, ◌++◌, length, arith, length-append,
}
use mathlib.Core.Path.{subst}
use echa.Protocol.Limits.{max_points_per_append}
use echa.Protocol.Messages.{
  Point, StrokeOp, begin as begin_op, append as append_op, ClientStrokeEvent,
}
use echa.Protocol.Outbox.{
  StrokeOutbox, ActiveStroke, issue, flush_pending, flush_active, flush, drain_round, drain,
  with_event, take, drop,
}

pub append_assoc {ℓ} : {A : Type ℓ} (xs ys zs : List A) → (xs ++ ys) ++ zs ≡ xs ++ (ys ++ zs)
append_assoc [] ys zs = refl
append_assoc (x ∷ xs) ys zs = ap (λ r. x ∷ r) (append_assoc xs ys zs)

pub append_nil {ℓ} : {A : Type ℓ} (xs : List A) → xs ++ [] ≡ xs
append_nil [] = refl
append_nil (x ∷ xs) = ap (λ r. x ∷ r) (append_nil xs)

take-drop {ℓ} : {A : Type ℓ} (n : ℕ) (xs : List A) → take n xs ++ drop n xs ≡ xs
take-drop n [] = refl
take-drop zero (x ∷ xs) = refl
take-drop (suc n) (x ∷ xs) = ap (λ r. x ∷ r) (take-drop n xs)

length-take {ℓ} : {A : Type ℓ} (n : ℕ) (xs : List A) → length (take n xs) ≤ n
length-take n [] = omega arith
length-take zero (x ∷ xs) = omega arith
length-take (suc n) (x ∷ xs) = omega (arith, length-take n xs)

length-drop {ℓ} : {A : Type ℓ} (n : ℕ) (xs : List A) → length (drop n xs) ≤ length xs
length-drop n [] = omega arith
length-drop zero (x ∷ xs) = omega arith
length-drop (suc n) (x ∷ xs) = omega (arith, length-drop n xs)

length-drop_room {ℓ} : {A : Type ℓ} (n : ℕ) (xs : List A) → length xs ≤ n → length (drop n xs) ≡ 0
length-drop_room n [] h = refl
length-drop_room zero (x ∷ xs) h = absurd (let x : ⊥ = omega arith in x)
length-drop_room (suc n) (x ∷ xs) h = length-drop_room n xs (omega arith)

-- The points that an event carries.
abbrev pub carried : StrokeOp → List Point
carried (begin_op style p) = p ∷ []
carried (append_op ps) = ps
carried _ = []

abbrev pub points_of : List ClientStrokeEvent → List Point
points_of [] = []
points_of (e ∷ es) = carried e.op ++ points_of es

abbrev pub IsAppend : StrokeOp → Type 0
IsAppend (append_op ps) = (1 ≤ length ps) × (length ps ≤ max_points_per_append)
IsAppend _ = ⊥

-- Appends to one stroke, numbered from `seq` up to, and without, `next`.
abbrev pub IsAppends : String → ℕ → ℕ → List ClientStrokeEvent → Type 0
IsAppends id seq next [] = seq ≡ next
IsAppends id seq next (e ∷ es) =
    (e.client_seq ≡ seq) × (e.id ≡ id) × IsAppend e.op × IsAppends id (suc seq) next es

-- What some calls for an active stroke did: the stroke as it is now, and the events, whose points
-- and the pending ones are the points that there were and those of the calls.
pub record Progress (a a' : ActiveStroke) (o o' : StrokeOutbox) (es : List ClientStrokeEvent)
    (new : List Point) : Type 0 where
  pub is_active : o'.active ≡ some a'
  pub same_id : a'.id ≡ a.id
  pub same_start : a'.started_at ≡ a.started_at
  pub count : a'.point_count ≡ a.point_count + length new
  pub appends : IsAppends a.id o.next_client_seq o'.next_client_seq es
  pub points : points_of es ++ a'.pending ≡ a.pending ++ new

pub idle-Progress :
    (a : ActiveStroke) (o : StrokeOutbox) → o.active ≡ some a → Progress a a o o [] []
idle-Progress a o h = record {
  is_active = h;
  same_id = refl;
  same_start = refl;
  count = omega arith;
  appends = refl;
  points = sym (append_nil a.pending);
}

flush_pending_lem :
    (now : ℕ) (a : ActiveStroke) (ps : List Point) (o : StrokeOutbox)
    → a.pending ≡ ps
    → o.active ≡ some a
    → (a' : ActiveStroke) × Progress a a' o
        (flush_pending now a ps o).0
        (with_event (flush_pending now a ps o).1 [])
        []
      × (a'.pending ≡ drop max_points_per_append ps)
unfolding flush_pending issue
flush_pending_lem now a [] o e h = (a, idle-Progress a o h, e)
flush_pending_lem now a (p ∷ ps) o e h = (
  record a { last_flush_at = now; pending = drop max_points_per_append (p ∷ ps) },
  record {
    is_active = refl;
    same_id = refl;
    same_start = refl;
    count = omega arith;
    appends = (refl, refl, (omega arith, length-take max_points_per_append (p ∷ ps)), refl);
    points =
        ap (λ r. r ++ drop max_points_per_append (p ∷ ps))
          (append_nil (take max_points_per_append (p ∷ ps)))
        ∙ take-drop max_points_per_append (p ∷ ps)
        ∙ sym e
        ∙ sym (append_nil a.pending);
  },
  refl,
)

-- A flush sends the first points that are pending, as many as an append may carry.
pub flush_active_lem :
    (now : ℕ) (a : ActiveStroke) (o : StrokeOutbox)
    → o.active ≡ some a
    → (a' : ActiveStroke) × Progress a a' o
        (flush_active now a o).0
        (with_event (flush_active now a o).1 [])
        []
      × (a'.pending ≡ drop max_points_per_append a.pending)
unfolding flush_active
flush_active_lem now a o h = flush_pending_lem now a a.pending o refl h

-- One call after another.
pub join-IsAppends :
    (id : String) (seq mid next : ℕ) (es fs : List ClientStrokeEvent)
    → IsAppends id seq mid es
    → IsAppends id mid next fs
    → IsAppends id seq next (es ++ fs)
join-IsAppends id seq mid next [] fs h k = rw (sym h) at k
join-IsAppends id seq mid next (e ∷ es) fs h k =
    (h.0, h.1, h.2, join-IsAppends id (suc seq) mid next es fs h.3 k)

pub points_of-append :
    (es fs : List ClientStrokeEvent) → points_of (es ++ fs) ≡ points_of es ++ points_of fs
points_of-append [] fs = refl
points_of-append (e ∷ es) fs =
    ap (λ r. carried e.op ++ r) (points_of-append es fs)
    ∙ sym (append_assoc (carried e.op) (points_of es) (points_of fs))

pub join :
    (a b c : ActiveStroke) (o o1 o2 : StrokeOutbox) (es fs : List ClientStrokeEvent)
    (new more : List Point)
    → Progress a b o o1 es new
    → Progress b c o1 o2 fs more
    → Progress a c o o2 (es ++ fs) (new ++ more)
join a b c o o1 o2 es fs new more d f = record {
  is_active = f.is_active;
  same_id = f.same_id ∙ d.same_id;
  same_start = f.same_start ∙ d.same_start;
  count = omega (arith, f.count, d.count, length-append new more);
  appends =
      join-IsAppends a.id o.next_client_seq o1.next_client_seq o2.next_client_seq es fs d.appends
        (rw d.same_id at f.appends);
  points =
      ap (λ r. r ++ c.pending) (points_of-append es fs)
      ∙ append_assoc (points_of es) (points_of fs) c.pending
      ∙ ap (λ r. points_of es ++ r) f.points
      ∙ sym (append_assoc (points_of es) b.pending more)
      ∙ ap (λ r. r ++ more) d.points
      ∙ append_assoc a.pending new more;
}

pub with_event-nil :
    (e : Option ClientStrokeEvent) (es : List ClientStrokeEvent)
    → with_event e es ≡ with_event e [] ++ es
with_event-nil none es = refl
with_event-nil (some e) es = refl

drain_round_lem :
    (n now : ℕ) (next : StrokeOutbox → Option (StrokeOutbox × List ClientStrokeEvent))
    (a : ActiveStroke) (ps : List Point) (o : StrokeOutbox)
    → ((b : ActiveStroke) (p : StrokeOutbox)
        → length b.pending < n
        → p.active ≡ some b
        → (o' : StrokeOutbox) × (es : List ClientStrokeEvent) × (c : ActiveStroke) × (next p
            ≡ some (o', es))
          × Progress b c p o' es []
          × (c.pending ≡ []))
    → a.pending ≡ ps
    → length ps ≤ n
    → o.active ≡ some a
    → (o' : StrokeOutbox) × (es : List ClientStrokeEvent) × (c : ActiveStroke) × (drain_round next
          now ps o
        ≡ some (o', es))
      × Progress a c o o' es []
      × (c.pending ≡ [])
unfolding flush
drain_round_lem n now next a [] o go e k h = (o, [], a, refl, idle-Progress a o h, e)
drain_round_lem n now next a (p ∷ ps) o go e k h =
    let (b, d, left) = flush_active_lem now a o h in
    let fewer : length b.pending < n = rw left (rw e (omega (arith, length-drop 11 ps))) in
    let (o', es, c, run, rest, none_left) = go b (flush_active now a o).0 fewer d.is_active in
    let all =
      join a b c o (flush_active now a o).0 o' (with_event (flush_active now a o).1 []) es [] [] d
        rest in
    (
      o',
      with_event (flush_active now a o).1 es,
      c,
      bind_of _ (bind_of (λ x. some (flush_active now x o)) h) ∙ bind_of _ run,
      subst (λ fs. Progress a c o o' fs []) (sym (with_event-nil (flush_active now a o).1 es)) all,
      none_left,
    )

-- The loop of `end` sends every pending point, whatever their number.
pub drain_lem :
    (n now : ℕ) (a : ActiveStroke) (o : StrokeOutbox)
    → length a.pending ≤ n
    → o.active ≡ some a
    → (o' : StrokeOutbox) × (es : List ClientStrokeEvent) × (c : ActiveStroke) × (drain n now o
        ≡ some (o', es))
      × Progress a c o o' es []
      × (c.pending ≡ [])
unfolding drain
drain_lem zero now a o k h =
    let (o', es, c, run, d, left) =
      drain_round_lem 0 now (λ o'. none) a a.pending o
        (λ b p few. absurd (let x : ⊥ = omega arith in x)) refl k h in
    (o', es, c, bind_of _ h ∙ run, d, left)
drain_lem (suc n) now a o k h =
    let (o', es, c, run, d, left) =
      drain_round_lem (suc n) now (λ p. drain n now p) a a.pending o
        (λ b p few. drain_lem n now b p (omega arith)) refl k h in
    (o', es, c, bind_of _ h ∙ run, d, left)
