-- ===== src/Room/Log/Strokes.antt =====
-- apps/realtime/src/drawing-room.ts: what `applyStrokeLifecycle` keeps of the table `strokes`.
use echa.Prelude.{
  ℕ, ◌+◌, ◌≤◌, String, Bool, true, false, ◌≡◌, ◌≢◌, refl, Option, none, some, List, [], ◌∷◌, arith,
  eq_iff, length, find?, count, update, All, same, count_of_find?-none, count-update_same,
  count-update_le, All-update_one, Option-cases, inl, inr,
}
use echa.Protocol.Limits.{max_points_per_stroke}
use echa.Protocol.Messages.{Point, StrokeOp, begin, append, end, cancel, ClientStrokeEvent}
use echa.Room.Log.{
  Stroke, StrokeStatus, active, ended, cancelled, is_active, stroke_is, active_of, Applied, applied,
  apply_op, begin_stroke, existing_stroke, close_stroke, insert_stroke, last_of,
  apply_stroke_lifecycle,
}

-- The table's keys, its unique index and the limit on points.
pub record StrokesInv (table : List Stroke) : Type 0 where
  pub ids_unique : (id : String) → count (stroke_is id) table ≤ 1
  pub one_active : (actor : String) → count (active_of actor) table ≤ 1
  pub points_bounded : All (λ s. s.point_count ≤ max_points_per_stroke) table

-- An update that keeps keys and actors and wakes no stroke keeps the keys and the index.
pub update-ids_unique :
    (p : Stroke → Bool) (f : Stroke → Stroke) (table : List Stroke)
    → ((s : Stroke) → (f s).stroke_id ≡ s.stroke_id)
    → ((id : String) → count (stroke_is id) table ≤ 1)
    → (id : String) → count (stroke_is id) (update p f table) ≤ 1
update-ids_unique p f table keep h id =
    omega (arith, h id, count-update_same (stroke_is id) p f table (λ s. ap_same s))
  where
    ap_same : (s : Stroke) → same (f s).stroke_id id ≡ same s.stroke_id id
    ap_same s = rw (keep s)

-- A new row under the guards of its insertion keeps them all.
insert_stroke-StrokesInv :
    (s : Stroke) (table : List Stroke) {t : List Stroke}
    → s.point_count ≤ max_points_per_stroke
    → StrokesInv table
    → insert_stroke s table ≡ some t
    → StrokesInv t
unfolding insert_stroke
insert_stroke-StrokesInv s table {t} b inv h =
    let at_t : t ≡ s ∷ table = ground arith in
    rw at_t (record {
      ids_unique = λ id. ground (
        arith,
        inv.ids_unique id,
        count_of_find?-none (stroke_is id) table,
        eq_iff s.stroke_id id,
      );
      one_active = λ actor. ground (
        arith,
        inv.one_active actor,
        count_of_find?-none (active_of actor) table,
        eq_iff s.actor actor,
      );
      points_bounded = (b, inv.points_bounded);
    })

-- An `UPDATE` of the one row under a key that finds an active stroke.
update-StrokesInv :
    (id : String) (f : Stroke → Stroke) (table : List Stroke) (s : Stroke)
    → ((x : Stroke) → (f x).stroke_id ≡ x.stroke_id)
    → ((x : Stroke) → (f x).actor ≡ x.actor)
    → ((x : Stroke) → is_active (f x).status ≡ true → is_active x.status ≡ true)
    → find? (stroke_is id) table ≡ some s
    → (f s).point_count ≤ max_points_per_stroke
    → StrokesInv table
    → StrokesInv (update (stroke_is id) f table)
update-StrokesInv id f table s key actor_kept asleep found bound inv = record {
  ids_unique = update-ids_unique (stroke_is id) f table key inv.ids_unique;
  one_active = λ actor. omega (
    arith,
    inv.one_active actor,
    count-update_le (active_of actor) (stroke_is id) f table (still actor),
  );
  points_bounded =
      All-update_one (λ x. x.point_count ≤ max_points_per_stroke) (stroke_is id) f table s found
        (inv.ids_unique id) bound inv.points_bounded;
}
  where
    still : (actor : String) (x : Stroke) → active_of actor (f x) ≡ true → active_of actor x ≡ true
    still actor x h = ground (arith, actor_kept x, asleep x)

point_count_of_find? :
    (p : Stroke → Bool) (table : List Stroke) (s : Stroke)
    → All (λ x. x.point_count ≤ max_points_per_stroke) table
    → find? p table ≡ some s
    → s.point_count ≤ max_points_per_stroke
point_count_of_find? p [] s h e = cc
point_count_of_find? p (x ∷ xs) s h e = ground (arith, point_count_of_find? p xs s)

begin-StrokesInv :
    (actor id : String) (point : Point) (now : ℕ) (table : List Stroke) {t : List Stroke}
    → StrokesInv table
    → begin_stroke actor id point now table ≡ some (applied t)
    → StrokesInv t
begin-StrokesInv actor id point now table {t} inv h =
    let new : Stroke = record {
      stroke_id = id;
      actor = actor;
      status = active;
      last_dt = point.dt;
      last_append_at = now;
      point_count = 1;
    } in
    let inserted : insert_stroke new table ≡ some t = ground arith in
    insert_stroke-StrokesInv new table (omega arith) inv inserted

pub existing-inv :
    (actor id : String) (next : Stroke → Option Applied) (table : List Stroke) {t : List Stroke}
    → existing_stroke actor id next table ≡ some (applied t)
    → (s : Stroke) × (find? (stroke_is id) table ≡ some s)
      × (is_active s.status ≡ true)
      × (same s.actor actor ≡ true)
      × (next s ≡ some (applied t))
existing-inv actor id next table h = elim (Option-cases (find? (stroke_is id) table)) [
  | inl e ↦ absurd (let x : ⊥ = ground arith in x)
  | inr (s, e) ↦ (s, e, ground arith, ground arith, ground arith)
]

append-StrokesInv :
    (actor id : String) (points : List Point) (now : ℕ) (table : List Stroke) {t : List Stroke}
    → StrokesInv table
    → apply_op actor id (append points) now table ≡ some (applied t)
    → StrokesInv t
unfolding apply_op
append-StrokesInv actor id [] now table inv h =
    let (s, found, live, mine, e) = existing-inv actor id _ table h in
    absurd (let x : ⊥ = ground arith in x)
append-StrokesInv actor id (p ∷ ps) now table {t} inv h =
    let (s, found, live, mine, e) = existing-inv actor id _ table h in
    let f : Stroke → Stroke = λ x. record x {
      last_dt = (last_of p ps).dt;
      last_append_at = now;
      point_count = x.point_count + length (p ∷ ps);
    } in
    let eq : t ≡ update (stroke_is id) f table = ground arith in
    rw eq
      (update-StrokesInv id f table s (λ x. refl) (λ x. refl) (λ x h. h) found (ground arith) inv)

close-StrokesInv :
    (actor id : String) (status : StrokeStatus) (now : ℕ) (table : List Stroke) {t : List Stroke}
    → is_active status ≡ false
    → StrokesInv table
    → existing_stroke actor id (λ s. close_stroke id status now table) table ≡ some (applied t)
    → StrokesInv t
close-StrokesInv actor id status now table {t} final inv h =
    let (s, found, live, mine, e) = existing-inv actor id _ table h in
    let f : Stroke → Stroke = λ x. record x { status = status; last_append_at = now } in
    let eq : t ≡ update (stroke_is id) f table = ground arith in
    rw eq (
      update-StrokesInv id f table s (λ x. refl) (λ x. refl) (λ x h. ground arith) found
        (point_count_of_find? (stroke_is id) table s inv.points_bounded found) inv)

apply_op-StrokesInv :
    (actor id : String) (op : StrokeOp) (now : ℕ) (table : List Stroke) {t : List Stroke}
    → StrokesInv table
    → apply_op actor id op now table ≡ some (applied t)
    → StrokesInv t
unfolding apply_op
apply_op-StrokesInv actor id (begin style point) now table inv h =
    begin-StrokesInv actor id point now table inv h
apply_op-StrokesInv actor id (append points) now table inv h =
    append-StrokesInv actor id points now table inv h
apply_op-StrokesInv actor id end now table inv h =
    close-StrokesInv actor id ended now table refl inv h
apply_op-StrokesInv actor id cancel now table inv h =
    close-StrokesInv actor id cancelled now table refl inv h

-- Every event that `applyStrokeLifecycle` applies keeps the keys of `strokes` unique, at most one
-- active stroke for each actor, and every stroke within the limit on points.
pub apply_stroke_lifecycle-StrokesInv :
    (actor : String) (event : ClientStrokeEvent) (now : ℕ) (table : List Stroke) {t : List Stroke}
    → StrokesInv table
    → apply_stroke_lifecycle actor event now table ≡ some (applied t)
    → StrokesInv t
unfolding apply_stroke_lifecycle
apply_stroke_lifecycle-StrokesInv actor event now table inv h =
    apply_op-StrokesInv actor event.id event.op now table inv h

-- `validateClientEvent` admits no append without points.
abbrev pub HasPoints : StrokeOp → Type 0
HasPoints (append points) = points ≢ []
HasPoints _ = Unit

apply_op-total :
    (actor id : String) (op : StrokeOp) (now : ℕ) (table : List Stroke)
    → HasPoints op
    → apply_op actor id op now table ≢ none
unfolding apply_op
apply_op-total actor id (begin style point) now table h = ground arith
apply_op-total actor id (append []) now table h = absurd (h refl)
apply_op-total actor id (append (p ∷ ps)) now table h = ground arith
apply_op-total actor id end now table h = ground arith
apply_op-total actor id cancel now table h = ground arith

-- The guards of `applyStrokeLifecycle` come before the table's constraints: no event with its
-- points throws.
pub apply_stroke_lifecycle-total :
    (actor : String) (event : ClientStrokeEvent) (now : ℕ) (table : List Stroke)
    → HasPoints event.op
    → apply_stroke_lifecycle actor event now table ≢ none
unfolding apply_stroke_lifecycle
apply_stroke_lifecycle-total actor event now table h =
    apply_op-total actor event.id event.op now table h
