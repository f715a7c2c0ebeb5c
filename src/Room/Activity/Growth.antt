-- ===== src/Room/Activity/Growth.antt =====
-- apps/realtime/src/drawing-room.ts: how many events a room's log can hold.
use echa.Prelude.{
  ℕ, ◌+◌, String, false, ◌≡◌, refl, some, List, [], ◌∷◌, arith, count, update, length,
  count-update_one,
}
use echa.Protocol.Messages.{Point, StrokeOp, begin, append, end, cancel, ClientStrokeEvent}
use echa.Room.Log.{
  Stroke, StrokeStatus, ended, cancelled, is_active, stroke_is, applied, existing_stroke,
  close_stroke, append_points, last_of, apply_op, apply_stroke_lifecycle,
}
use echa.Room.Log.Strokes.{StrokesInv, existing-inv}
use echa.Room.Activity.{active_stroke}

-- The strokes that an event opens and closes.
abbrev pub opened : StrokeOp → ℕ
opened (begin style point) = 1
opened _ = 0

abbrev pub closed : StrokeOp → ℕ
closed end = 1
closed cancel = 1
closed _ = 0

close_count :
    (actor id : String) (status : StrokeStatus) (now : ℕ) (table : List Stroke) {t : List Stroke}
    → is_active status ≡ false
    → StrokesInv table
    → existing_stroke actor id (λ s. close_stroke id status now table) table ≡ some (applied t)
    → count active_stroke t + 1 ≡ count active_stroke table
close_count actor id status now table {t} final inv h =
    let (s, found, live, mine, e) = existing-inv actor id _ table h in
    let f : Stroke → Stroke = λ x. record x { status = status; last_append_at = now } in
    let eq : t ≡ update (stroke_is id) f table = ground arith in
    rw eq (
      ground
        (arith, count-update_one active_stroke (stroke_is id) f table s found (inv.ids_unique id)))

append_count :
    (actor id : String) (p : Point) (ps : List Point) (now : ℕ) (table : List Stroke)
    {t : List Stroke}
    → StrokesInv table
    → existing_stroke actor id (λ s. append_points id (p ∷ ps) now s table) table ≡ some (applied t)
    → count active_stroke t ≡ count active_stroke table
append_count actor id p ps now table {t} inv h =
    let (s, found, live, mine, e) = existing-inv actor id _ table h in
    let f : Stroke → Stroke = λ x. record x {
      last_dt = (last_of p ps).dt;
      last_append_at = now;
      point_count = x.point_count + length (p ∷ ps);
    } in
    let eq : t ≡ update (stroke_is id) f table = ground arith in
    rw eq (
      ground
        (arith, count-update_one active_stroke (stroke_is id) f table s found (inv.ids_unique id)))

apply_op_count :
    (actor id : String) (op : StrokeOp) (now : ℕ) (table : List Stroke) {t : List Stroke}
    → StrokesInv table
    → apply_op actor id op now table ≡ some (applied t)
    → count active_stroke t + closed op ≡ count active_stroke table + opened op
unfolding apply_op
apply_op_count actor id (begin style point) now table inv h = ground arith
apply_op_count actor id (append []) now table inv h =
    let (s, found, live, mine, e) = existing-inv actor id _ table h in
    absurd (let x : ⊥ = ground arith in x)
apply_op_count actor id (append (p ∷ ps)) now table inv h =
    omega (arith, append_count actor id p ps now table inv h)
apply_op_count actor id end now table inv h =
    omega (arith, close_count actor id ended now table refl inv h)
apply_op_count actor id cancel now table inv h =
    omega (arith, close_count actor id cancelled now table refl inv h)

-- An event that is applied opens or closes as many strokes as its opcode says.
pub apply_stroke_lifecycle_count :
    (actor : String) (event : ClientStrokeEvent) (now : ℕ) (table : List Stroke) {t : List Stroke}
    → StrokesInv table
    → apply_stroke_lifecycle actor event now table ≡ some (applied t)
    → count active_stroke t + closed event.op ≡ count active_stroke table + opened event.op
unfolding apply_stroke_lifecycle
apply_stroke_lifecycle_count actor event now table inv h =
    apply_op_count actor event.id event.op now table inv h
