-- ===== src/Room/Log/Drawn.antt =====
-- apps/realtime/src/drawing-room.ts, packages/protocol/src/outbox.ts: the room's table of strokes
-- while the events of an outbox arrive.
use echa.Prelude.{
  ℕ, suc, ◌+◌, ◌-◌, ◌≤◌, ◌<◌, String, ◌≡◌, refl, ap, ◌∙◌, Option, none, some, List, [], ◌∷◌, ◌++◌,
  ◌>>=◌, length, arith, find?, eq_iff, update, find?-update_self, length-append, min, bind_of, sym,
}
use mathlib.Core.Path.{subst}
use echa.Protocol.Limits.{max_points_per_stroke, max_stroke_duration_ms}
use echa.Protocol.Messages.{
  Point, StrokeOp, begin, append, end, cancel, StrokeStyle, ClientStrokeEvent,
}
use echa.Protocol.Validation.{normalize_point, round_whole}
use echa.Protocol.Outbox.{StrokeOutbox}
use echa.Protocol.Outbox.Drawing.{points_of, carried, IsAppend, IsAppends}
use echa.Protocol.Outbox.Strokes.{Move, path_of, draw_stroke, draw_stroke_lem}
use echa.Room.Log.{
  Stroke, active, ended, stroke_is, active_of, Applied, applied, refused, insert_stroke, last_of,
  apply_op, apply_stroke_lifecycle,
}

-- The events applied in turn, each at the time of its arrival, up to the first that is refused.
unfoldable pub apply_all : String → (ℕ → ℕ) → List ClientStrokeEvent → List Stroke → Option Applied
apply_all actor arrival [] table = some (applied table)
apply_all actor arrival (e ∷ es) table = do
  reply ← apply_stroke_lifecycle actor e (arrival e.client_seq) table
  elim reply [
    | applied table' ↦ apply_all actor arrival es table'
    | refused code ↦ some (refused code)
  ]

-- The times of the points never fall.
abbrev pub IsRising : ℕ → List Point → Type 0
IsRising lo [] = Unit
IsRising lo (p ∷ ps) = (lo ≤ p.dt) × IsRising p.dt ps

IsRising-last_of :
    (lo : ℕ) (p : Point) (ps qs : List Point)
    → IsRising lo (p ∷ ps ++ qs)
    → IsRising (last_of p ps).dt qs
IsRising-last_of lo p [] qs h = h.1
IsRising-last_of lo p (q ∷ ps) qs h = IsRising-last_of p.dt q ps qs h.1

-- The row of the stroke while it is drawn.
record IsOpen (actor id : String) (s : Stroke) (table : List Stroke) : Type 0 where
  found : find? (stroke_is id) table ≡ some s
  mine : s.actor ≡ actor
  live : s.status ≡ active

append_applies :
    (actor id : String) (p : Point) (ps : List Point) (now : ℕ) (s : Stroke) (table : List Stroke)
    → IsOpen actor id s table
    → s.point_count + length (p ∷ ps) ≤ max_points_per_stroke
    → s.last_dt ≤ p.dt
    → (t : List Stroke) × (s' : Stroke) × (apply_op actor id (append (p ∷ ps)) now table
        ≡ some (applied t))
      × IsOpen actor id s' t
      × (s'.point_count ≡ s.point_count + length (p ∷ ps))
      × (s'.last_dt ≡ (last_of p ps).dt)
unfolding apply_op
append_applies actor id p ps now s table o fits order =
    let f : Stroke → Stroke = λ x. record x {
      last_dt = (last_of p ps).dt;
      last_append_at = now;
      point_count = x.point_count + length (p ∷ ps);
    } in
    (
      update (stroke_is id) f table,
      f s,
      ground (arith, o.found, o.mine, o.live, eq_iff s.actor actor),
      record {
        found = ground (arith, find?-update_self (stroke_is id) f table s (λ x. refl) o.found);
        mine = o.mine;
        live = o.live;
      },
      refl,
      refl,
    )

end_applies :
    (actor id : String) (now : ℕ) (s : Stroke) (table : List Stroke)
    → IsOpen actor id s table
    → (t : List Stroke) × (s' : Stroke) × (apply_op actor id end now table ≡ some (applied t))
      × (find? (stroke_is id) t ≡ some s')
      × (s'.status ≡ ended)
      × (s'.point_count ≡ s.point_count)
unfolding apply_op
end_applies actor id now s table o =
    let f : Stroke → Stroke = λ x. record x { status = ended; last_append_at = now } in
    (
      update (stroke_is id) f table,
      f s,
      ground (arith, o.found, o.mine, o.live, eq_iff s.actor actor),
      find?-update_self (stroke_is id) f table s (λ x. refl) o.found,
      refl,
      refl,
    )

begin_applies :
    (actor id : String) (style : StrokeStyle) (p : Point) (now : ℕ) (table : List Stroke)
    → find? (active_of actor) table ≡ none
    → find? (stroke_is id) table ≡ none
    → (t : List Stroke) × (s : Stroke) × (apply_op actor id (begin style p) now table
        ≡ some (applied t))
      × IsOpen actor id s t
      × (s.point_count ≡ 1)
      × (s.last_dt ≡ p.dt)
unfolding apply_op insert_stroke
begin_applies actor id style p now table free new =
    let s : Stroke = record {
      stroke_id = id;
      actor = actor;
      status = active;
      last_dt = p.dt;
      last_append_at = now;
      point_count = 1;
    } in
    (
      s ∷ table,
      s,
      ground (arith, free, new),
      record { found = ground (arith, eq_iff id id); mine = refl; live = refl },
      refl,
      refl,
    )

-- One event that is applied, and then the others.
apply_all_next :
    (actor : String) (arrival : ℕ → ℕ) (e : ClientStrokeEvent) (es : List ClientStrokeEvent)
    (table t : List Stroke) {r : Option Applied}
    → apply_op actor e.id e.op (arrival e.client_seq) table ≡ some (applied t)
    → apply_all actor arrival es t ≡ r
    → apply_all actor arrival (e ∷ es) table ≡ r
unfolding apply_all apply_stroke_lifecycle
apply_all_next actor arrival e es table t h k = bind_of _ h ∙ k

-- What is left of the row once the last event is applied.
pub record IsEnded (id : String) (points : ℕ) (table : List Stroke) : Type 0 where
  pub row : Stroke
  pub found : find? (stroke_is id) table ≡ some row
  pub over : row.status ≡ ended
  pub count : row.point_count ≡ points

IsAppend-points :
    (op : StrokeOp) → IsAppend op → (p : Point) × (ps : List Point) × (op ≡ append (p ∷ ps))
IsAppend-points (begin style q) h = elim h [ ]
IsAppend-points end h = elim h [ ]
IsAppend-points cancel h = elim h [ ]
IsAppend-points (append []) h = absurd (let x : ⊥ = omega arith in x)
IsAppend-points (append (p ∷ ps)) h = (p, ps, refl)

appends_apply :
    (actor id : String) (arrival : ℕ → ℕ) (seq next last : ℕ) (es : List ClientStrokeEvent)
    (s : Stroke) (table : List Stroke)
    → IsAppends id seq next es
    → IsOpen actor id s table
    → s.point_count + length (points_of es) ≤ max_points_per_stroke
    → IsRising s.last_dt (points_of es)
    → (t : List Stroke) × (apply_all actor arrival
          (es ++ record { client_seq = last; id = id; op = end } ∷ [])
          table
        ≡ some (applied t))
      × IsEnded id (s.point_count + length (points_of es)) t
unfolding apply_all
appends_apply actor id arrival seq next last [] s table h o fits rising =
    let (t, s', run, found, over, count) = end_applies actor id (arrival last) s table o in
    (
      t,
      apply_all_next actor arrival _ [] table t run refl,
      record { row = s'; found = found; over = over; count = omega (arith, count) },
    )
appends_apply actor id arrival seq next last (e ∷ es) s table h o fits rising =
    let (p, ps, is) = IsAppend-points e.op h.2 in
    let many : length (points_of (e ∷ es)) ≡ length (p ∷ ps) + length (points_of es) =
      length-append (carried e.op) (points_of es)
      ∙ ap (λ x. length (carried x) + length (points_of es)) is in
    let up : IsRising s.last_dt (p ∷ ps ++ points_of es) =
      subst (λ x. IsRising s.last_dt (carried x ++ points_of es)) is rising in
    let (t1, s1, run, o1, grown, at) =
      append_applies actor id p ps (arrival e.client_seq) s table o (omega arith) up.0 in
    let up' : IsRising s1.last_dt (points_of es) =
      rw at (IsRising-last_of s.last_dt p ps (points_of es) up) in
    let (t, rest, done) =
      appends_apply actor id arrival (suc seq) next last es s1 t1 h.3 o1
        (omega (arith, grown, many)) up' in
    let total : s1.point_count + length (points_of es)
        ≡ s.point_count + length (points_of (e ∷ es)) =
      omega (arith, grown, many) in
    let applies : apply_op actor e.id e.op (arrival e.client_seq) table ≡ some (applied t1) =
      ap (λ i. apply_op actor i e.op (arrival e.client_seq) table) h.1
      ∙ ap (λ x. apply_op actor id x (arrival e.client_seq) table) is
      ∙ run in
    (t, apply_all_next actor arrival e _ table t1 applies rest, rw total at done)

-- When the pointer's movements are seen in the order of their times.
abbrev pub HasClock : ℕ → List Move → Type 0
HasClock t [] = Unit
HasClock t (m ∷ ms) = (t ≤ m.seen_at) × HasClock m.seen_at ms

path-IsRising :
    (started t : ℕ) (ms : List Move)
    → HasClock t ms
    → IsRising (min max_stroke_duration_ms (t - started)) (path_of started ms)
unfolding normalize_point
path-IsRising started t [] h = tt
path-IsRising started t (m ∷ ms) h = (
  ground arith,
  subst (λ d. IsRising (min max_stroke_duration_ms d) (path_of started ms))
      (sym (round_whole (m.seen_at - started))) (path-IsRising started m.seen_at ms h.1),
)

length-path : (started : ℕ) (ms : List Move) → length (path_of started ms) ≡ length ms
length-path started [] = refl
length-path started (m ∷ ms) = ap suc (length-path started ms)

-- A stroke drawn through an outbox without an active stroke, with at most 4,095 movements in the
-- order of their times, is applied by a room in which its actor has no active stroke and its id is
-- new, whenever its events arrive: no call of the outbox throws, no event is refused by
-- `applyStrokeLifecycle`, and the room's row of the stroke is ended and counts every point.
pub drawn_stroke_applies :
    (actor id : String) (style : StrokeStyle) (start : Move) (ms : List Move) (now : ℕ)
    (o : StrokeOutbox) (arrival : ℕ → ℕ) (table : List Stroke)
    → o.active ≡ none
    → length ms < max_points_per_stroke
    → HasClock start.seen_at ms
    → find? (active_of actor) table ≡ none
    → find? (stroke_is id) table ≡ none
    → (o' : StrokeOutbox) × (es : List ClientStrokeEvent) × (t : List Stroke) × (draw_stroke id
          style start ms now o
        ≡ some (o', es))
      × (apply_all actor arrival es table ≡ some (applied t))
      × IsEnded id (suc (length ms)) t
unfolding normalize_point
drawn_stroke_applies actor id style start ms now o arrival table idle few clock free new =
    let (o', es, run, d) = draw_stroke_lem id style start ms now o idle few in
    let first = normalize_point start.x start.y 0 in
    let (t1, s, begun, opened, one, at) =
      begin_applies actor id style first (arrival o.next_client_seq) table free new in
    let many : length (points_of d.middle) ≡ length ms =
      ap length d.points ∙ length-path start.seen_at ms in
    let low : s.last_dt ≡ min max_stroke_duration_ms (start.seen_at - start.seen_at) =
      ground arith in
    let rising : IsRising s.last_dt (points_of d.middle) =
      rw (low, d.points) (path-IsRising start.seen_at start.seen_at ms clock) in
    let (t, rest, done) =
      appends_apply actor id arrival (suc o.next_client_seq) d.last d.last d.middle s t1 d.appends
        opened (omega (arith, one, many)) rising in
    let total : s.point_count + length (points_of d.middle) ≡ suc (length ms) =
      omega (arith, one, many) in
    (
      o',
      es,
      t,
      run,
      rw d.events (apply_all_next actor arrival _ _ table t1 begun rest),
      rw total at done,
    )
