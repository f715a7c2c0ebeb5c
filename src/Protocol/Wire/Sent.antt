-- ===== src/Protocol/Wire/Sent.antt =====
-- packages/protocol/src/outbox.ts and validation.ts: the events of a drawn stroke on the wire.
use mathlib.Core.Path.{subst}
use echa.Prelude.{
  ℕ, suc, ◌+◌, ◌-◌, ◌≤◌, ◌<◌, min, ◌≡◌, refl, ap, sym, ◌∙◌, String, true, some, List, [], ◌∷◌, ◌++◌,
  arith, length, length-append, All, All-imp, none,
}
use echa.Protocol.Limits.{max_points_per_stroke}
use echa.Protocol.Messages.{
  Point, StrokeStyle, StrokeOp, begin, append, end, cancel, ClientStrokeEvent,
}
use echa.Protocol.Validation.{Coordinate, normalize_point, round_whole}
use echa.Protocol.Value.{max_safe_integer}
use echa.Protocol.Value.Text.{is_identifier, is_color}
use echa.Protocol.Validation.Event.{success, validate_client_event}
use echa.Protocol.Outbox.{StrokeOutbox}
use echa.Protocol.Outbox.Drawing.{IsAppend, IsAppends, points_of, carried}
use echa.Protocol.Outbox.Strokes.{Move, path_of, draw_stroke, Drawn, draw_stroke_lem}
use echa.Protocol.Wire.{event_value}
use echa.Protocol.Wire.Valid.{IsPoint, IsTimed, IsValidOp, IsValidEvent}
use echa.Protocol.Wire.Accepted.{validate_client_event-IsValidEvent}

normalize_point-IsPoint : (x y : Coordinate) (dt : ℕ) → IsPoint (normalize_point x y dt)
unfolding normalize_point
normalize_point-IsPoint x y dt = record {
  x_within = omega arith;
  y_within = omega arith;
  dt_within = omega arith;
}

-- The pointer's clock does not go back.
abbrev pub IsForward : ℕ → List Move → Type 0
IsForward last [] = Unit
IsForward last (m ∷ ms) = (last ≤ m.seen_at) × IsForward m.seen_at ms

path-IsPoint : (started : ℕ) (ms : List Move) → All IsPoint (path_of started ms)
path-IsPoint started [] = tt
path-IsPoint started (m ∷ ms) = (normalize_point-IsPoint m.x m.y _, path-IsPoint started ms)

path-IsTimed :
    (started last : ℕ) (ms : List Move)
    → IsForward last ms
    → IsTimed (min 120_000 (last - started)) (path_of started ms)
unfolding normalize_point
path-IsTimed started last [] h = tt
path-IsTimed started last (m ∷ ms) h = (
  omega arith,
  subst (λ d. IsTimed (min 120_000 d) (path_of started ms))
      (sym (round_whole (m.seen_at - started))) (path-IsTimed started m.seen_at ms h.1),
)

All-split : (xs ys : List Point) → All IsPoint (xs ++ ys) → All IsPoint xs × All IsPoint ys
All-split [] ys h = (tt, h)
All-split (x ∷ xs) ys h = let (a, b) = All-split xs ys h.1 in ((h.0, a), b)

IsTimed-weaker : (low low' : ℕ) (ps : List Point) → low ≤ low' → IsTimed low' ps → IsTimed low ps
IsTimed-weaker low low' [] h k = tt
IsTimed-weaker low low' (p ∷ ps) h k = (omega arith, k.1)

IsTimed-split :
    (low : ℕ) (xs ys : List Point) → IsTimed low (xs ++ ys) → IsTimed low xs × IsTimed 0 ys
IsTimed-split low [] ys h = (tt, IsTimed-weaker 0 low ys (omega arith) h)
IsTimed-split low (x ∷ xs) ys h = let (a, b) = IsTimed-split x.dt xs ys h.1 in ((h.0, a), b)

an_append :
    (op : StrokeOp) → IsAppend op → All IsPoint (carried op) → IsTimed 0 (carried op) → IsValidOp op
an_append (append ps) h points times = (h.0, h.1, points, times)
an_append (begin style p) h points times = absurd h
an_append end h points times = absurd h
an_append cancel h points times = absurd h

-- Each append carries a point.
appends_few :
    (id : String) (seq next : ℕ) (es : List ClientStrokeEvent)
    → IsAppends id seq next es
    → next ≤ seq + length (points_of es)
appends_few id seq next [] h = omega (arith, h)
appends_few id seq next (e ∷ es) h = omega (
  arith,
  appends_few id (suc seq) next es h.3,
  length-append (carried e.op) (points_of es),
  one_point e.op h.2,
)
  where
    one_point : (op : StrokeOp) → IsAppend op → 1 ≤ length (carried op)
    one_point (append ps) k = k.0
    one_point (begin style p) k = absurd k
    one_point end k = absurd k
    one_point cancel k = absurd k

appends_valid :
    (id : String) (seq next : ℕ) (es : List ClientStrokeEvent)
    → is_identifier 20 128 id ≡ true
    → 1 ≤ seq
    → next ≤ suc max_safe_integer
    → IsAppends id seq next es
    → All IsPoint (points_of es)
    → IsTimed 0 (points_of es)
    → (seq ≤ next) × All IsValidEvent es
appends_valid id seq next [] named positive safe h points times = (omega arith, tt)
appends_valid id seq next (e ∷ es) named positive safe h points times =
    let (point_here, points_after) = All-split (carried e.op) (points_of es) points in
    let (times_here, times_after) = IsTimed-split 0 (carried e.op) (points_of es) times in
    let (ahead, rest) =
      appends_valid id (suc seq) next es named (omega arith) safe h.3 points_after times_after in
    (
      omega arith,
      (
        record {
          is_positive = omega arith;
          is_safe = omega arith;
          has_id = ap (is_identifier 20 128) h.1 ∙ named;
          valid_op = an_append e.op h.2 point_here times_here;
        },
        rest,
      ),
    )

length-path_of : (started : ℕ) (ms : List Move) → length (path_of started ms) ≡ length ms
length-path_of started [] = refl
length-path_of started (m ∷ ms) = ap suc (length-path_of started ms)

abbrev pub Passes : ClientStrokeEvent → Type 0
Passes e = validate_client_event (event_value e) ≡ success (event_value e)

-- A style as the client offers it.
pub record IsStyle (style : StrokeStyle) : Type 0 where
  pub is_known_color : is_color style.color ≡ true
  pub size_low : 1_000 ≤ style.size
  pub size_high : style.size ≤ 60_000
  pub opacity_low : 5 ≤ style.opacity
  pub opacity_high : style.opacity ≤ 100

All-snoc :
    (es : List ClientStrokeEvent) (e : ClientStrokeEvent)
    → All IsValidEvent es
    → IsValidEvent e
    → All IsValidEvent (es ++ e ∷ [])
All-snoc [] e h k = (k, tt)
All-snoc (d ∷ ds) e h k = (h.0, All-snoc ds e h.1 k)

Drawn-valid :
    (id : String) (style : StrokeStyle) (start : Move) (ms : List Move) (o o' : StrokeOutbox)
    (es : List ClientStrokeEvent)
    → Drawn id style start ms o o' es
    → is_identifier 20 128 id ≡ true
    → IsStyle style
    → IsForward start.seen_at ms
    → 1 ≤ o.next_client_seq
    → o.next_client_seq + length ms < max_safe_integer
    → All IsValidEvent es
unfolding normalize_point
Drawn-valid id style start ms o o' es d named s forward positive room =
    let points : All IsPoint (points_of d.middle) =
      subst (All IsPoint) (sym d.points) (path-IsPoint start.seen_at ms) in
    let times : IsTimed 0 (points_of d.middle) =
      subst (IsTimed 0) (sym d.points) (
        IsTimed-weaker 0 _ _ (omega arith) (path-IsTimed start.seen_at start.seen_at ms forward)) in
    let few = appends_few id _ _ d.middle d.appends in
    let count : length (points_of d.middle) ≡ length ms =
      ap length d.points ∙ length-path_of start.seen_at ms in
    let (ahead, middle) =
      appends_valid id _ _ d.middle named (omega arith) (omega arith) d.appends points times in
    subst (All IsValidEvent) (sym d.events) (
      record {
        is_positive = positive;
        is_safe = omega arith;
        has_id = named;
        valid_op = (
          s.is_known_color,
          s.size_low,
          s.size_high,
          s.opacity_low,
          s.opacity_high,
          normalize_point-IsPoint start.x start.y 0,
          omega arith,
        );
      },
      All-snoc d.middle _ middle (record {
        is_positive = omega arith;
        is_safe = omega arith;
        has_id = named;
        valid_op = tt;
      }),
    )

-- A stroke that is drawn with a known style, by a clock that does not go back, and while numbers are
-- left, never throws, and validateClientEvent accepts the record of each of its events.
pub draw_stroke-validate_client_event :
    (id : String) (style : StrokeStyle) (start : Move) (ms : List Move) (now : ℕ) (o : StrokeOutbox)
    → o.active ≡ none
    → length ms < max_points_per_stroke
    → is_identifier 20 128 id ≡ true
    → IsStyle style
    → IsForward start.seen_at ms
    → 1 ≤ o.next_client_seq
    → o.next_client_seq + length ms < max_safe_integer
    → (o' : StrokeOutbox) × (es : List ClientStrokeEvent) × (draw_stroke id style start ms now o
        ≡ some (o', es))
      × All Passes es
draw_stroke-validate_client_event id style start ms now o idle short named s forward positive room =
    let (o', es, run, d) = draw_stroke_lem id style start ms now o idle short in
    (
      o',
      es,
      run,
      All-imp IsValidEvent Passes es validate_client_event-IsValidEvent
          (Drawn-valid id style start ms o o' es d named s forward positive room),
    )
