-- ===== src/Protocol/Outbox/Strokes.antt =====
-- packages/protocol/src/outbox.ts: all the calls that one stroke takes.
use echa.Prelude.{
  ℕ, suc, ◌+◌, ◌-◌, ◌≤◌, ◌<◌, String, false, ◌≡◌, refl, ap, sym, ◌∙◌, Option, none, some, List, [],
  ◌∷◌, ◌++◌, ◌||◌, leb, length, arith, Bool-cases, inl, inr, ◌>>=◌, bind_of, ◌*◌,
}
use mathlib.Core.Path.{subst}
use echa.Protocol.Limits.{max_points_per_append, max_points_per_stroke, append_interval_ms}
use echa.Protocol.Messages.{Point, begin as begin_op, end as end_op, StrokeStyle, ClientStrokeEvent}
use echa.Protocol.Validation.{Coordinate, normalize_point}
use echa.Protocol.Outbox.{
  StrokeOutbox, ActiveStroke, issue, flush_active, appended_to, append_active, append, begin,
  finish, end, with_event,
}
use echa.Protocol.Outbox.Drawing.{
  append_assoc, append_nil, points_of, IsAppends, Progress, idle-Progress, flush_active_lem, join,
  with_event-nil, drain_lem,
}

-- A movement of the pointer, and when it is seen.
pub record Move : Type 0 where
  pub x : Coordinate
  pub y : Coordinate
  pub seen_at : ℕ

-- The points of the movements, of a stroke that started at the given time.
abbrev pub path_of : ℕ → List Move → List Point
path_of started [] = []
path_of started (m ∷ ms) =
    normalize_point m.x m.y (1_000 * (m.seen_at - started)) ∷ path_of started ms

-- `append` for each movement, and the events that it gives.
unfoldable pub draw_moves :
    List Move → StrokeOutbox → Option (StrokeOutbox × List ClientStrokeEvent)
draw_moves [] o = some (o, [])
draw_moves (m ∷ ms) o = do
  (o', event) ← append m.x m.y m.seen_at o
  (o'', events) ← draw_moves ms o'
  some (o'', with_event event events)

-- A stroke from its first point to its end.
unfoldable pub draw_stroke :
    String
    → StrokeStyle
    → Move
    → List Move
    → ℕ
    → StrokeOutbox
    → Option (StrokeOutbox × List ClientStrokeEvent)
unfolding draw_moves
draw_stroke id style start moves now o = do
  (o1, first) ← begin id style start.x start.y start.seen_at o
  (o2, events) ← draw_moves moves o1
  (o3, rest) ← end now o2
  some (o3, first ∷ events ++ rest)

-- A point that waits.
waiting-Progress :
    (m : Move) (a : ActiveStroke) (o : StrokeOutbox)
    → let a' = appended_to m.x m.y m.seen_at a in
      Progress a a' o
        (record o { active = some a' })
        []
        (normalize_point m.x m.y (1_000 * (m.seen_at - a.started_at)) ∷ [])
waiting-Progress m a o = record {
  is_active = refl;
  same_id = refl;
  same_start = refl;
  count = refl;
  appends = refl;
  points = refl;
}

append_lem :
    (m : Move) (a : ActiveStroke) (o : StrokeOutbox)
    → o.active ≡ some a
    → a.point_count < max_points_per_stroke
    → (o' : StrokeOutbox) × (e : Option ClientStrokeEvent) × (a' : ActiveStroke) × (append m.x m.y
          m.seen_at o
        ≡ some (o', e))
      × Progress a a' o o'
          (with_event e [])
          (normalize_point m.x m.y (1_000 * (m.seen_at - a.started_at)) ∷ [])
unfolding append append_active
append_lem m a o h k =
    let b = appended_to m.x m.y m.seen_at a in
    let o1 : StrokeOutbox = record o { active = some b } in
    let here = bind_of (λ x. append_active m.x m.y m.seen_at x o) h in
    let under : leb max_points_per_stroke a.point_count ≡ false = ground arith in
    elim (Bool-cases (
      leb max_points_per_append (length b.pending)
      || leb append_interval_ms (m.seen_at - a.last_flush_at))) [
        | inl due ↦
            let (c, d, left) = flush_active_lem m.seen_at b o1 refl in
            let es = with_event (flush_active m.seen_at b o1).1 [] in
            let all =
              join a b c o o1 (flush_active m.seen_at b o1).0 [] es _ [] (waiting-Progress m a o)
                d in
            ((flush_active m.seen_at b o1).0, (flush_active m.seen_at b o1).1, c, ground arith, all)
        | inr early ↦ (o1, none, b, ground arith, waiting-Progress m a o)
      ]

-- The calls for the movements: none throws while the stroke has room.
moves_lem :
    (ms : List Move) (a : ActiveStroke) (o : StrokeOutbox)
    → o.active ≡ some a
    → a.point_count + length ms ≤ max_points_per_stroke
    → (o' : StrokeOutbox) × (es : List ClientStrokeEvent) × (a' : ActiveStroke) × (draw_moves ms o
        ≡ some (o', es))
      × Progress a a' o o' es (path_of a.started_at ms)
unfolding draw_moves
moves_lem [] a o h k = (o, [], a, refl, idle-Progress a o h)
moves_lem (m ∷ ms) a o h k =
    let (o1, e, b, run, d) = append_lem m a o h (omega arith) in
    let (o2, es, c, rest, d') = moves_lem ms b o1 d.is_active (omega (arith, d.count)) in
    let started : Progress b c o1 o2 es (path_of a.started_at ms) =
      subst (λ t. Progress b c o1 o2 es (path_of t ms)) d.same_start d' in
    (
      o2,
      with_event e es,
      c,
      bind_of _ run ∙ bind_of _ rest,
      subst (λ fs. Progress a c o o2 fs (path_of a.started_at (m ∷ ms))) (sym (with_event-nil e es))
          (join a b c o o1 o2 (with_event e []) es _ _ d started),
    )

-- What a drawn stroke sends: a first event with its first point, appends, and a last event, all of
-- them numbered in turn, and with all the points of the movements in their order.
pub record Drawn (id : String) (style : StrokeStyle) (start : Move) (ms : List Move)
    (o o' : StrokeOutbox) (es : List ClientStrokeEvent) : Type 0 where
  pub middle : List ClientStrokeEvent
  pub last : ℕ
  pub events :
      es
      ≡ record {
        client_seq = o.next_client_seq;
        id = id;
        op = begin_op style (normalize_point start.x start.y 0);
      }
        ∷ (middle ++ record { client_seq = last; id = id; op = end_op } ∷ [])
  pub appends : IsAppends id (suc o.next_client_seq) last middle
  pub numbers : o'.next_client_seq ≡ suc last
  pub points : points_of middle ≡ path_of start.seen_at ms
  pub idle : o'.active ≡ none

-- With no active stroke and at most 4,095 movements, no call that a stroke takes throws, whatever the
-- times, and the events carry exactly the points of the movements.
pub draw_stroke_lem :
    (id : String) (style : StrokeStyle) (start : Move) (ms : List Move) (now : ℕ) (o : StrokeOutbox)
    → o.active ≡ none
    → length ms < max_points_per_stroke
    → (o' : StrokeOutbox) × (es : List ClientStrokeEvent) × (draw_stroke id style start ms now o
        ≡ some (o', es))
      × Drawn id style start ms o o' es
unfolding draw_stroke begin end issue
draw_stroke_lem id style start ms now o h k =
    let a : ActiveStroke = record {
      id = id;
      started_at = start.seen_at;
      last_flush_at = start.seen_at;
      point_count = 1;
      pending = [];
    } in
    let o0 : StrokeOutbox = record o { active = some a } in
    let first = issue id (begin_op style (normalize_point start.x start.y 0)) o0 in
    let begun : begin id style start.x start.y start.seen_at o ≡ some first = ground arith in
    let (o2, es, b, moved, d) = moves_lem ms a first.0 refl (omega arith) in
    let (o3, fs, c, drained, d', left) =
      drain_lem (length b.pending) now b o2 (omega arith) d.is_active in
    let all = join a b c first.0 o2 o3 es fs (path_of start.seen_at ms) [] d d' in
    let last = finish b.id end_op o3 in
    (
      last.0,
      first.1 ∷ es ++ (fs ++ last.1 ∷ []),
      bind_of _ begun ∙ bind_of _ moved ∙ bind_of _ (bind_of _ d.is_active ∙ bind_of _ drained),
      record {
        middle = es ++ fs;
        last = o3.next_client_seq;
        events = rw d.same_id (ap (λ r. first.1 ∷ r) (sym (append_assoc es fs _)));
        appends = all.appends;
        numbers = refl;
        points =
            sym (append_nil (points_of (es ++ fs)))
            ∙ ap (λ r. points_of (es ++ fs) ++ r) (sym left)
            ∙ all.points
            ∙ append_nil (path_of start.seen_at ms);
        idle = refl;
      },
    )
