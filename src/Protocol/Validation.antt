-- ===== src/Protocol/Validation.antt =====
-- packages/protocol/src/validation.ts: `normalizePoint`.
-- A pointer's coordinate is held in thousandths of a pixel, and may lie left of or above the canvas;
-- the rounding of the doubles in between is not modelled.
pub mod Event
use echa.Prelude.{ℕ, ◌+◌, ◌*◌, ◌/◌, min, ◌≡◌, arith}
use echa.Protocol.Limits.{canvas_width, canvas_height, max_stroke_duration_ms}
use echa.Protocol.Messages.{Point}

pub data Coordinate : Type 0 where
  before : ℕ → Coordinate
  at : ℕ → Coordinate

-- `Math.max(0, x)`.
abbrev pub clamped : Coordinate → ℕ
clamped (before n) = 0
clamped (at n) = n

-- `Math.round(Math.min(limit, Math.max(0, x)) * 100)`, from thousandths to hundredths.
abbrev pub to_hundredths : ℕ → Coordinate → ℕ
to_hundredths limit x = (min (limit * 1_000) (clamped x) + 5) / 10

-- `Math.round`, from thousandths.
abbrev round_thousandths : ℕ → ℕ
round_thousandths n = (n + 500) / 1_000

-- A whole number is its own rounding.
pub round_whole : (n : ℕ) → (1_000 * n + 500) / 1_000 ≡ n
round_whole n = omega arith

-- `dt` is a difference of times in thousandths of a millisecond, which is 0 here where it is negative.
unfoldable pub normalize_point : Coordinate → Coordinate → ℕ → Point
normalize_point x y dt = record {
  x = to_hundredths canvas_width x;
  y = to_hundredths canvas_height y;
  dt = min max_stroke_duration_ms (round_thousandths dt);
}
