-- ===== src/Room/Tokens.antt =====
-- apps/realtime/src/drawing-room.ts: the token buckets of `persistEvent`, `consumeCursorRateToken` and
-- `persistChatMessage`. Tokens are held in thousandths, in which the refill is a whole number.
pub mod Bounds
use echa.Prelude.{ℕ, ◌+◌, ◌-◌, ◌*◌, Bool, true, false, ltb, if◌then◌else◌, min}

-- One token.
abbrev pub token : ℕ
token = 1000

-- `availableTokens`; `Math.max(0, now - updatedAt)` is the subtraction that stops at 0.
unfoldable pub available_tokens : (burst rate tokens updated_at now : ℕ) → ℕ
available_tokens burst rate tokens updated_at now =
    min (burst * token) (tokens + (now - updated_at) * rate)

pub record Bucket : Type 0 where
  pub tokens : ℕ
  pub updated_at : ℕ

-- The read, the test and the write of one request: whether it is admitted.
unfoldable pub take_token : (burst rate : ℕ) → Bucket → ℕ → Bucket × Bool
unfolding available_tokens
take_token burst rate b now =
    let available = available_tokens burst rate b.tokens b.updated_at now in
    if ltb available token
    then (record { tokens = available; updated_at = now }, false)
    else (record { tokens = available - token; updated_at = now }, true)
