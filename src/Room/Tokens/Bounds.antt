-- ===== src/Room/Tokens/Bounds.antt =====
-- apps/realtime/src/drawing-room.ts: how many requests a token bucket admits.
use echa.Prelude.{ℕ, suc, ◌+◌, ◌-◌, ◌*◌, ◌≤◌, ◌≡◌, true, List, [], ◌∷◌, arith, if◌then◌else◌}
use echa.Room.Tokens.{Bucket, token, take_token}

-- The requests at the given times, in turn: the bucket after them, and how many are admitted.
unfoldable pub admitted : (burst rate : ℕ) → Bucket → List ℕ → Bucket × ℕ
admitted burst rate b [] = (b, 0)
admitted burst rate b (now ∷ times) =
    let (b', ok) = take_token burst rate b now in
    let (b'', n) = admitted burst rate b' times in (b'', if ok then suc n else n)

-- The clock does not go back.
abbrev pub IsClock : ℕ → List ℕ → Type 0
IsClock t [] = Unit
IsClock t (now ∷ times) = (t ≤ now) × IsClock now times

abbrev pub last_time : ℕ → List ℕ → ℕ
last_time t [] = t
last_time t (now ∷ times) = last_time now times

-- One request: a token is spent exactly when it is admitted, at most the refill is added, and the
-- bucket never holds more than its burst.
take_token_lem :
    (burst rate : ℕ) (b : Bucket) (now : ℕ)
    → let (b', ok) = take_token burst rate b now in
      (b'.tokens + (if ok then token else 0) ≤ b.tokens + (now - b.updated_at) * rate)
      × (b'.tokens ≤ burst * token)
      × (b'.updated_at ≡ now)
unfolding take_token
take_token_lem burst rate b now = ground arith

last_time-le : (t : ℕ) (times : List ℕ) → IsClock t times → t ≤ last_time t times
last_time-le t [] h = omega arith
last_time-le t (now ∷ times) h = omega (arith, h.0, last_time-le now times h.1)

refill_split :
    (u now last rate : ℕ)
    → u ≤ now
    → now ≤ last
    → (now - u) * rate + (last - now) * rate ≡ (last - u) * rate
refill_split u now last rate h k = grind arith

admitted-le :
    (burst rate : ℕ) (b : Bucket) (times : List ℕ)
    → IsClock b.updated_at times
    → (admitted burst rate b times).0.tokens + (admitted burst rate b times).1 * token
      ≤ b.tokens + (last_time b.updated_at times - b.updated_at) * rate
unfolding admitted
admitted-le burst rate b [] h = omega arith
admitted-le burst rate b (now ∷ times) h =
    let (b', ok) = take_token burst rate b now in
    let one = take_token_lem burst rate b now in
    let rest = admitted-le burst rate b' times (rw one.2 h.1) in
    let split =
      refill_split b.updated_at now (last_time now times) rate h.0 (last_time-le now times h.1) in
    let after = rw one.2 at rest in ground (arith, one.0, after, split)

-- In any window of requests on a clock that does not go back, a bucket that starts with no more
-- than its burst admits at most the burst and the refill of the time that passed.
pub admitted_bound :
    (burst rate : ℕ) (b : Bucket) (times : List ℕ)
    → b.tokens ≤ burst * token
    → IsClock b.updated_at times
    → (admitted burst rate b times).1 * token
      ≤ burst * token + (last_time b.updated_at times - b.updated_at) * rate
admitted_bound burst rate b times full h = omega (arith, admitted-le burst rate b times h)

-- A rejected request spends nothing: after enough time without requests the next one is admitted.
pub take_token_recovers :
    (burst rate : ℕ) (b : Bucket) (now : ℕ)
    → 1 ≤ burst
    → token ≤ (now - b.updated_at) * rate
    → (take_token burst rate b now).1 ≡ true
unfolding take_token
take_token_recovers burst rate b now h k = ground arith
