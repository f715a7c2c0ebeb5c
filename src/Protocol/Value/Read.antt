-- ===== src/Protocol/Value/Read.antt =====
-- How a record gives its fields back, for any content.
use echa.Prelude.{ℕ, ◌≡◌, ◌≤◌, some, arith}
use echa.Protocol.Value.{int, whole, max_safe_integer}

pub whole-int : (n : ℕ) → n ≤ max_safe_integer → whole (some (int n)) ≡ some n
whole-int n h = ground arith
