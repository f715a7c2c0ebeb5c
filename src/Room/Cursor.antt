-- ===== src/Room/Cursor.antt =====
-- apps/realtime/src/drawing-room.ts: `consumeCursorRateToken`.
use echa.Prelude.{
  ℕ, suc, ◌+◌, ◌-◌, ◌*◌, ◌≤◌, Bool, true, false, not, ◌≡◌, refl, none, some, List, [], ◌∷◌,
  if◌then◌else◌, find?, update, same, arith, find?-update_self,
}
use echa.Protocol.Limits.{cursor_rate_burst, cursor_rate_per_second}
use echa.Room.Tokens.{Bucket, token, take_token}
use echa.Room.Tokens.Bounds.{admitted, IsClock, last_time, admitted_bound}
use echa.Room.State.{Connection, ConnectionAttachment, connection_is}

abbrev pub set_cursor_rate : Bucket → Connection → Connection
set_cursor_rate b c = record c { cursor_rate = b }

-- The connections after the call, and whether the cursor is broadcast.
unfoldable pub consume_cursor_rate_token :
    ConnectionAttachment → ℕ → List Connection → List Connection × Bool
consume_cursor_rate_token a now cs = elim (find? (connection_is a.connection_id) cs) [
  | none ↦ (cs, false)
  | some c ↦
      if not (same c.actor a.actor)
      then (cs, false)
      else let (b, ok) = take_token cursor_rate_burst cursor_rate_per_second c.cursor_rate now in
        (update (connection_is a.connection_id) (set_cursor_rate b) cs, ok)
]

-- How many cursors of a connection are broadcast at the given times.
unfoldable pub cursors_sent : ConnectionAttachment → List ℕ → List Connection → ℕ
cursors_sent a [] cs = 0
cursors_sent a (now ∷ times) cs =
    let (cs', ok) = consume_cursor_rate_token a now cs in
    let rest = cursors_sent a times cs' in if ok then suc rest else rest

cursors_sent-admitted :
    (a : ConnectionAttachment) (times : List ℕ) (cs : List Connection) (c : Connection)
    → find? (connection_is a.connection_id) cs ≡ some c
    → same c.actor a.actor ≡ true
    → cursors_sent a times cs
      ≡ (admitted cursor_rate_burst cursor_rate_per_second c.cursor_rate times).1
unfolding cursors_sent consume_cursor_rate_token admitted
cursors_sent-admitted a [] cs c found mine = refl
cursors_sent-admitted a (now ∷ times) cs c found mine =
    let taken = take_token cursor_rate_burst cursor_rate_per_second c.cursor_rate now in
    let f = set_cursor_rate taken.0 in
    let rest =
      cursors_sent-admitted a times (update (connection_is a.connection_id) f cs) (f c)
        (find?-update_self (connection_is a.connection_id) f cs c (λ x. refl) found) mine in
    ground (arith, found, mine, rest)

-- A registered connection gets at most its burst of cursors and the refill of the time that passed,
-- on a clock that does not go back.
cursors_bounded :
    (a : ConnectionAttachment) (times : List ℕ) (cs : List Connection) (c : Connection)
    → find? (connection_is a.connection_id) cs ≡ some c
    → same c.actor a.actor ≡ true
    → c.cursor_rate.tokens ≤ cursor_rate_burst * token
    → IsClock c.cursor_rate.updated_at times
    → cursors_sent a times cs * token
      ≤ cursor_rate_burst * token
        + (last_time c.cursor_rate.updated_at times - c.cursor_rate.updated_at)
          * cursor_rate_per_second
cursors_bounded a times cs c found mine full clock =
    rw (cursors_sent-admitted a times cs c found mine)
      (admitted_bound cursor_rate_burst cursor_rate_per_second c.cursor_rate times full clock)
