-- ===== src/Protocol/Server/Read.antt =====
-- packages/protocol/src/server-codec.ts: the tests on one field, as functions that give its value.
use echa.Prelude.{
  ℕ, String, Bool, Option, none, some, List, [], ◌∷◌, leb, if◌then◌else◌, length, ◌>>=◌, ◌>>◌,
  guard,
}
use echa.Protocol.Messages.{
  RejectCode, unsupported_version, unknown_opcode, unauthorized, role_forbidden, room_not_active,
  rate_limited, message_too_large, invalid_field, out_of_order, duplicate, stroke_not_found,
  stroke_already_final, room_limit_reached, service_emergency_stop, RoomRole, host, participant,
  viewer,
}
use echa.Protocol.Value.{Value, null, text, array, whole, is_text, is_int, to_list}
use echa.Protocol.Value.Text.{is_identifier, is_hash, is_sized}
use echa.Room.State.{
  RoomCloseReason, by_host, empty_timeout, max_duration, activity_limit, by_admin, by_account,
  by_probe,
}
use echa.Protocol.Server.{RemovalReason, kicked, room_banned, service_banned}

-- A text that passes a test.
abbrev pub matching : (String → Bool) → Option Value → Option String
matching p (some (text s)) = if p s then some s else none
matching p _ = none

abbrev pub nullable : (String → Bool) → Option Value → Option (Option String)
nullable p (some null) = some none
nullable p (some (text s)) = if p s then some (some s) else none
nullable p _ = none

-- The member of an enumeration whose text the value is.
abbrev pub one_of {ℓ} : {A : Type ℓ} → (A → String) → List A → Option Value → Option A
one_of name [] v = none
one_of name (a ∷ others) v =
    let rest = one_of name others v in if is_text (name a) v then some a else rest

abbrev pub number_of_list : List ℕ → Option Value → Option ℕ
number_of_list [] v = none
number_of_list (n ∷ ns) v = let rest = number_of_list ns v in if is_int n v then some n else rest

abbrev pub or_else {ℓ} : {A : Type ℓ} → Option A → Option A → Option A
or_else none o = o
or_else (some a) o = some a

abbrev pub each {ℓ} : {A : Type ℓ} → (Value → Option A) → List Value → Option (List A)
each f [] = some []
each f (v ∷ vs) = do a ← f v; rest ← each f vs; some (a ∷ rest)

-- An array of at most `n` elements.
abbrev pub items_to : ℕ → Option Value → Option (List Value)
items_to n (some (array vs)) = if leb (length (to_list vs)) n then some (to_list vs) else none
items_to n _ = none

abbrev pub roles : List RoomRole
roles = host ∷ participant ∷ viewer ∷ []

abbrev pub reject_codes : List RejectCode
reject_codes =
    unsupported_version ∷ unknown_opcode ∷ unauthorized ∷ role_forbidden ∷ room_not_active
    ∷ rate_limited ∷ message_too_large ∷ invalid_field ∷ out_of_order ∷ duplicate ∷ stroke_not_found
    ∷ stroke_already_final ∷ room_limit_reached ∷ service_emergency_stop ∷ []

abbrev pub close_reasons : List RoomCloseReason
close_reasons =
    by_host ∷ empty_timeout ∷ max_duration ∷ activity_limit ∷ by_admin ∷ by_account ∷ by_probe ∷ []

abbrev pub removal_reasons : List RemovalReason
removal_reasons = kicked ∷ room_banned ∷ service_banned ∷ []

-- A length of 1 to 128.
abbrev pub is_name : String → Bool
is_name s = is_sized 1 128 s

abbrev pub identifier : Option Value → Option String
identifier v = matching (is_identifier 8 128) v

abbrev pub hash : Option Value → Option String
hash v = matching (is_hash 64) v

abbrev pub whole_from : ℕ → Option Value → Option ℕ
whole_from lo v = do n ← whole v; guard (leb lo n); some n
