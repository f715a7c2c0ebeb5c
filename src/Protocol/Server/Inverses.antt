-- ===== src/Protocol/Server/Inverses.antt =====
-- packages/protocol/src/server-codec.ts: texts of enumerations and arrays, there and back.
use echa.Prelude.{
  leb_of_le, ℕ, suc, ◌≤◌, ◌≡◌, refl, ap, ◌∙◌, true, Option, some, List, [], ◌∷◌, arith, All, length,
  map, leb, bind_of,
}
use echa.Protocol.Messages.{
  RejectCode, unsupported_version, unknown_opcode, unauthorized, role_forbidden, room_not_active,
  rate_limited, message_too_large, invalid_field, out_of_order, duplicate, stroke_not_found,
  stroke_already_final, room_limit_reached, service_emergency_stop, RoomRole, host, participant,
  viewer,
}
use echa.Protocol.Value.{Value, text, array, to_list, of_list}
use echa.Room.State.{
  RoomCloseReason, by_host, empty_timeout, max_duration, activity_limit, by_admin, by_account,
  by_probe,
}
use echa.Protocol.Server.{
  RemovalReason, kicked, room_banned, service_banned, role_text, code_text, reason_text,
  removal_text,
}
use echa.Protocol.Server.Read.{
  one_of, roles, reject_codes, close_reasons, removal_reasons, each, items_to,
}

pub role_back : (r : RoomRole) → one_of role_text roles (some (text (role_text r))) ≡ some r
role_back host = refl
role_back participant = refl
role_back viewer = refl

pub code_back :
    (c : RejectCode) → one_of code_text reject_codes (some (text (code_text c))) ≡ some c
code_back unsupported_version = refl
code_back unknown_opcode = refl
code_back unauthorized = refl
code_back role_forbidden = refl
code_back room_not_active = refl
code_back rate_limited = refl
code_back message_too_large = refl
code_back invalid_field = refl
code_back out_of_order = refl
code_back duplicate = refl
code_back stroke_not_found = refl
code_back stroke_already_final = refl
code_back room_limit_reached = refl
code_back service_emergency_stop = refl

pub reason_back :
    (r : RoomCloseReason) → one_of reason_text close_reasons (some (text (reason_text r))) ≡ some r
reason_back by_host = refl
reason_back empty_timeout = refl
reason_back max_duration = refl
reason_back activity_limit = refl
reason_back by_admin = refl
reason_back by_account = refl
reason_back by_probe = refl

pub removal_back :
    (r : RemovalReason)
    → one_of removal_text removal_reasons (some (text (removal_text r))) ≡ some r
removal_back kicked = refl
removal_back room_banned = refl
removal_back service_banned = refl

-- The list of an array, whose elements come back each.
pub each_back {ℓ} :
    {A B : Type ℓ} (f : Value → Option B) (g : A → Value) (back : A → B) (P : A → Type 0)
    → ((a : A) → P a → f (g a) ≡ some (back a))
    → (xs : List A) → All P xs
    → each f (to_list (of_list (map g xs))) ≡ some (map back xs)
each_back f g back P one [] h = refl
each_back f g back P one (x ∷ xs) h =
    bind_of _ (one x h.0) ∙ bind_of _ (each_back f g back P one xs h.1)

length_back {ℓ} :
    {A : Type ℓ} (g : A → Value) (xs : List A) → length (to_list (of_list (map g xs))) ≡ length xs
length_back g [] = refl
length_back g (x ∷ xs) = ap suc (length_back g xs)

pub items_back {ℓ} :
    {A : Type ℓ} (n : ℕ) (g : A → Value) (xs : List A)
    → length xs ≤ n
    → items_to n (some (array (of_list (map g xs)))) ≡ some (to_list (of_list (map g xs)))
items_back n g xs h =
    let short : leb (length (to_list (of_list (map g xs)))) n ≡ true =
      leb_of_le _ n (let same_length = length_back g xs in omega arith) in
    rw short refl

pub map_same {ℓ} : {A : Type ℓ} (xs : List A) → map (λ x. x) xs ≡ xs
map_same [] = refl
map_same (x ∷ xs) = ap (λ ys. x ∷ ys) (map_same xs)
