-- ===== src/Protocol/Value/Text.antt =====
-- Texts as packages/protocol/src reads them: the patterns of identifiers, hashes and colors, the
-- lengths in code points and in UTF-16 units, and `String.prototype.trim`.
use Prim.Native.Char.{code}
use Prim.Native.String.{String}
use echa.Prelude.{
  ℕ, ◌+◌, Bool, true, false, not, ◌&&◌, ◌||◌, List, [], ◌∷◌, leb, ◌==◌, if◌then◌else◌, length,
}

-- The code points of a text.
abbrev pub codes : String → List ℕ
codes String.[] = []
codes (String.◌∷◌ c s) = code c ∷ codes s

-- `[...value].length`.
abbrev pub code_point_length : String → ℕ
code_point_length s = length (codes s)

-- A code point past the basic plane takes two UTF-16 units.
abbrev pub units : List ℕ → ℕ
units [] = 0
units (c ∷ cs) = (if leb 0x10000 c then 2 else 1) + units cs

-- `value.length`.
abbrev pub utf16_length : String → ℕ
utf16_length s = units (codes s)

abbrev pub is_between : ℕ → ℕ → ℕ → Bool
is_between lo hi c = leb lo c && leb c hi

abbrev pub all_codes : (ℕ → Bool) → List ℕ → Bool
all_codes p [] = true
all_codes p (c ∷ cs) = p c && all_codes p cs

-- `[A-Za-z0-9_-]`.
abbrev pub is_url_safe : ℕ → Bool
is_url_safe c =
    is_between b'A' b'Z' c
    || is_between b'a' b'z' c
    || is_between b'0' b'9' c
    || c == b'_'
    || c == b'-'

-- `[a-f0-9]`.
abbrev pub is_hex : ℕ → Bool
is_hex c = is_between b'a' b'f' c || is_between b'0' b'9' c

-- `^[A-Za-z0-9_-]{lo,hi}$`.
unfoldable pub is_identifier : ℕ → ℕ → String → Bool
is_identifier lo hi s = all_codes is_url_safe (codes s) && is_between lo hi (length (codes s))

-- `^[a-f0-9]{n}$`.
unfoldable pub is_hash : ℕ → String → Bool
is_hash n s = all_codes is_hex (codes s) && length (codes s) == n

abbrev pub color_tail : List ℕ → Bool
color_tail [] = false
color_tail (c ∷ cs) = c == b'#' && all_codes is_hex cs && length cs == 6

-- `^#[0-9a-f]{6}$`.
unfoldable pub is_color : String → Bool
is_color s = color_tail (codes s)

-- A length of `lo` to `hi` units.
unfoldable pub is_sized : ℕ → ℕ → String → Bool
is_sized lo hi s = is_between lo hi (utf16_length s)

-- A length of `lo` to `hi` code points.
unfoldable pub is_counted : ℕ → ℕ → String → Bool
is_counted lo hi s = is_between lo hi (code_point_length s)

-- `startsWith`, on code points.
abbrev pub starts_with : List ℕ → List ℕ → Bool
starts_with [] cs = true
starts_with (p ∷ ps) [] = false
starts_with (p ∷ ps) (c ∷ cs) = p == c && starts_with ps cs

-- The white space and line ends that `String.prototype.trim` takes away.
abbrev pub is_space : ℕ → Bool
is_space c =
    is_between 9 13 c
    || c == 32
    || c == 160
    || c == 0x1680
    || is_between 0x2000 0x200A c
    || is_between 0x2028 0x2029 c
    || c == 0x202F
    || c == 0x205F
    || c == 0x3000
    || c == 0xFEFF

abbrev pub no_space_last : List ℕ → Bool
no_space_last [] = true
no_space_last (c ∷ cs) =
    let rest = no_space_last cs in if length cs == 0 then not (is_space c) else rest

abbrev pub no_space_around : List ℕ → Bool
no_space_around [] = true
no_space_around (c ∷ cs) = not (is_space c) && no_space_last (c ∷ cs)

-- `value === value.trim()`.
unfoldable pub is_trimmed : String → Bool
is_trimmed s = no_space_around (codes s)

abbrev pub drop_spaces : String → String
drop_spaces String.[] = String.[]
drop_spaces (String.◌∷◌ c s) =
    let rest = drop_spaces s in if is_space (code c) then rest else String.◌∷◌ c s

abbrev pub is_empty : String → Bool
is_empty String.[] = true
is_empty (String.◌∷◌ c s) = false

abbrev pub trim_end : String → String
trim_end String.[] = String.[]
trim_end (String.◌∷◌ c s) =
    let rest = trim_end s in
    if is_space (code c) && is_empty rest then String.[] else String.◌∷◌ c rest

-- `value.trim()`.
unfoldable pub trim : String → String
trim s = trim_end (drop_spaces s)
