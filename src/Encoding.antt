-- ===== src/Encoding.antt =====
-- `encoding/hex` and `encoding/base64` (`RawURLEncoding`), as the service uses them, and
-- `strings.Cut` at a dot.
pub mod RoundTrip
use auth_service_go.Base.{
  ℕ, ◌+◌, ◌-◌, ◌*◌, ◌/◌, ◌%◌, Bool, true, false, ◌&&◌, ◌||◌, Option, none, some, List, [], ◌∷◌,
  ◌==◌, ltb, leb, if◌then◌else◌,
}
use auth_service_go.Base.Strings.{Str, Bytes}

hex_digit : ℕ → ℕ
hex_digit v = if ltb v 10 then b'0' + v else b'a' + v - 10

-- `hex.EncodeToString`.
unfoldable pub hex : Bytes → Str
unfolding hex_digit
hex [] = []
hex (b ∷ bs) = hex_digit (b / 16) ∷ hex_digit (b % 16) ∷ hex bs

-- A letter of the URL alphabet.
unfoldable pub letter : ℕ → ℕ
letter v =
    if ltb v 26
    then b'A' + v
    else if ltb v 52
    then b'a' + (v - 26)
    else if ltb v 62
    then b'0' + (v - 52)
    else if v == 62
    then b'-'
    else b'_'

unfoldable pub letter_value : ℕ → Option ℕ
letter_value c =
    if leb b'A' c && leb c b'Z'
    then some (c - b'A')
    else if leb b'a' c && leb c b'z'
    then some (c - b'a' + 26)
    else if leb b'0' c && leb c b'9'
    then some (c - b'0' + 52)
    else if c == b'-'
    then some 62
    else if c == b'_'
    then some 63
    else none

-- `base64.RawURLEncoding.EncodeToString`: three bytes to four letters, no padding.
unfoldable pub encode : Bytes → Str
encode [] = []
encode (a ∷ []) = letter (a / 4) ∷ letter (a % 4 * 16) ∷ []
encode (a ∷ b ∷ []) = letter (a / 4) ∷ letter (a % 4 * 16 + b / 16) ∷ letter (b % 16 * 4) ∷ []
encode (a ∷ b ∷ c ∷ rest) =
    letter (a / 4)
    ∷ letter (a % 4 * 16 + b / 16)
    ∷ letter (b % 16 * 4 + c / 64)
    ∷ letter (c % 64)
    ∷ encode rest

-- The decoder passes over line ends.
unfoldable pub drop_line_ends : Str → Str
drop_line_ends [] = []
drop_line_ends (c ∷ s) =
    let rest = drop_line_ends s in if c == 0x0D || c == 0x0A then rest else c ∷ rest

unfoldable pub values : Str → Option (List ℕ)
values [] = some []
values (c ∷ s) = elim (letter_value c) [
  | none ↦ none
  | some v ↦ elim (values s) [ none ↦ none | some vs ↦ some (v ∷ vs) ]
]

abbrev pub prepend : ℕ → ℕ → ℕ → Option Bytes → Option Bytes
prepend a b c none = none
prepend a b c (some bs) = some (a ∷ b ∷ c ∷ bs)

unfoldable pub from_values : List ℕ → Option Bytes
from_values [] = some []
from_values (u ∷ []) = none
from_values (u ∷ v ∷ []) = some ((u * 4 + v / 16) ∷ [])
from_values (u ∷ v ∷ x ∷ []) = some ((u * 4 + v / 16) ∷ (v % 16 * 16 + x / 4) ∷ [])
from_values (u ∷ v ∷ x ∷ y ∷ rest) =
    prepend (u * 4 + v / 16) (v % 16 * 16 + x / 4) (x % 4 * 64 + y) (from_values rest)

abbrev and_then : Option (List ℕ) → Option Bytes
and_then none = none
and_then (some vs) = from_values vs

-- `base64.RawURLEncoding.DecodeString`; `none` is its error.
unfoldable pub decode : Str → Option Bytes
decode s = and_then (values (drop_line_ends s))

abbrev pub cons_before : ℕ → Option (Str × Str) → Option (Str × Str)
cons_before c none = none
cons_before c (some (before, after)) = some (c ∷ before, after)

-- `strings.Cut(s, ".")`; `none` where there is no dot.
unfoldable pub cut_dot : Str → Option (Str × Str)
cut_dot [] = none
cut_dot (c ∷ s) = let rest = cons_before c (cut_dot s) in if c == b'.' then some ([], s) else rest
