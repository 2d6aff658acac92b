-- ===== src/Encoding/RoundTrip.antt =====
-- Decoding undoes base64 encoding, and encoded text holds no dot.
use auth_service_go.Base.{
  ℕ, ◌+◌, ◌*◌, ◌/◌, ◌%◌, ◌<◌, ◌≡◌, refl, false, some, List, [], ◌∷◌, ◌++◌, map, ◌==◌, arith,
}
use auth_service_go.Base.Lists.{All}
use auth_service_go.Base.Strings.{Str, Bytes}
use auth_service_go.Encoding.{
  letter, letter_value, encode, drop_line_ends, values, from_values, decode, cut_dot,
}

abbrev pub IsBytes : Bytes → Type 0
IsBytes bs = All (λ b. b < 256) bs

letter_value-letter : (v : ℕ) → v < 64 → letter_value (letter v) ≡ some v
unfolding letter letter_value
letter_value-letter v h = ground arith

-- Letters are neither dots nor line ends.
letter_plain :
    (v : ℕ)
    → ((letter v == b'.') ≡ false) × ((letter v == 0x0D) ≡ false) × ((letter v == 0x0A) ≡ false)
unfolding letter
letter_plain v = ground arith

-- The six-bit values that the encoder writes as letters.
sextets : Bytes → List ℕ
sextets [] = []
sextets (a ∷ []) = (a / 4) ∷ (a % 4 * 16) ∷ []
sextets (a ∷ b ∷ []) = (a / 4) ∷ (a % 4 * 16 + b / 16) ∷ (b % 16 * 4) ∷ []
sextets (a ∷ b ∷ c ∷ rest) =
    (a / 4) ∷ (a % 4 * 16 + b / 16) ∷ (b % 16 * 4 + c / 64) ∷ (c % 64) ∷ sextets rest

encode-eq-map : (bs : Bytes) → encode bs ≡ map letter (sextets bs)
unfolding encode sextets
encode-eq-map [] = refl
encode-eq-map (a ∷ []) = refl
encode-eq-map (a ∷ b ∷ []) = refl
encode-eq-map (a ∷ b ∷ c ∷ rest) = rw (encode-eq-map rest)

sextets_bound : (bs : Bytes) → IsBytes bs → All (λ v. v < 64) (sextets bs)
unfolding sextets
sextets_bound [] h = tt
sextets_bound (a ∷ []) h = omega arith
sextets_bound (a ∷ b ∷ []) h = omega arith
sextets_bound (a ∷ b ∷ c ∷ rest) h =
    (omega arith, (omega arith, (omega arith, (omega arith, sextets_bound rest h.1.1.1))))

from_values-sextets : (bs : Bytes) → IsBytes bs → from_values (sextets bs) ≡ some bs
unfolding sextets from_values
from_values-sextets [] h = refl
from_values-sextets (a ∷ []) h = ground arith
from_values-sextets (a ∷ b ∷ []) h = ground arith
from_values-sextets (a ∷ b ∷ c ∷ rest) h = rw (from_values-sextets rest h.1.1.1) (ground arith)

drop_line_ends-letters : (vs : List ℕ) → drop_line_ends (map letter vs) ≡ map letter vs
unfolding drop_line_ends
drop_line_ends-letters [] = refl
drop_line_ends-letters (v ∷ vs) = ground (arith, letter_plain v, drop_line_ends-letters vs)

values-letters : (vs : List ℕ) → All (λ v. v < 64) vs → values (map letter vs) ≡ some vs
unfolding values
values-letters [] h = refl
values-letters (v ∷ vs) h = ground (arith, letter_value-letter v, values-letters vs)

-- Decoding what was encoded gives the bytes back.
pub decode-encode : (bs : Bytes) → IsBytes bs → decode (encode bs) ≡ some bs
unfolding decode
decode-encode bs h =
    rw
      (
        encode-eq-map bs,
        drop_line_ends-letters (sextets bs),
        values-letters (sextets bs) (sextets_bound bs h),
      )
      (from_values-sextets bs h)

cut_dot-letters :
    (vs : List ℕ) (rest : Str) → cut_dot (map letter vs ++ b'.' ∷ rest) ≡ some (map letter vs, rest)
unfolding cut_dot
cut_dot-letters [] rest = refl
cut_dot-letters (v ∷ vs) rest = rw ((letter_plain v).0, cut_dot-letters vs rest)

-- Cutting at the first dot splits off what was encoded, whatever follows.
pub cut_dot-encode :
    (bs : Bytes) (rest : Str) → cut_dot (encode bs ++ b'.' ∷ rest) ≡ some (encode bs, rest)
cut_dot-encode bs rest = rw (encode-eq-map bs) (cut_dot-letters (sextets bs) rest)
