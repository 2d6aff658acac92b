-- ===== src/Startup/Keys/BigBytes.antt =====
-- `big.Int.Bytes`: the big-endian digits of a number in base 256, without leading zeros, and the
-- number that they spell.
use auth_service_go.Base.{
  ℕ, zero, suc, ◌+◌, ◌*◌, ◌/◌, ◌%◌, ◌≤◌, ◌≡◌, refl, ◌∙◌, ap, inl, inr, Bool-cases, [], ◌∷◌, ◌==◌,
  arith, if◌then◌else◌,
}
use auth_service_go.Base.Strings.{Bytes}
use auth_service_go.Encoding.RoundTrip.{IsBytes}

-- The digits before `low`; each round takes one, so that `n` rounds are enough for `n`.
digits : ℕ → ℕ → Bytes → Bytes
digits zero n low = low
digits (suc fuel) n low =
    let more = digits fuel (n / 256) ((n % 256) ∷ low) in if n == 0 then low else more

unfoldable pub big_bytes : ℕ → Bytes
unfolding digits
big_bytes n = digits n n []

-- The number that the digits spell after those of `n`.
abbrev pub spelled_after : ℕ → Bytes → ℕ
spelled_after n [] = n
spelled_after n (b ∷ bs) = spelled_after (n * 256 + b) bs

abbrev pub spelled : Bytes → ℕ
spelled = spelled_after 0

spelled-digits :
    (fuel n : ℕ) (low : Bytes) → n ≤ fuel → spelled (digits fuel n low) ≡ spelled_after n low
unfolding digits
spelled-digits zero zero low h = refl
spelled-digits zero (suc n) low h = absurd (omega arith)
spelled-digits (suc fuel) n low h = elim (Bool-cases (n == 0)) [
  | inl done ↦ rw done (ap (λ k. spelled_after k low) (ground arith))
  | inr more ↦ rw more (
      spelled-digits fuel (n / 256) ((n % 256) ∷ low) (ground arith)
      ∙ ap (λ k. spelled_after k low) (omega arith))
]

pub spelled-big_bytes : (n : ℕ) → spelled (big_bytes n) ≡ n
unfolding big_bytes
spelled-big_bytes n = spelled-digits n n [] (omega arith)

digits-IsBytes : (fuel n : ℕ) (low : Bytes) → IsBytes low → IsBytes (digits fuel n low)
unfolding digits
digits-IsBytes zero n low h = h
digits-IsBytes (suc fuel) n low h = elim (Bool-cases (n == 0)) [
  | inl done ↦ rw done h
  | inr more ↦ rw more (digits-IsBytes fuel (n / 256) ((n % 256) ∷ low) (omega arith, h))
]

pub big_bytes-IsBytes : (n : ℕ) → IsBytes (big_bytes n)
unfolding big_bytes
big_bytes-IsBytes n = digits-IsBytes n n [] tt
