-- ===== src/Base/Strings/Trim.antt =====
-- Trimming and lower-casing commute and do nothing the second time.
use auth_service_go.Base.{
  ℕ, ◌+◌, ◌≤◌, ◌≡◌, refl, ap, Bool, true, false, [], ◌∷◌, arith, ◌⊎◌, ◌≢◌, inl, inr, Bool-cases,
}
use auth_service_go.Base.Strings.{
  Str, is_space, trim_left, trim_right, keep_right, trim_space, lower_rune, to_lower,
}

-- What Unicode's lower-case table does from U+0080 on: it leaves its own results alone, and maps
-- what is no space to no space and spaces to spaces.
pub record IsLowerTable (table : ℕ → ℕ) : Type 0 where
  pub lowered : (c : ℕ) → 0x80 ≤ c → lower_rune table (table c) ≡ table c
  pub spaces : (c : ℕ) → 0x80 ≤ c → is_space (table c) ≡ is_space c

trim_left_idem : (s : Str) → trim_left (trim_left s) ≡ trim_left s
unfolding trim_left
trim_left_idem [] = refl
trim_left_idem (c ∷ s) = elim (Bool-cases (is_space c)) [
  | inl e ↦ rw e (trim_left_idem s)
  | inr e ↦ rw e (rw e refl)
]

keep_right-cons : (c : ℕ) (s : Str) → is_space c ≡ false → trim_right (c ∷ s) ≡ c ∷ trim_right s
unfolding trim_right
keep_right-cons c s e = rw e

-- What is left of a string after its trailing spaces, character by character.
trim_right-cases :
    (c : ℕ) (s : Str)
    → (is_space c ≡ true) × (trim_right s ≡ []) × (trim_right (c ∷ s) ≡ [])
      ⊎ (trim_right (c ∷ s) ≡ c ∷ trim_right s) × ((is_space c ≡ false) ⊎ (trim_right s ≢ []))
unfolding trim_right
trim_right-cases c s = go (is_space c) (trim_right s) refl refl
  where
    go :
        (b : Bool) (r : Str)
        → is_space c ≡ b
        → trim_right s ≡ r
        → (is_space c ≡ true) × (trim_right s ≡ []) × (trim_right (c ∷ s) ≡ [])
          ⊎ (trim_right (c ∷ s) ≡ c ∷ trim_right s) × ((is_space c ≡ false) ⊎ (trim_right s ≢ []))
    go true [] e f = inl (e, f, rw (e, f, keep_right))
    go true (x ∷ r) e f = inr (rw (e, f, keep_right), inr (rw f (λ q. cc)))
    go false r e f = inr (rw (e, keep_right), inl e)

trim_right_idem : (s : Str) → trim_right (trim_right s) ≡ trim_right s
unfolding trim_right
trim_right_idem [] = refl
trim_right_idem (c ∷ s) = ground (arith, trim_right-cases c s, trim_right_idem s)

trim_comm : (s : Str) → trim_left (trim_right s) ≡ trim_right (trim_left s)
unfolding trim_left trim_right
trim_comm [] = refl
trim_comm (c ∷ s) = ground (arith, trim_comm s)

lower_rune-cases :
    (table : ℕ → ℕ) (c : ℕ)
    → (b'A' ≤ c) × (c ≤ b'Z') × (lower_rune table c ≡ c + 32)
      ⊎ (lower_rune table c ≡ c)
      ⊎ (0x80 ≤ c) × (lower_rune table c ≡ table c)
unfolding lower_rune
lower_rune-cases table c = ground arith

lower_rune-lower :
    (table : ℕ → ℕ) (c : ℕ) → b'A' ≤ c → c ≤ b'Z' → lower_rune table (c + 32) ≡ c + 32
unfolding lower_rune
lower_rune-lower table c l u = ground arith

is_space-upper : (c : ℕ) → b'A' ≤ c → c ≤ b'Z' → is_space (c + 32) ≡ is_space c
unfolding is_space
is_space-upper c l u = ground arith

module _ {table : ℕ → ℕ} (h : IsLowerTable table) where
  lower_rune_idem : (c : ℕ) → lower_rune table (lower_rune table c) ≡ lower_rune table c
  lower_rune_idem c = elim (lower_rune-cases table c) [
    | inl (l, u, e) ↦ rw e (lower_rune-lower table c l u)
    | inr (inl e) ↦ ap (lower_rune table) e
    | inr (inr (l, e)) ↦ rw e (h.lowered c l)
  ]

  is_space-lower_rune : (c : ℕ) → is_space (lower_rune table c) ≡ is_space c
  is_space-lower_rune c = elim (lower_rune-cases table c) [
    | inl (l, u, e) ↦ rw e (is_space-upper c l u)
    | inr (inl e) ↦ ap is_space e
    | inr (inr (l, e)) ↦ rw e (h.spaces c l)
  ]

  trim_left-to_lower : (s : Str) → trim_left (to_lower table s) ≡ to_lower table (trim_left s)
  unfolding trim_left to_lower
  trim_left-to_lower [] = refl
  trim_left-to_lower (c ∷ s) = ground (arith, is_space-lower_rune c, trim_left-to_lower s)

  trim_right-to_lower : (s : Str) → trim_right (to_lower table s) ≡ to_lower table (trim_right s)
  unfolding trim_right to_lower
  trim_right-to_lower [] = refl
  trim_right-to_lower (c ∷ s) = ground (arith, is_space-lower_rune c, trim_right-to_lower s)

  to_lower_idem : (s : Str) → to_lower table (to_lower table s) ≡ to_lower table s
  unfolding to_lower
  to_lower_idem [] = refl
  to_lower_idem (c ∷ s) = cc (lower_rune_idem c, to_lower_idem s)

  -- Trimming and lower-casing once is enough.
  pub to_lower-trim_space_idem :
      (s : Str)
      → to_lower table (trim_space (to_lower table (trim_space s))) ≡ to_lower table (trim_space s)
  unfolding trim_space
  to_lower-trim_space_idem s = simp (
    trim_left-to_lower, trim_right-to_lower, to_lower_idem, trim_comm, trim_left_idem,
    trim_right_idem,
  )
