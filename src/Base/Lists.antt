-- ===== src/Base/Lists.antt =====
-- Queries and updates over lists of rows, with the laws that the proofs use: a bounded predicate
-- `All`, keys without repetition `UniqueBy`, and the first row of an ordered query, `best`.
use mathlib.Core.Path.{subst}
use auth_service_go.Base.{
  ℕ, suc, ◌≡◌, ◌≢◌, refl, Bool, true, false, Option, none, some, List, [], ◌∷◌, ◌++◌, arith,
  if◌then◌else◌, ltb, Bool-cases, ◌⊎◌, inl, inr, sym, ap, ◌∙◌,
}

module _ {ℓ} {A : Type ℓ} where
  abbrev pub length : List A → ℕ
  length [] = 0
  length (x ∷ xs) = suc (length xs)

  abbrev pub All {κ} : (A → Type κ) → List A → Type κ
  All P [] = Unit
  All P (x ∷ xs) = P x × All P xs

  -- `SELECT count(*) … WHERE test`.
  abbrev pub count_where : (A → Bool) → List A → ℕ
  count_where test [] = 0
  count_where test (x ∷ xs) = if test x then suc (count_where test xs) else count_where test xs

  abbrev pub exists : (A → Bool) → List A → Bool
  exists test [] = false
  exists test (x ∷ xs) = if test x then true else exists test xs

  -- `UPDATE … SET … WHERE test`.
  abbrev pub update_where : (A → Bool) → (A → A) → List A → List A
  update_where test change [] = []
  update_where test change (x ∷ xs) = (if test x then change x else x) ∷ update_where test change xs

  abbrev pub pick : (A → A → Bool) → A → Option A → A
  pick before x none = x
  pick before x (some y) = if before y x then y else x

  -- `SELECT … WHERE test ORDER BY … LIMIT 1`, where `before` is the order.
  abbrev pub best : (A → A → Bool) → (A → Bool) → List A → Option A
  best before test [] = none
  best before test (x ∷ xs) =
      let rest = best before test xs in if test x then some (pick before x rest) else rest

  -- Some row has the property, its place in the list kept.
  abbrev pub Any : (A → Type 0) → List A → Type 0
  Any P [] = ⊥
  Any P (x ∷ xs) = P x ⊎ Any P xs

  -- No two rows have the same key.
  abbrev pub UniqueBy : {K : Type 0} → (A → K) → List A → Type 0
  UniqueBy key [] = Unit
  UniqueBy key (x ∷ xs) = All (λ y. key y ≢ key x) xs × UniqueBy key xs

  pub length-concat : (xs : List A) (x : A) → length (xs ++ x ∷ []) ≡ suc (length xs)
  length-concat [] x = refl
  length-concat (y ∷ xs) x = ap suc (length-concat xs x)

module _ {ℓ κ} {A : Type ℓ} (P : A → Type κ) where
  pub All-append : (xs ys : List A) → All P xs → All P ys → All P (xs ++ ys)
  All-append [] ys h k = k
  All-append (x ∷ xs) ys h k = (h.0, All-append xs ys h.1 k)

  -- An update gives each row that it selects the property that the change establishes.
  pub All-update_where :
      (test : A → Bool) (change : A → A) (xs : List A)
      → All (λ a. (test a ≡ true → P (change a)) × (test a ≡ false → P a)) xs
      → All P (update_where test change xs)
  All-update_where test change [] h = tt
  All-update_where test change (x ∷ xs) h = (go (test x) refl, All-update_where test change xs h.1)
    where
      go : (b : Bool) → test x ≡ b → P (if b then change x else x)
      go true e = h.0.0 e
      go false e = h.0.1 e

  pub All-pure : ((a : A) → P a) → (xs : List A) → All P xs
  All-pure f [] = tt
  All-pure f (x ∷ xs) = (f x, All-pure f xs)

module _ {ℓ} {A : Type ℓ} (P : A → Type 0) where
  pub Any-append : (xs ys : List A) → Any P xs → Any P (xs ++ ys)
  Any-append [] ys h = absurd h
  Any-append (x ∷ xs) ys (inl h) = inl h
  Any-append (x ∷ xs) ys (inr h) = inr (Any-append xs ys h)

  pub Any-append_right : (xs : List A) {y : A} → P y → Any P (xs ++ y ∷ [])
  Any-append_right [] h = inl h
  Any-append_right (x ∷ xs) h = inr (Any-append_right xs h)

  -- An update whose change keeps the property keeps the row.
  pub Any-update_where :
      (test : A → Bool) (change : A → A)
      → ((a : A) → P a → P (change a))
      → (xs : List A) → Any P xs
      → Any P (update_where test change xs)
  Any-update_where test change imp [] h = absurd h
  Any-update_where test change imp (x ∷ xs) (inl h) = inl (go (test x))
    where
      go : (b : Bool) → P (if b then change x else x)
      go true = imp x h
      go false = h
  Any-update_where test change imp (x ∷ xs) (inr h) = inr (Any-update_where test change imp xs h)

  pub Any-exists :
      (test : A → Bool)
      → ((a : A) → P a → test a ≡ true)
      → (xs : List A) → Any P xs
      → exists test xs ≡ true
  Any-exists test imp [] h = absurd h
  Any-exists test imp (x ∷ xs) (inl h) = rw (imp x h) refl
  Any-exists test imp (x ∷ xs) (inr h) = ground (arith, Any-exists test imp xs h)

  pub Any-All : (Q : A → Type 0) (xs : List A) → Any P xs → All Q xs → (a : A) × P a × Q a
  Any-All Q [] h k = absurd h
  Any-All Q (x ∷ xs) (inl h) k = (x, h, k.0)
  Any-All Q (x ∷ xs) (inr h) k = Any-All Q xs h k.1

module _ {ℓ κ μ} {A : Type ℓ} (P : A → Type κ) (Q : A → Type μ) where
  pub All-mono : ((a : A) → P a → Q a) → (xs : List A) → All P xs → All Q xs
  All-mono imp [] h = tt
  All-mono imp (x ∷ xs) h = (imp x h.0, All-mono imp xs h.1)

  pub All-both : (xs : List A) → All P xs → All Q xs → All (λ a. P a × Q a) xs
  All-both [] h k = tt
  All-both (x ∷ xs) h k = ((h.0, k.0), All-both xs h.1 k.1)

module _ {ℓ} {A : Type ℓ} (before : A → A → Bool) (test : A → Bool) where
  pub best-none : (xs : List A) → best before test xs ≡ none → All (λ x. test x ≡ false) xs
  best-none [] e = tt
  best-none (x ∷ xs) e = ground (arith, best-none xs)

  pub best-eq-none : (xs : List A) → All (λ x. test x ≡ false) xs → best before test xs ≡ none
  best-eq-none [] h = refl
  best-eq-none (x ∷ xs) h = rw (h.0) (best-eq-none xs h.1)

  -- The only row that passes, at the end.
  pub best-append :
      (r : A) (xs : List A)
      → All (λ x. test x ≡ false) xs
      → test r ≡ true
      → best before test (xs ++ r ∷ []) ≡ some r
  best-append r [] h e = rw e
  best-append r (x ∷ xs) h e = rw (h.0) (best-append r xs h.1 e)

  pub best-exists : (xs : List A) (r : A) → best before test xs ≡ some r → exists test xs ≡ true
  best-exists [] r e = cc
  best-exists (x ∷ xs) r e = elim (Bool-cases (test x)) [
    | inl hit ↦ rw hit
    | inr skip ↦ rw skip (best-exists xs r (rw skip at e))
  ]

  pub best-ne-none : (xs : List A) → exists test xs ≡ true → best before test xs ≢ none
  best-ne-none [] e n = cc
  best-ne-none (x ∷ xs) e n = elim (Bool-cases (test x)) [
    | inl hit ↦ cc (rw hit at n)
    | inr skip ↦ best-ne-none xs (rw skip at e) (rw skip at n)
  ]

  -- The first of a query is the head of the list, or the first of the tail.
  best-cases :
      (x : A) (xs : List A) (r : A)
      → best before test (x ∷ xs) ≡ some r
      → (test x ≡ true) × (x ≡ r) ⊎ (best before test xs ≡ some r)
  best-cases x xs r e = elim (Bool-cases (test x)) [
    | inr skip ↦ inr (rw skip at e)
    | inl hit ↦ ground (arith)
  ]

  -- The row that a query returns passes its test, and has every property that all rows have.
  pub All-best :
      (P : A → Type 0) (xs : List A) (r : A)
      → All P xs
      → best before test xs ≡ some r
      → P r × (test r ≡ true)
  All-best P [] r h e = cc
  All-best P (x ∷ xs) r h e = elim (best-cases x xs r e) [
    | inl (hit, p) ↦ subst (λ a. P a × (test a ≡ true)) p (h.0, hit)
    | inr q ↦ All-best P xs r h.1 q
  ]

  pub best-passes : (xs : List A) (r : A) → best before test xs ≡ some r → test r ≡ true
  best-passes xs r e = (All-best (λ _. Unit {0}) xs r (All-pure (λ _. Unit {0}) (λ _. tt) xs) e).1

  -- The row that a query returns is there.
  pub best-Any :
      (P : A → Type 0) (xs : List A) (r : A) → best before test xs ≡ some r → P r → Any P xs
  best-Any P [] r e h = cc
  best-Any P (x ∷ xs) r e h = elim (best-cases x xs r e) [
    | inl (hit, p) ↦ inl (subst P (sym p) h)
    | inr q ↦ inr (best-Any P xs r q h)
  ]

  -- Under a key without repetition the row that a query returns is the only one with its key.
  pub best_unique :
      {K : Type 0} (key : A → K) (xs : List A) (r : A)
      → UniqueBy key xs
      → best before test xs ≡ some r
      → All (λ y. key y ≡ key r → y ≡ r) xs
  best_unique key [] r u e = tt
  best_unique key (x ∷ xs) r u e = elim (best-cases x xs r e) [
    | inl (hit, p) ↦
        (λ _. p, All-mono _ _ (λ y ne same. absurd (ne (same ∙ sym (ap key p)))) xs u.0)
    | inr q ↦ (
      λ same. absurd ((All-best (λ y. key y ≢ key x) xs r u.0 q).0 (sym same)),
      best_unique key xs r u.1 q,
    )
  ]

module _ {ℓ} {A : Type ℓ} (test : A → Bool) where
  pub exists-All : (xs : List A) → exists test xs ≡ false → All (λ x. test x ≡ false) xs
  exists-All [] e = tt
  exists-All (x ∷ xs) e = ground (arith, exists-All xs)

  pub exists-append : (xs ys : List A) → exists test xs ≡ true → exists test (xs ++ ys) ≡ true
  exists-append [] ys e = cc
  exists-append (x ∷ xs) ys e = ground (arith, exists-append xs ys)

  pub exists-append_one : (xs : List A) (r : A) → test r ≡ true → exists test (xs ++ r ∷ []) ≡ true
  exists-append_one [] r h = rw h refl
  exists-append_one (x ∷ xs) r h = ground (arith, exists-append_one xs r h)

  pub exists-update_where :
      (hit : A → Bool) (change : A → A) (xs : List A)
      → ((a : A) → test (change a) ≡ test a)
      → exists test xs ≡ true
      → exists test (update_where hit change xs) ≡ true
  exists-update_where hit change [] same e = e
  exists-update_where hit change (x ∷ xs) same e =
      ground (arith, same x, exists-update_where hit change xs same)

  pub count_where-pos : (xs : List A) → ltb 0 (count_where test xs) ≡ exists test xs
  count_where-pos [] = refl
  count_where-pos (x ∷ xs) = ground (arith, count_where-pos xs)
