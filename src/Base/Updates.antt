-- ===== src/Base/Updates.antt =====
-- Keys and queries over a list of rows after an append and after an update.
use mathlib.Core.Path.{subst}
use mathlib.Core.Option
use auth_service_go.Base.{
  ◌≡◌, ◌≢◌, refl, Bool, true, false, Option, none, some, List, [], ◌∷◌, ◌++◌, if◌then◌else◌,
  Bool-cases, arith, inl, inr, sym, ap, ◌∙◌,
}
use auth_service_go.Base.Lists.{
  All, exists, update_where, pick, best, UniqueBy, All-append, All-update_where, All-mono,
}

module _ {ℓ} {A : Type ℓ} {K : Type 0} (key : A → K) where
  pub UniqueBy-append :
      (r : A) (xs : List A)
      → UniqueBy key xs
      → All (λ y. key y ≢ key r) xs
      → UniqueBy key (xs ++ r ∷ [])
  UniqueBy-append r [] u h = (tt, tt)
  UniqueBy-append r (x ∷ xs) u h = (
    All-append (λ y. key y ≢ key x) xs (r ∷ []) u.0 (λ e. h.0 (sym e), tt),
    UniqueBy-append r xs u.1 h.1,
  )

  module _ (test : A → Bool) (change : A → A) (same : (a : A) → key (change a) ≡ key a) where
    head_same : (x : A) (b : Bool) → key (if b then change x else x) ≡ key x
    head_same x true = same x
    head_same x false = refl

    keys_ne :
        (k : K) (xs : List A)
        → All (λ y. key y ≢ k) xs
        → All (λ y. key y ≢ k) (update_where test change xs)
    keys_ne k xs h =
        All-update_where (λ y. key y ≢ k) test change xs
          (All-mono _ _ (λ a ne. (λ _ e. ne (sym (same a) ∙ e), λ _. ne)) xs h)

    pub UniqueBy-update_where :
        (xs : List A) → UniqueBy key xs → UniqueBy key (update_where test change xs)
    UniqueBy-update_where [] u = tt
    UniqueBy-update_where (x ∷ xs) u = (
      subst (λ k. All (λ y. key y ≢ k) (update_where test change xs)) (sym (head_same x (test x)))
          (keys_ne (key x) xs u.0),
      UniqueBy-update_where xs u.1,
    )

module _ {ℓ} {A : Type ℓ} (hit : A → Bool) (change : A → A) where
  -- An update that selects no row changes nothing.
  pub update_where-none :
      (xs : List A) → All (λ x. hit x ≡ false) xs → update_where hit change xs ≡ xs
  update_where-none [] h = refl
  update_where-none (x ∷ xs) h = rw (h.0, update_where-none xs h.1)

  -- An update that leaves a test alone leaves its query alone.
  pub exists-update_where_eq :
      (test : A → Bool) (xs : List A)
      → ((a : A) → test (change a) ≡ test a)
      → exists test (update_where hit change xs) ≡ exists test xs
  exists-update_where_eq test [] same = refl
  exists-update_where_eq test (x ∷ xs) same =
      ground (arith, same x, exists-update_where_eq test xs same)

  -- The new value of a row.
  abbrev pub updated : A → A
  updated x = if hit x then change x else x

  module _ (before : A → A → Bool) (test : A → Bool)
      (same_test : (x : A) → test (updated x) ≡ test x)
      (same_order : (x y : A) → before (updated x) (updated y) ≡ before x y) where
    pick-updated :
        (x : A) (o : Option A)
        → pick before (updated x) (Option.map updated o) ≡ updated (pick before x o)
    pick-updated x none = refl
    pick-updated x (some y) = elim (Bool-cases (before y x)) [
      | inl e ↦ rw (same_order y x, e)
      | inr e ↦ rw (same_order y x, e)
    ]

    -- A query whose test and order an update leaves alone finds the updated row.
    pub best-update_where :
        (xs : List A)
        → best before test (update_where hit change xs) ≡ Option.map updated (best before test xs)
    best-update_where [] = refl
    best-update_where (x ∷ xs) = elim (Bool-cases (test x)) [
      | inl e ↦
          rw (same_test x, e, best-update_where xs) (ap some (pick-updated x (best before test xs)))
      | inr e ↦ rw (same_test x, e) (best-update_where xs)
    ]

module _ {ℓ} {A : Type ℓ} (before : A → A → Bool) (test : A → Bool) where
  -- A row that goes before all that pass, at the end.
  pub best-append_first :
      (r : A) (xs : List A)
      → All (λ x. before r x ≡ true) xs
      → test r ≡ true
      → best before test (xs ++ r ∷ []) ≡ some r
  best-append_first r [] h e = rw e
  best-append_first r (x ∷ xs) h e = elim (Bool-cases (test x)) [
    | inl hit ↦ rw (best-append_first r xs h.1 e, hit, h.0)
    | inr skip ↦ rw (best-append_first r xs h.1 e, skip)
  ]
