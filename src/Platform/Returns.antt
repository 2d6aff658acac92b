-- ===== src/Platform/Returns.antt =====
-- What an action that returned says of its parts: the steps of a block returned one after another.
use mathlib.Core.Path.{subst}
use auth_service_go.Base.{◌≡◌, refl, ap, Bool, true, false, inl, inr, Bool-cases, if◌then◌else◌}
use auth_service_go.Base.Strings.{Str}
use auth_service_go.Domain.{Error, Time}
use auth_service_go.Database.{Db}
use auth_service_go.Platform.{
  Platform, World, Result, ok, err, Action, return, fail, asks, wrapping, wrap_result, statement,
  continue, ◌>>=◌,
}

-- The action returned this value and left this world.
abbrev pub Returns : {A : Type 0} → Action A → Platform → World → A → World → Type 0
Returns m p w a w' = m p w ≡ (ok a, w')

module _ {A : Type 0} where
  pub Returns-outcome :
      (m : Action A) (p : Platform) (w : World) (a : A)
      → (m p w).0 ≡ ok a
      → Returns m p w a (m p w).1
  Returns-outcome m p w a h = ap (λ (r : Result A). (r, (m p w).1)) h

  pub wrapping-Returns :
      (message : Str) (m : Action A) (p : Platform) (w w' : World) (a : A)
      → Returns (wrapping message m) p w a w'
      → Returns m p w a w'
  unfolding wrapping
  wrapping-Returns message m p w w' a h = go (m p w).0 (m p w).1 h
    where
      go :
          (r : Result A) (v : World)
          → ◌≡◌ {A = Result A × World} (wrap_result message r, v) (ok a, w')
          → ◌≡◌ {A = Result A × World} (r, v) (ok a, w')
      go (ok b) v q = q
      go (err e) v q = cc

  -- A statement that returned ran on the tables.
  pub statement-Returns :
      (f : Time → Db → Result A × Db) (p : Platform) (w w' : World) (a : A)
      → Returns (statement f) p w a w'
      → f (p.time w.calls) w.db ≡ (ok a, w'.db)
  unfolding statement
  statement-Returns f p w w' a h = elim (Bool-cases (p.fails w.calls)) [
    | inl failed ↦ cc (rw failed at h)
    | inr works ↦ ap (λ (x : Result A × World). (x.0, x.1.db)) (rw works at h)
  ]

module _ {A B : Type 0} {p : Platform} {w w'' : World} {b : B} where
  pub bind-Returns :
      (m : Action A) (f : A → Action B)
      → Returns (m >>= f) p w b w''
      → (a : A) × (w' : World) × Returns m p w a w' × Returns (f a) p w' b w''
  unfolding ◌>>=◌
  bind-Returns m f h = go (m p w).0 (m p w).1 refl h
    where
      go :
          (r : Result A) (v : World)
          → m p w ≡ (r, v)
          → continue r f p v ≡ (ok b, w'')
          → (a : A) × (w' : World) × Returns m p w a w' × Returns (f a) p w' b w''
      go (ok a) v e q = (a, v, e, q)
      go (err e) v _ q = cc

-- From a world with the first property, the value and the world that the action returns have the
-- second. Nothing is said of an action that fails.
module _ (p : Platform) where
  pub record Ensures {A : Type 0} (P : World → Type 0) (m : Action A) (Q : A → World → Type 0)
      : Type 0 where
    pub at : (w w' : World) (a : A) → P w → Returns m p w a w' → Q a w'

abbrev pub Anywhere : World → Type 0
Anywhere _ = Unit

module _ {p : Platform} {A : Type 0} {P : World → Type 0} {Q : A → World → Type 0} where
  pub Ensures-fail : (e : Error) → Ensures p P (fail {A = A} e) Q
  unfolding fail
  Ensures-fail e = record { at = λ w w' a h q. cc }

  pub Ensures-return : (a : A) → ((w : World) → P w → Q a w) → Ensures p P (return a) Q
  unfolding return
  Ensures-return a imp = record {
    at = λ w w' b h q. subst (λ (r : Result A × World). value r.0 r.1) q (imp w h);
  }
    where
      value : Result A → World → Type 0
      value (ok b) v = Q b v
      value (err _) v = Unit

  pub Ensures-wrapping :
      (message : Str) (m : Action A) → Ensures p P m Q → Ensures p P (wrapping message m) Q
  Ensures-wrapping message m k = record {
    at = λ w w' a h q. k.at w w' a h (wrapping-Returns message m p w w' a q);
  }

  pub Ensures-statement :
      (f : Time → Db → Result A × Db)
      → ((w w' : World) (a : A) → P w → f (p.time w.calls) w.db ≡ (ok a, w'.db) → Q a w')
      → Ensures p P (statement f) Q
  Ensures-statement f ran = record {
    at = λ w w' a h q. ran w w' a h (statement-Returns f p w w' a q);
  }

  pub Ensures-if :
      (b : Bool) (m n : Action A)
      → (b ≡ true → Ensures p P m Q)
      → (b ≡ false → Ensures p P n Q)
      → Ensures p P (if b then m else n) Q
  Ensures-if true m n km kn = km refl
  Ensures-if false m n km kn = kn refl

  -- A fact that the first property gives may be used for the rest.
  pub Ensures-given :
      (F : Type 0) (m : Action A)
      → ((w : World) → P w → F)
      → (F → Ensures p P m Q)
      → Ensures p P m Q
  Ensures-given F m fact k = record { at = λ w w' a h. (k (fact w h)).at w w' a h }

  pub Ensures-asks : (f : Platform → A) → ((w : World) → P w → Q (f p) w) → Ensures p P (asks f) Q
  unfolding asks return
  Ensures-asks f imp = record { at = λ w w' a h. (Ensures-return (f p) imp).at w w' a h }

module _ {p : Platform} {A B : Type 0} {P : World → Type 0} {Q : B → World → Type 0} where
  pub Ensures-bind :
      (R : A → World → Type 0) (m : Action A) (f : A → Action B)
      → Ensures p P m R
      → ((a : A) → Ensures p (R a) (f a) Q)
      → Ensures p P (m >>= f) Q
  Ensures-bind R m f km kf = record {
    at = λ w w' b h q.
        let (a, v, first, rest) = bind-Returns m f q in (kf a).at v w' b (km.at w v a h first) rest;
  }

  -- What the first action does is of no concern.
  pub Ensures-after :
      (m : Action A) (f : A → Action B)
      → ((a : A) → Ensures p Anywhere (f a) Q)
      → Ensures p P (m >>= f) Q
  Ensures-after m f kf = Ensures-bind (λ _ _. Unit) m f (record { at = λ w w' a h q. tt }) kf

  -- The rest knows the value that was read off the platform.
  pub Ensures-bind-asks :
      (g : Platform → A) (f : A → Action B) → Ensures p P (f (g p)) Q → Ensures p P (asks g >>= f) Q
  unfolding ◌>>=◌
  Ensures-bind-asks g f k = record { at = λ w w' b h q. k.at w w' b h q }
