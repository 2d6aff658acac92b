-- ===== src/Platform/Brings.antt =====
-- What holds of the database after an action that returned, from what held before: rules for the
-- blocks of the use cases. What an action does before it fails is not spoken of.
use auth_service_go.Base.{◌≡◌, refl, Bool, true, false, inl, inr, Bool-cases, if◌then◌else◌}
use auth_service_go.Domain.{Error, Time}
use auth_service_go.Database.{Db}
use auth_service_go.Platform.{
  Platform, World, Result, ok, err, Action, fail, wrapping, wrap_result, statement, continue, ◌>>=◌,
}
use auth_service_go.Base.Strings.{Str}
use auth_service_go.Platform.Keeps.{Keeps}

module _ (p : Platform) (P Q : Db → Type 0) where
  pub record Brings {A : Type 0} (m : Action A) : Type 0 where
    pub at : (w : World) (a : A) → P w.db → (m p w).0 ≡ ok a → Q (m p w).1.db

module _ {p : Platform} {P Q : Db → Type 0} {A : Type 0} where
  pub Brings-fail : (e : Error) → Brings p P Q (fail {A = A} e)
  unfolding fail
  Brings-fail e = record { at = λ w a h q. cc }

  pub Brings-wrapping :
      (message : Str) (m : Action A) → Brings p P Q m → Brings p P Q (wrapping message m)
  unfolding wrapping
  Brings-wrapping message m k = record {
    at = λ w a h q. let (r, w') = m p w in k.at w a h (unwrapped r q);
  }
    where
      unwrapped : {a : A} (r : Result A) → wrap_result message r ≡ ok a → r ≡ ok a
      unwrapped (ok b) q = q
      unwrapped (err e) q = cc

  pub Brings-statement :
      (f : Time → Db → Result A × Db)
      → ((t : Time) (d : Db) → P d → Q (f t d).1)
      → Brings p P Q (statement f)
  unfolding statement
  Brings-statement f k = record {
    at = λ w a h q. elim (Bool-cases (p.fails w.calls)) [
      | inl failed ↦ cc (rw failed at q)
      | inr works ↦ rw works (k (p.time w.calls) w.db h)
    ];
  }

  pub Brings-if :
      (b : Bool) (m n : Action A)
      → Brings p P Q m
      → Brings p P Q n
      → Brings p P Q (if b then m else n)
  Brings-if true m n km kn = km
  Brings-if false m n km kn = kn

module _ {p : Platform} {P Q : Db → Type 0} {A B : Type 0} where
  -- The first action keeps `P`, and the rest brings `Q`.
  pub Brings-bind :
      (m : Action A) (f : A → Action B)
      → Keeps p P m
      → ((a : A) → Brings p P Q (f a))
      → Brings p P Q (m >>= f)
  unfolding ◌>>=◌
  Brings-bind m f km kf = record { at = λ w b h. go (m p w).0 (m p w).1 b (km.at w h) }
    where
      go :
          (r : Result A) (w' : World) (b : B)
          → P w'.db
          → (continue r f p w').0 ≡ ok b
          → Q (continue r f p w').1.db
      go (ok a) w' b h q = (kf a).at w' b h q
      go (err e) w' b h q = cc

  -- The first action brings `Q`, and the rest keeps it.
  pub Brings-then :
      (m : Action A) (f : A → Action B)
      → Brings p P Q m
      → ((a : A) → Keeps p Q (f a))
      → Brings p P Q (m >>= f)
  unfolding ◌>>=◌
  Brings-then m f km kf = record { at = λ w b h. go (m p w).0 (m p w).1 b (λ a. km.at w a h) }
    where
      go :
          (r : Result A) (w' : World) (b : B)
          → ((a : A) → r ≡ ok a → Q w'.db)
          → (continue r f p w').0 ≡ ok b
          → Q (continue r f p w').1.db
      go (ok a) w' b h q = (kf a).at w' (h a refl)
      go (err e) w' b h q = cc
