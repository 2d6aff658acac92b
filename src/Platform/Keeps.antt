-- ===== src/Platform/Keeps.antt =====
-- What an action keeps of the database, whether it returns or fails: one rule for each way to
-- build an action. The platform is fixed, so a property may speak of it.
use auth_service_go.Base.{ℕ, ◌≡◌, refl, Bool, true, false, if◌then◌else◌}
use auth_service_go.Base.Strings.{Str}
use auth_service_go.Domain.{Error, Time}
use auth_service_go.Database.{Db}
use auth_service_go.Platform.{
  Platform, World, Result, ok, err, Action, return, fail, of_result, asks, attempt, wrapping, call,
  statement, Mail, send_mail, log_code, continue, ◌>>=◌,
}

module _ (p : Platform) (P : Db → Type 0) where
  pub record Keeps {A : Type 0} (m : Action A) : Type 0 where
    pub at : (w : World) → P w.db → P (m p w).1.db

module _ {p : Platform} {P : Db → Type 0} {A : Type 0} where
  pub Keeps-return : (a : A) → Keeps p P (return a)
  unfolding return
  Keeps-return a = record { at = λ w h. h }

  pub Keeps-fail : (e : Error) → Keeps p P (fail {A = A} e)
  unfolding fail
  Keeps-fail e = record { at = λ w h. h }

  pub Keeps-of_result : (r : Result A) → Keeps p P (of_result r)
  unfolding of_result
  Keeps-of_result r = record { at = λ w h. h }

  pub Keeps-asks : (f : Platform → A) → Keeps p P (asks f)
  unfolding asks
  Keeps-asks f = record { at = λ w h. h }

  pub Keeps-call : (f : Platform → ℕ → Result A) → Keeps p P (call f)
  unfolding call
  Keeps-call f = record { at = λ w h. h }

  pub Keeps-wrapping : (message : Str) (m : Action A) → Keeps p P m → Keeps p P (wrapping message m)
  unfolding wrapping
  Keeps-wrapping message m k = record { at = λ w h. k.at w h }

  pub Keeps-attempt : (m : Action A) → Keeps p P m → Keeps p P (attempt m)
  unfolding attempt
  Keeps-attempt m k = record { at = λ w h. k.at w h }

  -- A statement that fails changes nothing.
  pub Keeps-statement :
      (f : Time → Db → Result A × Db)
      → ((t : Time) (d : Db) → P d → P (f t d).1)
      → Keeps p P (statement f)
  unfolding statement
  Keeps-statement f k = record { at = λ w h. go w h (p.fails w.calls) refl }
    where
      go : (w : World) → P w.db → (b : Bool) → p.fails w.calls ≡ b → P (statement f p w).1.db
      go w h true e = rw e h
      go w h false e = rw e (k (p.time w.calls) w.db h)

  pub Keeps-if :
      (b : Bool) (m n : Action A)
      → (b ≡ true → Keeps p P m)
      → (b ≡ false → Keeps p P n)
      → Keeps p P (if b then m else n)
  Keeps-if true m n km kn = km refl
  Keeps-if false m n km kn = kn refl

module _ {p : Platform} {P : Db → Type 0} {A B : Type 0} where
  pub Keeps-bind :
      (m : Action A) (f : A → Action B)
      → Keeps p P m
      → ((a : A) → Keeps p P (f a))
      → Keeps p P (m >>= f)
  unfolding ◌>>=◌
  Keeps-bind m f km kf = record { at = λ w h. let (r, w') = m p w in go r w' (km.at w h) }
    where
      go : (r : Result A) (w' : World) → P w'.db → P (continue r f p w').1.db
      go (ok a) w' h = (kf a).at w' h
      go (err e) w' h = h

  -- The rest knows the value that was read off the platform.
  pub Keeps-bind-asks :
      (g : Platform → A) (f : A → Action B) → Keeps p P (f (g p)) → Keeps p P (asks g >>= f)
  unfolding ◌>>=◌
  Keeps-bind-asks g f k = record { at = λ w h. k.at w h }

module _ {p : Platform} {P : Db → Type 0} where
  pub Keeps-send_mail : (m : Mail) → Keeps p P (send_mail m)
  unfolding send_mail
  Keeps-send_mail m = record { at = λ w h. go w h (p.fails w.calls) refl }
    where
      go : (w : World) → P w.db → (b : Bool) → p.fails w.calls ≡ b → P (send_mail m p w).1.db
      go w h true e = rw e h
      go w h false e = rw e h

  pub Keeps-log_code : (to code : Str) → Keeps p P (log_code to code)
  unfolding log_code
  Keeps-log_code to code = record { at = λ w h. h }

pub ruleset keeps_rules = (
  Keeps-return, Keeps-fail, Keeps-of_result, Keeps-asks, Keeps-call, Keeps-wrapping, Keeps-attempt,
  Keeps-send_mail, Keeps-log_code, Keeps-if, Keeps-bind,
)
