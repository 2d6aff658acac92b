-- ===== src/Platform/Program.antt =====
-- An action taken apart into a process of single calls: one rule for each way to build an action.
-- The process, run alone, is the action; each of its steps calls the outside at most once, and keeps
-- every property of a class `J` that the statements keep.
use mathlib.Core.Path.{subst}
use auth_service_go.Base.{
  sym, ap, ℕ, ◌+◌, ◌≤◌, ◌≡◌, refl, ◌∙◌, Bool, true, false, if◌then◌else◌, arith,
}
use auth_service_go.Base.Strings.{Str}
use auth_service_go.Domain.{Error, Time}
use auth_service_go.Database.{Db}
use auth_service_go.Platform.{
  Platform, World, Result, ok, err, Action, return, fail, of_result, asks, attempt, wrapping,
  wrap_result, call, statement, Mail, send_mail, log_code, continue, ◌>>=◌,
}
use auth_service_go.Platform.Keeps.{Keeps}
use auth_service_go.Platform.Process.{
  Process, done, exec, chain, run, run-chain, run-keeps, Each, chain-Each,
}

module _ (p : Platform) (J : (Db → Type 0) → Type 0) where
  pub record Program {A : Type 0} (m : Action A) : Type 1 where
    pub process : Process A
    pub alone : (w : World) → run process p w ≡ m p w
    pub each : (P : Db → Type 0) → J P → Each p P process

module _ {p : Platform} {J : (Db → Type 0) → Type 0} {A : Type 0} where
  -- An action with one call at most that leaves the tables alone.
  outside :
      (m : Action A)
      → ((w : World) → ((m p w).1.calls ≤ w.calls + 1) × ((m p w).1.db ≡ w.db))
      → Program p J m
  unfolding run Each
  outside m h = record {
    process = exec m done;
    alone = λ w. refl;
    each = λ P j. (λ w. ((h w).0, subst P (sym (h w).1)), λ r. tt);
  }

  pub Program-return : (a : A) → Program p J (return a)
  unfolding return
  Program-return a = outside (return a) λ w. (omega arith, refl)

  pub Program-fail : (e : Error) → Program p J (fail {A = A} e)
  unfolding fail
  Program-fail e = outside (fail e) λ w. (omega arith, refl)

  pub Program-of_result : (r : Result A) → Program p J (of_result r)
  unfolding of_result
  Program-of_result r = outside (of_result r) λ w. (omega arith, refl)

  pub Program-asks : (f : Platform → A) → Program p J (asks f)
  unfolding asks
  Program-asks f = outside (asks f) λ w. (omega arith, refl)

  pub Program-call : (f : Platform → ℕ → Result A) → Program p J (call f)
  unfolding call
  Program-call f = outside (call f) λ w. (omega arith, refl)

  pub Program-statement :
      (f : Time → Db → Result A × Db)
      → ((P : Db → Type 0) → J P → (t : Time) (d : Db) → P d → P (f t d).1)
      → Program p J (statement f)
  unfolding run Each statement
  Program-statement f keeps = record {
    process = exec (statement f) done;
    alone = λ w. refl;
    each = λ P j. (λ w. go P (keeps P j) w (p.fails w.calls) refl, λ r. tt);
  }
    where
      go :
          (P : Db → Type 0)
          → ((t : Time) (d : Db) → P d → P (f t d).1)
          → (w : World) (b : Bool) → p.fails w.calls ≡ b
          → ((statement f p w).1.calls ≤ w.calls + 1) × (P w.db → P (statement f p w).1.db)
      go P k w true e = rw e (omega arith, λ h. h)
      go P k w false e = rw e (omega arith, k (p.time w.calls) w.db)

  pub Program-wrapping :
      (message : Str) (m : Action A) → Program p J m → Program p J (wrapping message m)
  unfolding run Each wrapping
  Program-wrapping message m x = record {
    process = chain x.process (λ r. done (wrap_result message r));
    alone = λ w.
        run-chain x.process _ p w
        ∙ ap (λ (y : Result A × World). (wrap_result message y.0, y.1)) (x.alone w);
    each = λ P j. chain-Each p P x.process _ (x.each P j) (λ r. tt);
  }

  pub Program-attempt : (m : Action A) → Program p J m → Program p J (attempt m)
  unfolding run Each attempt
  Program-attempt m x = record {
    process = chain x.process (λ r. done (ok r));
    alone =
        λ w. run-chain x.process _ p w ∙ ap (λ (y : Result A × World). (ok y.0, y.1)) (x.alone w);
    each = λ P j. chain-Each p P x.process _ (x.each P j) (λ r. tt);
  }

  pub Program-if :
      (b : Bool) (m n : Action A)
      → (b ≡ true → Program p J m)
      → (b ≡ false → Program p J n)
      → Program p J (if b then m else n)
  Program-if true m n x y = x refl
  Program-if false m n x y = y refl

module _ {p : Platform} {J : (Db → Type 0) → Type 0} {A B : Type 0} where
  continued : {f : A → Action B} → ((a : A) → Program p J (f a)) → Result A → Process B
  continued y (ok a) = (y a).process
  continued y (err e) = done (err e)

  continued-alone :
      (f : A → Action B) (y : (a : A) → Program p J (f a)) (r : Result A) (w : World)
      → run (continued y r) p w ≡ continue r f p w
  unfolding continued run
  continued-alone f y (ok a) w = (y a).alone w
  continued-alone f y (err e) w = refl

  continued-Each :
      (f : A → Action B) (y : (a : A) → Program p J (f a)) (P : Db → Type 0)
      → J P
      → (r : Result A) → Each p P (continued y r)
  unfolding continued Each
  continued-Each f y P j (ok a) = (y a).each P j
  continued-Each f y P j (err e) = tt

  pub Program-bind :
      (m : Action A) (f : A → Action B)
      → Program p J m
      → ((a : A) → Program p J (f a))
      → Program p J (m >>= f)
  unfolding ◌>>=◌
  Program-bind m f x y = record {
    process = chain x.process (continued y);
    alone = λ w.
        run-chain x.process (continued y) p w
        ∙ continued-alone f y (run x.process p w).0 (run x.process p w).1
        ∙ ap (λ (z : Result A × World). continue z.0 f p z.1) (x.alone w);
    each = λ P j. chain-Each p P x.process _ (x.each P j) (continued-Each f y P j);
  }

  -- The rest knows the value that was read off the platform.
  pub Program-bind-asks :
      (g : Platform → A) (f : A → Action B) → Program p J (f (g p)) → Program p J (asks g >>= f)
  unfolding ◌>>=◌
  Program-bind-asks g f x = record { process = x.process; alone = x.alone; each = x.each }

module _ {p : Platform} {J : (Db → Type 0) → Type 0} where
  pub Program-send_mail : (m : Mail) → Program p J (send_mail m)
  unfolding send_mail
  Program-send_mail m = outside (send_mail m) λ w. go w (p.fails w.calls) refl
    where
      go :
          (w : World) (b : Bool)
          → p.fails w.calls ≡ b
          → ((send_mail m p w).1.calls ≤ w.calls + 1) × ((send_mail m p w).1.db ≡ w.db)
      go w true e = rw e (omega arith, refl)
      go w false e = rw e (omega arith, refl)

  pub Program-log_code : (to code : Str) → Program p J (log_code to code)
  unfolding log_code
  Program-log_code to code = outside (log_code to code) λ w. (omega arith, refl)

pub ruleset program_rules = (
  Program-return, Program-fail, Program-of_result, Program-asks, Program-call, Program-wrapping,
  Program-attempt, Program-send_mail, Program-log_code, Program-if, Program-bind,
)

-- The action keeps what its steps keep.
pub Program-Keeps :
    {p : Platform} {J : (Db → Type 0) → Type 0} {P : Db → Type 0} {A : Type 0} {m : Action A}
    → Program p J m
    → J P
    → Keeps p P m
Program-Keeps {p} {J} {P} x j = record {
  at = λ w h.
      subst (λ (y : Result _ × World). P y.1.db) (x.alone w)
        (run-keeps p P x.process w (x.each P j) h);
}
