-- ===== src/Startup/Run/Released.antt =====
-- What a run of the program holds when it ends.
use auth_service_go.Base.{◌+◌, ◌≡◌, refl, ap, List, ◌∷◌, arith, inl, inr, Bool-cases}
use auth_service_go.Domain.{Error}
use auth_service_go.Platform.{Result, ok, err}
use auth_service_go.Startup.{
  Boot, Host, Machine, signals, tracing, pool, Event, opened, closed, deferring, continue, ◌>>=◌,
}
use auth_service_go.Startup.App.{Libraries}
use auth_service_go.Startup.Run.{
  setup_tracing, shutdown_tracing, new_gorm_db, close_pool, stop_signals, with_tracing,
  with_signals, run, main, exit_status,
}
use auth_service_go.Startup.Settings.{Environment, Settings, load}

-- How a run ends, with its result and its events, the latest first: by how far its start got. Where
-- it got everything, it closed everything in the reverse order.
pub data Ending (before : List Event) : Result Unit → List Event → Type 0 where
  unconfigured : (e : Error) → Ending before (err e) before
  untraced : (e : Error) → Ending before (err e) (closed signals ∷ opened signals ∷ before)
  unconnected :
      (e : Error)
      → Ending before
          (err e)
          (closed signals ∷ closed tracing ∷ opened tracing ∷ opened signals ∷ before)
  -- The pool was opened, but its ping failed or its handle was not to be had: it stays open.
  leaked :
      (e : Error)
      → Ending before
          (err e)
          (closed signals ∷ closed tracing ∷ opened pool ∷ opened tracing ∷ opened signals ∷ before)
  released :
      (r : Result Unit) (during : List Event)
      → Ending before r (closed signals ∷ closed tracing ∷ closed pool ∷ during)

module _ (lib : Libraries) (s : Settings) (h : Host) where
  -- The run around the part that has the database.
  TracingEnding : List Event → Result Unit → List Event → Type 0
  TracingEnding before r after = Ending before r (closed signals ∷ closed tracing ∷ after)

  with_tracing_ends :
      (m : Machine) (before : List Event)
      → m.events ≡ opened tracing ∷ opened signals ∷ before
      → TracingEnding before (with_tracing lib s h m).0 (with_tracing lib s h m).1.events
  unfolding with_tracing new_gorm_db close_pool TracingEnding ◌>>=◌
  with_tracing_ends m before e = elim (Bool-cases (h.fails m.calls)) [
    | inl f0 ↦ rw (f0, e) (unconnected _)
    | inr w0 ↦ elim (Bool-cases (h.fails (m.calls + 1))) [
      | inl f1 ↦ rw (w0, f1, e) (leaked _)
      | inr w1 ↦ elim (Bool-cases (h.fails (m.calls + 1 + 1))) [
        | inl f2 ↦ rw (w0, w1, f2, e) (leaked _)
        | inr w2 ↦ elim (Bool-cases (h.fails (m.calls + 1 + 1 + 1))) [
          | inl f3 ↦ rw (w0, w1, w2, f3, e) (leaked _)
          | inr w3 ↦ rw (w0, w1, w2, w3) (released _ _)
        ]
      ]
    ]
  ]

  with_signals_ends :
      (m : Machine) (before : List Event)
      → m.events ≡ opened signals ∷ before
      → Ending before
          (with_signals lib s h m).0
          (closed signals ∷ (with_signals lib s h m).1.events)
  unfolding with_signals setup_tracing shutdown_tracing TracingEnding ◌>>=◌
  with_signals_ends m before e = elim (Bool-cases (h.fails m.calls)) [
    | inl f0 ↦ rw (f0, e) (untraced _)
    | inr w0 ↦ elim (Bool-cases (h.fails (m.calls + 1))) [
      | inl f1 ↦ rw (w0, f1, e) (untraced _)
      | inr w1 ↦
          rw (w0, w1)
            (with_tracing_ends
              (record m { calls = m.calls + 1 + 1; events = opened tracing ∷ m.events }) before
              (ap (λ es. opened tracing ∷ es) e))
    ]
  ]

-- A run of the program, whatever calls fail and however the server stops, ends in one of five ways.
-- Without a configuration it opens nothing. Otherwise the signal handler is taken down last, and the
-- tracing provider, if it was set up, is shut down before it. If the database was connected, the pool
-- is closed before both; only if the ping or the handle failed does the pool stay open, and then the
-- run returns the error.
run_ends :
    (lib : Libraries) (env : Environment) (h : Host) (m : Machine)
    → Ending m.events (run lib env h m).0 (run lib env h m).1.events
unfolding run stop_signals ◌>>=◌
run_ends lib env h m = go (load lib.env env)
  where
    rest : Settings → Boot Unit
    rest s = deferring stop_signals (with_signals lib s)

    go :
        (r : Result Settings)
        → let out =
            continue r (λ s h m. rest s h (record m { events = opened signals ∷ m.events })) h m in
          Ending m.events out.0 out.1.events
    go (err e) = unconfigured e
    go (ok s) =
        with_signals_ends lib s h (record m { events = opened signals ∷ m.events }) m.events refl

-- A run without an error closed everything.
ok_is_released :
    (before after : List Event) (r : Result Unit)
    → Ending before r after
    → exit_status r ≡ 0
    → (during : List Event) × (after ≡ closed signals ∷ closed tracing ∷ closed pool ∷ during)
ok_is_released before _ _ (released r during) h = (during, refl)
ok_is_released before _ _ (unconfigured e) h = absurd (omega (arith, h))
ok_is_released before _ _ (untraced e) h = absurd (omega (arith, h))
ok_is_released before _ _ (unconnected e) h = absurd (omega (arith, h))
ok_is_released before _ _ (leaked e) h = absurd (omega (arith, h))

-- The program, whatever calls fail and however the server stops, ends in one of five ways, by how
-- far its start got, and it exits with 0 only when it has closed the pool, shut down the tracing
-- provider and taken down the signal handler, in this order and last.
pub main_ends :
    (lib : Libraries) (env : Environment) (h : Host) (m : Machine)
    → let (status, m') = main lib env h m in
      Ending m.events (run lib env h m).0 m'.events
      × (status ≡ 0
          → (during : List Event) × (m'.events
              ≡ closed signals ∷ closed tracing ∷ closed pool ∷ during))
unfolding main
main_ends lib env h m = (run_ends lib env h m, ok_is_released m.events _ _ (run_ends lib env h m))
