-- ===== src/Service/Concurrent.antt =====
-- Requests at the same time: each is a process of single calls to the outside, and the calls of
-- different requests come in any order.
pub mod Invariants
use mathlib.Core.Path.{subst}
use auth_service_go.Base.{ℕ, zero, suc, ◌≡◌, refl, sym, ap, ◌∙◌, List, [], ◌∷◌, ◌++◌, map}
use auth_service_go.Base.Lists.{All}
use auth_service_go.Base.Strings.{Str}
use auth_service_go.Database.{Db}
use auth_service_go.Platform.{Platform, World, Result}
use auth_service_go.Platform.Process.{
  Process, done, exec, run, Each, Pool, turn, interleave, interleave-Each, interleave-keeps,
}
use auth_service_go.Service.{Config, Request, perform, serve}
use auth_service_go.Service.Invariant.{IsSteady}
use auth_service_go.Service.Invariant.Requests.{request-Program}

-- The requests, none of them begun.
pub pool : Config → Platform → List Request → Pool
pool cfg p [] = []
pool cfg p (r ∷ rs) = (request-Program p cfg r).process ∷ pool cfg p rs

pool-Each :
    {P : Db → Type 0} (cfg : Config) (p : Platform)
    → IsSteady p P
    → (rs : List Request) → All (Each p P) (pool cfg p rs)
unfolding pool
pool-Each cfg p h [] = tt
pool-Each {P} cfg p h (r ∷ rs) = ((request-Program p cfg r).each P h, pool-Each cfg p h rs)

-- A steady property holds after any turns in any order.
pub interleave-steady :
    {P : Db → Type 0} (cfg : Config) (p : Platform)
    → IsSteady p P
    → (schedule : List ℕ) (rs : List Request) (w : World) → P w.db
    → P (interleave schedule (pool cfg p rs) p w).1.db
interleave-steady {P} cfg p h schedule rs w =
    interleave-keeps p P schedule (pool cfg p rs) w (pool-Each cfg p h rs)

-- It holds after further turns of requests that are under way, whatever else ran in between.
pub under_way-steady :
    {P : Db → Type 0} (cfg : Config) (p : Platform)
    → IsSteady p P
    → (before after : List ℕ) (rs : List Request) (w w' : World) → P w'.db
    → P (interleave after (interleave before (pool cfg p rs) p w).0 p w').1.db
under_way-steady {P} cfg p h before after rs w w' =
    interleave-keeps p P after (interleave before (pool cfg p rs) p w).0 w'
      (interleave-Each p P before (pool cfg p rs) w (pool-Each cfg p h rs))

-- The turns of one process, from the first, until it is done.
finish :
    (x : Process Unit) (rest : Pool) (p : Platform) (w : World)
    → (schedule : List ℕ) × (r : Result Unit) × (interleave schedule (x ∷ rest) p w
        ≡ (done r ∷ rest, (run x p w).1))
unfolding interleave turn run
finish (done r) rest p w = ([], r, refl)
finish (exec m next) rest p w =
    let (schedule, r, e) = finish (next (m p w).0) rest p (m p w).1 in (0 ∷ schedule, r, e)

interleave-append :
    (s t : List ℕ) (pool : Pool) (p : Platform) (w : World)
    → interleave (s ++ t) pool p w
      ≡ interleave t (interleave s pool p w).0 p (interleave s pool p w).1
unfolding interleave
interleave-append [] t pool p w = refl
interleave-append (n ∷ s) t pool p w =
    interleave-append s t (turn n pool p w).0 p (turn n pool p w).1

interleave-suc :
    (s : List ℕ) (x : Process Unit) (pool : Pool) (p : Platform) (w : World)
    → interleave (map suc s) (x ∷ pool) p w
      ≡ (x ∷ (interleave s pool p w).0, (interleave s pool p w).1)
unfolding interleave turn
interleave-suc [] x pool p w = refl
interleave-suc (n ∷ s) x pool p w = interleave-suc s x (turn n pool p w).0 p (turn n pool p w).1

-- One request after another is an order of the calls: some schedule of the processes leaves the
-- world that `serve` leaves.
pub serve-interleaves :
    (cfg : Config) (p : Platform) (requests : List Request) (w : World)
    → (schedule : List ℕ) × ((interleave schedule (pool cfg p requests) p w).1
        ≡ serve cfg requests p w)
unfolding pool serve interleave
serve-interleaves cfg p [] w = ([], refl)
serve-interleaves cfg p (r ∷ rs) w =
    let x = (request-Program p cfg r).process in
    let (first, result, e) = finish x (pool cfg p rs) p w in
    let (later, same) = serve-interleaves cfg p rs (perform cfg r p w).1 in
    (
      first ++ map suc later,
      (ap (λ (r : Pool × World). r.1)
            (interleave-append first (map suc later) (x ∷ pool cfg p rs) p w)
          ∙ ap (λ (r : Pool × World). (interleave (map suc later) r.0 p r.1).1) e
          ∙ ap (λ (r : Pool × World). r.1)
              (interleave-suc later (done result) (pool cfg p rs) p (run x p w).1)
          ∙ ap (λ (r : Result Unit × World). (interleave later (pool cfg p rs) p r.1).1)
              ((request-Program p cfg r).alone w)
          ∙ same),
    )
