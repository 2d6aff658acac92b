-- ===== src/Platform/Process.antt =====
-- Requests at the same time: a process is what is left of a request, one action after another, and
-- processes take turns in any order.
use auth_service_go.Base.{ℕ, zero, suc, ◌+◌, ◌≤◌, ◌≡◌, refl, List, [], ◌∷◌}
use auth_service_go.Base.Lists.{All}
use auth_service_go.Database.{Db}
use auth_service_go.Platform.{Platform, World, Result, Action}

-- An action that runs without a break, and what follows its result.
pub data Process (A : Type 0) : Type 1 where
  done : Result A → Process A
  exec : {B : Type 0} → Action B → (Result B → Process A) → Process A

-- One process after another.
unfoldable pub chain : {A B : Type 0} → Process A → (Result A → Process B) → Process B
chain (done r) k = k r
chain (exec m rest) k = exec m (λ r. chain (rest r) k)

-- The process without others.
unfoldable pub run : {A : Type 0} → Process A → Action A
run (done r) p w = (r, w)
run (exec m rest) p w = run (rest (m p w).0) p (m p w).1

pub run-chain :
    {A B : Type 0} (x : Process A) (k : Result A → Process B) (p : Platform) (w : World)
    → run (chain x k) p w ≡ run (k (run x p w).0) p (run x p w).1
unfolding run chain
run-chain (done r) k p w = refl
run-chain (exec m rest) k p w = run-chain (rest (m p w).0) k p (m p w).1

-- Each action calls the outside at most once, and keeps the property of the tables.
unfoldable pub Each : {A : Type 0} → Platform → (Db → Type 0) → Process A → Type 0
Each p P (done r) = Unit
Each p P (exec m rest) =
    ((w : World) → ((m p w).1.calls ≤ w.calls + 1) × (P w.db → P (m p w).1.db))
    × ((r : Result _) → Each p P (rest r))

pub chain-Each :
    {A B : Type 0} (p : Platform) (P : Db → Type 0) (x : Process A) (k : Result A → Process B)
    → Each p P x
    → ((r : Result A) → Each p P (k r))
    → Each p P (chain x k)
unfolding Each chain
chain-Each p P (done r) k h each = each r
chain-Each p P (exec m rest) k h each = (h.0, λ r. chain-Each p P (rest r) k (h.1 r) each)

-- What each step keeps, the process keeps.
pub run-keeps :
    {A : Type 0} (p : Platform) (P : Db → Type 0) (x : Process A) (w : World)
    → Each p P x
    → P w.db
    → P (run x p w).1.db
unfolding Each run
run-keeps p P (done r) w each h = h
run-keeps p P (exec m rest) w each h =
    run-keeps p P (rest (m p w).0) (m p w).1 (each.1 (m p w).0) ((each.0 w).1 h)

-- What is left of each request.
abbrev pub Pool : Type 1
Pool = List (Process Unit)

-- One action of the n-th process.
unfoldable pub turn : ℕ → Pool → Platform → World → Pool × World
turn n [] p w = ([], w)
turn zero (done r ∷ rest) p w = (done r ∷ rest, w)
turn zero (exec m next ∷ rest) p w = let (r, w') = m p w in (next r ∷ rest, w')
turn (suc n) (x ∷ rest) p w = let (rest', w') = turn n rest p w in (x ∷ rest', w')

-- The turns of a schedule.
unfoldable pub interleave : List ℕ → Pool → Platform → World → Pool × World
interleave [] pool p w = (pool, w)
interleave (n ∷ schedule) pool p w =
    let (pool', w') = turn n pool p w in interleave schedule pool' p w'

module _ (p : Platform) (P : Db → Type 0) where
  turn-Each :
      (n : ℕ) (pool : Pool) (w : World) → All (Each p P) pool → All (Each p P) (turn n pool p w).0
  unfolding turn Each
  turn-Each n [] w each = tt
  turn-Each zero (done r ∷ rest) w each = each
  turn-Each zero (exec m next ∷ rest) w each = (each.0.1 (m p w).0, each.1)
  turn-Each (suc n) (x ∷ rest) w each = (each.0, turn-Each n rest w each.1)

  turn-keeps :
      (n : ℕ) (pool : Pool) (w : World) → All (Each p P) pool → P w.db → P (turn n pool p w).1.db
  unfolding turn Each
  turn-keeps n [] w each h = h
  turn-keeps zero (done r ∷ rest) w each h = h
  turn-keeps zero (exec m next ∷ rest) w each h = (each.0.0 w).1 h
  turn-keeps (suc n) (x ∷ rest) w each h = turn-keeps n rest w each.1 h

  -- What is left of the processes after any turns is such processes.
  pub interleave-Each :
      (schedule : List ℕ) (pool : Pool) (w : World)
      → All (Each p P) pool
      → All (Each p P) (interleave schedule pool p w).0
  unfolding interleave
  interleave-Each [] pool w each = each
  interleave-Each (n ∷ schedule) pool w each =
      interleave-Each schedule (turn n pool p w).0 (turn n pool p w).1 (turn-Each n pool w each)

  -- A property that each action keeps holds after any turns in any order.
  pub interleave-keeps :
      (schedule : List ℕ) (pool : Pool) (w : World)
      → All (Each p P) pool
      → P w.db
      → P (interleave schedule pool p w).1.db
  unfolding interleave
  interleave-keeps [] pool w each h = h
  interleave-keeps (n ∷ schedule) pool w each h =
      interleave-keeps schedule (turn n pool p w).0 (turn n pool p w).1 (turn-Each n pool w each)
        (turn-keeps n pool w each h)
