-- ===== src/Service/CodeLife.antt =====
-- The life of a mailed code as the tables tell it, against its state machine: unknown, waiting with a
-- number of counted guesses, used.
use mathlib.Core.Path.{subst}
use auth_service_go.Base.{
  ℕ, zero, suc, ◌+◌, ◌-◌, ◌≤◌, ◌≡◌, ◌≢◌, refl, sym, ◌∙◌, true, false, Option, none, some, List,
  ◌==◌, arith, inl, inr, Bool-cases, Option-cases, if◌then◌else◌,
}
use auth_service_go.Base.Lists.{
  All, All-append, All-mono, All-update_where, All-best, best, best-ne-none, best-exists,
  best-passes, best_unique, exists-append, exists-update_where,
}
use auth_service_go.Domain.{Uuid, Time, is_nil}
use auth_service_go.Database.{Db, VerificationCodeModel}
use auth_service_go.Platform.{Platform, World}
use auth_service_go.Postgres.Statements.{
  newer, attempted, consumed, update_attempts, update_consumed_at, update_user_roles,
  update_revoked_at,
}
use auth_service_go.Postgres.Statements.Cases.{
  create_user-cases, create_refresh_token-cases, create_verification_code-cases,
}
use auth_service_go.Service.{Config, Request}
use auth_service_go.Service.CodeUse.{IsThere, IsUsed, IsUsed-steady, new_code-ne}
use auth_service_go.Service.Concurrent.{interleave-steady}
use auth_service_go.Service.Concurrent.Invariants.{interleaved}
use auth_service_go.Service.Consistency.{IsConsistent}
use auth_service_go.Service.Invariant.{IsInvariant, IsSteady}

-- The abstract code.
pub data CodeStatus : Type 0 where
  unknown : CodeStatus
  waiting : ℕ → CodeStatus
  used : CodeStatus

pub data CodeStep : CodeStatus → CodeStatus → Type 0 where
  issue : CodeStep unknown (waiting 0)
  guess : (n : ℕ) → CodeStep (waiting n) (waiting (n + 1))
  enter : (n : ℕ) → CodeStep (waiting n) used

-- Steps one after another.
pub data Leads : CodeStatus → CodeStatus → Type 0 where
  stays : {s : CodeStatus} → Leads s s
  steps : {s t u : CodeStatus} → CodeStep s t → Leads t u → Leads s u

abbrev status_of_row : Option VerificationCodeModel → CodeStatus
status_of_row none = unknown
status_of_row (some m) = if is_nil m.consumed_at then waiting m.attempts else used

-- The status of the code with an id.
abbrev pub code_status : Uuid → Db → CodeStatus
code_status id d = status_of_row (best newer (λ c. c.id == id) d.verification_codes)

-- The code with this id is there and has at least so many counted guesses.
record HasAtLeast (id : Uuid) (n : ℕ) (d : Db) : Type 0 where
  pub known : IsThere id d
  pub count : All (λ (c : VerificationCodeModel). c.id ≡ id → n ≤ c.attempts) d.verification_codes

module _ (id : Uuid) (n : ℕ) (p : Platform) where
  HasAtLeast-invariant : IsInvariant p (HasAtLeast id n)
  unfolding update_user_roles update_consumed_at update_revoked_at
  HasAtLeast-invariant = record {
    at_create_user = λ _ email h name made t d k.
        create_user-cases (HasAtLeast id n) t d k _
          λ _. record { known = k.known; count = k.count };
    at_update_user_roles = λ _ t d k. record { known = k.known; count = k.count };
    at_create_refresh_token = λ m t d _ k.
        create_refresh_token-cases (HasAtLeast id n) t d k m
          λ _. record { known = k.known; count = k.count };
    at_update_revoked_at = λ _ t d k. record { known = k.known; count = k.count };
    at_create_verification_code = λ m t d _ _ k.
        create_verification_code-cases (HasAtLeast id n) t d k m λ accepted. record {
          known = exists-append _ d.verification_codes _ k.known;
          count =
              All-append _ d.verification_codes _ k.count
                (λ e. absurd (new_code-ne id m d accepted k.known e), tt);
        };
    at_update_consumed_at = λ other made t d k. record {
      known = exists-update_where _ _ (consumed made) d.verification_codes (λ m. refl) k.known;
      count =
          All-update_where _ _ (consumed made) d.verification_codes
            (All-mono _ _ (λ c o. (λ _. o, λ _. o)) d.verification_codes k.count);
    };
  }

  update_attempts-HasAtLeast :
      (other : Uuid) (t : Time) (d : Db)
      → HasAtLeast id n d
      → HasAtLeast id n (update_attempts other t d).1
  unfolding update_attempts
  update_attempts-HasAtLeast other t d k = record {
    known = exists-update_where _ _ _ d.verification_codes (λ m. refl) k.known;
    count = All-update_where _ _ attempted d.verification_codes (
        All-mono _ _ (λ c o. (λ _ same. ground (arith, o same), λ _. o)) d.verification_codes
          k.count);
  }

  HasAtLeast-steady : IsSteady p (HasAtLeast id n)
  HasAtLeast-steady = record {
    rows = HasAtLeast-invariant;
    at_update_attempts = update_attempts-HasAtLeast;
  }

same_id : (a b : ℕ) → (a == b) ≡ true → a ≡ b
same_id a b h = ground arith

-- Guesses one after another.
guesses-Leads : (n k : ℕ) (s : CodeStatus) → Leads (waiting (n + k)) s → Leads (waiting n) s
guesses-Leads n zero s rest = subst (λ m. Leads (waiting m) s) (omega arith) rest
guesses-Leads n (suc k) s rest =
    steps (guess n)
      (guesses-Leads (n + 1) k s (subst (λ m. Leads (waiting m) s) (omega arith) rest))

-- From a number of guesses to a row with at least so many.
row-Leads :
    (n : ℕ) (m : VerificationCodeModel)
    → n ≤ m.attempts
    → Leads (waiting n) (status_of_row (some m))
row-Leads n m more = elim (Bool-cases (is_nil m.consumed_at)) [
  | inl open_now ↦
      guesses-Leads n (m.attempts - n) _
        (rw open_now (subst (λ k. Leads (waiting k) (waiting m.attempts)) (omega arith) stays))
  | inr used_now ↦ rw used_now (steps (enter n) stays)
]

-- The status between two answers for one id, where a code that was there is still there, with no
-- fewer guesses, and a used one is used.
rows-Leads :
    (before after : Option VerificationCodeModel)
    → (before ≢ none → after ≢ none)
    → ((m m' : VerificationCodeModel)
        → before ≡ some m
        → after ≡ some m'
        → (m.attempts ≤ m'.attempts)
          × (is_nil m.consumed_at ≡ false → is_nil m'.consumed_at ≡ false))
    → Leads (status_of_row before) (status_of_row after)
rows-Leads none none known grown = stays
rows-Leads none (some m) known grown = steps issue (row-Leads 0 m (omega arith))
rows-Leads (some m) none known grown = absurd (known (λ e. cc) refl)
rows-Leads (some m) (some m') known grown =
    let (more, over) = grown m m' refl refl in
    elim (Bool-cases (is_nil m.consumed_at)) [
      | inr was_used ↦ rw (was_used, over was_used) stays
      | inl was_open ↦ rw was_open (row-Leads m.attempts m' more)
    ]

-- The row of an id is the only one with it.
module _ (id : Uuid) (d : Db) (c : IsConsistent d) (m : VerificationCodeModel)
    (found : best newer (λ x. x.id == id) d.verification_codes ≡ some m) where
  abbrev Only : VerificationCodeModel → Type 0
  Only x = x.id ≡ id → x ≡ m

  row-Only : All Only d.verification_codes
  row-Only =
      let same =
        same_id m.id id (best-passes newer (λ x. x.id == id) d.verification_codes m found) in
      All-mono _ Only (λ x only e. only (e ∙ sym same)) d.verification_codes
        (best_unique newer _ (λ x. x.id) d.verification_codes m c.code_ids found)

  row-HasAtLeast : HasAtLeast id m.attempts d
  row-HasAtLeast = record {
    known = best-exists newer _ d.verification_codes m found;
    count =
        All-mono Only _
          (λ x only e.
            subst (λ (y : VerificationCodeModel). m.attempts ≤ y.attempts) (sym (only e))
              (omega arith))
          d.verification_codes row-Only;
  }

  row-IsUsed : is_nil m.consumed_at ≡ false → IsUsed id d
  row-IsUsed over = record {
    known = best-exists newer _ d.verification_codes m found;
    over =
        All-mono Only _
          (λ x only e.
            subst (λ (y : VerificationCodeModel). is_nil y.consumed_at ≡ false) (sym (only e)) over)
          d.verification_codes row-Only;
  }

-- Between two states of the tables.
db-Leads :
    (id : Uuid) (d d' : Db)
    → IsConsistent d
    → ((n : ℕ) → HasAtLeast id n d → HasAtLeast id n d')
    → (IsUsed id d → IsUsed id d')
    → Leads (code_status id d) (code_status id d')
db-Leads id d d' c grown used_up =
    rows-Leads _ _
      (λ there missing. elim (Option-cases (best newer (λ x. x.id == id) d.verification_codes)) [
        | inl absent ↦ there absent
        | inr (m, found) ↦
            best-ne-none newer _ d'.verification_codes
              (grown m.attempts (row-HasAtLeast id d c m found)).known missing
      ])
      (λ m m' before after.
        let at =
          same_id m'.id id (best-passes newer (λ x. x.id == id) d'.verification_codes m' after) in
        let least = grown m.attempts (row-HasAtLeast id d c m before) in
        (
          (All-best newer _ _ d'.verification_codes m' least.count after).0 at,
          λ over.
              let spent = used_up (row-IsUsed id d c m before over) in
              (All-best newer _ _ d'.verification_codes m' spent.over after).0 at,
        ))

-- Refinement of the code's state machine, for requests at the same time: if ids are unique, then
-- whatever order the calls come in and whatever fails, the status of every code's id goes along the
-- steps unknown, waiting with no counted guess, waiting with one more, used; its count is never reset
-- and a used code never waits again.
pub interleave-Leads :
    (cfg : Config) (p : Platform) (schedule : List ℕ) (requests : List Request) (w : World)
    (id : Uuid)
    → IsConsistent w.db
    → Leads (code_status id w.db) (code_status id (interleaved cfg p schedule requests w).db)
interleave-Leads cfg p schedule requests w id c =
    db-Leads id w.db _ c
      (λ n. interleave-steady cfg p (HasAtLeast-steady id n p) schedule requests w)
      (interleave-steady cfg p (IsUsed-steady id p) schedule requests w)
