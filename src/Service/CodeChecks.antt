-- ===== src/Service/CodeChecks.antt =====
-- Which code a verification accepts.
use auth_service_go.Base.{
  ◌+◌, ◌≡◌, ◌≢◌, ◌≤◌, ◌<◌, refl, Bool, true, false, Option, none, some, leb, ltb, arith, inl, inr,
  Bool-cases,
}
use auth_service_go.Base.Lists.{best}
use auth_service_go.Base.Strings.{Str, codes, str_eq, str_eq→eq}
use auth_service_go.Domain.{Sentinel, sentinel, VerificationCode, Time, is_nil}
use auth_service_go.Database.{VerificationCodeModel}
use auth_service_go.Platform.{
  Platform, World, Result, ok, err, Action, fail, wrapping, continue, ◌>>=◌,
}
use auth_service_go.Postgres.Models.{to_domain_verification_code}
use auth_service_go.Postgres.Repositories.{increment_attempts}
use auth_service_go.Postgres.Repositories.Queries.{answer, called, find_latest_by_email_lem}
use auth_service_go.Postgres.Statements.{newer}
use auth_service_go.Service.{Config, verify_code_uc}
use auth_service_go.Usecase.Accounts.{normalize_email}
use auth_service_go.Usecase.Codes.{
  max_verification_attempts, VerifyCodeInput, verify_code, verify_record, unusable, check_code,
  reject, hash_verification_code,
}
use auth_service_go.Usecase.Ports.{TokenPair}

-- The newest code of an address.
abbrev pub latest_code : Platform → World → Str → Option VerificationCodeModel
latest_code p w email =
    best newer (λ m. str_eq m.email (normalize_email p email)) w.db.verification_codes

-- The code is open at the time, has guesses left, and the given text hashes to it.
pub record Accepts (p : Platform) (at : Time) (code : Str) (m : VerificationCodeModel)
    : Type 0 where
  pub unused : m.consumed_at ≡ none
  pub in_time : at ≤ m.expires_at
  pub guesses_left : m.attempts < max_verification_attempts
  pub same : hash_verification_code p code ≡ m.code_hash

is_nil→eq : (o : Option Time) → is_nil o ≡ true → o ≡ none
is_nil→eq none h = refl
is_nil→eq (some t) h = cc

-- A counted guess ends in an error.
pub reject-ne-ok :
    (cfg : Config) (p : Platform) (r : VerificationCode) (w : World) (pair : TokenPair)
    → (reject (verify_code_uc cfg) r p w).0 ≢ ok pair
unfolding reject ◌>>=◌
reject-ne-ok cfg p r w pair h = go counted.0 counted.1 h
  where
    count : Action Unit
    count = wrapping (codes "recording failed attempt") (increment_attempts r.id)

    counted : Result Unit × World
    counted = count p w

    go :
        (x : Result Unit) (w' : World)
        → (continue x (λ _. fail {A = TokenPair} (sentinel Sentinel.code_invalid)) p w').0 ≢ ok pair
    go (ok _) w' q = cc
    go (err e) w' q = cc

module _ (cfg : Config) (p : Platform) (email code : Str) (m : VerificationCodeModel)
    (pair : TokenPair) where
  check_code-eq-ok :
      (w : World)
      → (check_code (verify_code_uc cfg) email code (to_domain_verification_code m) p w).0 ≡ ok pair
      → (m.attempts < max_verification_attempts) × (hash_verification_code p code ≡ m.code_hash)
  unfolding check_code ◌>>=◌
  check_code-eq-ok w h = elim (Bool-cases (leb max_verification_attempts m.attempts)) [
    | inl locked ↦ cc (rw locked at h)
    | inr free ↦ elim (Bool-cases (str_eq (hash_verification_code p code) m.code_hash)) [
      | inl right ↦ (ground arith, str_eq→eq _ _ right)
      | inr wrong ↦ absurd (reject-ne-ok cfg p _ w pair (rw (free, wrong) at h))
    ]
  ]

  verify_record-eq-ok :
      (w : World)
      → (verify_record (verify_code_uc cfg) email code (ok (to_domain_verification_code m)) p w).0
        ≡ ok pair
      → Accepts p (p.time w.calls) code m
  unfolding verify_record unusable ◌>>=◌
  verify_record-eq-ok w h = elim (Bool-cases (is_nil m.consumed_at)) [
    | inr used ↦ cc (rw used at h)
    | inl unused ↦ elim (Bool-cases (ltb m.expires_at (p.time w.calls))) [
      | inl expired ↦ cc (rw (unused, expired) at h)
      | inr fresh ↦
          let checked = check_code-eq-ok (called w) (rw (unused, fresh) at h) in
          record {
            unused = is_nil→eq m.consumed_at unused;
            in_time = ground arith;
            guesses_left = checked.0;
            same = checked.1;
          }
    ]
  ]

-- A verification that returns a token pair found, among the codes of the normalised address, the
-- newest one unused, not past its expiry at the time of the check, with fewer than five counted
-- guesses, and with the hash of the given text.
pub verify_code-Accepts :
    (cfg : Config) (p : Platform) (w : World) (i : VerifyCodeInput) (pair : TokenPair)
    → (verify_code (verify_code_uc cfg) i p w).0 ≡ ok pair
    → (m : VerificationCodeModel) × (latest_code p w i.email ≡ some m)
      × Accepts p (p.time (w.calls + 1)) i.code m
unfolding verify_code verify_record ◌>>=◌
verify_code-Accepts cfg p w i pair h =
    go (p.fails w.calls) (latest_code p w i.email)
      (rw (find_latest_by_email_lem p w (normalize_email p i.email)) at h)
  where
    found : Bool → Option VerificationCodeModel → Result VerificationCode
    found =
        answer Sentinel.code_not_found (codes "finding verification code by email")
          to_domain_verification_code

    go :
        (b : Bool) (o : Option VerificationCodeModel)
        → (verify_record
            (verify_code_uc cfg)
            (normalize_email p i.email)
            i.code
            (found b o)
            p
            (called w)).0
          ≡ ok pair
        → (m : VerificationCodeModel) × (o ≡ some m) × Accepts p (p.time (w.calls + 1)) i.code m
    go true o q = cc
    go false none q = cc
    go false (some m) q =
        (m, refl, verify_record-eq-ok cfg p (normalize_email p i.email) i.code m pair (called w) q)
