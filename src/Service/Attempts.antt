-- ===== src/Service/Attempts.antt =====
-- Wrong guesses at a verification code are counted, and at most five are.
use auth_service_go.Base.{
  ◌≤◌, ◌<◌, ◌≡◌, refl, ap, Bool, true, false, Option, none, some, List, leb, ltb, arith, inl, inr,
  Bool-cases,
}
use auth_service_go.Base.Lists.{
  All, All-append, All-mono, All-both, All-update_where, best, best_unique,
}
use auth_service_go.Base.Strings.{Str, codes, str_eq}
use auth_service_go.Domain.{Time, VerificationCode, Sentinel, is_nil}
use auth_service_go.Database.{Db, VerificationCodeModel}
use auth_service_go.Platform.{Platform, World, ok, ◌>>=◌}
use auth_service_go.Platform.Keeps.{Keeps}
use auth_service_go.Postgres.Models.{to_domain_verification_code}
use auth_service_go.Postgres.Repositories.{increment_attempts}
use auth_service_go.Postgres.Repositories.Queries.{answer, called, find_latest_by_email_lem}
use auth_service_go.Postgres.Statements.{
  update_user_roles, update_revoked_at, update_attempts, update_consumed_at, attempted, consumed,
  newer,
}
use auth_service_go.Postgres.Statements.Cases.{
  create_user-cases, create_refresh_token-cases, create_verification_code-cases,
}
use auth_service_go.Service.{Config, Request, serve, verify_code_uc}
use auth_service_go.Service.Consistency.{
  IsConsistent, IsConsistent-invariant, update_attempts-IsConsistent,
}
use auth_service_go.Service.Invariant.{IsInvariant}
use auth_service_go.Service.Invariant.Requests.{perform-Keeps, serve-keeps, enter-Keeps}
use auth_service_go.Usecase.Accounts.{normalize_email}
use auth_service_go.Usecase.Codes.{
  max_verification_attempts, VerifyCodeInput, verify_code, verify_record, unusable, check_code,
  reject, hash_verification_code,
}

-- Consistent tables in which no code has more than five counted guesses.
pub record IsGuarded (d : Db) : Type 0 where
  pub consistent : IsConsistent d
  pub counted :
      All
        (λ (c : VerificationCodeModel). c.attempts ≤ max_verification_attempts)
        d.verification_codes

IsGuarded-invariant : (p : Platform) → IsInvariant p IsGuarded
unfolding update_user_roles update_revoked_at update_consumed_at
IsGuarded-invariant p =
    let inv = IsConsistent-invariant p in
    record {
      at_create_user = λ id email h name made t d k. record {
        consistent = inv.at_create_user id email h name made t d k.consistent;
        counted =
            create_user-cases
              (λ e. All (λ (c : VerificationCodeModel). c.attempts ≤ 5) e.verification_codes) t d
              k.counted _ λ _. k.counted;
      };
      at_update_user_roles = λ id t d k. record {
        consistent = inv.at_update_user_roles id t d k.consistent;
        counted = k.counted;
      };
      at_create_refresh_token = λ m t d e k. record {
        consistent = inv.at_create_refresh_token m t d e k.consistent;
        counted =
            create_refresh_token-cases
              (λ e. All (λ (c : VerificationCodeModel). c.attempts ≤ 5) e.verification_codes) t d
              k.counted m λ _. k.counted;
      };
      at_update_revoked_at = λ id t d k. record {
        consistent = inv.at_update_revoked_at id t d k.consistent;
        counted = k.counted;
      };
      at_create_verification_code = λ m t d e f k. record {
        consistent = inv.at_create_verification_code m t d e f k.consistent;
        counted =
            create_verification_code-cases
              (λ e. All (λ (c : VerificationCodeModel). c.attempts ≤ 5) e.verification_codes) t d
              k.counted m λ _. All-append _ d.verification_codes _ k.counted (omega arith, tt);
      };
      at_update_consumed_at = λ id made t d k. record {
        consistent = inv.at_update_consumed_at id made t d k.consistent;
        counted =
            All-update_where _ _ (consumed made) d.verification_codes
              (All-mono _ _ (λ c e. (λ _. e, λ _. e)) d.verification_codes k.counted);
      };
    }

-- The row of a code that was read.
abbrev IsRow : VerificationCode → Db → Type 0
IsRow r d =
    All (λ (c : VerificationCodeModel). c.id ≡ r.id → c.attempts ≡ r.attempts) d.verification_codes

-- One more guess is counted for a code that has fewer than five.
update_attempts-IsGuarded :
    (r : VerificationCode) (t : Time) (d : Db)
    → r.attempts < max_verification_attempts
    → IsRow r d
    → IsGuarded d
    → IsGuarded (update_attempts r.id t d).1
update_attempts-IsGuarded r t d few row k = record {
  consistent = update_attempts-IsConsistent r.id t d k.consistent;
  counted =
      unfold update_attempts in
      All-update_where _ _ attempted d.verification_codes (
        All-mono _ _ (λ c b. (λ hit. ground (arith, b.0), λ _. b.1)) d.verification_codes
          (All-both _ _ d.verification_codes row k.counted));
}

module _ (cfg : Config) (p : Platform) (email code : Str) (r : VerificationCode) where
  reject-IsGuarded :
      (w : World)
      → r.attempts < max_verification_attempts
      → IsRow r w.db
      → IsGuarded w.db
      → IsGuarded (reject (verify_code_uc cfg) r p w).1.db
  unfolding reject increment_attempts update_attempts ◌>>=◌
  reject-IsGuarded w few row k = elim (Bool-cases (p.fails w.calls)) [
    | inl failed ↦ rw failed k
    | inr works ↦ rw works (update_attempts-IsGuarded r (p.time w.calls) w.db few row k)
  ]

  check_code-IsGuarded :
      (w : World)
      → IsRow r w.db
      → IsGuarded w.db
      → IsGuarded (check_code (verify_code_uc cfg) (normalize_email p email) code r p w).1.db
  unfolding check_code ◌>>=◌
  check_code-IsGuarded w row k = elim (Bool-cases (leb max_verification_attempts r.attempts)) [
    | inl locked ↦ rw locked k
    | inr open_ ↦ rw open_ (elim (Bool-cases (str_eq (hash_verification_code p code) r.code_hash)) [
      | inl right ↦ rw right ((enter-Keeps (IsGuarded-invariant p) cfg email r).at w k)
      | inr wrong ↦ rw wrong (reject-IsGuarded w (ground arith) row k)
    ])
  ]

  verify_record-IsGuarded :
      (w : World)
      → IsRow r w.db
      → IsGuarded w.db
      → IsGuarded
          (verify_record (verify_code_uc cfg) (normalize_email p email) code (ok r) p w).1.db
  unfolding verify_record unusable ◌>>=◌
  verify_record-IsGuarded w row k = elim (Bool-cases (is_nil r.consumed_at)) [
    | inr used ↦ rw used k
    | inl unused ↦ rw unused (elim (Bool-cases (ltb r.expires_at (p.time w.calls))) [
      | inl expired ↦ rw expired k
      | inr fresh ↦ rw fresh (check_code-IsGuarded (called w) row k)
    ])
  ]

-- The row that a query finds is the only one with its id.
found-IsRow :
    (test : VerificationCodeModel → Bool) (m : VerificationCodeModel) (d : Db)
    → IsConsistent d
    → best newer test d.verification_codes ≡ some m
    → IsRow (to_domain_verification_code m) d
found-IsRow test m d c e =
    let ids = λ (x : VerificationCodeModel). x.id in
    All-mono _ _ (λ x same i. ap (λ (y : VerificationCodeModel). y.attempts) (same i))
      d.verification_codes (best_unique newer test ids d.verification_codes m c.code_ids e)

verify_code-IsGuarded :
    (cfg : Config) (p : Platform) (i : VerifyCodeInput)
    → Keeps p IsGuarded (verify_code (verify_code_uc cfg) i)
unfolding verify_code verify_record ◌>>=◌
verify_code-IsGuarded cfg p i = record {
  at = λ w k.
      rw (find_latest_by_email_lem p w (normalize_email p i.email))
        (go w k (p.fails w.calls) (best newer (test w) w.db.verification_codes) refl);
}
  where
    test : World → VerificationCodeModel → Bool
    test w m = str_eq m.email (normalize_email p i.email)

    go :
        (w : World) (k : IsGuarded w.db) (b : Bool) (o : Option VerificationCodeModel)
        → best newer (test w) w.db.verification_codes ≡ o
        → IsGuarded
            (verify_record
              (verify_code_uc cfg)
              (normalize_email p i.email)
              i.code
              (answer Sentinel.code_not_found
                (codes "finding verification code by email")
                to_domain_verification_code
                b
                o)
              p
              (called w)).1.db
    go w k true o e = k
    go w k false none e = k
    go w k false (some m) e =
        verify_record-IsGuarded cfg p i.email i.code (to_domain_verification_code m) (called w)
          (found-IsRow (test w) m w.db k.consistent e) k

-- If the tables are consistent and no code has more than five counted guesses, then no code has
-- more after any requests, one after another, whatever calls to the outside fail.
pub serve-IsGuarded :
    (cfg : Config) (p : Platform) (requests : List Request) (w : World)
    → IsGuarded w.db
    → IsGuarded (serve cfg requests p w).db
serve-IsGuarded cfg p =
    serve-keeps IsGuarded cfg
      (perform-Keeps (IsGuarded-invariant p) cfg (verify_code-IsGuarded cfg p))
