-- ===== src/Service/CodeUse.antt =====
-- A code logs in at most once, whatever other requests are under way.
use mathlib.Core.Path.{subst}
use auth_service_go.Base.{
  ℕ, ◌≡◌, ◌≢◌, refl, Bool, true, false, some, List, ◌==◌, arith, inl, inr, Bool-cases,
}
use auth_service_go.Base.Lists.{
  All, All-append, All-mono, All-pure, All-best, All-update_where, best, exists, exists-All,
  exists-append, exists-update_where,
}
use auth_service_go.Base.Strings.{Str, codes}
use auth_service_go.Domain.{Uuid, Time, VerificationCode, Sentinel, is_nil}
use auth_service_go.Database.{Db, VerificationCodeModel, accepts_verification_code}
use auth_service_go.Platform.{Platform, World, Result, ok, ◌>>=◌}
use auth_service_go.Platform.Keeps.{keeps_rules}
use auth_service_go.Platform.Brings.{
  Brings, Brings-bind, Brings-then, Brings-if, Brings-fail, Brings-wrapping, Brings-statement,
}
use auth_service_go.Postgres.Models.{to_domain_verification_code}
use auth_service_go.Postgres.Repositories.{mark_consumed}
use auth_service_go.Postgres.Repositories.Queries.{answer, called, find_latest_by_email_lem}
use auth_service_go.Postgres.Statements.{
  newer, consumed, update_attempts, update_consumed_at, update_user_roles, update_revoked_at,
}
use auth_service_go.Postgres.Statements.Cases.{
  create_user-cases, create_refresh_token-cases, create_verification_code-cases,
}
use auth_service_go.Service.{Config, Request, verify_code_uc}
use auth_service_go.Service.CodeChecks.{latest_code, verify_code-Accepts, reject-ne-ok}
use auth_service_go.Platform.Process.{interleave}
use auth_service_go.Service.Concurrent.{pool, under_way-steady}
use auth_service_go.Service.Consistency.{accepts_verification_code-id}
use auth_service_go.Service.Invariant.{IsInvariant, IsSteady}
use auth_service_go.Service.Invariant.Requests.{
  issue_token_pair_for-Keeps, find_or_create-Keeps, read_rules,
}
use auth_service_go.Usecase.Accounts.{normalize_email}
use auth_service_go.Usecase.Codes.{
  VerifyCodeInput, verify_code, verify_record, unusable, check_code, reject, enter,
}
use auth_service_go.Usecase.Ports.{TokenPair}

-- A code with this id is there.
abbrev pub IsThere : Uuid → Db → Type 0
IsThere id d = exists (λ (c : VerificationCodeModel). c.id == id) d.verification_codes ≡ true

-- A code with this id is there, and each with it was consumed.
pub record IsUsed (id : Uuid) (d : Db) : Type 0 where
  pub known : IsThere id d
  pub over :
      All
        (λ (c : VerificationCodeModel). c.id ≡ id → is_nil c.consumed_at ≡ false)
        d.verification_codes

other_id : (a b : ℕ) → (a == b) ≡ false → a ≢ b
other_id a b h = ground arith

module _ (id : Uuid) where
  pub new_code-ne :
      (m : VerificationCodeModel) (d : Db)
      → accepts_verification_code d m ≡ true
      → IsThere id d
      → m.id ≢ id
  new_code-ne m d accepted there e =
      let absent = accepts_verification_code-id m d accepted in
      cc (
        subst (λ k. exists (λ (c : VerificationCodeModel). c.id == k) d.verification_codes ≡ false)
            e absent,
        there,
      )

  consumed-IsUsed :
      (at t : Time) (d : Db) → IsThere id d → IsUsed id (update_consumed_at id at t d).1
  unfolding update_consumed_at
  consumed-IsUsed at t d there = record {
    known = exists-update_where _ _ (consumed at) d.verification_codes (λ m. refl) there;
    over = All-update_where _ _ (consumed at) d.verification_codes (
        All-pure _ (λ c. (λ _ _. refl, λ miss same. absurd (other_id c.id id miss same)))
          d.verification_codes);
  }

  IsUsed-invariant : (p : Platform) → IsInvariant p (IsUsed id)
  unfolding update_user_roles update_consumed_at update_revoked_at
  IsUsed-invariant p = record {
    at_create_user = λ _ email h name made t d k.
        create_user-cases (IsUsed id) t d k _ λ _. record { known = k.known; over = k.over };
    at_update_user_roles = λ _ t d k. record { known = k.known; over = k.over };
    at_create_refresh_token = λ m t d _ k.
        create_refresh_token-cases (IsUsed id) t d k m
          λ _. record { known = k.known; over = k.over };
    at_update_revoked_at = λ _ t d k. record { known = k.known; over = k.over };
    at_create_verification_code = λ m t d _ _ k.
        create_verification_code-cases (IsUsed id) t d k m λ accepted. record {
          known = exists-append _ d.verification_codes _ k.known;
          over =
              All-append _ d.verification_codes _ k.over
                (λ e. absurd (new_code-ne m d accepted k.known e), tt);
        };
    at_update_consumed_at = λ other made t d k. record {
      known = exists-update_where _ _ (consumed made) d.verification_codes (λ m. refl) k.known;
      over =
          All-update_where _ _ (consumed made) d.verification_codes
            (All-mono _ _ (λ c o. (λ _ _. refl, λ _. o)) d.verification_codes k.over);
    };
  }

  update_attempts-IsUsed :
      (other : Uuid) (t : Time) (d : Db) → IsUsed id d → IsUsed id (update_attempts other t d).1
  unfolding update_attempts
  update_attempts-IsUsed other t d k = record {
    known = exists-update_where _ _ _ d.verification_codes (λ m. refl) k.known;
    over =
        All-update_where _ _ _ d.verification_codes
          (All-mono _ _ (λ c o. (λ _. o, λ _. o)) d.verification_codes k.over);
  }

  pub IsUsed-steady : (p : Platform) → IsSteady p (IsUsed id)
  IsUsed-steady p = record {
    rows = IsUsed-invariant p;
    at_update_attempts = update_attempts-IsUsed;
  }

  mark_consumed-Brings : (p : Platform) → Brings p (IsThere id) (IsUsed id) (mark_consumed id)
  unfolding mark_consumed
  mark_consumed-Brings p =
      Brings-bind _ _ (search keeps_rules)
        λ at. Brings-wrapping _ _ (Brings-statement _ λ t d h. consumed-IsUsed at t d h)

module _ (cfg : Config) (p : Platform) (email code : Str) (r : VerificationCode) where
  abbrev To : {A : Type 0} → (Platform → World → Result A × World) → Type 0
  To m = Brings p (IsThere r.id) (IsUsed r.id) m

  enter-Brings : To (enter (verify_code_uc cfg) (normalize_email p email) r)
  unfolding enter
  enter-Brings = Brings-then _ _ (Brings-wrapping _ _ (mark_consumed-Brings r.id p)) λ _.
      search
        (
          read_rules,
          issue_token_pair_for-Keeps (IsUsed-invariant r.id p) cfg,
          find_or_create-Keeps (IsUsed-invariant r.id p) cfg,
        )
        depth 9

  reject-Brings : To (reject (verify_code_uc cfg) r)
  reject-Brings = record { at = λ w a _ q. absurd (reject-ne-ok cfg p r w a q) }

  check_code-Brings : To (check_code (verify_code_uc cfg) (normalize_email p email) code r)
  unfolding check_code
  check_code-Brings =
      Brings-bind _ _ (search keeps_rules)
        λ hash. Brings-if _ _ _ (Brings-fail _) (Brings-if _ _ _ reject-Brings enter-Brings)

  verify_record-Brings :
      To (verify_record (verify_code_uc cfg) (normalize_email p email) code (ok r))
  unfolding verify_record unusable
  verify_record-Brings =
      Brings-bind _ _ (search keeps_rules) λ dead. Brings-if _ _ _ (Brings-fail _) check_code-Brings

-- The row that a query returns is there.
best-IsThere :
    (test : VerificationCodeModel → Bool) (d : Db) (m : VerificationCodeModel)
    → best newer test d.verification_codes ≡ some m
    → IsThere m.id d
best-IsThere test d m e =
    elim (Bool-cases (exists (λ (c : VerificationCodeModel). c.id == m.id) d.verification_codes)) [
      | inl there ↦ there
      | inr none_there ↦ absurd (
          other_id m.id m.id
            (All-best newer test (λ c. (c.id == m.id) ≡ false) d.verification_codes m
              (exists-All _ d.verification_codes none_there) e).0
            refl)
    ]

-- A verification that returns a token pair leaves the code that it accepted used.
verified-IsUsed :
    (cfg : Config) (p : Platform) (w : World) (i : VerifyCodeInput) (m : VerificationCodeModel)
    (pair : TokenPair)
    → latest_code p w i.email ≡ some m
    → (verify_code (verify_code_uc cfg) i p w).0 ≡ ok pair
    → IsUsed m.id (verify_code (verify_code_uc cfg) i p w).1.db
unfolding verify_code ◌>>=◌
verified-IsUsed cfg p w i m pair newest =
    rw (find_latest_by_email_lem p w (normalize_email p i.email), newest) (go (p.fails w.calls))
  where
    after : Bool → Result TokenPair × World
    after b =
        verify_record (verify_code_uc cfg) (normalize_email p i.email) i.code
          (answer Sentinel.code_not_found (codes "finding verification code by email")
            to_domain_verification_code b (some m))
          p (called w)

    go : (b : Bool) → (after b).0 ≡ ok pair → IsUsed m.id (after b).1.db
    go true q = unfold verify_record in cc
    go false q =
        (verify_record-Brings cfg p i.email i.code (to_domain_verification_code m)).at (called w)
          pair (best-IsThere _ w.db m newest) q

-- If, while some requests are under way, a verification returns a token pair, the code that was then
-- the newest of its address is never accepted again: after any further turns of those requests, in
-- whatever order their calls come and whatever fails, a verification that returns a token pair finds
-- as newest a code with another id.
pub code_never_twice :
    (cfg : Config) (p : Platform) (w : World) (i j : VerifyCodeInput) (m : VerificationCodeModel)
    (first second : TokenPair) (requests : List Request) (before after : List ℕ)
    → let (left, at) = interleave before (pool cfg p requests) p w in
      latest_code p at i.email ≡ some m
      → (verify_code (verify_code_uc cfg) i p at).0 ≡ ok first
      → let w' = (interleave after left p (verify_code (verify_code_uc cfg) i p at).1).1 in
        (verify_code (verify_code_uc cfg) j p w').0 ≡ ok second
        → (n : VerificationCodeModel) × (latest_code p w' j.email ≡ some n) × (n.id ≢ m.id)
code_never_twice cfg p w i j m first second requests before after newest opened again =
    let (left, at) = interleave before (pool cfg p requests) p w in
    let w' = (interleave after left p (verify_code (verify_code_uc cfg) i p at).1).1 in
    let used =
      under_way-steady cfg p (IsUsed-steady m.id p) before after requests w _
        (verified-IsUsed cfg p at i m first newest opened) in
    let (n, found, accepted) = verify_code-Accepts cfg p w' j second again in
    (
      n,
      found,
      λ same.
          let closed = (All-best newer _ _ w'.db.verification_codes n used.over found).0 same in
          cc (closed, accepted.unused),
    )
