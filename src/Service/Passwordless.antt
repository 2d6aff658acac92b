-- ===== src/Service/Passwordless.antt =====
-- A code that was requested logs its owner in.
pub mod FirstLogin
use auth_service_go.Base.{
  ℕ, ◌+◌, ◌≤◌, ◌<◌, ◌≡◌, ap, ◌∙◌, true, false, some, List, [], ◌∷◌, ◌++◌, ltb, arith,
}
use auth_service_go.Base.Lists.{All, All-mono, best}
use auth_service_go.Base.Updates.{best-append_first}
use auth_service_go.Base.Strings.{Str, str_eq, str_eq_refl}
use auth_service_go.Database.{Db, UserModel, VerificationCodeModel}
use auth_service_go.Platform.{Platform, World, Result, ok, ◌>>=◌}
use auth_service_go.Postgres.Models.{to_domain_user}
use auth_service_go.Postgres.Repositories.{mark_consumed}
use auth_service_go.Postgres.Repositories.Queries.{find_by_email_lem, find_latest_by_email_lem}
use auth_service_go.Postgres.Statements.{newer, user_by_id, update_consumed_at}
use auth_service_go.Service.{Config, request_code_uc, verify_code_uc}
use auth_service_go.Service.CodeChecks.{latest_code}
use auth_service_go.Service.Credentials.{account_for}
use auth_service_go.Service.Issue.{
  IsCalm, IsFresh, Issues, account-exists, issue_token_pair_for-Issues,
}
use auth_service_go.Service.Requested.{IsRequested, delivery, new_code, request_code-IsRequested}
use auth_service_go.Usecase.Accounts.{normalize_email}
use auth_service_go.Usecase.Ports.{TokenPair}
use auth_service_go.Usecase.Codes.{
  VerifyCodeInput, enter, check_code, find_or_create, hash_verification_code, request_code,
  unusable, verification_code_ttl, verify_code, verify_record,
}

-- The world of a verification when the code is consumed and the account is found.
abbrev pub consumed_world : Platform → World → VerificationCodeModel → World
consumed_world p w m = record w {
  db = (update_consumed_at m.id (p.time (w.calls + 1 + 1)) (p.time (w.calls + 1 + 1 + 1)) w.db).1;
  calls = w.calls + 1 + 1 + 1 + 1 + 1;
}

-- A code that is the newest, in time, with its text, logs in to the account of its address.
verify_code-Issues :
    (cfg : Config) (p : Platform) (w : World) (i : VerifyCodeInput) (n : ℕ) (u : UserModel)
    → let email = normalize_email p i.email in
      IsCalm cfg p
      → IsFresh p (w.calls + 1 + 1 + 1 + 1 + 1) w.db
      → latest_code p w i.email ≡ some (new_code p n email i.code)
      → account_for p w i.email ≡ some u
      → p.time (w.calls + 1) ≤ p.time n + verification_code_ttl
      → Issues cfg p
          (consumed_world p w (new_code p n email i.code))
          u.id
          (verify_code (verify_code_uc cfg) i p w)
unfolding verify_code verify_record unusable check_code enter find_or_create mark_consumed
    update_consumed_at ◌>>=◌
verify_code-Issues cfg p w i n u calm fresh newest account early =
    rw
      (
        find_latest_by_email_lem p w (normalize_email p i.email),
        calm.works w.calls,
        newest,
        in_time,
        str_eq_refl (hash_verification_code p i.code),
        calm.works (w.calls + 1 + 1 + 1),
        find_by_email_lem p marked (normalize_email p i.email),
        calm.works (w.calls + 1 + 1 + 1 + 1),
        account,
      )
      (issue_token_pair_for-Issues cfg p (to_domain_user u)
        (consumed_world p w (new_code p n (normalize_email p i.email) i.code)) calm
        (record {
          buf = fresh.buf;
          drawn = fresh.drawn;
          new_id = fresh.new_id;
          new_token = fresh.new_token;
        })
        (account-exists _ w.db.users u account))
  where
    marked : World
    marked = record w {
      db = (consumed_world p w (new_code p n (normalize_email p i.email) i.code)).db;
      calls = w.calls + 1 + 1 + 1 + 1;
    }

    in_time : ltb (p.time n + verification_code_ttl) (p.time (w.calls + 1)) ≡ false
    in_time = ground arith

-- The code that was just made is the newest of its address.
newest_lem :
    (p : Platform) (n : ℕ) (email code : Str) (cs : List VerificationCodeModel)
    → All (λ c. c.created_at < p.time n) cs
    → best newer (λ c. str_eq c.email email) (cs ++ new_code p n email code ∷ [])
      ≡ some (new_code p n email code)
newest_lem p n email code cs older =
    best-append_first newer _ (new_code p n email code) cs
      (All-mono _ _ (λ c h. before c h) cs older) (str_eq_refl email)
  where
    before :
        (c : VerificationCodeModel)
        → c.created_at < p.time n
        → newer (new_code p n email code) c ≡ true
    before c h = ground arith

-- The code that was requested is the newest of its address.
pub latest-requested :
    (cfg : Config) (p : Platform) (address email : Str) (w w' : World)
    (made : IsRequested cfg p (normalize_email p address) w w')
    → p.time w.calls ≤ p.time made.made_at
    → All (λ (c : VerificationCodeModel). c.created_at < p.time w.calls) w.db.verification_codes
    → normalize_email p email ≡ normalize_email p address
    → latest_code p w' email ≡ some (new_code p made.made_at (normalize_email p email) made.code)
latest-requested cfg p address email w w' made on_time older same =
    ap (λ (d : Db). best newer (λ c. str_eq c.email (normalize_email p email)) d.verification_codes)
      made.stored
    ∙ rw same (
        newest_lem p made.made_at (normalize_email p address) made.code w.db.verification_codes
          (All-mono _ _ (λ c h. omega (arith, h, on_time)) w.db.verification_codes older))

-- A code can be used: if a request for a code returned without an error, the clock never goes back
-- and is past the creation of every earlier code, and nothing outside fails, then there is a code
-- that was delivered to the address, and the next call, a verification of it for an address that
-- normalises to the same and that has an account, within ten minutes of the request, returns a token
-- pair, provided that the id and the token that it draws are not those of a session.
pub requested_code_logs_in :
    (cfg : Config) (p : Platform) (address email : Str) (w : World) (u : UserModel)
    → IsCalm cfg p
    → ((i j : ℕ) → i ≤ j → p.time i ≤ p.time j)
    → All (λ (c : VerificationCodeModel). c.created_at < p.time w.calls) w.db.verification_codes
    → (request_code (request_code_uc cfg) address p w).0 ≡ ok tt
    → let w' = (request_code (request_code_uc cfg) address p w).1 in
      normalize_email p email ≡ normalize_email p address
      → account_for p w email ≡ some u
      → p.time (w'.calls + 1) ≤ p.time w.calls + verification_code_ttl
      → IsFresh p (w'.calls + 1 + 1 + 1 + 1 + 1) w'.db
      → (code : Str) × (w'.outbox ≡ w.outbox ++ delivery cfg (normalize_email p address) code ∷ [])
        × ((pair : TokenPair) × ((verify_code
                (verify_code_uc cfg)
                (record { email = email; code = code })
                p
                w').0
              ≡ ok pair))
requested_code_logs_in cfg p address email w u calm clock older requested same account early fresh =
    let w' = (request_code (request_code_uc cfg) address p w).1 in
    let made = request_code-IsRequested cfg p address w requested in
    let on_time = clock w.calls made.made_at made.not_before in
    let (pair, returned, _) =
      verify_code-Issues cfg p w' (record { email = email; code = made.code }) made.made_at u calm
        fresh (latest-requested cfg p address email w w' made on_time older same)
        (ap (λ (d : Db). best user_by_id (λ x. str_eq x.email (normalize_email p email)) d.users)
            made.stored
          ∙ account)
        (omega (arith, on_time, early)) in
    (made.code, made.delivered, (pair, ap (λ (r : Result TokenPair × World). r.0) returned))
