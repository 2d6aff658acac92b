-- ===== src/Service/Passwordless/FirstLogin.antt =====
-- A code that was requested for an address without an account makes the account and logs in to it.
use auth_service_go.Base.{
  ℕ, ◌+◌, ◌≤◌, ◌<◌, ◌≡◌, refl, sym, ap, ◌∙◌, true, false, none, some, List, [], ◌∷◌, ◌++◌, ◌==◌,
  ltb, leb, arith, inl, inr, Bool-cases,
}
use auth_service_go.Base.Lists.{
  All, Any-exists, Any-append_right, best, best-ne-none, exists, length,
}
use auth_service_go.Base.Strings.{Str, str_eq, str_eq_refl}
use auth_service_go.Domain.{User}
use auth_service_go.Database.{Db, UserModel, VerificationCodeModel, accepts_user}
use auth_service_go.Platform.{Platform, World, Result, ok, ◌>>=◌}
use auth_service_go.Postgres.Models.{from_domain_user}
use auth_service_go.Postgres.Repositories.{mark_consumed, insert_user}
use auth_service_go.Postgres.Repositories.Queries.{find_by_email_lem, find_latest_by_email_lem}
use auth_service_go.Postgres.Statements.{user_by_id, update_consumed_at, create_user}
use auth_service_go.Service.{Config, request_code_uc, verify_code_uc}
use auth_service_go.Service.CodeChecks.{latest_code}
use auth_service_go.Service.Credentials.{account_for}
use auth_service_go.Service.Issue.{IsCalm, IsFresh, Issues, issue_token_pair_for-Issues}
use auth_service_go.Service.Passwordless.{consumed_world, latest-requested, requested_code_logs_in}
use auth_service_go.Service.SignIn.{IsSignedIn}
use auth_service_go.Service.SignIn.Ways.{verify_code-SignsIn}
use auth_service_go.Service.Requested.{IsRequested, delivery, new_code, request_code-IsRequested}
use auth_service_go.Usecase.Accounts.{normalize_email, new_user}
use auth_service_go.Usecase.Ports.{TokenPair}
use auth_service_go.Usecase.Codes.{
  VerifyCodeInput, enter, check_code, find_or_create, hash_verification_code, request_code,
  unusable, verification_code_ttl, verify_code, verify_record,
}

-- The account that a verification from `w` makes for an address.
abbrev pub first_user : Platform → World → Str → User
first_user p w email =
    new_user (p.uuid (w.calls + 1 + 1 + 1 + 1 + 1 + 1)) email none email
      (p.time (w.calls + 1 + 1 + 1 + 1 + 1))

-- The world of the verification when the account is made.
abbrev pub joined_world : Platform → World → VerificationCodeModel → Str → World
joined_world p w m email = record w {
  db = record (consumed_world p w m).db {
    users = (consumed_world p w m).db.users ++ from_domain_user (first_user p w email) ∷ [];
  };
  calls = w.calls + 1 + 1 + 1 + 1 + 1 + 1 + 1 + 1;
}

absent-exists :
    (email : Str) (us : List UserModel)
    → best user_by_id (λ u. str_eq u.email email) us ≡ none
    → exists (λ u. str_eq u.email email) us ≡ false
absent-exists email us absent = elim (Bool-cases (exists (λ u. str_eq u.email email) us)) [
  | inr none_there ↦ none_there
  | inl there ↦ absurd (best-ne-none user_by_id (λ u. str_eq u.email email) us there absent)
]

le→leb : (m n : ℕ) → m ≤ n → leb m n ≡ true
le→leb m n h = ground arith

same_test : (a b : ℕ) → a ≡ b → (a == b) ≡ true
same_test a b h = ground arith

verify_code-Joins :
    (cfg : Config) (p : Platform) (w : World) (i : VerifyCodeInput) (n : ℕ)
    → let email = normalize_email p i.email in
      IsCalm cfg p
      → IsFresh p (w.calls + 1 + 1 + 1 + 1 + 1 + 1 + 1 + 1) w.db
      → latest_code p w i.email ≡ some (new_code p n email i.code)
      → account_for p w i.email ≡ none
      → exists (λ u. u.id == (first_user p w email).id) w.db.users ≡ false
      → length email ≤ 255
      → p.time (w.calls + 1) ≤ p.time n + verification_code_ttl
      → Issues cfg p
          (joined_world p w (new_code p n email i.code) email)
          (first_user p w email).id
          (verify_code (verify_code_uc cfg) i p w)
unfolding verify_code verify_record unusable check_code enter find_or_create mark_consumed
    update_consumed_at insert_user create_user accepts_user ◌>>=◌
verify_code-Joins cfg p w i n calm fresh newest absent new_id short early =
    rw
      (
        find_latest_by_email_lem p w (normalize_email p i.email),
        calm.works w.calls,
        newest,
        in_time,
        str_eq_refl (hash_verification_code p i.code),
        calm.works (w.calls + 1 + 1 + 1),
        find_by_email_lem p marked (normalize_email p i.email),
        calm.works (w.calls + 1 + 1 + 1 + 1),
        absent,
        calm.works (w.calls + 1 + 1 + 1 + 1 + 1 + 1 + 1),
        new_id,
        absent-exists _ w.db.users absent,
        le→leb _ _ short,
      )
      (issue_token_pair_for-Issues cfg p (first_user p w (normalize_email p i.email))
        (joined_world p w (new_code p n (normalize_email p i.email) i.code)
          (normalize_email p i.email))
        calm
        (record {
          buf = fresh.buf;
          drawn = fresh.drawn;
          new_id = fresh.new_id;
          new_token = fresh.new_token;
        })
        (Any-exists (λ x. x.id ≡ first.id) (λ x. x.id == first.id)
          (λ x same. same_test x.id first.id same) _
          (Any-append_right (λ x. x.id ≡ first.id) w.db.users refl)))
  where
    first : User
    first = first_user p w (normalize_email p i.email)

    marked : World
    marked = record w {
      db = (consumed_world p w (new_code p n (normalize_email p i.email) i.code)).db;
      calls = w.calls + 1 + 1 + 1 + 1;
    }

    in_time : ltb (p.time n + verification_code_ttl) (p.time (w.calls + 1)) ≡ false
    in_time = ground arith

-- Who can enter with a code of this address: the owner of an account, or a newcomer whose address fits
-- the column and for whom an id is drawn that no account has; and the id and the token that are drawn
-- for the session are not those of one.
pub data CanEnter (p : Platform) (w : World) (email : Str) : Type 0 where
  owner :
      (u : UserModel)
      → account_for p w email ≡ some u
      → IsFresh p (w.calls + 1 + 1 + 1 + 1 + 1) w.db
      → CanEnter p w email
  newcomer :
      account_for p w email ≡ none
      → exists (λ u. u.id == (first_user p w (normalize_email p email)).id) w.db.users ≡ false
      → length (normalize_email p email) ≤ 255
      → IsFresh p (w.calls + 1 + 1 + 1 + 1 + 1 + 1 + 1 + 1) w.db
      → CanEnter p w email

-- A code can be used, with an account and without: if a request for a code returned without an error,
-- the clock never goes back and is past the creation of every earlier code, and nothing outside
-- fails, then there is a code that was delivered to the address, and the next call, a verification of
-- it for an address that normalises to the same and whose owner or a newcomer can enter, within ten
-- minutes of the request, returns a token pair and leaves a session in force with the hash of its
-- refresh token, for an account of the address.
pub requested_code_signs_in :
    (cfg : Config) (p : Platform) (address email : Str) (w : World)
    → IsCalm cfg p
    → ((i j : ℕ) → i ≤ j → p.time i ≤ p.time j)
    → All (λ (c : VerificationCodeModel). c.created_at < p.time w.calls) w.db.verification_codes
    → (request_code (request_code_uc cfg) address p w).0 ≡ ok tt
    → let w' = (request_code (request_code_uc cfg) address p w).1 in
      normalize_email p email ≡ normalize_email p address
      → CanEnter p w' email
      → p.time (w'.calls + 1) ≤ p.time w.calls + verification_code_ttl
      → (code : Str) × (w'.outbox ≡ w.outbox ++ delivery cfg (normalize_email p address) code ∷ [])
        × ((pair : TokenPair) × (let entered =
                verify_code (verify_code_uc cfg) (record { email = email; code = code }) p w' in
              (entered.0 ≡ ok pair)
              × IsSignedIn p (normalize_email p email) pair.refresh_token entered.1.db))
requested_code_signs_in cfg p address email w calm clock older requested same can early =
    let (code, delivered, (pair, entered)) = enters can in
    (
      code,
      delivered,
      (
        pair,
        (
          entered,
          (verify_code-SignsIn cfg p w' (record { email = email; code = code }) pair entered).1,
        ),
      ),
    )
  where
    w' : World
    w' = (request_code (request_code_uc cfg) address p w).1

    made : IsRequested cfg p (normalize_email p address) w w'
    made = request_code-IsRequested cfg p address w requested

    enters :
        CanEnter p w' email
        → (code : Str) × (w'.outbox
            ≡ w.outbox ++ delivery cfg (normalize_email p address) code ∷ [])
          × ((pair : TokenPair) × ((verify_code
                  (verify_code_uc cfg)
                  (record { email = email; code = code })
                  p
                  w').0
                ≡ ok pair))
    enters (owner u account fresh) =
        requested_code_logs_in cfg p address email w u calm clock older requested same
          (sym (
              ap
                (λ (d : Db).
                  best user_by_id (λ x. str_eq x.email (normalize_email p email)) d.users)
                made.stored)
            ∙ account)
          early fresh
    enters (newcomer absent new_id short fresh) =
        let on_time = clock w.calls made.made_at made.not_before in
        let (pair, returned, _) =
          verify_code-Joins cfg p w' (record { email = email; code = made.code }) made.made_at calm
            fresh (latest-requested cfg p address email w w' made on_time older same) absent new_id
            short (omega (arith, on_time, early)) in
        (made.code, made.delivered, (pair, ap (λ (r : Result TokenPair × World). r.0) returned))
