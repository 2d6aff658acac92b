-- ===== src/Service/Addresses.antt =====
-- The addresses of the accounts are normalised, and what an account was made with stays.
use auth_service_go.Base.{◌≡◌, Option, List}
use auth_service_go.Base.Lists.{
  All, All-append, All-mono, All-update_where, Any, Any-append, Any-update_where,
}
use auth_service_go.Base.Strings.{Str}
use auth_service_go.Base.Strings.Trim.{IsLowerTable, to_lower-trim_space_idem}
use auth_service_go.Domain.{Uuid, Time, role_seller}
use auth_service_go.Database.{Db, UserModel}
use auth_service_go.Platform.{Platform, World}
use auth_service_go.Postgres.Statements.{
  update_user_roles, update_revoked_at, update_attempts, update_consumed_at, grant,
}
use auth_service_go.Postgres.Statements.Cases.{
  create_user-cases, create_refresh_token-cases, create_verification_code-cases,
}
use auth_service_go.Service.{Config, Request, serve}
use auth_service_go.Service.Invariant.{IsInvariant, IsSteady}
use auth_service_go.Service.Invariant.Requests.{serve-steady}
use auth_service_go.Usecase.Accounts.{normalize_email}

-- Normalising a normalised address changes nothing, if Unicode's lower-case table leaves its own
-- results alone and maps spaces, and only spaces, to spaces.
pub normalize_email_idem :
    (p : Platform) (email : Str)
    → IsLowerTable p.lower_table
    → normalize_email p (normalize_email p email) ≡ normalize_email p email
unfolding normalize_email
normalize_email_idem p email h = to_lower-trim_space_idem h email

abbrev pub HasNormalEmails : Platform → Db → Type 0
HasNormalEmails p d = All (λ (u : UserModel). normalize_email p u.email ≡ u.email) d.users

module _ (p : Platform) (h : IsLowerTable p.lower_table) where
  HasNormalEmails-invariant : IsInvariant p (HasNormalEmails p)
  unfolding update_user_roles update_revoked_at update_consumed_at
  HasNormalEmails-invariant = record {
    at_create_user = λ id email hash name made t d k.
        create_user-cases (HasNormalEmails p) t d k _
          λ _. All-append _ d.users _ k (normalize_email_idem p email h, tt);
    at_update_user_roles = λ id t d k.
        All-update_where _ _ (grant role_seller t) d.users
          (All-mono _ _ (λ u e. (λ _. e, λ _. e)) d.users k);
    at_create_refresh_token =
        λ m t d _ k. create_refresh_token-cases (HasNormalEmails p) t d k m λ _. k;
    at_update_revoked_at = λ id t d k. k;
    at_create_verification_code =
        λ m t d _ _ k. create_verification_code-cases (HasNormalEmails p) t d k m λ _. k;
    at_update_consumed_at = λ id made t d k. k;
  }

  update_attempts-HasNormalEmails :
      (id : Uuid) (t : Time) (d : Db)
      → HasNormalEmails p d
      → HasNormalEmails p (update_attempts id t d).1
  unfolding update_attempts
  update_attempts-HasNormalEmails id t d k = k

pub HasNormalEmails-steady :
    (p : Platform) → IsLowerTable p.lower_table → IsSteady p (HasNormalEmails p)
HasNormalEmails-steady p h = record {
  rows = HasNormalEmails-invariant p h;
  at_update_attempts = update_attempts-HasNormalEmails p h;
}

-- If every account's address is normalised, then after any requests every account's address is, by
-- the same reading of Unicode's lower-case table as above.
serve-HasNormalEmails :
    (cfg : Config) (p : Platform) (requests : List Request) (w : World)
    → IsLowerTable p.lower_table
    → HasNormalEmails p w.db
    → HasNormalEmails p (serve cfg requests p w).db
serve-HasNormalEmails cfg p requests w h = serve-steady cfg (HasNormalEmails-steady p h) requests w

-- There is an account with this id, address, password hash and name.
abbrev pub HasAccount : Uuid → Str → Option Str → Str → Db → Type 0
HasAccount id email hash name d =
    Any
      (λ (u : UserModel).
        (u.id ≡ id) × (u.email ≡ email) × (u.password_hash ≡ hash) × (u.name ≡ name))
      d.users

module _ (p : Platform) (id : Uuid) (email : Str) (hash : Option Str) (name : Str) where
  abbrev Account : Db → Type 0
  Account = HasAccount id email hash name

  HasAccount-invariant : IsInvariant p Account
  unfolding update_user_roles update_revoked_at update_consumed_at
  HasAccount-invariant = record {
    at_create_user =
        λ i e h n made t d k. create_user-cases Account t d k _ λ _. Any-append _ d.users _ k;
    at_update_user_roles =
        λ i t d k. Any-update_where _ _ (grant role_seller t) (λ u a. a) d.users k;
    at_create_refresh_token = λ m t d _ k. create_refresh_token-cases Account t d k m λ _. k;
    at_update_revoked_at = λ i t d k. k;
    at_create_verification_code =
        λ m t d _ _ k. create_verification_code-cases Account t d k m λ _. k;
    at_update_consumed_at = λ i made t d k. k;
  }

  update_attempts-HasAccount :
      (i : Uuid) (t : Time) (d : Db) → Account d → Account (update_attempts i t d).1
  unfolding update_attempts
  update_attempts-HasAccount i t d k = k

pub HasAccount-steady :
    (p : Platform) (id : Uuid) (email : Str) (hash : Option Str) (name : Str)
    → IsSteady p (HasAccount id email hash name)
HasAccount-steady p id email hash name = record {
  rows = HasAccount-invariant p id email hash name;
  at_update_attempts = update_attempts-HasAccount p id email hash name;
}

-- No requests remove an account or change its id, address, password hash or name.
serve-HasAccount :
    (cfg : Config) (p : Platform) (requests : List Request) (w : World) (id : Uuid) (email : Str)
    (hash : Option Str) (name : Str)
    → HasAccount id email hash name w.db
    → HasAccount id email hash name (serve cfg requests p w).db
serve-HasAccount cfg p requests w id email hash name =
    serve-steady cfg (HasAccount-steady p id email hash name) requests w
