-- ===== src/Usecase/Accounts.antt =====
-- internal/usecase/register.go, login.go, add_role.go and bulk_create.go.
use auth_service_go.Base.{
  Bool, false, not, Option, none, some, List, [], ◌∷◌, ◌++◌, if◌then◌else◌, ◌+◌,
}
use auth_service_go.Base.Strings.{Str, codes, trim_space, to_lower, str_eq}
use auth_service_go.Domain.{
  Uuid, Time, User, Error, Sentinel, sentinel, wrap, errors_is, role_customer, role_seller,
}
use auth_service_go.Platform.{
  Platform, Result, ok, err, Action, return, fail, asks, attempt, wrapping, now, new_uuid, ◌>>=◌,
  ◌>>◌,
}
use auth_service_go.Usecase.Ports.{
  UserRepository, RefreshTokenRepository, PasswordHasher, TokenIssuer, TokenPair,
}

-- register.go.
unfoldable pub normalize_email : Platform → Str → Str
normalize_email p email = to_lower p.lower_table (trim_space email)

pub record RegisterInput : Type 0 where
  pub email : Str
  pub password : Str
  pub name : Str

pub record Register : Type 0 where
  pub users : UserRepository
  pub hasher : PasswordHasher

abbrev pub new_register : UserRepository → PasswordHasher → Register
new_register users hasher = record { users = users; hasher = hasher }

-- A user as the service creates one: CUSTOMER is the only role.
abbrev pub new_user : Uuid → Str → Option Str → Str → Time → User
new_user id email password_hash name t = record {
  id = id;
  email = email;
  password_hash = password_hash;
  name = name;
  roles = role_customer ∷ [];
  created_at = t;
  updated_at = t;
}

unfoldable pub create_account : Register → RegisterInput → Str → Action User
create_account uc input email = do
  hash ← wrapping (codes "hashing password") (uc.hasher.hash input.password)
  t ← now
  id ← new_uuid
  wrapping (codes "inserting user") (uc.users.insert (new_user id email (some hash) input.name t))
  return (new_user id email (some hash) input.name t)

unfoldable pub register : Register → RegisterInput → Action User
register uc input = do
  email ← asks (λ p. normalize_email p input.email)
  exists ← wrapping (codes "checking existing user") (uc.users.exists_by_email email)
  if exists then fail (sentinel Sentinel.email_already_exists) else create_account uc input email

-- login.go.
pub record LoginInput : Type 0 where
  pub email : Str
  pub password : Str

pub record Login : Type 0 where
  pub users : UserRepository
  pub tokens : RefreshTokenRepository
  pub hasher : PasswordHasher
  pub issuer : TokenIssuer

abbrev pub new_login :
    UserRepository → RefreshTokenRepository → PasswordHasher → TokenIssuer → Login
new_login users tokens hasher issuer = record {
  users = users;
  tokens = tokens;
  hasher = hasher;
  issuer = issuer;
}

unfoldable pub issue_token_pair_for : RefreshTokenRepository → TokenIssuer → User → Action TokenPair
issue_token_pair_for tokens issuer user = do
  access ← wrapping (codes "issuing access token") (issuer.issue_access_token user)
  value ← wrapping (codes "generating refresh token") issuer.new_refresh_token_value
  t ← now
  id ← new_uuid
  wrapping (codes "persisting refresh token") (
      tokens.insert (record {
        id = id;
        user_id = user.id;
        token_hash = value.hash;
        expires_at = t + issuer.refresh_token_ttl;
        revoked_at = none;
        created_at = t;
      }))
  return (record {
    access_token = access.token;
    refresh_token = value.plaintext;
    expires_in = access.expires_in;
  })

abbrev pub password_accepted : PasswordHasher → Option Str → Str → Bool
password_accepted hasher none password = false
password_accepted hasher (some hash) password = hasher.matches hash password

unfoldable pub login_user : Login → Str → Result User → Action TokenPair
login_user uc password (err e) = fail (
    if errors_is e Sentinel.user_not_found
    then sentinel Sentinel.invalid_credentials
    else wrap (codes "loading user") e)
login_user uc password (ok user) =
    if not (password_accepted uc.hasher user.password_hash password)
    then fail (sentinel Sentinel.invalid_credentials)
    else issue_token_pair_for uc.tokens uc.issuer user

unfoldable pub login : Login → LoginInput → Action TokenPair
login uc input = do
  email ← asks (λ p. normalize_email p input.email)
  user ← attempt (uc.users.find_by_email email)
  login_user uc input.password user

-- add_role.go.
pub record AddRoleInput : Type 0 where
  pub user_id : Uuid
  pub role : Str

pub record AddRole : Type 0 where
  pub users : UserRepository

abbrev pub new_add_role : UserRepository → AddRole
new_add_role users = record { users = users }

unfoldable pub add_role : AddRole → AddRoleInput → Action User
add_role uc input =
    if not (str_eq input.role role_seller)
    then fail (sentinel Sentinel.invalid_role)
    else wrapping (codes "adding role") (uc.users.add_role input.user_id input.role)

-- bulk_create.go.
pub record BulkCreateItem : Type 0 where
  pub email : Str
  pub password : Str
  pub name : Str

pub record CreatedUser : Type 0 where
  pub id : Uuid
  pub email : Str

pub record SkippedUser : Type 0 where
  pub email : Str
  pub reason : Str

pub record BulkCreateResult : Type 0 where
  pub created : List CreatedUser
  pub skipped : List SkippedUser

pub record CreateUsersBulk : Type 0 where
  pub register : Register

abbrev pub new_create_users_bulk : Register → CreateUsersBulk
new_create_users_bulk register = record { register = register }

abbrev pub skip_reason : Error → Str
skip_reason e =
    if errors_is e Sentinel.email_already_exists
    then codes "email already registered"
    else codes "unknown error"

-- One round of the loop, after `register.Handle`.
abbrev pub record_outcome : BulkCreateResult → BulkCreateItem → Result User → BulkCreateResult
record_outcome result item (err e) = record result {
  skipped = result.skipped ++ record { email = item.email; reason = skip_reason e } ∷ [];
}
record_outcome result item (ok user) = record result {
  created = result.created ++ record { id = user.id; email = user.email } ∷ [];
}

abbrev pub register_input : BulkCreateItem → RegisterInput
register_input item = record { email = item.email; password = item.password; name = item.name }

unfoldable pub create_from :
    CreateUsersBulk → BulkCreateResult → List BulkCreateItem → Action BulkCreateResult
create_from uc result [] = return result
create_from uc result (item ∷ items) = do
  outcome ← attempt (register uc.register (register_input item))
  create_from uc (record_outcome result item outcome) items

unfoldable pub create_users_bulk : CreateUsersBulk → List BulkCreateItem → Action BulkCreateResult
create_users_bulk uc items = create_from uc (record { created = []; skipped = [] }) items
