-- ===== src/Service.antt =====
-- cmd/auth-service/main.go: the use cases wired to the adapters, and a run of the service as a
-- sequence of use-case calls.
pub mod Invariant
pub mod Roles
pub mod Granted
pub mod Upgrade
pub mod Registration
pub mod Credentials
pub mod CodeChecks
pub mod CodeUse
pub mod CodeLife
pub mod Migrated
pub mod Attempts
pub mod Issue
pub mod Progress
pub mod Race
pub mod Return
pub mod Lifecycle
pub mod Requested
pub mod Passwordless
pub mod Programs
pub mod Concurrent
pub mod Guesses
pub mod SignIn
pub mod Sessions
pub mod Spent
pub mod Addresses
pub mod Consistency
use auth_service_go.Base.{List, [], ◌∷◌, if◌then◌else◌}
use auth_service_go.Base.Strings.{Str, utf8, is_empty}
use auth_service_go.Hash.{BcryptLib, bcrypt_hasher}
use auth_service_go.Jwt.{Issuer, token_issuer}
use auth_service_go.Mail.{SmtpSender, smtp_sender, console_sender}
use auth_service_go.Oauth.{GoogleProvider, google_provider}
use auth_service_go.Platform.{Platform, World, Action, return, attempt, ◌>>◌}
use auth_service_go.Postgres.Repositories.{users, refresh_tokens, verification_codes}
use auth_service_go.Usecase.Accounts.{
  RegisterInput, Register, new_register, new_login, new_add_role, new_create_users_bulk, register,
  LoginInput, Login, login, AddRoleInput, AddRole, add_role, BulkCreateItem, CreateUsersBulk,
  create_users_bulk,
}
use auth_service_go.Usecase.Codes.{
  RequestCode, new_request_code, request_code, VerifyCodeInput, VerifyCode, new_verify_code,
  verify_code,
}
use auth_service_go.Usecase.Google.{
  ClaimsJson, OAuthStateSigner, new_oauth_state_signer, new_start_google_oauth,
  new_complete_google_oauth, StartGoogleOAuth, start_google_oauth, CompleteGoogleOAuthInput,
  CompleteGoogleOAuth, complete_google_oauth,
}
use auth_service_go.Usecase.Ports.{CodeSender}
use auth_service_go.Usecase.Sessions.{
  RefreshAccessToken, new_refresh_access_token, refresh, Logout, new_logout, logout,
}

-- What the configuration and the libraries supply.
pub record Config : Type 0 where
  pub bcrypt : BcryptLib
  pub issuer : Issuer
  pub smtp : SmtpSender
  pub google : GoogleProvider
  pub json : ClaimsJson

module _ (cfg : Config) where
  -- `codeSender`.
  abbrev pub code_sender : CodeSender
  code_sender = if is_empty cfg.smtp.host then console_sender else smtp_sender cfg.smtp

  abbrev pub register_uc : Register
  register_uc = new_register users (bcrypt_hasher cfg.bcrypt)

  abbrev pub login_uc : Login
  login_uc = new_login users refresh_tokens (bcrypt_hasher cfg.bcrypt) (token_issuer cfg.issuer)

  abbrev pub refresh_uc : RefreshAccessToken
  refresh_uc = new_refresh_access_token users refresh_tokens (token_issuer cfg.issuer)

  abbrev pub logout_uc : Logout
  logout_uc = new_logout refresh_tokens (token_issuer cfg.issuer)

  abbrev pub bulk_create_uc : CreateUsersBulk
  bulk_create_uc = new_create_users_bulk register_uc

  abbrev pub add_role_uc : AddRole
  add_role_uc = new_add_role users

  abbrev pub request_code_uc : RequestCode
  request_code_uc = new_request_code verification_codes code_sender

  abbrev pub verify_code_uc : VerifyCode
  verify_code_uc = new_verify_code verification_codes users refresh_tokens (token_issuer cfg.issuer)

  -- The state is signed with the client secret.
  abbrev pub state_signer : OAuthStateSigner
  state_signer = new_oauth_state_signer cfg.json cfg.google.client_secret

  abbrev pub start_google_oauth_uc : StartGoogleOAuth
  start_google_oauth_uc =
      new_start_google_oauth cfg.json (google_provider cfg.google) cfg.google.client_secret

  abbrev pub complete_google_oauth_uc : CompleteGoogleOAuth
  complete_google_oauth_uc =
      new_complete_google_oauth cfg.json (google_provider cfg.google) cfg.google.client_secret users
        refresh_tokens (token_issuer cfg.issuer)

-- A call of a use case.
pub data Request : Type 0 where
  register_request : RegisterInput → Request
  login_request : LoginInput → Request
  refresh_request logout_request request_code_request start_oauth_request : Str → Request
  verify_code_request : VerifyCodeInput → Request
  complete_oauth_request : CompleteGoogleOAuthInput → Request
  add_role_request : AddRoleInput → Request
  bulk_create_request : List BulkCreateItem → Request

-- The call, whatever it answers.
unfoldable pub perform : Config → Request → Action Unit
perform cfg (register_request i) = do attempt (register (register_uc cfg) i); return tt
perform cfg (login_request i) = do attempt (login (login_uc cfg) i); return tt
perform cfg (refresh_request t) = do attempt (refresh (refresh_uc cfg) t); return tt
perform cfg (logout_request t) = do attempt (logout (logout_uc cfg) t); return tt
perform cfg (request_code_request e) = do attempt (request_code (request_code_uc cfg) e); return tt
perform cfg (start_oauth_request r) = do
  attempt (start_google_oauth (start_google_oauth_uc cfg) r)
  return tt
perform cfg (verify_code_request i) = do attempt (verify_code (verify_code_uc cfg) i); return tt
perform cfg (complete_oauth_request i) = do
  attempt (complete_google_oauth (complete_google_oauth_uc cfg) i)
  return tt
perform cfg (add_role_request i) = do attempt (add_role (add_role_uc cfg) i); return tt
perform cfg (bulk_create_request is) = do
  attempt (create_users_bulk (bulk_create_uc cfg) is)
  return tt

-- One call after another.
unfoldable pub serve : Config → List Request → Platform → World → World
serve cfg [] p w = w
serve cfg (r ∷ rs) p w = serve cfg rs p (perform cfg r p w).1
