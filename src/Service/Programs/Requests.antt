-- ===== src/Service/Programs/Requests.antt =====
-- Every request as a program.
use auth_service_go.Base.{
  ℕ, zero, suc, Bool, true, false, Option, none, some, List, [], ◌∷◌, if◌then◌else◌, inl, inr,
  Bool-cases,
}
use auth_service_go.Base.Strings.{Str, is_empty, str_eq, str_eq→eq}
use auth_service_go.Domain.{Uuid, User, RefreshToken, VerificationCode, role_seller}
use auth_service_go.Database.{Db}
use auth_service_go.Jwt.{Issuer, token_issuer, issue_access_token, new_refresh_token_value}
use auth_service_go.Encoding.{cut_dot}
use auth_service_go.Mail.{smtp_sender, console_sender}
use auth_service_go.Oauth.{
  GoogleProvider, exchange, exchange_code_for_token, fetch_userinfo, client_do,
}
use auth_service_go.Platform.{Platform, Result, ok, err}
use auth_service_go.Postgres.Repositories.{increment_attempts, users, refresh_tokens}
use auth_service_go.Usecase.Accounts.{
  normalize_email, register, create_account, login, login_user, issue_token_pair_for, add_role,
  record_outcome, create_from, create_users_bulk, RegisterInput, LoginInput, AddRoleInput,
  BulkCreateItem, BulkCreateResult,
}
use auth_service_go.Usecase.Codes.{
  verification_code_length, request_code, generate_digits, generate_verification_code, verify_code,
  verify_record, unusable, find_or_create, enter, reject, check_code, VerifyCodeInput,
}
use auth_service_go.Usecase.Google.{
  OAuthStateSigner, sign, open_state, verify_parts, verify, start_google_oauth, sign_in,
  complete_verified, complete_google_oauth, CompleteGoogleOAuthInput,
}
use auth_service_go.Usecase.Ports.{GoogleIdentity}
use auth_service_go.Usecase.Sessions.{rotate, refresh_stored, refresh, logout_stored, logout}
use auth_service_go.Service.{
  Config, Request, perform, register_request, login_request, refresh_request, logout_request,
  request_code_request, start_oauth_request, verify_code_request, complete_oauth_request,
  add_role_request, bulk_create_request, register_uc, login_uc, refresh_uc, logout_uc,
  bulk_create_uc, add_role_uc, request_code_uc, verify_code_uc, start_google_oauth_uc,
  complete_google_oauth_uc,
}
use auth_service_go.Platform.Program.{
  Program, Program-bind, Program-wrapping, Program-bind-asks, Program-if, program_rules,
}
use auth_service_go.Service.Invariant.{IsInvariant}
use auth_service_go.Service.Programs.{
  query_rules, insert_user-Program, add_role_row-Program, insert_refresh_token-Program,
  revoke-Program, insert_code-Program, mark_consumed-Program,
}

module _ {p : Platform} {J : (Db → Type 0) → Type 0} where
  issue_access_token-Program : (i : Issuer) (u : User) → Program p J (issue_access_token i u)
  unfolding issue_access_token
  issue_access_token-Program i u = search program_rules

  new_refresh_token_value-Program : Program p J new_refresh_token_value
  unfolding new_refresh_token_value
  new_refresh_token_value-Program = search program_rules

  generate_digits-Program : (n : ℕ) → Program p J (generate_digits n)
  unfolding generate_digits
  generate_digits-Program zero = search program_rules
  generate_digits-Program (suc n) =
      Program-bind _ _ (search program_rules)
        λ digit. search (program_rules, generate_digits-Program n)

  sender-Program :
      (cfg : Config) (to code : Str)
      → Program p J ((request_code_uc cfg).sender.send_verification_code to code)
  sender-Program cfg to code = go (is_empty cfg.smtp.host)
    where
      go :
          (b : Bool)
          → Program p J
              ((if b then console_sender else smtp_sender cfg.smtp).send_verification_code to code)
      go true = search program_rules
      go false = search program_rules

  exchange-Program : (g : GoogleProvider) (code : Str) → Program p J (exchange g code)
  unfolding exchange exchange_code_for_token fetch_userinfo client_do
  exchange-Program g code = search program_rules depth 9

  verify-Program : (s : OAuthStateSigner) (state : Str) → Program p J (verify s state)
  unfolding verify verify_parts open_state
  verify-Program s state = go (cut_dot state)
    where
      go : (o : Option (Str × Str)) → Program p J (verify_parts s o)
      go none = search program_rules
      go (some (encoded, signature)) = search program_rules depth 9

  pub start_google_oauth-Program :
      (cfg : Config) (r : Str) → Program p J (start_google_oauth (start_google_oauth_uc cfg) r)
  unfolding start_google_oauth sign
  start_google_oauth-Program cfg r = search program_rules depth 9

module _ {p : Platform} {J : (Db → Type 0) → Type 0}
    (inv : (P : Db → Type 0) → J P → IsInvariant p P) (cfg : Config) where
  pub issue_token_pair_for-Program :
      (u : User) → Program p J (issue_token_pair_for refresh_tokens (token_issuer cfg.issuer) u)
  unfolding issue_token_pair_for
  issue_token_pair_for-Program u =
      search
        (
          program_rules,
          issue_access_token-Program,
          new_refresh_token_value-Program,
          insert_refresh_token-Program inv,
        )
        depth 12

  ruleset issue_rules = (query_rules, issue_token_pair_for-Program)

  create_account-Program :
      (i : RegisterInput) (email : Str)
      → Program p J (create_account (register_uc cfg) i (normalize_email p email))
  unfolding create_account
  create_account-Program i email = search (query_rules, insert_user-Program inv) depth 12

  pub register-Program : (i : RegisterInput) → Program p J (register (register_uc cfg) i)
  unfolding register
  register-Program i = Program-bind-asks _ _ (
      Program-bind _ _ (search query_rules) λ exists.
        Program-if exists _ _ (λ _. search program_rules) (λ _. create_account-Program i i.email))

  login_user-Program :
      (password : Str) (r : Result User) → Program p J (login_user (login_uc cfg) password r)
  unfolding login_user
  login_user-Program password (ok u) = search issue_rules depth 9
  login_user-Program password (err e) = search program_rules

  pub login-Program : (i : LoginInput) → Program p J (login (login_uc cfg) i)
  unfolding login
  login-Program i = search (query_rules, login_user-Program) depth 9

  rotate-Program : (t : RefreshToken) → Program p J (rotate (refresh_uc cfg) t)
  unfolding rotate
  rotate-Program t = search (issue_rules, revoke-Program inv) depth 9

  refresh_stored-Program :
      (r : Result RefreshToken) → Program p J (refresh_stored (refresh_uc cfg) r)
  unfolding refresh_stored
  refresh_stored-Program (ok t) = search (program_rules, rotate-Program) depth 9
  refresh_stored-Program (err e) = search program_rules

  pub refresh-Program : (t : Str) → Program p J (refresh (refresh_uc cfg) t)
  unfolding refresh
  refresh-Program t = search (query_rules, refresh_stored-Program) depth 9

  logout_stored-Program : (r : Result RefreshToken) → Program p J (logout_stored (logout_uc cfg) r)
  unfolding logout_stored
  logout_stored-Program (ok t) = search (program_rules, revoke-Program inv)
  logout_stored-Program (err e) = search program_rules

  pub logout-Program : (t : Str) → Program p J (logout (logout_uc cfg) t)
  unfolding logout
  logout-Program t = search (query_rules, logout_stored-Program) depth 9

  generate_verification_code-Program : Program p J generate_verification_code
  unfolding generate_verification_code
  generate_verification_code-Program = generate_digits-Program verification_code_length

  pub request_code-Program : (e : Str) → Program p J (request_code (request_code_uc cfg) e)
  unfolding request_code
  request_code-Program e =
      search
        (
          program_rules,
          generate_verification_code-Program,
          insert_code-Program inv,
          sender-Program cfg,
        )
        depth 14

  pub find_or_create-Program :
      (email name : Str) (r : Result User)
      → Program p J (find_or_create users (normalize_email p email) name r)
  unfolding find_or_create
  find_or_create-Program email name (ok u) = search program_rules
  find_or_create-Program email name (err e) =
      search (program_rules, insert_user-Program inv) depth 10

  pub enter-Program :
      (email : Str) (r : VerificationCode)
      → Program p J (enter (verify_code_uc cfg) (normalize_email p email) r)
  unfolding enter
  enter-Program email r =
      search (issue_rules, mark_consumed-Program inv, find_or_create-Program) depth 9

  sign_in-Program :
      (redirect_to : Str) (i : GoogleIdentity)
      → Program p J (sign_in (complete_google_oauth_uc cfg) redirect_to i)
  unfolding sign_in
  sign_in-Program redirect_to i =
      Program-bind-asks _ _ (search (issue_rules, find_or_create-Program i.email) depth 9)

  complete_verified-Program :
      (code : Str) (r : Result Str)
      → Program p J (complete_verified (complete_google_oauth_uc cfg) code r)
  unfolding complete_verified
  complete_verified-Program code (ok to) =
      search (program_rules, exchange-Program, sign_in-Program) depth 9
  complete_verified-Program code (err e) = search program_rules

  pub complete_google_oauth-Program :
      (i : CompleteGoogleOAuthInput)
      → Program p J (complete_google_oauth (complete_google_oauth_uc cfg) i)
  unfolding complete_google_oauth
  complete_google_oauth-Program i =
      search (program_rules, verify-Program, complete_verified-Program) depth 9

  pub add_role-Program : (i : AddRoleInput) → Program p J (add_role (add_role_uc cfg) i)
  unfolding add_role
  add_role-Program i = elim (Bool-cases (str_eq i.role role_seller)) [
    | inl same ↦
        rw same
          (rw (str_eq→eq _ _ same) (Program-wrapping _ _ (add_role_row-Program inv i.user_id)))
    | inr other ↦ rw other (search program_rules)
  ]

  create_from-Program :
      (result : BulkCreateResult) (items : List BulkCreateItem)
      → Program p J (create_from (bulk_create_uc cfg) result items)
  unfolding create_from
  create_from-Program result [] = search program_rules
  create_from-Program result (item ∷ items) =
      Program-bind _ _ (search (program_rules, register-Program))
        λ outcome. create_from-Program (record_outcome result item outcome) items

  pub create_users_bulk-Program :
      (items : List BulkCreateItem) → Program p J (create_users_bulk (bulk_create_uc cfg) items)
  unfolding create_users_bulk
  create_users_bulk-Program items = create_from-Program _ items

  check_code-Program :
      ((id : Uuid) → Program p J (increment_attempts id))
      → (email code : Str) (r : VerificationCode)
      → Program p J (check_code (verify_code_uc cfg) (normalize_email p email) code r)
  unfolding check_code reject
  check_code-Program inc email code r = search (program_rules, inc, enter-Program) depth 12

  verify_record-Program :
      ((id : Uuid) → Program p J (increment_attempts id))
      → (email code : Str) (r : Result VerificationCode)
      → Program p J (verify_record (verify_code_uc cfg) (normalize_email p email) code r)
  unfolding verify_record unusable
  verify_record-Program inc email code (ok r) =
      search (program_rules, check_code-Program inc) depth 12
  verify_record-Program inc email code (err e) = search program_rules

  -- An invariant that a failed attempt keeps too.
  pub verify_code-Program :
      ((id : Uuid) → Program p J (increment_attempts id))
      → (i : VerifyCodeInput) → Program p J (verify_code (verify_code_uc cfg) i)
  unfolding verify_code
  verify_code-Program inc i =
      Program-bind-asks _ _
        (Program-bind _ _ (search query_rules) (verify_record-Program inc i.email i.code))

  -- All requests keep the invariant, if a verification does.
  pub perform-Program :
      ((i : VerifyCodeInput) → Program p J (verify_code (verify_code_uc cfg) i))
      → (r : Request) → Program p J (perform cfg r)
  unfolding perform
  perform-Program v (register_request i) = search (program_rules, register-Program)
  perform-Program v (login_request i) = search (program_rules, login-Program)
  perform-Program v (refresh_request t) = search (program_rules, refresh-Program)
  perform-Program v (logout_request t) = search (program_rules, logout-Program)
  perform-Program v (request_code_request e) = search (program_rules, request_code-Program)
  perform-Program v (start_oauth_request r) = search (program_rules, start_google_oauth-Program)
  perform-Program v (verify_code_request i) = search (program_rules, v)
  perform-Program v (complete_oauth_request i) =
      search (program_rules, complete_google_oauth-Program)
  perform-Program v (add_role_request i) = search (program_rules, add_role-Program)
  perform-Program v (bulk_create_request is) = search (program_rules, create_users_bulk-Program)
