-- ===== src/Service/Programs.antt =====
-- The methods of the repositories as programs.
pub mod Requests
use mathlib.Core.Path.{subst, sym}
use auth_service_go.Base.{
  ℕ, ◌≡◌, refl, Bool, true, false, not, Option, none, some, List, [], ◌∷◌, if◌then◌else◌, arith,
  inl, inr, Bool-cases,
}
use auth_service_go.Base.Strings.{Str, str_eq, str_eq→eq}
use auth_service_go.Domain.{Uuid, Time, User, RefreshToken, VerificationCode, role_seller, Sentinel}
use auth_service_go.Database.{Db, UserModel, RefreshTokenModel, VerificationCodeModel}
use auth_service_go.Hash.{BcryptLib}
use auth_service_go.Jwt.{Issuer, issue_access_token, new_refresh_token_value}
use auth_service_go.Mail.{verification_mail}
use auth_service_go.Oauth.{
  GoogleProvider, exchange, exchange_code_for_token, fetch_userinfo, client_do,
}
use auth_service_go.Platform.{
  Platform, World, Result, ok, err, Action, attempt, statement, ◌>>=◌, now, new_uuid, read_random,
  random_int,
}
use auth_service_go.Postgres.Models.{
  from_domain_user, from_domain_refresh_token, from_domain_verification_code,
}
use auth_service_go.Postgres.Statements.{
  Statement, count_users_by_email, create_user, select_user_by_email, select_user_by_id,
  update_user_roles, create_refresh_token, select_refresh_token, update_revoked_at,
  create_verification_code, select_latest_code, update_attempts, update_consumed_at,
}
use auth_service_go.Postgres.Repositories.{
  found, affected, exists_by_email, insert_user, add_role as add_role_row, find_by_email,
  find_by_id, insert_refresh_token, find_by_token_hash, revoke, insert_code, find_latest_by_email,
  increment_attempts, mark_consumed, users, refresh_tokens, verification_codes,
}
use auth_service_go.Usecase.Accounts.{
  normalize_email, new_user, register, create_account, login, login_user, issue_token_pair_for,
  add_role, create_from, create_users_bulk, RegisterInput, LoginInput, AddRoleInput, BulkCreateItem,
  BulkCreateResult,
}
use auth_service_go.Usecase.Codes.{
  request_code, generate_digits, generate_verification_code, verify_code, verify_record, unusable,
  find_or_create, enter, reject, check_code, VerifyCodeInput,
}
use auth_service_go.Usecase.Google.{
  sign, open_state, verify_parts, verify, start_google_oauth, sign_in, complete_verified,
  complete_google_oauth, CompleteGoogleOAuthInput,
}
use auth_service_go.Usecase.Sessions.{rotate, refresh_stored, refresh, logout_stored, logout}
use auth_service_go.Service.{
  Config, Request, perform, serve, register_request, login_request, refresh_request, logout_request,
  request_code_request, start_oauth_request, verify_code_request, complete_oauth_request,
  add_role_request, bulk_create_request, register_uc, login_uc, refresh_uc, logout_uc,
  bulk_create_uc, add_role_uc, request_code_uc, verify_code_uc, start_google_oauth_uc,
  complete_google_oauth_uc, state_signer,
}
use auth_service_go.Platform.Program.{
  Program, Program-bind, Program-statement, Program-wrapping, Program-bind-asks, Program-if,
  program_rules,
}
use auth_service_go.Service.Invariant.{IsInvariant}

module _ {p : Platform} {J : (Db → Type 0) → Type 0} where
  pub found-Program :
      {M A : Type 0} (s : Sentinel) (msg : Str) (f : M → A) (r : Result M)
      → Program p J (found s msg f r)
  unfolding found
  found-Program s msg f (ok m) = search program_rules
  found-Program s msg f (err e) = search program_rules

  pub affected-Program : (o : Option UserModel) → Program p J (affected o)
  unfolding affected
  affected-Program none = search program_rules
  affected-Program (some m) = search program_rules

  pub reads-Program :
      {A : Type 0} (f : Statement A)
      → ((t : Time) (d : Db) → (f t d).1 ≡ d)
      → Program p J (statement f)
  reads-Program f same = Program-statement f (λ P j t d h. subst P (sym (same t d)) h)

  pub exists_by_email-Program : (email : Str) → Program p J (exists_by_email email)
  unfolding exists_by_email count_users_by_email
  exists_by_email-Program email = search (program_rules, reads-Program)

  pub find_by_email-Program : (email : Str) → Program p J (find_by_email email)
  unfolding find_by_email select_user_by_email
  find_by_email-Program email = search (program_rules, found-Program, reads-Program)

  pub find_by_id-Program : (id : Uuid) → Program p J (find_by_id id)
  unfolding find_by_id select_user_by_id
  find_by_id-Program id = search (program_rules, found-Program, reads-Program)

  pub find_by_token_hash-Program : (hash : Str) → Program p J (find_by_token_hash hash)
  unfolding find_by_token_hash select_refresh_token
  find_by_token_hash-Program hash = search (program_rules, found-Program, reads-Program)

  pub find_latest_by_email-Program : (email : Str) → Program p J (find_latest_by_email email)
  unfolding find_latest_by_email select_latest_code
  find_latest_by_email-Program email = search (program_rules, found-Program, reads-Program)

pub ruleset query_rules = (
  program_rules, exists_by_email-Program, find_by_email-Program, find_by_id-Program,
  find_by_token_hash-Program, find_latest_by_email-Program,
)

module _ {p : Platform} {J : (Db → Type 0) → Type 0}
    (inv : (P : Db → Type 0) → J P → IsInvariant p P) where
  pub insert_user-Program :
      (id : Uuid) (email : Str) (h : Option Str) (name : Str) (made : Time)
      → Program p J (insert_user (new_user id (normalize_email p email) h name made))
  unfolding insert_user
  insert_user-Program id email h name made =
      Program-wrapping _ _
        (Program-statement _ (λ P j. (inv P j).at_create_user id email h name made))

  pub add_role_row-Program : (id : Uuid) → Program p J (add_role_row id role_seller)
  unfolding add_role_row
  add_role_row-Program id =
      Program-bind _ _
        (Program-wrapping _ _ (Program-statement _ (λ P j. (inv P j).at_update_user_roles id)))
        affected-Program

  pub insert_refresh_token-Program :
      (t : RefreshToken) → t.revoked_at ≡ none → Program p J (insert_refresh_token t)
  unfolding insert_refresh_token
  insert_refresh_token-Program t e = Program-wrapping _ _ (
      Program-statement _
        (λ P j at d. (inv P j).at_create_refresh_token (from_domain_refresh_token t) at d e))

  pub revoke-Program : (id : Uuid) → Program p J (revoke id)
  unfolding revoke
  revoke-Program id =
      Program-wrapping _ _ (Program-statement _ (λ P j. (inv P j).at_update_revoked_at id))

  pub insert_code-Program :
      (c : VerificationCode) → c.consumed_at ≡ none → c.attempts ≡ 0 → Program p J (insert_code c)
  unfolding insert_code
  insert_code-Program c e f = Program-wrapping _ _ (
      Program-statement _ (λ P j at d.
        (inv P j).at_create_verification_code (from_domain_verification_code c) at d e f))

  pub mark_consumed-Program : (id : Uuid) → Program p J (mark_consumed id)
  unfolding mark_consumed
  mark_consumed-Program id = Program-bind _ _ (search program_rules) λ made.
      Program-wrapping _ _ (Program-statement _ (λ P j. (inv P j).at_update_consumed_at id made))

pub increment_attempts-Program :
    {p : Platform} {J : (Db → Type 0) → Type 0}
    → ((P : Db → Type 0)
        → J P
        → (id : Uuid) (t : Time) (d : Db) → P d
        → P (update_attempts id t d).1)
    → (id : Uuid) → Program p J (increment_attempts id)
unfolding increment_attempts
increment_attempts-Program k id = Program-wrapping _ _ (Program-statement _ (λ P j. k P j id))
