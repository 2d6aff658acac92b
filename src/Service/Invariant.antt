-- ===== src/Service/Invariant.antt =====
-- An invariant of the tables under every request: what each statement that writes has to keep, and
-- that the requests then keep it.
pub mod Requests
use mathlib.Core.Path.{subst, sym}
use auth_service_go.Base.{
  ℕ, ◌≡◌, refl, Bool, true, false, not, Option, none, some, List, [], ◌∷◌, if◌then◌else◌, arith,
  inl, inr, Bool-cases,
}
use auth_service_go.Base.Strings.{Str, str_eq, str_eq→eq}
use auth_service_go.Domain.{Uuid, Time, User, RefreshToken, VerificationCode, role_seller, Sentinel}
use auth_service_go.Database.{Db, UserModel, RefreshTokenModel, VerificationCodeModel}
use auth_service_go.Hash.{BcryptLib}
use auth_service_go.Jwt.{Issuer, issue_access_token, new_refresh_token_value}
use auth_service_go.Mail.{verification_mail}
use auth_service_go.Oauth.{
  GoogleProvider, exchange, exchange_code_for_token, fetch_userinfo, client_do,
}
use auth_service_go.Platform.{
  Platform, World, Result, ok, err, Action, attempt, statement, ◌>>=◌, now, new_uuid, read_random,
  random_int,
}
use auth_service_go.Platform.Keeps.{
  Keeps, Keeps-bind, Keeps-statement, Keeps-wrapping, Keeps-bind-asks, keeps_rules,
}
use auth_service_go.Postgres.Models.{
  from_domain_user, from_domain_refresh_token, from_domain_verification_code,
}
use auth_service_go.Postgres.Statements.{
  Statement, count_users_by_email, create_user, select_user_by_email, select_user_by_id,
  update_user_roles, create_refresh_token, select_refresh_token, update_revoked_at,
  create_verification_code, select_latest_code, update_attempts, update_consumed_at,
}
use auth_service_go.Postgres.Repositories.{
  found, affected, exists_by_email, insert_user, add_role as add_role_row, find_by_email,
  find_by_id, insert_refresh_token, find_by_token_hash, revoke, insert_code, find_latest_by_email,
  increment_attempts, mark_consumed, users, refresh_tokens, verification_codes,
}
use auth_service_go.Usecase.Accounts.{
  normalize_email, new_user, register, create_account, login, login_user, issue_token_pair_for,
  add_role, create_from, create_users_bulk, RegisterInput, LoginInput, AddRoleInput, BulkCreateItem,
  BulkCreateResult,
}
use auth_service_go.Usecase.Codes.{
  request_code, generate_digits, generate_verification_code, verify_code, verify_record, unusable,
  find_or_create, enter, reject, check_code, VerifyCodeInput,
}
use auth_service_go.Usecase.Google.{
  sign, open_state, verify_parts, verify, start_google_oauth, sign_in, complete_verified,
  complete_google_oauth, CompleteGoogleOAuthInput,
}
use auth_service_go.Usecase.Sessions.{rotate, refresh_stored, refresh, logout_stored, logout}
use auth_service_go.Service.{
  Config, Request, perform, serve, register_request, login_request, refresh_request, logout_request,
  request_code_request, start_oauth_request, verify_code_request, complete_oauth_request,
  add_role_request, bulk_create_request, register_uc, login_uc, refresh_uc, logout_uc,
  bulk_create_uc, add_role_uc, request_code_uc, verify_code_uc, start_google_oauth_uc,
  complete_google_oauth_uc, state_signer,
}

-- The rows that the service writes: an account is new, with a normalised address; a session is not
-- revoked; a code is unused.
pub record IsInvariant (p : Platform) (P : Db → Type 0) : Type 0 where
  pub at_create_user :
      (id : Uuid) (email : Str) (password_hash : Option Str) (name : Str) (made t : Time) (d : Db)
      → P d
      → P
          (create_user
            (from_domain_user (new_user id (normalize_email p email) password_hash name made))
            t
            d).1
  pub at_update_user_roles :
      (id : Uuid) (t : Time) (d : Db) → P d → P (update_user_roles id role_seller t d).1
  pub at_create_refresh_token :
      (m : RefreshTokenModel) (t : Time) (d : Db)
      → m.revoked_at ≡ none
      → P d
      → P (create_refresh_token m t d).1
  pub at_update_revoked_at : (id : Uuid) (t : Time) (d : Db) → P d → P (update_revoked_at id t d).1
  pub at_create_verification_code :
      (m : VerificationCodeModel) (t : Time) (d : Db)
      → m.consumed_at ≡ none
      → m.attempts ≡ 0
      → P d
      → P (create_verification_code m t d).1
  pub at_update_consumed_at :
      (id : Uuid) (made t : Time) (d : Db) → P d → P (update_consumed_at id made t d).1

-- An invariant that the count of a failed guess keeps too.
pub record IsSteady (p : Platform) (P : Db → Type 0) : Type 0 where
  pub rows : IsInvariant p P
  pub at_update_attempts : (id : Uuid) (t : Time) (d : Db) → P d → P (update_attempts id t d).1
