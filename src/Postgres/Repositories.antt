-- ===== src/Postgres/Repositories.antt =====
-- internal/adapter/postgres/*_repository.go: the repositories, method by method.
pub mod Queries
use auth_service_go.Base.{Bool, Option, none, some, ltb, if◌then◌else◌}
use auth_service_go.Base.Strings.{Str, codes}
use auth_service_go.Domain.{
  Uuid, User, RefreshToken, VerificationCode, Error, Sentinel, sentinel, wrap, is_record_not_found,
}
use auth_service_go.Platform.{
  Result, ok, err, Action, return, fail, attempt, wrapping, statement, now, ◌>>=◌,
}
use auth_service_go.Database.{UserModel}
use auth_service_go.Postgres.Models.{
  from_domain_user, to_domain_user, from_domain_refresh_token, to_domain_refresh_token,
  from_domain_verification_code, to_domain_verification_code,
}
use auth_service_go.Postgres.Statements.{
  count_users_by_email, create_user, select_user_by_email, select_user_by_id, update_user_roles,
  create_refresh_token, select_refresh_token, update_revoked_at, create_verification_code,
  select_latest_code, update_attempts, update_consumed_at,
}
use auth_service_go.Usecase.Ports.{
  UserRepository, RefreshTokenRepository, VerificationCodeRepository,
}

-- The error half of a `First` query: a missing row is the repository's sentinel.
abbrev pub query_error : Sentinel → Str → Error → Error
query_error missing message e = if is_record_not_found e then sentinel missing else wrap message e

module _ {M A : Type 0} where
  unfoldable pub found : Sentinel → Str → (M → A) → Result M → Action A
  found missing message to_domain (ok m) = return (to_domain m)
  found missing message to_domain (err e) = fail (query_error missing message e)

unfoldable pub exists_by_email : Str → Action Bool
exists_by_email email = do
  count ← wrapping (codes "checking user existence") (statement (count_users_by_email email))
  return (ltb 0 count)

unfoldable pub insert_user : User → Action Unit
insert_user u = wrapping (codes "inserting user") (statement (create_user (from_domain_user u)))

unfoldable pub affected : Option UserModel → Action User
affected none = fail (sentinel Sentinel.user_not_found)
affected (some m) = return (to_domain_user m)

unfoldable pub add_role : Uuid → Str → Action User
add_role user_id role = do
  row ← wrapping (codes "adding role") (statement (update_user_roles user_id role))
  affected row

unfoldable pub find_by_email : Str → Action User
find_by_email email = do
  r ← attempt (statement (select_user_by_email email))
  found Sentinel.user_not_found (codes "finding user by email") to_domain_user r

unfoldable pub find_by_id : Uuid → Action User
find_by_id id = do
  r ← attempt (statement (select_user_by_id id))
  found Sentinel.user_not_found (codes "finding user by id") to_domain_user r

unfoldable pub insert_refresh_token : RefreshToken → Action Unit
insert_refresh_token t =
    wrapping (codes "inserting refresh token")
      (statement (create_refresh_token (from_domain_refresh_token t)))

unfoldable pub find_by_token_hash : Str → Action RefreshToken
find_by_token_hash hash = do
  r ← attempt (statement (select_refresh_token hash))
  found Sentinel.refresh_token_invalid (codes "finding refresh token") to_domain_refresh_token r

unfoldable pub revoke : Uuid → Action Unit
revoke id = wrapping (codes "revoking refresh token") (statement (update_revoked_at id))

unfoldable pub insert_code : VerificationCode → Action Unit
insert_code c =
    wrapping (codes "inserting verification code")
      (statement (create_verification_code (from_domain_verification_code c)))

unfoldable pub find_latest_by_email : Str → Action VerificationCode
find_latest_by_email email = do
  r ← attempt (statement (select_latest_code email))
  found Sentinel.code_not_found (codes "finding verification code by email")
      to_domain_verification_code r

unfoldable pub increment_attempts : Uuid → Action Unit
increment_attempts id =
    wrapping (codes "incrementing verification code attempts") (statement (update_attempts id))

unfoldable pub mark_consumed : Uuid → Action Unit
mark_consumed id = do
  at ← now
  wrapping (codes "marking verification code consumed") (statement (update_consumed_at id at))

abbrev pub users : UserRepository
users = record {
  exists_by_email = exists_by_email;
  insert = insert_user;
  find_by_email = find_by_email;
  find_by_id = find_by_id;
  add_role = add_role;
}

abbrev pub refresh_tokens : RefreshTokenRepository
refresh_tokens = record {
  insert = insert_refresh_token;
  find_by_token_hash = find_by_token_hash;
  revoke = revoke;
}

abbrev pub verification_codes : VerificationCodeRepository
verification_codes = record {
  insert = insert_code;
  find_latest_by_email = find_latest_by_email;
  increment_attempts = increment_attempts;
  mark_consumed = mark_consumed;
}
