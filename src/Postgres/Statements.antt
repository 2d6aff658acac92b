-- ===== src/Postgres/Statements.antt =====
-- What the repositories send to the database, as functions of the tables: the statements that the
-- GORM calls and the raw SQL stand for, with the outcome that GORM reports.
pub mod Cases
use auth_service_go.Base.{
  ℕ, ◌+◌, Bool, ◌&&◌, ◌||◌, Option, none, some, List, [], ◌∷◌, ◌++◌, ◌==◌, ltb, if◌then◌else◌,
}
use auth_service_go.Base.Lists.{count_where, exists, update_where, best}
use auth_service_go.Base.Strings.{Str, str_eq, codes}
use auth_service_go.Domain.{Uuid, Time, record_not_found, external}
use auth_service_go.Database.{
  Db, UserModel, RefreshTokenModel, VerificationCodeModel, accepts_user, accepts_refresh_token,
  accepts_verification_code,
}
use auth_service_go.Platform.{Result, ok, err}

abbrev pub Statement : Type 0 → Type 0
Statement A = Time → Db → Result A × Db

abbrev violation : {A : Type 0} → Result A
violation = err (external (codes "constraint"))

-- `First`: a missing row is `gorm.ErrRecordNotFound`.
abbrev pub first_of_rows : {A : Type 0} → Option A → Result A
first_of_rows (some m) = ok m
first_of_rows none = err record_not_found

-- user_repository.go.
abbrev pub user_by_id : UserModel → UserModel → Bool
user_by_id a b = ltb a.id b.id

unfoldable pub count_users_by_email : Str → Statement ℕ
count_users_by_email email t d = (ok (count_where (λ u. str_eq u.email email) d.users), d)

unfoldable pub create_user : UserModel → Statement Unit
create_user m t d =
    if accepts_user d m then (ok tt, record d { users = d.users ++ m ∷ [] }) else (violation, d)

unfoldable pub select_user_by_email : Str → Statement UserModel
select_user_by_email email t d =
    (first_of_rows (best user_by_id (λ u. str_eq u.email email) d.users), d)

unfoldable pub select_user_by_id : Uuid → Statement UserModel
select_user_by_id id t d = (first_of_rows (best user_by_id (λ u. u.id == id) d.users), d)

-- `CASE WHEN role = ANY(roles) THEN roles ELSE array_append(roles, role) END`.
abbrev pub with_role : Str → List Str → List Str
with_role role roles = if exists (λ r. str_eq r role) roles then roles else roles ++ role ∷ []

abbrev pub grant : Str → Time → UserModel → UserModel
grant role t u = record u { roles = with_role role u.roles; updated_at = t }

-- `UPDATE users … WHERE id = ? RETURNING …`; `none` stands for no row affected.
unfoldable pub update_user_roles : Uuid → Str → Statement (Option UserModel)
update_user_roles id role t d =
    let users = update_where (λ u. u.id == id) (grant role t) d.users in
    (ok (best user_by_id (λ u. u.id == id) users), record d { users = users })

-- refresh_token_repository.go.
abbrev pub token_by_id : RefreshTokenModel → RefreshTokenModel → Bool
token_by_id a b = ltb a.id b.id

unfoldable pub create_refresh_token : RefreshTokenModel → Statement Unit
create_refresh_token m t d =
    if accepts_refresh_token d m
    then (ok tt, record d { refresh_tokens = d.refresh_tokens ++ m ∷ [] })
    else (violation, d)

unfoldable pub select_refresh_token : Str → Statement RefreshTokenModel
select_refresh_token hash t d =
    (first_of_rows (best token_by_id (λ m. str_eq m.token_hash hash) d.refresh_tokens), d)

abbrev pub revoked : Time → RefreshTokenModel → RefreshTokenModel
revoked t m = record m { revoked_at = some t }

unfoldable pub update_revoked_at : Uuid → Statement Unit
update_revoked_at id t d = (
  ok tt,
  record d { refresh_tokens = update_where (λ m. m.id == id) (revoked t) d.refresh_tokens },
)

-- verification_code_repository.go.
-- `ORDER BY created_at DESC, id`: GORM's `First` adds the primary key.
abbrev pub newer : VerificationCodeModel → VerificationCodeModel → Bool
newer a b = ltb b.created_at a.created_at || (a.created_at == b.created_at && ltb a.id b.id)

unfoldable pub create_verification_code : VerificationCodeModel → Statement Unit
create_verification_code m t d =
    if accepts_verification_code d m
    then (ok tt, record d { verification_codes = d.verification_codes ++ m ∷ [] })
    else (violation, d)

unfoldable pub select_latest_code : Str → Statement VerificationCodeModel
select_latest_code email t d =
    (first_of_rows (best newer (λ m. str_eq m.email email) d.verification_codes), d)

abbrev pub attempted : VerificationCodeModel → VerificationCodeModel
attempted m = record m { attempts = m.attempts + 1 }

abbrev pub consumed : Time → VerificationCodeModel → VerificationCodeModel
consumed t m = record m { consumed_at = some t }

unfoldable pub update_attempts : Uuid → Statement Unit
update_attempts id t d = (
  ok tt,
  record d { verification_codes = update_where (λ m. m.id == id) attempted d.verification_codes },
)

unfoldable pub update_consumed_at : Uuid → Time → Statement Unit
update_consumed_at id at t d = (
  ok tt,
  record d {
    verification_codes = update_where (λ m. m.id == id) (consumed at) d.verification_codes;
  },
)
