-- ===== src/Database.antt =====
-- migrations/*.sql: the tables as lists of rows, and the constraints that an INSERT meets.
pub mod Migrations
use auth_service_go.Base.{ℕ, Bool, true, ◌&&◌, not, Option, none, some, List, [], ◌==◌, leb}
use auth_service_go.Base.Lists.{length, exists}
use auth_service_go.Base.Strings.{Str, str_eq}
use auth_service_go.Domain.{Uuid, Time}

-- internal/adapter/postgres/models.go: the rows.
pub record UserModel : Type 0 where
  pub id : Uuid
  pub email : Str
  pub password_hash : Option Str
  pub name : Str
  pub roles : List Str
  pub created_at : Time
  pub updated_at : Time

pub record RefreshTokenModel : Type 0 where
  pub id : Uuid
  pub user_id : Uuid
  pub token_hash : Str
  pub expires_at : Time
  pub revoked_at : Option Time
  pub created_at : Time

pub record VerificationCodeModel : Type 0 where
  pub id : Uuid
  pub email : Str
  pub code_hash : Str
  pub expires_at : Time
  pub consumed_at : Option Time
  pub attempts : ℕ
  pub created_at : Time

pub record Db : Type 0 where
  pub users : List UserModel
  pub refresh_tokens : List RefreshTokenModel
  pub verification_codes : List VerificationCodeModel

abbrev pub empty_db : Db
empty_db = record { users = []; refresh_tokens = []; verification_codes = [] }

-- `VARCHAR(n)`.
abbrev pub fits : ℕ → Str → Bool
fits n s = leb (length s) n

abbrev pub fits_nullable : ℕ → Option Str → Bool
fits_nullable n none = true
fits_nullable n (some s) = fits n s

-- Whether the table takes the row: `PRIMARY KEY`, `UNIQUE`, `VARCHAR(n)` and `REFERENCES`.
unfoldable pub accepts_user : Db → UserModel → Bool
accepts_user d m =
    not (exists (λ u. u.id == m.id) d.users)
    && not (exists (λ u. str_eq u.email m.email) d.users)
    && fits 255 m.email
    && fits_nullable 255 m.password_hash
    && fits 255 m.name

unfoldable pub accepts_refresh_token : Db → RefreshTokenModel → Bool
accepts_refresh_token d m =
    not (exists (λ t. t.id == m.id) d.refresh_tokens)
    && not (exists (λ t. str_eq t.token_hash m.token_hash) d.refresh_tokens)
    && exists (λ u. u.id == m.user_id) d.users
    && fits 64 m.token_hash

unfoldable pub accepts_verification_code : Db → VerificationCodeModel → Bool
accepts_verification_code d m =
    not (exists (λ c. c.id == m.id) d.verification_codes) && fits 255 m.email && fits 64 m.code_hash
