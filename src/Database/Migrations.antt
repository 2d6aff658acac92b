-- ===== src/Database/Migrations.antt =====
-- migrations/*.sql as functions of the tables, up and down, one pair for each version. A transaction
-- runs whole; an index changes no rows.
use auth_service_go.Base.{◌≡◌, refl, ap, Option, List, [], ◌∷◌, map}
use auth_service_go.Base.Strings.{Str}
use auth_service_go.Domain.{Uuid, Time, role_customer}
use auth_service_go.Database.{Db, UserModel, RefreshTokenModel}

-- A row of `users` before it has roles.
pub record OldUserModel : Type 0 where
  pub id : Uuid
  pub email : Str
  pub password_hash : Option Str
  pub name : Str
  pub created_at : Time
  pub updated_at : Time

-- The versions of the schema, and its tables.
pub data Version : Type 0 where
  blank accounts sessions roles codes : Version

abbrev pub Tables : Version → Type 0
Tables blank = Unit
Tables accounts = List OldUserModel
Tables sessions = List OldUserModel × List RefreshTokenModel
Tables roles = List UserModel × List RefreshTokenModel
Tables codes = Db

-- `ADD COLUMN roles … DEFAULT '{CUSTOMER}'` and `DROP COLUMN roles`.
abbrev pub with_roles : OldUserModel → UserModel
with_roles u = record {
  id = u.id;
  email = u.email;
  password_hash = u.password_hash;
  name = u.name;
  roles = role_customer ∷ [];
  created_at = u.created_at;
  updated_at = u.updated_at;
}

abbrev pub without_roles : UserModel → OldUserModel
without_roles u = record {
  id = u.id;
  email = u.email;
  password_hash = u.password_hash;
  name = u.name;
  created_at = u.created_at;
  updated_at = u.updated_at;
}

abbrev pub create_users_table : Tables blank → Tables accounts
create_users_table _ = []

abbrev pub drop_users_table : Tables accounts → Tables blank
drop_users_table _ = tt

abbrev pub create_refresh_tokens_table : Tables accounts → Tables sessions
create_refresh_tokens_table users = (users, [])

abbrev pub drop_refresh_tokens_table : Tables sessions → Tables accounts
drop_refresh_tokens_table (users, _) = users

abbrev pub add_roles_column : Tables sessions → Tables roles
add_roles_column (users, tokens) = (map with_roles users, tokens)

abbrev pub drop_roles_column : Tables roles → Tables sessions
drop_roles_column (users, tokens) = (map without_roles users, tokens)

abbrev pub create_verification_codes_table : Tables roles → Tables codes
create_verification_codes_table (users, tokens) = record {
  users = users;
  refresh_tokens = tokens;
  verification_codes = [];
}

abbrev pub drop_verification_codes_table : Tables codes → Tables roles
drop_verification_codes_table d = (d.users, d.refresh_tokens)

-- From one version to the next, one for each pair of files.
pub data Migration : Version → Version → Type 0 where
  add_users : Migration blank accounts
  add_refresh_tokens : Migration accounts sessions
  add_roles : Migration sessions roles
  add_verification_codes : Migration roles codes

-- The `.up.sql` file, and the `.down.sql` file.
abbrev pub up : {v w : Version} → Migration v w → Tables v → Tables w
up add_users = create_users_table
up add_refresh_tokens = create_refresh_tokens_table
up add_roles = add_roles_column
up add_verification_codes = create_verification_codes_table

abbrev pub down : {v w : Version} → Migration v w → Tables w → Tables v
down add_users = drop_users_table
down add_refresh_tokens = drop_refresh_tokens_table
down add_roles = drop_roles_column
down add_verification_codes = drop_verification_codes_table

same_users : (users : List OldUserModel) → map without_roles (map with_roles users) ≡ users
same_users [] = refl
same_users (u ∷ users) = ap (λ us. u ∷ us) (same_users users)

-- Each `.down.sql` takes back its `.up.sql`: the rows that were there before are there again.
down-up : {v w : Version} (m : Migration v w) (t : Tables v) → down m (up m t) ≡ t
down-up add_users t = refl
down-up add_refresh_tokens t = refl
down-up add_roles (users, tokens) = ap (λ us. (us, tokens)) (same_users users)
down-up add_verification_codes t = refl
