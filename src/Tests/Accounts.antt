-- ===== src/Tests/Accounts.antt =====
-- Registration, login and the SELLER upgrade at concrete inputs.
use auth_service_go.Base.{◌≡◌, ◌+◌, refl, true, inr, List, [], ◌∷◌}
use auth_service_go.Base.Lists.{length}
use auth_service_go.Base.Strings.{codes, str_eq, utf8, trim_space, to_lower, is_space, lower_rune}
use auth_service_go.Domain.{role_seller, Sentinel, sentinel}
use auth_service_go.Database.{accepts_refresh_token}
use auth_service_go.Encoding.{hex, encode, letter}
use auth_service_go.Jwt.{
  issue_access_token, new_refresh_token_value, hash_refresh_token_value, access_claims,
}
use auth_service_go.Platform.{ok, err, ◌>>=◌}
use auth_service_go.Postgres.Repositories.{found, find_by_email, insert_refresh_token}
use auth_service_go.Postgres.Repositories.Queries.{called}
use auth_service_go.Postgres.Statements.{select_user_by_email, create_refresh_token}
use auth_service_go.Service.{login_uc, register_uc, bulk_create_uc, add_role_uc}
use auth_service_go.Service.Credentials.{IsOpened, NotOpened, account_for, login_refusals_alike}
use auth_service_go.Service.Registration as Registration
use auth_service_go.Service.SignIn.{IsSignedIn}
use auth_service_go.Service.SignIn.Ways.{login-SignsIn}
use auth_service_go.Service.Upgrade as Upgrade
use auth_service_go.Usecase.Accounts.{
  LoginInput, RegisterInput, BulkCreateItem, AddRoleInput, normalize_email, login, login_user,
  issue_token_pair_for, register, create_users_bulk, add_role,
}
use auth_service_go.Usecase.Ports.{TokenPair}
use auth_service_go.Tests.Fixtures.{platform, config, world}

abbrev right : LoginInput
right = record { email = codes " ana@x"; password = codes "pw" }

abbrev wrong : LoginInput
wrong = record { email = codes "ana@x"; password = codes "no" }

abbrev first_pair : TokenPair
first_pair = record {
  access_token = codes "token";
  refresh_token = codes "AgICAgICAgICAgICAgICAgICAgICAgICAgICAgICAgI";
  expires_in = 300;
}

logged_in : (login (login_uc config) right platform world).0 ≡ ok first_pair
unfolding login login_user issue_token_pair_for normalize_email trim_space to_lower find_by_email
    found select_user_by_email insert_refresh_token create_refresh_token accepts_refresh_token
    issue_access_token access_claims new_refresh_token_value hash_refresh_token_value hex utf8
    encode letter str_eq is_space lower_rune ◌>>=◌
logged_in = refl

login-SignsIn_example :
    IsOpened config right.password (account_for platform world right.email)
    × IsSignedIn platform
        (normalize_email platform right.email)
        first_pair.refresh_token
        (login (login_uc config) right platform world).1.db
login-SignsIn_example = login-SignsIn config platform world right first_pair logged_in

not_opened : NotOpened config wrong.password (account_for platform world wrong.email)
unfolding normalize_email trim_space to_lower is_space lower_rune utf8 str_eq
not_opened = inr (inr (_, _, refl, refl, refl))

login_refusals_alike_example :
    login (login_uc config) wrong platform world
    ≡ (err (sentinel Sentinel.invalid_credentials), called world)
login_refusals_alike_example = login_refusals_alike config platform world wrong refl not_opened

abbrev bia : RegisterInput
bia = record { email = codes "bia@x"; password = codes "pw"; name = codes "Bia" }

register_all_or_nothing_example :
    Registration.Outcome config platform bia world
      (register (register_uc config) bia platform world)
register_all_or_nothing_example = Registration.register_all_or_nothing config platform bia world

abbrev ana_again : RegisterInput
ana_again = record { email = codes "ana@x"; password = codes "pw"; name = codes "Ana" }

taken : Registration.is_taken platform world ana_again.email ≡ true
unfolding normalize_email trim_space to_lower is_space lower_rune str_eq
taken = refl

abbrev batch : List BulkCreateItem
batch =
    record { email = codes "bia@x"; password = codes "pw"; name = codes "Bia" }
    ∷ record { email = codes "ana@x"; password = codes "pw"; name = codes "Ana" }
    ∷ []

create_users_bulk_counts_example :
    let r = create_users_bulk (bulk_create_uc config) batch platform world in
    (done : _) × (r.0 ≡ ok done)
    × (length done.created + length done.skipped ≡ length batch)
    × (length r.1.db.users ≡ length world.db.users + length done.created)
create_users_bulk_counts_example = Registration.create_users_bulk_counts config platform batch world

abbrev upgrade : AddRoleInput
upgrade = record { user_id = 1; role = role_seller }

add_role-Outcome_example :
    Upgrade.Outcome platform upgrade world (add_role (add_role_uc config) upgrade platform world)
add_role-Outcome_example = Upgrade.add_role-Outcome config platform upgrade world
