-- ===== src/Tests/Progress.antt =====
-- Sessions and logins where nothing outside fails, for the account and the session of the fixtures.
use mathlib.Core.Path.{subst}
use auth_service_go.Base.{ℕ, ◌∙◌, ◌+◌, ◌≤◌, ◌≡◌, refl, sym, some, List, [], ◌∷◌, arith}
use auth_service_go.Base.Lists.{length}
use auth_service_go.Base.Strings.{
  Bytes, codes, str_eq, str_eq_refl, utf8, trim_space, to_lower, is_space, lower_rune,
}
use auth_service_go.Domain.{User, is_valid}
use auth_service_go.Database.{accepts_user, accepts_refresh_token}
use auth_service_go.Encoding.{hex, encode, letter}
use auth_service_go.Jwt.{
  issue_access_token, new_refresh_token_value, hash_refresh_token_value, access_claims,
}
use auth_service_go.Platform.{World, ok, ◌>>=◌}
use auth_service_go.Postgres.Models.{to_domain_refresh_token}
use auth_service_go.Postgres.Repositories.{
  found as found_row, find_by_token_hash, find_by_id, revoke, insert_refresh_token, exists_by_email,
  insert_user,
}
use auth_service_go.Postgres.Repositories.Queries.{called}
use auth_service_go.Postgres.Statements.{
  select_refresh_token, select_user_by_id, update_revoked_at, create_refresh_token,
  count_users_by_email, create_user,
}
use auth_service_go.Service.{
  Request, serve, refresh_uc, login_uc, register_uc, perform, register_request, logout_request,
}
use auth_service_go.Platform.Process.{interleave}
use auth_service_go.Service.Concurrent.{pool, serve-interleaves}
use auth_service_go.Service.Issue.{IsCalm, IsFresh, Issues}
use auth_service_go.Service.Progress.{IsRotated, refresh_goes_on, session_for}
use auth_service_go.Service.Race.{race, race_serves_both, first_done}
use auth_service_go.Service.Return.{IsBcrypt, register_then_login}
use auth_service_go.Usecase.Accounts.{
  LoginInput, RegisterInput, login, register, create_account, normalize_email, new_user,
  issue_token_pair_for,
}
use auth_service_go.Usecase.Ports.{TokenPair}
use auth_service_go.Usecase.Sessions.{rotate, refresh_stored, refresh, logout_stored, logout}
use auth_service_go.Tests.Fixtures.{
  platform, config, world, world-IsConsistent, session, repeated, first_four,
}

pub calm : IsCalm config platform
unfolding hash_refresh_token_value hex
calm = record {
  works = λ n. refl;
  signs = λ kid c. (codes "token", refl);
  short = λ text. short (utf8 text);
}
  where
    short : (b : Bytes) → length (hex (first_four b)) ≤ 64
    short [] = omega arith
    short (_ ∷ []) = omega arith
    short (_ ∷ _ ∷ []) = omega arith
    short (_ ∷ _ ∷ _ ∷ []) = omega arith
    short (_ ∷ _ ∷ _ ∷ _ ∷ _) = omega arith

found : session_for platform (codes "t") world.db ≡ some session
unfolding hash_refresh_token_value hex utf8 str_eq
found = refl

fresh : IsFresh platform 4 world.db
unfolding hash_refresh_token_value hex utf8 encode letter str_eq
fresh = record { buf = repeated 32 5; drawn = refl; new_id = refl; new_token = refl }

refresh_goes_on_example :
    IsRotated config platform world session (refresh (refresh_uc config) (codes "t") platform world)
refresh_goes_on_example =
    refresh_goes_on config platform (codes "t") world session calm fresh world-IsConsistent found
      refl (omega arith)

first-IsFresh : IsFresh platform 5 world.db
unfolding hash_refresh_token_value hex utf8 encode letter str_eq
first-IsFresh = record { buf = repeated 32 6; drawn = refl; new_id = refl; new_token = refl }

abbrev done : World
done = first_done config platform world (to_domain_refresh_token session)

done-calls : done.calls ≡ 10
unfolding refresh_stored rotate issue_token_pair_for find_by_id found_row select_user_by_id revoke
    update_revoked_at insert_refresh_token create_refresh_token accepts_refresh_token
    issue_access_token access_claims new_refresh_token_value hash_refresh_token_value hex utf8
    encode letter is_valid str_eq ◌>>=◌
done-calls = refl

second-IsFresh : IsFresh platform 13 done.db
unfolding refresh_stored rotate issue_token_pair_for find_by_id found_row select_user_by_id revoke
    update_revoked_at insert_refresh_token create_refresh_token accepts_refresh_token
    issue_access_token access_claims new_refresh_token_value hash_refresh_token_value hex utf8
    encode letter is_valid str_eq ◌>>=◌
second-IsFresh = record { buf = repeated 32 14; drawn = refl; new_id = refl; new_token = refl }

race_serves_both_example :
    (one two : TokenPair) × ((race config (codes "t") platform world).0 ≡ ok (ok one, ok two))
race_serves_both_example =
    race_serves_both config platform (codes "t") world session calm world-IsConsistent found refl
      (omega arith) (rw done-calls (omega arith)) first-IsFresh
      (subst (λ n. IsFresh platform (n + 1 + 1 + 1) done.db) (sym done-calls) second-IsFresh)

abbrev bia : RegisterInput
bia = record { email = codes "bia@x"; password = codes "pw"; name = codes "Bia" }

abbrev bia_again : LoginInput
bia_again = record { email = codes "bia@x"; password = codes "pw" }

abbrev later : List Request
later = logout_request (codes "t") ∷ []

abbrev bia_user : User
bia_user = new_user 103 (codes "bia@x") (some (codes "pw")) (codes "Bia") 2_000_000_000

registered : (register (register_uc config) bia platform world).0 ≡ ok bia_user
unfolding register create_account normalize_email trim_space to_lower is_space lower_rune
    exists_by_email count_users_by_email insert_user create_user accepts_user utf8 str_eq ◌>>=◌
registered = refl

bcrypt : IsBcrypt config
bcrypt n password hash e = ground (arith, str_eq_refl password)

abbrev served : World
served = serve config (register_request bia ∷ later) platform world

served-calls : served.calls ≡ 7
unfolding serve perform register create_account normalize_email trim_space to_lower is_space
    lower_rune exists_by_email count_users_by_email insert_user create_user accepts_user utf8 str_eq
    logout logout_stored find_by_token_hash found_row select_refresh_token revoke update_revoked_at
    hash_refresh_token_value hex ◌>>=◌
served-calls = refl

login-IsFresh : IsFresh platform 8 served.db
unfolding serve perform register create_account normalize_email trim_space to_lower is_space
    lower_rune exists_by_email count_users_by_email insert_user create_user accepts_user utf8 str_eq
    logout logout_stored find_by_token_hash found_row select_refresh_token revoke update_revoked_at
    hash_refresh_token_value hex encode letter ◌>>=◌
login-IsFresh = record { buf = repeated 32 9; drawn = refl; new_id = refl; new_token = refl }

abbrev bia_registered : World
bia_registered = (register (register_uc config) bia platform world).1

served-eq : serve config later platform bia_registered ≡ served
unfolding serve perform ◌>>=◌
served-eq = refl

-- Turns that run the later requests one after another.
abbrev turns : List ℕ
turns = (serve-interleaves config platform later bia_registered).0

abbrev turned : World
turned = (interleave turns (pool config platform later) platform bia_registered).1

turned-eq : turned ≡ served
turned-eq = (serve-interleaves config platform later bia_registered).1 ∙ served-eq

turned-IsFresh : IsFresh platform (turned.calls + 1) turned.db
turned-IsFresh =
    subst (λ (w : World). IsFresh platform (w.calls + 1) w.db) (sym turned-eq)
      (subst (λ n. IsFresh platform (n + 1) served.db) (sym served-calls) login-IsFresh)

register_then_login_example :
    Issues config platform
      (called turned)
      bia_user.id
      (login (login_uc config) bia_again platform turned)
unfolding interleave
register_then_login_example =
    register_then_login config platform bia world bia_user later [] turns bia_again calm bcrypt
      world-IsConsistent refl refl registered turned-IsFresh
