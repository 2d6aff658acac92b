-- ===== src/Tests/Spent.antt =====
-- Rotation and logout, for the session of the refresh token "t".
use auth_service_go.Base.{ℕ, ◌≡◌, refl, true, List, [], ◌∷◌}
use auth_service_go.Base.Lists.{exists}
use auth_service_go.Base.Strings.{codes, str_eq, utf8}
use auth_service_go.Domain.{Error, is_valid}
use auth_service_go.Database.{accepts_refresh_token}
use auth_service_go.Encoding.{hex, encode, letter}
use auth_service_go.Jwt.{
  issue_access_token, new_refresh_token_value, hash_refresh_token_value, access_claims,
}
use auth_service_go.Platform.{ok, err, ◌>>=◌}
use auth_service_go.Platform.Process.{interleave}
use auth_service_go.Service.Concurrent.{pool}
use auth_service_go.Postgres.Repositories.{
  found, find_by_token_hash, find_by_id, revoke, insert_refresh_token,
}
use auth_service_go.Postgres.Statements.{
  select_refresh_token, select_user_by_id, update_revoked_at, create_refresh_token,
}
use auth_service_go.Service.{Request, refresh_uc, logout_uc, login_request}
use auth_service_go.Service.Spent.{refresh_never_twice, no_refresh_after_logout}
use auth_service_go.Usecase.Accounts.{issue_token_pair_for}
use auth_service_go.Usecase.Ports.{TokenPair}
use auth_service_go.Usecase.Sessions.{rotate, refresh_stored, refresh, logout_stored, logout}
use auth_service_go.Tests.Fixtures.{platform, config, world, world-IsConsistent}

abbrev later : List Request
later = login_request (record { email = codes "ana@x"; password = codes "pw" }) ∷ []

abbrev new_pair : TokenPair
new_pair = record {
  access_token = codes "token";
  refresh_token = codes "BQUFBQUFBQUFBQUFBQUFBQUFBQUFBQUFBQUFBQUFBQU";
  expires_in = 300;
}

refreshed : (refresh (refresh_uc config) (codes "t") platform world).0 ≡ ok new_pair
unfolding refresh refresh_stored rotate issue_token_pair_for find_by_token_hash found
    select_refresh_token find_by_id select_user_by_id revoke update_revoked_at insert_refresh_token
    create_refresh_token accepts_refresh_token issue_access_token access_claims
    new_refresh_token_value hash_refresh_token_value hex utf8 encode letter is_valid str_eq ◌>>=◌
refreshed = refl

-- Three turns of the login.
abbrev turns : List ℕ
turns = 0 ∷ 0 ∷ 0 ∷ []

refresh_never_twice_example :
    let w' =
      (interleave turns
        (pool config platform later)
        platform
        (refresh (refresh_uc config) (codes "t") platform world).1).1 in
    ((e : Error) × ((refresh (refresh_uc config) (codes "t") platform w').0 ≡ err e))
    × ((refresh (refresh_uc config) (codes "t") platform w').1.db ≡ w'.db)
unfolding interleave
refresh_never_twice_example =
    refresh_never_twice config platform (codes "t") world new_pair later [] turns world-IsConsistent
      refreshed

logged_out : (logout (logout_uc config) (codes "t") platform world).0 ≡ ok tt
unfolding logout logout_stored find_by_token_hash found select_refresh_token revoke
    update_revoked_at hash_refresh_token_value hex utf8 str_eq ◌>>=◌
logged_out = refl

known :
    exists
      (λ t. str_eq t.token_hash (hash_refresh_token_value platform (codes "t")))
      world.db.refresh_tokens
    ≡ true
unfolding hash_refresh_token_value hex utf8 str_eq
known = refl

no_refresh_after_logout_example :
    let w' =
      (interleave turns
        (pool config platform later)
        platform
        (logout (logout_uc config) (codes "t") platform world).1).1 in
    ((e : Error) × ((refresh (refresh_uc config) (codes "t") platform w').0 ≡ err e))
    × ((refresh (refresh_uc config) (codes "t") platform w').1.db ≡ w'.db)
unfolding interleave
no_refresh_after_logout_example =
    no_refresh_after_logout config platform (codes "t") world later [] turns world-IsConsistent
      known logged_out
