-- ===== src/Tests/Http.antt =====
-- The HTTP layer for small requests.
use auth_service_go.Base.{◌≡◌, ◌⊎◌, refl, false, none, some, []}
use auth_service_go.Base.Strings.{
  Str, codes, str_eq, utf8, trim_space, to_lower, is_space, lower_rune, is_empty,
}
use auth_service_go.Domain.{Uuid, role_seller}
use auth_service_go.Database.{accepts_refresh_token}
use auth_service_go.Encoding.{hex, encode, letter}
use auth_service_go.Http.{HttpRequest, bare}
use auth_service_go.Http.Answers.{
  IsLogin, status, login_handler-IsLogin, upgrade_own_account, GrantedAtMost,
}
use auth_service_go.Http.Bearer.{Names}
use auth_service_go.Http.Guards.{admin_needs_key, require_auth-Guarded, Guarded, has_key}
use auth_service_go.Http.Handlers.{Wire, login_handler, add_role_handler}
use auth_service_go.Http.Middleware.{Verifier, require_auth, admin_api_key}
use auth_service_go.Http.Router.{RouterDeps, Route, new_router, route_to, post, liveness, on_post}
use auth_service_go.Jwt.{
  issue_access_token, new_refresh_token_value, hash_refresh_token_value, access_claims,
}
use auth_service_go.Platform.{ok, ◌>>=◌}
use auth_service_go.Postgres.Repositories.{found, find_by_email, insert_refresh_token}
use auth_service_go.Postgres.Statements.{select_user_by_email, create_refresh_token}
use auth_service_go.Service.{login_uc, add_role_uc}
use auth_service_go.Usecase.Accounts.{
  LoginInput, normalize_email, login, login_user, issue_token_pair_for,
}
use auth_service_go.Tests.Fixtures.{platform, config, world}

-- Every header and every query value is the text.
abbrev pub request : Str → HttpRequest
request text = record { header = λ name. text; query = λ name. text; body = []; user_id = none }

-- A wire on which every body is `a`.
abbrev constant : {A : Type 0} → A → Wire A
constant a = record { decode = λ body. some a; violation = λ x. none }

abbrev pub verifier : Verifier
verifier = record { parse = λ t token. some (λ claim. some token); parse_uuid = λ s. some 1 }

abbrev pub deps : RouterDeps
deps = record {
  register = liveness;
  login = liveness;
  refresh = liveness;
  logout = liveness;
  request_code = liveness;
  verify_code = liveness;
  start_google_oauth = liveness;
  complete_google_oauth = liveness;
  jwks = liveness;
  metrics = liveness;
  bulk_create = liveness;
  add_role = liveness;
  admin_api_key = codes "k";
  verifier = verifier;
}

abbrev bulk_route : Route
bulk_route = on_post (codes "/admin/users/bulk") (admin_api_key (codes "k") liveness)

routed : route_to (new_router deps) post (codes "/admin/users/bulk") ≡ some bulk_route
unfolding str_eq
routed = refl

keyless : has_key (codes "k") (request (codes "x")) ≡ false
unfolding is_empty str_eq utf8
keyless = refl

admin_needs_key_example :
    admin_api_key (codes "k") liveness (request (codes "x")) platform world ≡ (ok (bare 401), world)
admin_needs_key_example =
    admin_needs_key deps post (codes "/admin/users/bulk") bulk_route (request (codes "x")) platform
      world routed refl keyless

require_auth-Guarded_example :
    Guarded verifier liveness
      (request (codes "Bearer t"))
      platform
      world
      (require_auth verifier liveness (request (codes "Bearer t")) platform world)
require_auth-Guarded_example =
    require_auth-Guarded verifier liveness (request (codes "Bearer t")) platform world

abbrev credentials : LoginInput
credentials = record { email = codes "ana@x"; password = codes "pw" }

answered :
    status (login_handler (login_uc config) (constant credentials) (request []) platform world).0
    ≡ 200
unfolding login_handler login login_user issue_token_pair_for normalize_email trim_space to_lower
    find_by_email found select_user_by_email insert_refresh_token create_refresh_token
    accepts_refresh_token issue_access_token access_claims new_refresh_token_value
    hash_refresh_token_value hex utf8 encode letter str_eq is_space lower_rune ◌>>=◌
answered = refl

login_handler-IsLogin_example : IsLogin config (constant credentials) (request []) platform world
login_handler-IsLogin_example =
    login_handler-IsLogin config (constant credentials) (request []) platform world answered

upgrade_own_account_example :
    let r = request (codes "Bearer t") in
    let d =
      (require_auth verifier
        (add_role_handler (add_role_uc config) (constant role_seller))
        r
        platform
        world).1.db in
    (d ≡ world.db)
    ⊎ ((id : Uuid) × Names verifier (platform.time world.calls) r id × GrantedAtMost world id d)
upgrade_own_account_example =
    upgrade_own_account config (constant role_seller) verifier (request (codes "Bearer t")) platform
      world
