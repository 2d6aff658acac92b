-- ===== src/Tests/Startup.antt =====
-- A start of the program with a small key, its restart, and a token of the assembled service.
use auth_service_go.Base.{
  List, ◌∷◌, ℕ, ◌+◌, ◌*◌, ◌/◌, ◌<◌, ◌≡◌, refl, ap, none, some, [], ◌∷◌, ◌++◌, arith,
}
use auth_service_go.Base.Strings.{Str, codes}
use auth_service_go.Domain.{User}
use auth_service_go.Encoding.{hex}
use auth_service_go.Http.{HttpRequest}
use auth_service_go.Http.Middleware.{require_auth}
use auth_service_go.Jwt.{issue_access_token, access_claims, second}
use auth_service_go.Platform.{ok, ◌>>=◌}
use auth_service_go.Postgres.Models.{to_domain_user}
use auth_service_go.Service.{Config}
use auth_service_go.Startup.{Machine, signals, tracing, pool, closed, Event, ◌>>=◌ as ◌>>>=◌}
use auth_service_go.Startup.App.{App, assemble, router_deps, service_config}
use auth_service_go.Http.Router.{new_router, liveness}
use auth_service_go.Startup.App.Contract.{contract, Meets, assemble-Meets}
use auth_service_go.Startup.App.Jwks.{IsServed, issue_access_token-IsServed}
use auth_service_go.Startup.App.Keyed.{access_token_authenticates, expires_in-setting}
use auth_service_go.Startup.Keys.{
  load_or_generate_key_pair, both_exist, generate_key_pair, save_private_key, save_public_key,
  thumbprint,
}
use auth_service_go.Startup.Keys.Restart.{restart_keeps_key}
use auth_service_go.Startup.Run.{run, main}
use auth_service_go.Startup.Run.Released.{Ending, main_ends}
use auth_service_go.Startup.Settings.{Settings, settings_of, duration_of_seconds}
use auth_service_go.Usecase.Ports.{AccessToken}
use auth_service_go.Tests.Fixtures.{platform, world, ana}
use auth_service_go.Tests.Libraries.{
  key, key_lib, key_lib-IsKeyLib, jwt_lib-IsJwtLib, libraries, host, machine,
}

first : Str → ℕ
first [] = 0
first (c ∷ s) = c

abbrev started : Machine
started = (load_or_generate_key_pair key_lib (codes "a") (codes "b") host machine).1

first_start : (load_or_generate_key_pair key_lib (codes "a") (codes "b") host machine).0 ≡ ok key
unfolding load_or_generate_key_pair both_exist generate_key_pair save_private_key save_public_key
    ◌>>>=◌
first_start = refl

restart_keeps_key_example :
    (load_or_generate_key_pair key_lib (codes "a") (codes "b") host started).0 ≡ ok key
unfolding first
restart_keeps_key_example =
    restart_keeps_key key_lib (codes "a") (codes "b") key host host machine started key_lib-IsKeyLib
      (λ e. omega (arith, ap first e)) first_start refl (λ n. refl)

-- Every text setting is its own name, and every number is 300.
abbrev settings : Settings
settings = settings_of (record { text = λ name. name; number = λ name. 300 })

abbrev started_config : Config
started_config = service_config libraries settings key (codes "abababababababab")

abbrev app : App
app = record {
  config = started_config;
  deps = router_deps libraries settings key started_config [];
}

assembled : assemble libraries settings key ≡ ok app
unfolding assemble thumbprint hex
assembled = refl

abbrev user : User
user = to_domain_user ana

abbrev token : AccessToken
token = record { token = b't' ∷ 300 ∷ 3233 ∷ 1 ∷ []; expires_in = 300 }

issued : (issue_access_token app.config.issuer user platform world).0 ≡ ok token
unfolding issue_access_token access_claims duration_of_seconds ◌>>=◌
issued = refl

abbrev request : HttpRequest
request = record {
  header = λ name. codes "Bearer " ++ token.token;
  query = λ name. [];
  body = [];
  user_id = none;
}

early :
    platform.time world.calls
    < (platform.time world.calls + settings.access_token_ttl_seconds * second) / second * second
early = omega arith

access_token_authenticates_example :
    require_auth app.deps.verifier liveness request platform world
    ≡ liveness
        (record request { user_id = some 1 })
        platform
        (record world { calls = world.calls + 1 })
access_token_authenticates_example =
    access_token_authenticates libraries settings key app platform world world user token liveness
      request jwt_lib-IsJwtLib refl assembled (omega arith) issued early refl

issue_access_token-IsServed_example :
    IsServed libraries app (platform.uuid_string user.id) (platform.time world.calls) token.token
issue_access_token-IsServed_example =
    issue_access_token-IsServed libraries settings key app platform world user token
      (platform.time world.calls) jwt_lib-IsJwtLib assembled (omega arith) issued early

expires_in-setting_example : token.expires_in ≡ settings.access_token_ttl_seconds
expires_in-setting_example =
    expires_in-setting libraries settings key app platform world user token assembled (omega arith)
      issued

main_ends_example :
    let (status, m') = main libraries (λ name. none) host machine in
    Ending machine.events (run libraries (λ name. none) host machine).0 m'.events
    × (status ≡ 0
        → (during : List Event) × (m'.events
            ≡ closed signals ∷ closed tracing ∷ closed pool ∷ during))
main_ends_example = main_ends libraries (λ name. none) host machine

assemble-Meets_example : Meets (contract (200 ∷ [])) (new_router app.deps)
unfolding ◌>>=◌
assemble-Meets_example =
    assemble-Meets libraries settings key app (200 ∷ []) (λ r p w. (_, refl, refl)) assembled
