-- ===== src/Tests/Transport.antt =====
-- The middleware around a handler that answers and one that panics, and a registration from its body.
use auth_service_go.Base.{◌≡◌, refl, some, [], ◌∷◌}
use auth_service_go.Base.Strings.{codes, str_eq}
use auth_service_go.Http.{bare}
use auth_service_go.Http.Accepted.{RegisterEnds, register_handler-ends}
use auth_service_go.Http.Handlers.{register_handler}
use auth_service_go.Http.Requests.{register_wire}
use auth_service_go.Http.Router.{Route, get, on_get, liveness, new_router, route_to}
use auth_service_go.Http.Transport.{Incoming, panicked, RawHandler, OtelHttp, use_middleware}
use auth_service_go.Http.Transport.Logged.{
  arrived, behind, IsServed, IsLogged, use_middleware-IsServed, use_middleware-IsLogged,
}
use auth_service_go.Platform.{ok, ◌>>=◌}
use auth_service_go.Service.{register_uc}
use auth_service_go.Tests.Fixtures.{platform, config, world}
use auth_service_go.Tests.Http.{request, deps}
use auth_service_go.Tests.Libraries.{json_lib, validator, validator-IsValidator}

abbrev no_tracing : OtelHttp
no_tracing filter name next = next

abbrev incoming : Incoming
incoming = record {
  method = get;
  method_name = codes "GET";
  path = codes "/healthz";
  request = request [];
}

-- Writes 200 and panics.
abbrev panics : RawHandler
panics i p x = (panicked, record x { headers = 200 ∷ [] })

use_middleware-IsServed_example :
    IsServed incoming
      (behind panics incoming platform world [])
      (use_middleware no_tracing panics incoming platform (arrived world []))
use_middleware-IsServed_example =
    use_middleware-IsServed no_tracing panics incoming platform world [] (λ next i p x. refl)

use_middleware-IsLogged_example :
    IsLogged incoming
      (behind panics incoming platform world [])
      (use_middleware no_tracing panics incoming platform (arrived world [])).1.log
use_middleware-IsLogged_example =
    use_middleware-IsLogged no_tracing panics incoming platform world [] (λ next i p x. refl)

abbrev health : Route
health = on_get (codes "/healthz") liveness

routed : route_to (new_router deps) get (codes "/healthz") ≡ some health
unfolding str_eq
routed = refl

answered :
    liveness (request []) platform (record world { calls = 1 })
    ≡ (ok (bare 200), record world { calls = 1 })
unfolding ◌>>=◌
answered = refl

register_handler-ends_example : RegisterEnds config json_lib validator (request []) platform world (
    register_handler
      (register_uc config)
      (register_wire json_lib validator)
      (request [])
      platform
      world)
register_handler-ends_example =
    register_handler-ends config json_lib validator (request []) platform world
      validator-IsValidator
