-- ===== src/Http/Router.antt =====
-- internal/adapter/http/router.go: the route table, and handler/health_handler.go. chi serves a path
-- without variables by the route of its method with exactly this pattern; its own answers to other
-- paths and methods are left out. Recoverer, tracing and RequestLogger stand around the table.
use auth_service_go.Base.{
  Bool, true, false, Option, none, some, List, [], ◌∷◌, ◌++◌, ◌&&◌, if◌then◌else◌,
}
use auth_service_go.Base.Strings.{Str, codes, str_eq}
use auth_service_go.Http.{Handler, bare, answer_status}
use auth_service_go.Http.Middleware.{Verifier, require_auth, admin_api_key}
use auth_service_go.Platform.{ok, call}

-- health_handler.go. The database answers a ping within the time limit or not.
abbrev pub liveness : Handler
liveness r = answer_status 200

abbrev pub readiness : Handler
readiness r = call (λ p n. ok (bare (if p.fails n then 503 else 200)))

pub record RouterDeps : Type 0 where
  pub register : Handler
  pub login : Handler
  pub refresh : Handler
  pub logout : Handler
  pub request_code : Handler
  pub verify_code : Handler
  pub start_google_oauth : Handler
  pub complete_google_oauth : Handler
  pub jwks : Handler
  pub metrics : Handler
  pub bulk_create : Handler
  pub add_role : Handler
  pub admin_api_key : Str
  pub verifier : Verifier

pub data Method : Type 0 where
  get post other_method : Method

-- `none` for `Handle`, which takes every method.
pub record Route : Type 0 where
  pub method : Option Method
  pub pattern : Str
  pub handler : Handler

abbrev pub on_get : Str → Handler → Route
on_get pattern h = record { method = some get; pattern = pattern; handler = h }

abbrev pub on_post : Str → Handler → Route
on_post pattern h = record { method = some post; pattern = pattern; handler = h }

-- `r.Route(prefix, …)` with the middleware of its `r.Use`.
abbrev pub under : Str → (Handler → Handler) → List Route → List Route
under prefix middleware [] = []
under prefix middleware (r ∷ rs) =
    record r { pattern = prefix ++ r.pattern; handler = middleware r.handler }
    ∷ under prefix middleware rs

abbrev pub plain : Handler → Handler
plain h = h

abbrev pub infra_routes : RouterDeps → List Route
infra_routes d =
    on_get (codes "/healthz") liveness
    ∷ on_get (codes "/readyz") readiness
    ∷ record { method = none; pattern = codes "/metrics"; handler = d.metrics }
    ∷ on_get (codes "/.well-known/jwks.json") d.jwks
    ∷ []

abbrev pub google_routes : RouterDeps → List Route
google_routes d = under (codes "/oauth/google") plain (
    on_get (codes "/start") d.start_google_oauth
    ∷ on_post (codes "/callback") d.complete_google_oauth
    ∷ [])

abbrev pub auth_routes : RouterDeps → List Route
auth_routes d = under (codes "/auth") plain (
    on_post (codes "/register") d.register
    ∷ on_post (codes "/login") d.login
    ∷ on_post (codes "/refresh") d.refresh
    ∷ on_post (codes "/logout") d.logout
    ∷ on_post (codes "/request-code") d.request_code
    ∷ on_post (codes "/verify-code") d.verify_code
    ∷ google_routes d)

abbrev pub admin_routes : RouterDeps → List Route
admin_routes d =
    under (codes "/admin") (admin_api_key d.admin_api_key)
      (on_post (codes "/users/bulk") d.bulk_create ∷ [])

abbrev pub user_routes : RouterDeps → List Route
user_routes d =
    under (codes "/users") (require_auth d.verifier) (on_post (codes "/me/roles") d.add_role ∷ [])

abbrev pub new_router : RouterDeps → List Route
new_router d = infra_routes d ++ auth_routes d ++ admin_routes d ++ user_routes d

abbrev pub takes : Option Method → Method → Bool
takes none m = true
takes (some get) get = true
takes (some post) post = true
takes (some other_method) other_method = true
takes (some _) _ = false

-- The first route for a method and a path.
abbrev pub route_to : List Route → Method → Str → Option Route
route_to [] m path = none
route_to (r ∷ rs) m path =
    let rest = route_to rs m path in
    if takes r.method m && str_eq r.pattern path then some r else rest
