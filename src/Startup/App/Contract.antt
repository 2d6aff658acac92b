-- ===== src/Startup/App/Contract.antt =====
-- What the assembled service answers at each path.
use mathlib.Core.Path.{subst}
use auth_service_go.Base.{ℕ, ◌≡◌, refl, Option, none, some, List, [], ◌∷◌}
use auth_service_go.Base.Strings.{Str, Bytes, codes}
use auth_service_go.Http.Contract.{Answers, admin_api_key-Answers, require_auth-Answers}
use auth_service_go.Http.Contract.Handlers.{
  entered, created, register_handler-Answers, login_handler-Answers, refresh_handler-Answers,
  logout_handler-Answers, request_code_handler-Answers, verify_code_handler-Answers,
  start_google_oauth_handler-Answers, complete_google_oauth_handler-Answers,
  bulk_create_handler-Answers, add_role_handler-Answers, readiness-Answers,
}
use auth_service_go.Http.Handlers.{jwks_handler}
use auth_service_go.Http.Router.{Route, new_router}
use auth_service_go.Platform.{Result, ok, err, ◌>>=◌}
use auth_service_go.Startup.App.{
  App, Libraries, assemble, with_kid, with_body, router_deps, service_config,
}
use auth_service_go.Startup.Keys.{RsaPrivateKey, thumbprint, build_jwk_set}
use auth_service_go.Startup.Settings.{Settings}

-- Each path with the statuses of its answers; those of /metrics are the metrics library's.
abbrev pub contract : List ℕ → List (Str × List ℕ)
contract metrics =
    (codes "/healthz", 200 ∷ [])
    ∷ (codes "/readyz", 200 ∷ 503 ∷ [])
    ∷ (codes "/metrics", metrics)
    ∷ (codes "/.well-known/jwks.json", 200 ∷ [])
    ∷ (codes "/auth/register", 201 ∷ 400 ∷ 409 ∷ 500 ∷ [])
    ∷ (codes "/auth/login", 200 ∷ 400 ∷ 401 ∷ 500 ∷ [])
    ∷ (codes "/auth/refresh", 200 ∷ 400 ∷ 401 ∷ 500 ∷ [])
    ∷ (codes "/auth/logout", 204 ∷ [])
    ∷ (codes "/auth/request-code", 204 ∷ 400 ∷ 500 ∷ [])
    ∷ (codes "/auth/verify-code", 200 ∷ 400 ∷ 401 ∷ 500 ∷ [])
    ∷ (codes "/auth/oauth/google/start", 302 ∷ 500 ∷ [])
    ∷ (codes "/auth/oauth/google/callback", 200 ∷ 400 ∷ 401 ∷ 500 ∷ [])
    ∷ (codes "/admin/users/bulk", 201 ∷ 400 ∷ 401 ∷ [])
    ∷ (codes "/users/me/roles", 200 ∷ 400 ∷ 401 ∷ 500 ∷ [])
    ∷ []

-- The routes are those of the contract, in its order, and answer by it.
abbrev pub Meets : List (Str × List ℕ) → List Route → Type 0
Meets [] [] = Unit
Meets [] (_ ∷ _) = ⊥
Meets (_ ∷ _) [] = ⊥
Meets ((path, statuses) ∷ rest) (route ∷ routes) =
    (route.pattern ≡ path) × Answers statuses route.handler × Meets rest routes

-- A route whose path is that of the entry.
infixr 5 ◌&◌
◌&◌ : {path : Str} {First Rest : Type 0} → First → Rest → (path ≡ path) × First × Rest
first & rest = (refl, first, rest)

module _ (lib : Libraries) (s : Settings) (key : RsaPrivateKey) (metrics : List ℕ)
    (measured : Answers metrics lib.metrics) where
  abbrev MeetsContract : Result App → Type 0
  MeetsContract (ok app) = Meets (contract metrics) (new_router app.deps)
  MeetsContract (err _) = Unit

  with_body-Meets : (kid : Str) (body : Option Bytes) → MeetsContract (with_body lib s key kid body)
  unfolding router_deps jwks_handler ◌>>=◌
  with_body-Meets kid none = tt
  with_body-Meets kid (some body) =
      (λ r p w. (_, refl, refl))
      & readiness-Answers
      & measured
      & (λ r p w. (_, refl, refl))
      & register_handler-Answers _ _
      & login_handler-Answers _ _
      & refresh_handler-Answers _ _
      & logout_handler-Answers _ _
      & request_code_handler-Answers _ _
      & verify_code_handler-Answers _ _
      & start_google_oauth_handler-Answers _
      & complete_google_oauth_handler-Answers _ _
      & admin_api_key-Answers created _ refl
          (bulk_create_handler-Answers (service_config lib s key kid) _) _
      & require_auth-Answers entered _ refl (add_role_handler-Answers _ _) _
      & tt

  with_kid-Meets : (kid : Result Str) → MeetsContract (with_kid lib s key kid)
  with_kid-Meets (err e) = tt
  with_kid-Meets (ok kid) = with_body-Meets kid (lib.marshal_jwk_set (build_jwk_set key.public kid))

-- If the service is assembled and the metrics library answers, then its routes are the contract's
-- and every request to one of them is answered with one of the statuses listed for its path,
-- whatever the request is and whatever fails.
pub assemble-Meets :
    (lib : Libraries) (s : Settings) (key : RsaPrivateKey) (app : App) (metrics : List ℕ)
    → Answers metrics lib.metrics
    → assemble lib s key ≡ ok app
    → Meets (contract metrics) (new_router app.deps)
unfolding assemble
assemble-Meets lib s key app metrics measured made =
    subst (MeetsContract lib s key metrics measured) made
      (with_kid-Meets lib s key metrics measured (thumbprint lib.keys key.public))
