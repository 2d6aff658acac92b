-- ===== src/Service/Invariant/Requests.antt =====
-- Every request keeps an invariant of the tables, and so does a run of the service.
use auth_service_go.Base.{List, [], ◌∷◌}
use auth_service_go.Base.Strings.{Str}
use auth_service_go.Domain.{Uuid, User, VerificationCode}
use auth_service_go.Database.{Db}
use auth_service_go.Jwt.{token_issuer}
use auth_service_go.Platform.{Platform, World, Result}
use auth_service_go.Platform.Keeps.{
  Keeps, Keeps-bind, Keeps-if, Keeps-wrapping, Keeps-bind-asks, Keeps-attempt, Keeps-return,
  keeps_rules,
}
use auth_service_go.Postgres.Repositories.{find_by_email, find_by_id, users, refresh_tokens}
use auth_service_go.Usecase.Accounts.{normalize_email, issue_token_pair_for}
use auth_service_go.Usecase.Codes.{verify_code, find_or_create, enter, VerifyCodeInput}
use auth_service_go.Service.{
  Config, Request, perform, serve, register_request, login_request, refresh_request, logout_request,
  request_code_request, start_oauth_request, verify_code_request, complete_oauth_request,
  add_role_request, bulk_create_request, verify_code_uc,
}
use auth_service_go.Service.Invariant.{IsInvariant, IsSteady}
use auth_service_go.Platform.{Action, attempt, return, ◌>>◌}
use auth_service_go.Platform.Program.{Program, Program-Keeps}
use auth_service_go.Service.Programs.{
  find_by_email-Program, find_by_id-Program, increment_attempts-Program,
}
use auth_service_go.Service.Programs.Requests as Programs

abbrev AnyProperty : (Db → Type 0) → Type 0
AnyProperty _ = Unit

module _ {p : Platform} {P : Db → Type 0} where
  pub find_by_email-Keeps : (email : Str) → Keeps p P (find_by_email email)
  find_by_email-Keeps email = Program-Keeps (find_by_email-Program {J = AnyProperty} email) tt

  pub find_by_id-Keeps : (id : Uuid) → Keeps p P (find_by_id id)
  find_by_id-Keeps id = Program-Keeps (find_by_id-Program {J = AnyProperty} id) tt

pub ruleset read_rules = (keeps_rules, find_by_email-Keeps, find_by_id-Keeps)

module _ {p : Platform} {P : Db → Type 0} (inv : IsInvariant p P) (cfg : Config) where
  abbrev given : (Q : Db → Type 0) → IsInvariant p Q → IsInvariant p Q
  given Q h = h

  pub issue_token_pair_for-Keeps :
      (u : User) → Keeps p P (issue_token_pair_for refresh_tokens (token_issuer cfg.issuer) u)
  issue_token_pair_for-Keeps u =
      Program-Keeps (Programs.issue_token_pair_for-Program given cfg u) inv

  pub find_or_create-Keeps :
      (email name : Str) (r : Result User)
      → Keeps p P (find_or_create users (normalize_email p email) name r)
  find_or_create-Keeps email name r =
      Program-Keeps (Programs.find_or_create-Program given cfg email name r) inv

  pub enter-Keeps :
      (email : Str) (r : VerificationCode)
      → Keeps p P (enter (verify_code_uc cfg) (normalize_email p email) r)
  enter-Keeps email r = Program-Keeps (Programs.enter-Program given cfg email r) inv

  attempted :
      {A : Type 0} {m : Action A}
      → Program p (IsInvariant p) m
      → Keeps p P (do attempt m; return tt)
  attempted {m} x =
      Keeps-bind (attempt m) (λ _. return tt) (Keeps-attempt m (Program-Keeps x inv))
        (λ _. Keeps-return tt)

  -- All requests keep the invariant, if a verification does.
  pub perform-Keeps :
      ((i : VerifyCodeInput) → Keeps p P (verify_code (verify_code_uc cfg) i))
      → (r : Request) → Keeps p P (perform cfg r)
  unfolding perform
  perform-Keeps v (register_request i) = attempted (Programs.register-Program given cfg i)
  perform-Keeps v (login_request i) = attempted (Programs.login-Program given cfg i)
  perform-Keeps v (refresh_request t) = attempted (Programs.refresh-Program given cfg t)
  perform-Keeps v (logout_request t) = attempted (Programs.logout-Program given cfg t)
  perform-Keeps v (request_code_request e) = attempted (Programs.request_code-Program given cfg e)
  perform-Keeps v (start_oauth_request r) = attempted (Programs.start_google_oauth-Program cfg r)
  perform-Keeps v (verify_code_request i) = search (keeps_rules, v)
  perform-Keeps v (complete_oauth_request i) =
      attempted (Programs.complete_google_oauth-Program given cfg i)
  perform-Keeps v (add_role_request i) = attempted (Programs.add_role-Program given cfg i)
  perform-Keeps v (bulk_create_request is) =
      attempted (Programs.create_users_bulk-Program given cfg is)

-- Every request as a program, for the steady properties.
pub request-Program :
    (p : Platform) (cfg : Config) (r : Request) → Program p (IsSteady p) (perform cfg r)
request-Program p cfg r =
    Programs.perform-Program (λ P h. h.rows) cfg
      (Programs.verify_code-Program (λ P h. h.rows) cfg
        (increment_attempts-Program (λ P h. h.at_update_attempts)))
      r

pub serve-keeps :
    {p : Platform} (P : Db → Type 0) (cfg : Config)
    → ((r : Request) → Keeps p P (perform cfg r))
    → (rs : List Request) (w : World) → P w.db
    → P (serve cfg rs p w).db
unfolding serve
serve-keeps P cfg k [] w h = h
serve-keeps {p} P cfg k (r ∷ rs) w h = serve-keeps P cfg k rs (perform cfg r p w).1 ((k r).at w h)

-- A steady property holds after any requests.
pub serve-steady :
    {p : Platform} {P : Db → Type 0} (cfg : Config)
    → IsSteady p P
    → (rs : List Request) (w : World) → P w.db
    → P (serve cfg rs p w).db
serve-steady {p} {P} cfg h = serve-keeps P cfg λ r. Program-Keeps (request-Program p cfg r) h
