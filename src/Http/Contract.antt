-- ===== src/Http/Contract.antt =====
-- The statuses that each handler answers with. No handler fails to answer.
pub mod Handlers
use auth_service_go.Base.{
  ℕ, ◌≡◌, refl, Bool, true, false, Option, none, some, List, [], ◌∷◌, ◌==◌, if◌then◌else◌, ◌||◌,
  not,
}
use auth_service_go.Base.Lists.{exists}
use auth_service_go.Base.Strings.{Str, codes, is_empty, str_eq, utf8}
use auth_service_go.Domain.{Uuid, User, Sentinel, errors_is}
use auth_service_go.Http.{
  HttpRequest, Handler, Response, bare, status_of, answer_error, answer_status,
}
use auth_service_go.Http.Handlers.{
  Wire, decoded, validated, with_request, register_handler, register_response, login_handler,
  login_response, refresh_handler, refresh_response, logout_handler, logout_decoded,
  request_code_handler, request_code_response, verify_code_handler, verify_code_response,
  add_role_handler, add_role_for, add_role_response, bulk_create_handler,
  start_google_oauth_handler, start_google_oauth_response, complete_google_oauth_handler,
  complete_google_oauth_response, redirect_target,
}
use auth_service_go.Http.Middleware.{
  Verifier, as_user, with_bearer, require_auth, admin_api_key, cut_prefix, verify_subject,
}
use auth_service_go.Http.Router.{readiness}
use auth_service_go.Platform.{Platform, World, Result, ok, err, Action, attempt, ◌>>=◌}
use auth_service_go.Service.{Config, bulk_create_uc}
use auth_service_go.Service.Registration.{create_users_bulk_counts}
use auth_service_go.Usecase.Accounts.{
  Register, RegisterInput, register, Login, LoginInput, login, AddRole, add_role, BulkCreateItem,
}
use auth_service_go.Usecase.Codes.{
  RequestCode, request_code, VerifyCode, VerifyCodeInput, verify_code,
}
use auth_service_go.Usecase.Google.{
  StartGoogleOAuth, start_google_oauth, CompleteGoogleOAuth, CompleteGoogleOAuthInput,
  CompleteGoogleOAuthResult, complete_google_oauth,
}
use auth_service_go.Usecase.Ports.{TokenPair}
use auth_service_go.Usecase.Sessions.{RefreshAccessToken, refresh, Logout}

-- The outcome is an answer with one of the statuses.
abbrev pub IsOneOf : List ℕ → Result Response × World → Type 0
IsOneOf statuses x =
    (response : Response) × (x.0 ≡ ok response)
    × (exists (λ s. s == status_of response) statuses ≡ true)

-- Every request is answered with one of the statuses, whatever is outside.
abbrev pub Answers : List ℕ → Handler → Type 0
Answers statuses handler =
    (r : HttpRequest) (p : Platform) (w : World) → IsOneOf statuses (handler r p w)

module _ (statuses : List ℕ) (p : Platform) (w : World) where
  if-IsOneOf :
      (b : Bool) (m n : Action Response)
      → IsOneOf statuses (m p w)
      → IsOneOf statuses (n p w)
      → IsOneOf statuses ((if b then m else n) p w)
  if-IsOneOf true m n h k = h
  if-IsOneOf false m n h k = k

  -- An answer by status alone, or with an error.
  status-IsOneOf :
      (s : ℕ) → exists (λ t. t == s) statuses ≡ true → IsOneOf statuses (answer_status s p w)
  unfolding ◌>>=◌
  status-IsOneOf s h = (_, refl, h)

  error-IsOneOf :
      (s : ℕ) (message : Str)
      → exists (λ t. t == s) statuses ≡ true
      → IsOneOf statuses (answer_error s message p w)
  unfolding ◌>>=◌
  error-IsOneOf s message h = (_, refl, h)

  -- The use case runs, or the body is refused with 400.
  with_request-IsOneOf :
      {A : Type 0} (wire : Wire A) (use_case : A → Action Response) (r : HttpRequest)
      → exists (λ t. t == 400) statuses ≡ true
      → ((a : A) → IsOneOf statuses (use_case a p w))
      → IsOneOf statuses (with_request wire use_case r p w)
  with_request-IsOneOf {A} wire use_case r bad h = read (wire.decode r.body)
    where
      checked : (a : A) (o : Option Str) → IsOneOf statuses (validated use_case a o p w)
      checked a none = h a
      checked a (some message) = error-IsOneOf 400 message bad

      read : (o : Option A) → IsOneOf statuses (decoded use_case wire o p w)
      read none = error-IsOneOf 400 (codes "invalid request body") bad
      read (some a) = checked a (wire.violation a)

module _ {I O : Type 0} (statuses : List ℕ) (run : I → Action O)
    (answer : Result O → Action Response)
    (answered : (x : Result O) (p : Platform) (w : World) → IsOneOf statuses (answer x p w)) where
  -- A handler that runs a use case and answers by what it returned.
  handler-Answers :
      (wire : Wire I)
      → exists (λ t. t == 400) statuses ≡ true
      → Answers statuses (with_request wire (λ i. attempt (run i) >>= answer))
  unfolding ◌>>=◌
  handler-Answers wire bad r p w =
      with_request-IsOneOf statuses p w wire (λ i. attempt (run i) >>= answer) r bad
        λ i. answered (run i p w).0 p (run i p w).1

-- A handler behind RequireAuth or AdminAPIKey answers as it does, or 401.
module _ (statuses : List ℕ) (next : Handler) (refuses : exists (λ s. s == 401) statuses ≡ true)
    (answered : Answers statuses next) where
  pub admin_api_key-Answers : (key : Str) → Answers statuses (admin_api_key key next)
  unfolding admin_api_key
  admin_api_key-Answers key r p w =
      if-IsOneOf statuses p w
        (is_empty (r.header (codes "X-Admin-Api-Key"))
          || not (str_eq (utf8 (r.header (codes "X-Admin-Api-Key"))) (utf8 key)))
        _ _ (status-IsOneOf statuses p w 401 refuses) (answered r p w)

  pub require_auth-Answers : (v : Verifier) → Answers statuses (require_auth v next)
  unfolding require_auth with_bearer ◌>>=◌
  require_auth-Answers v r p w =
      go (cut_prefix (codes "Bearer ") (r.header (codes "Authorization")))
    where
      user : (x : Result Uuid) (w' : World) → IsOneOf statuses (as_user next r x p w')
      user (err e) w' = status-IsOneOf statuses p w' 401 refuses
      user (ok id) w' = answered (record r { user_id = some id }) p w'

      go : (o : Option Str) → IsOneOf statuses (with_bearer v next r o p w)
      go none = status-IsOneOf statuses p w 401 refuses
      go (some token) =
          if-IsOneOf statuses p w (is_empty token) _ _ (status-IsOneOf statuses p w 401 refuses)
            (user (verify_subject v token p w).0 (verify_subject v token p w).1)
