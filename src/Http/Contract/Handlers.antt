-- ===== src/Http/Contract/Handlers.antt =====
-- The statuses of the handlers of internal/adapter/http/handler, one by one.
use auth_service_go.Base.{
  ℕ, ◌≡◌, refl, Bool, true, false, Option, none, some, List, [], ◌∷◌, ◌==◌, if◌then◌else◌, ◌||◌,
}
use auth_service_go.Base.Lists.{exists}
use auth_service_go.Base.Strings.{Str, codes, is_empty}
use auth_service_go.Domain.{Uuid, User, Sentinel, errors_is}
use auth_service_go.Http.{Response, bare, status_of}
use auth_service_go.Http.Handlers.{
  Wire, register_handler, register_response, login_handler, login_response, refresh_handler,
  refresh_response, logout_handler, logout_decoded, request_code_handler, request_code_response,
  verify_code_handler, verify_code_response, add_role_handler, add_role_for, add_role_response,
  bulk_create_handler, start_google_oauth_handler, start_google_oauth_response,
  complete_google_oauth_handler, complete_google_oauth_response, redirect_target,
}
use auth_service_go.Http.Router.{readiness}
use auth_service_go.Platform.{Platform, World, Result, ok, err, ◌>>=◌}
use auth_service_go.Service.{Config, bulk_create_uc}
use auth_service_go.Service.Registration.{create_users_bulk_counts}
use auth_service_go.Usecase.Accounts.{
  Register, RegisterInput, register, Login, LoginInput, login, AddRole, add_role, BulkCreateItem,
}
use auth_service_go.Usecase.Codes.{
  RequestCode, request_code, VerifyCode, VerifyCodeInput, verify_code,
}
use auth_service_go.Usecase.Google.{
  StartGoogleOAuth, start_google_oauth, CompleteGoogleOAuth, CompleteGoogleOAuthInput,
  CompleteGoogleOAuthResult, complete_google_oauth,
}
use auth_service_go.Usecase.Ports.{TokenPair}
use auth_service_go.Usecase.Sessions.{RefreshAccessToken, refresh, Logout}
use auth_service_go.Http.Contract.{
  IsOneOf, Answers, if-IsOneOf, with_request-IsOneOf, handler-Answers,
}

abbrev pub registered : List ℕ
registered = 201 ∷ 400 ∷ 409 ∷ 500 ∷ []

abbrev pub entered : List ℕ
entered = 200 ∷ 400 ∷ 401 ∷ 500 ∷ []

register_response-IsOneOf :
    (x : Result User) (p : Platform) (w : World) → IsOneOf registered (register_response x p w)
unfolding ◌>>=◌
register_response-IsOneOf (ok user) p w = (_, refl, refl)
register_response-IsOneOf (err e) p w =
    if-IsOneOf registered p w (errors_is e Sentinel.email_already_exists) _ _ (_, refl, refl)
      (_, refl, refl)

pub register_handler-Answers :
    (uc : Register) (wire : Wire RegisterInput) → Answers registered (register_handler uc wire)
unfolding register_handler
register_handler-Answers uc wire =
    handler-Answers registered (register uc) register_response register_response-IsOneOf wire refl

-- A token pair, or 401 for one kind of error and 500 for the others.
login_response-IsOneOf :
    (x : Result TokenPair) (p : Platform) (w : World) → IsOneOf entered (login_response x p w)
unfolding ◌>>=◌
login_response-IsOneOf (ok pair) p w = (_, refl, refl)
login_response-IsOneOf (err e) p w =
    if-IsOneOf entered p w (errors_is e Sentinel.invalid_credentials) _ _ (_, refl, refl)
      (_, refl, refl)

pub login_handler-Answers :
    (uc : Login) (wire : Wire LoginInput) → Answers entered (login_handler uc wire)
unfolding login_handler
login_handler-Answers uc wire =
    handler-Answers entered (login uc) login_response login_response-IsOneOf wire refl

refresh_response-IsOneOf :
    (x : Result TokenPair) (p : Platform) (w : World) → IsOneOf entered (refresh_response x p w)
unfolding ◌>>=◌
refresh_response-IsOneOf (ok pair) p w = (_, refl, refl)
refresh_response-IsOneOf (err e) p w =
    if-IsOneOf entered p w (errors_is e Sentinel.refresh_token_invalid) _ _ (_, refl, refl)
      (_, refl, refl)

pub refresh_handler-Answers :
    (uc : RefreshAccessToken) (wire : Wire Str) → Answers entered (refresh_handler uc wire)
unfolding refresh_handler
refresh_handler-Answers uc wire =
    handler-Answers entered (refresh uc) refresh_response refresh_response-IsOneOf wire refl

abbrev pub sent : List ℕ
sent = 204 ∷ 400 ∷ 500 ∷ []

request_code_response-IsOneOf :
    (x : Result Unit) (p : Platform) (w : World) → IsOneOf sent (request_code_response x p w)
unfolding ◌>>=◌
request_code_response-IsOneOf (ok _) p w = (_, refl, refl)
request_code_response-IsOneOf (err e) p w = (_, refl, refl)

pub request_code_handler-Answers :
    (uc : RequestCode) (wire : Wire Str) → Answers sent (request_code_handler uc wire)
unfolding request_code_handler
request_code_handler-Answers uc wire =
    handler-Answers sent (request_code uc) request_code_response request_code_response-IsOneOf wire
      refl

verify_code_response-IsOneOf :
    (x : Result TokenPair) (p : Platform) (w : World) → IsOneOf entered (verify_code_response x p w)
unfolding ◌>>=◌
verify_code_response-IsOneOf (ok pair) p w = (_, refl, refl)
verify_code_response-IsOneOf (err e) p w =
    if-IsOneOf entered p w
      (errors_is e Sentinel.code_invalid || errors_is e Sentinel.too_many_attempts) _ _
      (_, refl, refl) (_, refl, refl)

pub verify_code_handler-Answers :
    (uc : VerifyCode) (wire : Wire VerifyCodeInput) → Answers entered (verify_code_handler uc wire)
unfolding verify_code_handler
verify_code_handler-Answers uc wire =
    handler-Answers entered (verify_code uc) verify_code_response verify_code_response-IsOneOf wire
      refl

complete_google_oauth_response-IsOneOf :
    (x : Result CompleteGoogleOAuthResult) (p : Platform) (w : World)
    → IsOneOf entered (complete_google_oauth_response x p w)
unfolding ◌>>=◌
complete_google_oauth_response-IsOneOf (ok result) p w = (_, refl, refl)
complete_google_oauth_response-IsOneOf (err e) p w =
    if-IsOneOf entered p w (errors_is e Sentinel.oauth_state_invalid) _ _ (_, refl, refl)
      (if-IsOneOf entered p w (errors_is e Sentinel.oauth_email_not_verified) _ _ (_, refl, refl)
        (_, refl, refl))

pub complete_google_oauth_handler-Answers :
    (uc : CompleteGoogleOAuth) (wire : Wire CompleteGoogleOAuthInput)
    → Answers entered (complete_google_oauth_handler uc wire)
unfolding complete_google_oauth_handler
complete_google_oauth_handler-Answers uc wire =
    handler-Answers entered (complete_google_oauth uc) complete_google_oauth_response
      complete_google_oauth_response-IsOneOf wire refl

abbrev pub forwarded : List ℕ
forwarded = 302 ∷ 500 ∷ []

pub start_google_oauth_handler-Answers :
    (uc : StartGoogleOAuth) → Answers forwarded (start_google_oauth_handler uc)
unfolding start_google_oauth_handler ◌>>=◌
start_google_oauth_handler-Answers uc r p w =
    go (start_google_oauth uc (redirect_target (r.query (codes "redirect_to"))) p w)
  where
    go : (x : Result Str × World) → IsOneOf forwarded (start_google_oauth_response x.0 p x.1)
    go (ok url, w') = (_, refl, refl)
    go (err e, w') = (_, refl, refl)

add_role_response-IsOneOf :
    (x : Result User) (p : Platform) (w : World) → IsOneOf entered (add_role_response x p w)
unfolding ◌>>=◌
add_role_response-IsOneOf (ok user) p w = (_, refl, refl)
add_role_response-IsOneOf (err e) p w =
    if-IsOneOf entered p w (errors_is e Sentinel.invalid_role) _ _ (_, refl, refl)
      (if-IsOneOf entered p w (errors_is e Sentinel.user_not_found) _ _ (_, refl, refl)
        (_, refl, refl))

pub add_role_handler-Answers :
    (uc : AddRole) (wire : Wire Str) → Answers entered (add_role_handler uc wire)
unfolding add_role_handler ◌>>=◌
add_role_handler-Answers uc wire r p w = go r.user_id
  where
    go : (o : Option Uuid) → IsOneOf entered (add_role_for uc wire r o p w)
    go none = (_, refl, refl)
    go (some id) =
        handler-Answers entered (λ role. add_role uc (record { user_id = id; role = role }))
          add_role_response add_role_response-IsOneOf wire refl r p w

abbrev pub created : List ℕ
created = 201 ∷ 400 ∷ 401 ∷ []

pub bulk_create_handler-Answers :
    (cfg : Config) (wire : Wire (List BulkCreateItem))
    → Answers created (bulk_create_handler (bulk_create_uc cfg) wire)
unfolding bulk_create_handler ◌>>=◌
bulk_create_handler-Answers cfg wire r p w =
    with_request-IsOneOf created p w wire _ r refl
      λ items. rw ((create_users_bulk_counts cfg p items w).1) (_, refl, refl)

pub logout_handler-Answers :
    (uc : Logout) (wire : Wire Str) → Answers (204 ∷ []) (logout_handler uc wire)
unfolding logout_handler logout_decoded ◌>>=◌
logout_handler-Answers uc wire r p w = go (wire.decode r.body)
  where
    go : (o : Option Str) → IsOneOf (204 ∷ []) (logout_decoded uc o p w)
    go none = (_, refl, refl)
    go (some token) = if-IsOneOf (204 ∷ []) p w (is_empty token) _ _ (_, refl, refl) (_, refl, refl)

pub readiness-Answers : Answers (200 ∷ 503 ∷ []) readiness
unfolding ◌>>=◌
readiness-Answers r p w = go (p.fails w.calls)
  where
    go :
        (b : Bool)
        → (x : Response) × (ok (bare (if b then 503 else 200)) ≡ ok x)
          × (exists (λ s. s == status_of x) (200 ∷ 503 ∷ []) ≡ true)
    go true = (_, refl, refl)
    go false = (_, refl, refl)
