-- ===== src/Http/Handlers.antt =====
-- internal/adapter/http/handler: the handlers of the use cases. `json.Decoder.Decode` and
-- `validate.Struct` are parameters; what is only logged is left out.
use auth_service_go.Base.{Option, none, some, List, if◌then◌else◌, ◌||◌}
use mathlib.Core.List.{map}
use auth_service_go.Base.Strings.{Str, Bytes, codes, is_empty}
use auth_service_go.Domain.{Uuid, User, Sentinel, errors_is}
use auth_service_go.Http.Middleware.{user_id_from_context}
use auth_service_go.Http.{
  HttpRequest, Handler, Response, redirected, answer_json, answer_error, answer_status,
  token_pair_response, token_pair_body, registered_body, roles_body, google_body, bulk_body,
  encoded_body,
}
use auth_service_go.Platform.{Platform, Result, ok, err, Action, return, asks, attempt, ◌>>=◌, ◌>>◌}
use auth_service_go.Usecase.Accounts.{
  RegisterInput, Register, register, LoginInput, Login, login, AddRole, add_role, BulkCreateItem,
  BulkCreateResult, CreatedUser, SkippedUser, CreateUsersBulk, create_users_bulk,
}
use auth_service_go.Usecase.Codes.{
  RequestCode, request_code, VerifyCodeInput, VerifyCode, verify_code,
}
use auth_service_go.Usecase.Google.{
  StartGoogleOAuth, start_google_oauth, CompleteGoogleOAuthInput, CompleteGoogleOAuthResult,
  CompleteGoogleOAuth, complete_google_oauth,
}
use auth_service_go.Usecase.Ports.{TokenPair}
use auth_service_go.Usecase.Sessions.{RefreshAccessToken, refresh, Logout, logout}

-- encoding/json and validator for one request type: `none` is an error of `Decode`, `some` a
-- message of `Struct`.
pub record Wire (A : Type 0) : Type 0 where
  pub decode : Bytes → Option A
  pub violation : A → Option Str

module _ {A : Type 0} (use_case : A → Action Response) where
  abbrev pub validated : A → Option Str → Action Response
  validated a none = use_case a
  validated a (some message) = answer_error 400 message

  abbrev pub decoded : Wire A → Option A → Action Response
  decoded wire none = answer_error 400 (codes "invalid request body")
  decoded wire (some a) = validated a (wire.violation a)

-- The first half of a handler.
abbrev pub with_request : {A : Type 0} → Wire A → (A → Action Response) → Handler
with_request wire use_case r = decoded use_case wire (wire.decode r.body)

-- register_handler.go.
abbrev pub register_response : Result User → Action Response
register_response (err e) =
    if errors_is e Sentinel.email_already_exists
    then answer_error 409 (codes "email already registered")
    else answer_error 500 (codes "failed to register user")
register_response (ok user) = do
  id ← asks (λ p. p.uuid_string user.id)
  answer_json 201 (registered_body (record { id = id; email = user.email; name = user.name }))

unfoldable pub register_handler : Register → Wire RegisterInput → Handler
register_handler uc wire = with_request wire (λ i. attempt (register uc i) >>= register_response)

-- login_handler.go.
abbrev pub login_response : Result TokenPair → Action Response
login_response (err e) =
    if errors_is e Sentinel.invalid_credentials
    then answer_error 401 (codes "invalid credentials")
    else answer_error 500 (codes "failed to log in")
login_response (ok pair) = answer_json 200 (token_pair_body (token_pair_response pair))

unfoldable pub login_handler : Login → Wire LoginInput → Handler
login_handler uc wire = with_request wire (λ i. attempt (login uc i) >>= login_response)

-- refresh_handler.go.
abbrev pub refresh_response : Result TokenPair → Action Response
refresh_response (err e) =
    if errors_is e Sentinel.refresh_token_invalid
    then answer_error 401 (codes "invalid or expired refresh token")
    else answer_error 500 (codes "failed to refresh token")
refresh_response (ok pair) = answer_json 200 (token_pair_body (token_pair_response pair))

unfoldable pub refresh_handler : RefreshAccessToken → Wire Str → Handler
refresh_handler uc wire =
    with_request wire (λ token. attempt (refresh uc token) >>= refresh_response)

-- logout_handler.go: no validation, and every answer is 204.
unfoldable pub logout_decoded : Logout → Option Str → Action Response
logout_decoded uc none = answer_status 204
logout_decoded uc (some token) =
    if is_empty token then answer_status 204 else do attempt (logout uc token); answer_status 204

unfoldable pub logout_handler : Logout → Wire Str → Handler
logout_handler uc wire r = logout_decoded uc (wire.decode r.body)

-- request_code_handler.go.
abbrev pub request_code_response : Result Unit → Action Response
request_code_response (err e) = answer_error 500 (codes "failed to send verification code")
request_code_response (ok _) = answer_status 204

unfoldable pub request_code_handler : RequestCode → Wire Str → Handler
request_code_handler uc wire =
    with_request wire (λ email. attempt (request_code uc email) >>= request_code_response)

-- verify_code_handler.go.
abbrev pub verify_code_response : Result TokenPair → Action Response
verify_code_response (err e) =
    if errors_is e Sentinel.code_invalid || errors_is e Sentinel.too_many_attempts
    then answer_error 401 (codes "invalid or expired code")
    else answer_error 500 (codes "failed to verify code")
verify_code_response (ok pair) = answer_json 200 (token_pair_body (token_pair_response pair))

unfoldable pub verify_code_handler : VerifyCode → Wire VerifyCodeInput → Handler
verify_code_handler uc wire =
    with_request wire (λ i. attempt (verify_code uc i) >>= verify_code_response)

-- add_role_handler.go.
abbrev pub add_role_response : Result User → Action Response
add_role_response (err e) =
    if errors_is e Sentinel.invalid_role
    then answer_error 400 (codes "invalid role")
    else if errors_is e Sentinel.user_not_found
    then answer_status 401
    else answer_error 500 (codes "failed to add role")
add_role_response (ok user) = do
  id ← asks (λ p. p.uuid_string user.id)
  answer_json 200 (roles_body (record { id = id; roles = user.roles }))

abbrev pub add_role_for : AddRole → Wire Str → HttpRequest → Option Uuid → Action Response
add_role_for uc wire r none = answer_status 401
add_role_for uc wire r (some id) =
    with_request wire
      (λ role. attempt (add_role uc (record { user_id = id; role = role })) >>= add_role_response) r

unfoldable pub add_role_handler : AddRole → Wire Str → Handler
add_role_handler uc wire r = add_role_for uc wire r (user_id_from_context r)

-- bulk_create_handler.go.
abbrev pub bulk_create_response : Platform → BulkCreateResult → Response
bulk_create_response p result = Response.json 201 (
    bulk_body (record {
      created =
          map (λ (c : CreatedUser). record { id = p.uuid_string c.id; email = c.email })
            result.created;
      skipped =
          map (λ (s : SkippedUser). record { email = s.email; reason = s.reason }) result.skipped;
    }))

unfoldable pub bulk_create_handler : CreateUsersBulk → Wire (List BulkCreateItem) → Handler
bulk_create_handler uc wire =
    with_request wire
      (λ items. do result ← create_users_bulk uc items; asks (λ p. bulk_create_response p result))

-- google_oauth_handler.go.
abbrev pub start_google_oauth_response : Result Str → Action Response
start_google_oauth_response (err e) = answer_error 500 (codes "failed to start google sign-in")
start_google_oauth_response (ok url) = return (redirected url)

abbrev pub redirect_target : Str → Str
redirect_target to = if is_empty to then codes "/" else to

unfoldable pub start_google_oauth_handler : StartGoogleOAuth → Handler
start_google_oauth_handler uc r =
    attempt (start_google_oauth uc (redirect_target (r.query (codes "redirect_to"))))
    >>= start_google_oauth_response

abbrev pub complete_google_oauth_response : Result CompleteGoogleOAuthResult → Action Response
complete_google_oauth_response (err e) =
    if errors_is e Sentinel.oauth_state_invalid
    then answer_error 400 (codes "invalid or expired oauth state")
    else if errors_is e Sentinel.oauth_email_not_verified
    then answer_error 401 (codes "google account email is not verified")
    else answer_error 500 (codes "failed to authenticate with google")
complete_google_oauth_response (ok result) = answer_json 200 (
    google_body
      (record { tokens = token_pair_response result.tokens; redirect_to = result.redirect_to }))

unfoldable pub complete_google_oauth_handler :
    CompleteGoogleOAuth → Wire CompleteGoogleOAuthInput → Handler
complete_google_oauth_handler uc wire =
    with_request wire (λ i. attempt (complete_google_oauth uc i) >>= complete_google_oauth_response)

-- jwks_handler.go, with the set that `json.Marshal` encoded at the start.
unfoldable pub jwks_handler : Bytes → Handler
jwks_handler body r = answer_json 200 (encoded_body body)
