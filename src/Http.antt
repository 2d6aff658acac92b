-- ===== src/Http.antt =====
-- internal/adapter/http: requests, responses and handlers as functions.
-- handler/response.go and handler/token_response.go.
pub mod Handlers
pub mod Middleware
pub mod Router
pub mod Transport
pub mod Bearer
pub mod Guards
pub mod Answers
pub mod Requests
pub mod Accepted
pub mod Contract
use auth_service_go.Base.{ℕ, Bool, Option, none, some, List}
use auth_service_go.Base.Strings.{Str, Bytes, codes}
use auth_service_go.Domain.{Uuid}
use auth_service_go.Platform.{Action, return}
use auth_service_go.Usecase.Accounts.{CreatedUser, SkippedUser}
use auth_service_go.Usecase.Ports.{TokenPair}

-- What the handlers read of an `http.Request`; `user_id` is the context's value under the key of
-- internal/adapter/jwt/verifier.go. `header` and `query` are `Get`: "" for a missing name.
pub record HttpRequest : Type 0 where
  pub header : Str → Str
  pub query : Str → Str
  pub body : Bytes
  pub user_id : Option Uuid

pub record TokenPairResponse : Type 0 where
  pub access_token : Str
  pub refresh_token : Str
  pub token_type : Str
  pub expires_in : ℕ

abbrev pub token_pair_response : TokenPair → TokenPairResponse
token_pair_response pair = record {
  access_token = pair.access_token;
  refresh_token = pair.refresh_token;
  token_type = codes "Bearer";
  expires_in = pair.expires_in;
}

-- The other structs that handlers encode; an id is its text.
pub record RegisterResponse : Type 0 where
  pub id : Str
  pub email : Str
  pub name : Str

pub record AddRoleResponse : Type 0 where
  pub id : Str
  pub roles : List Str

pub record CompleteGoogleOAuthResponse : Type 0 where
  -- Embedded, so its fields are fields of the object.
  pub tokens : TokenPairResponse
  pub redirect_to : Str

pub record CreatedUserResponse : Type 0 where
  pub id : Str
  pub email : Str

pub record SkippedUserResponse : Type 0 where
  pub email : Str
  pub reason : Str

pub record BulkCreateResponse : Type 0 where
  pub created : List CreatedUserResponse
  pub skipped : List SkippedUserResponse

-- What is encoded as JSON, one constructor for each type that a handler passes to writeJSON.
pub data Body : Type 0 where
  error_body : Str → Body
  token_pair_body : TokenPairResponse → Body
  registered_body : RegisterResponse → Body
  roles_body : AddRoleResponse → Body
  google_body : CompleteGoogleOAuthResponse → Body
  bulk_body : BulkCreateResponse → Body
  -- What was encoded before, by the JWKS handler.
  encoded_body : Bytes → Body

pub data Response : Type 0 where
  -- `w.WriteHeader(status)` alone.
  bare : ℕ → Response
  json : ℕ → Body → Response
  -- The answer of `http.Redirect` with 302.
  redirected : Str → Response

abbrev pub status_of : Response → ℕ
status_of (bare status) = status
status_of (json status body) = status
status_of (redirected url) = 302

abbrev pub Handler : Type 0
Handler = HttpRequest → Action Response

abbrev pub answer_json : ℕ → Body → Action Response
answer_json status body = return (json status body)

abbrev pub answer_error : ℕ → Str → Action Response
answer_error status message = answer_json status (error_body message)

abbrev pub answer_status : ℕ → Action Response
answer_status status = return (bare status)
