-- ===== src/Oauth.antt =====
-- internal/adapter/oauth/google.go. The HTTP client, the form encoding and the JSON decoder are
-- the standard library's, parameters here.
use auth_service_go.Base.{
  ℕ, Bool, not, ◌||◌, Option, none, some, List, [], ◌∷◌, ◌++◌, ◌==◌, if◌then◌else◌,
}
use auth_service_go.Base.Strings.{Str, Bytes, codes, is_empty}
use auth_service_go.Domain.{external}
use auth_service_go.Platform.{
  Result, ok, err, Action, return, fail, of_result, wrapping, call, ◌>>=◌,
}
use auth_service_go.Usecase.Ports.{GoogleIdentity, GoogleOAuthProvider}

abbrev pub google_authorize_endpoint : Str
google_authorize_endpoint = codes "https://accounts.google.com/o/oauth2/v2/auth"

abbrev pub google_token_endpoint : Str
google_token_endpoint = codes "https://oauth2.googleapis.com/token"

abbrev pub google_userinfo_endpoint : Str
google_userinfo_endpoint = codes "https://www.googleapis.com/oauth2/v3/userinfo"

pub data Method : Type 0 where
  get post : Method

pub record HttpRequest : Type 0 where
  pub method : Method
  pub url : Str
  pub header : Str × Str
  pub body : Str

pub record HttpResponse : Type 0 where
  pub status : ℕ
  pub body : Bytes

pub record GoogleTokenResponse : Type 0 where
  pub access_token : Str
  pub error : Str
  pub error_desc : Str

pub record GoogleUserinfoResponse : Type 0 where
  pub email : Str
  pub email_verified : Bool
  pub name : Str

-- `url.Values.Encode`, `http.Client.Do` as the answer to the n-th call to the outside (`none` is
-- its error), and `json.Decoder.Decode` into the two responses.
pub record HttpLib : Type 0 where
  pub values_encode : List (Str × Str) → Str
  pub client_do : ℕ → HttpRequest → Option HttpResponse
  pub decode_token : Bytes → Option GoogleTokenResponse
  pub decode_userinfo : Bytes → Option GoogleUserinfoResponse

pub record GoogleProvider : Type 0 where
  pub client_id : Str
  pub client_secret : Str
  pub redirect_uri : Str
  pub http : HttpLib

abbrev pub new_google_provider : HttpLib → Str → Str → Str → GoogleProvider
new_google_provider http client_id client_secret redirect_uri = record {
  client_id = client_id;
  client_secret = client_secret;
  redirect_uri = redirect_uri;
  http = http;
}

unfoldable pub authorize_url : GoogleProvider → Str → Str
authorize_url g state =
    google_authorize_endpoint
    ++ b'?'
      ∷ g.http.values_encode (
          (codes "client_id", g.client_id)
          ∷ (codes "redirect_uri", g.redirect_uri)
          ∷ (codes "response_type", codes "code")
          ∷ (codes "scope", codes "openid email profile")
          ∷ (codes "state", state)
          ∷ (codes "prompt", codes "select_account")
          ∷ [])

abbrev pub answered : Option HttpResponse → Result HttpResponse
answered none = err (external (codes "http"))
answered (some r) = ok r

unfoldable pub client_do : GoogleProvider → HttpRequest → Action HttpResponse
client_do g request = call (λ p n. answered (g.http.client_do n request))

abbrev pub json_decoded : {A : Type 0} → Option A → Result A
json_decoded none = err (external (codes "json"))
json_decoded (some a) = ok a

unfoldable pub token_request : GoogleProvider → Str → HttpRequest
token_request g code = record {
  method = post;
  url = google_token_endpoint;
  header = (codes "Content-Type", codes "application/x-www-form-urlencoded");
  body = g.http.values_encode (
      (codes "code", code)
      ∷ (codes "client_id", g.client_id)
      ∷ (codes "client_secret", g.client_secret)
      ∷ (codes "redirect_uri", g.redirect_uri)
      ∷ (codes "grant_type", codes "authorization_code")
      ∷ []);
}

unfoldable pub exchange_code_for_token : GoogleProvider → Str → Action Str
exchange_code_for_token g code = do
  response ← wrapping (codes "calling google token endpoint") (client_do g (token_request g code))
  tok ←
      wrapping (codes "decoding google token response")
        (of_result (json_decoded (g.http.decode_token response.body)))
  if not (response.status == 200) || is_empty tok.access_token
      then fail (external (codes "google token exchange failed"))
      else return tok.access_token

unfoldable pub userinfo_request : Str → HttpRequest
userinfo_request access_token = record {
  method = get;
  url = google_userinfo_endpoint;
  header = (codes "Authorization", codes "Bearer " ++ access_token);
  body = [];
}

unfoldable pub fetch_userinfo : GoogleProvider → Str → Action GoogleUserinfoResponse
fetch_userinfo g access_token = do
  response ←
      wrapping (codes "calling google userinfo endpoint")
        (client_do g (userinfo_request access_token))
  info ←
      wrapping (codes "decoding google userinfo response")
        (of_result (json_decoded (g.http.decode_userinfo response.body)))
  if not (response.status == 200)
      then fail (external (codes "google userinfo request failed"))
      else return info

unfoldable pub exchange : GoogleProvider → Str → Action GoogleIdentity
exchange g code = do
  token ← exchange_code_for_token g code
  info ← fetch_userinfo g token
  return (record { email = info.email; email_verified = info.email_verified; name = info.name })

abbrev pub google_provider : GoogleProvider → GoogleOAuthProvider
google_provider g = record { authorize_url = authorize_url g; exchange = exchange g }
