-- ===== src/Usecase/Google.antt =====
-- internal/usecase/oauth_state.go, start_google_oauth.go and complete_google_oauth.go. The JSON of
-- the state's claims is encoding/json's, a parameter.
pub mod State
use auth_service_go.Base.{ℕ, ◌-◌, ◌*◌, ◌/◌, not, Option, none, some, ◌∷◌, ◌++◌, ltb, if◌then◌else◌}
use auth_service_go.Base.Strings.{Str, Bytes, codes, utf8, str_eq, is_empty}
use auth_service_go.Domain.{Duration, Sentinel, sentinel, wrap, external}
use auth_service_go.Encoding.{encode, decode, cut_dot}
use auth_service_go.Jwt.{second}
use auth_service_go.Platform.{
  Platform, Result, ok, err, Action, return, fail, of_result, asks, attempt, wrapping, now,
  read_random, ◌>>=◌,
}
use auth_service_go.Usecase.Accounts.{normalize_email, issue_token_pair_for}
use auth_service_go.Usecase.Codes.{find_or_create}
use auth_service_go.Usecase.Ports.{
  UserRepository, RefreshTokenRepository, GoogleOAuthProvider, GoogleIdentity, TokenIssuer,
  TokenPair,
}

-- oauth_state.go.
abbrev pub oauth_state_ttl : Duration
oauth_state_ttl = 10 * 60 * second

pub record OAuthStateClaims : Type 0 where
  pub nonce : Str
  pub redirect_to : Str
  pub issued_at : ℕ

-- `json.Marshal` and `json.Unmarshal` at `oauthStateClaims`.
pub record ClaimsJson : Type 0 where
  pub marshal : OAuthStateClaims → Option Bytes
  pub unmarshal : Bytes → Option OAuthStateClaims

pub record OAuthStateSigner : Type 0 where
  pub secret : Bytes
  pub json : ClaimsJson

abbrev pub new_oauth_state_signer : ClaimsJson → Str → OAuthStateSigner
new_oauth_state_signer json secret = record { secret = utf8 secret; json = json }

unfoldable pub sig : OAuthStateSigner → Platform → Str → Str
sig s p encoded = encode (p.hmac_sha256 s.secret (utf8 encoded))

abbrev pub marshalled : Option Bytes → Result Bytes
marshalled none = err (external (codes "json"))
marshalled (some payload) = ok payload

unfoldable pub sign : OAuthStateSigner → Str → Action Str
sign s redirect_to = do
  nonce ← wrapping (codes "generating oauth state nonce") (read_random 16)
  t ← now
  payload ← wrapping (codes "encoding oauth state") (
      of_result (
        marshalled (
          s.json.marshal
            (record { nonce = encode nonce; redirect_to = redirect_to; issued_at = t / second }))))
  asks (λ p. encode payload ++ b'.' ∷ sig s p (encode payload))

abbrev pub decoded : Option Bytes → Result Bytes
decoded none = err (wrap (codes "decoding oauth state") (external (codes "base64")))
decoded (some payload) = ok payload

abbrev pub parsed : Option OAuthStateClaims → Result OAuthStateClaims
parsed none = err (wrap (codes "parsing oauth state") (external (codes "json")))
parsed (some claims) = ok claims

-- From the decoding on, once the signature is accepted.
unfoldable pub open_state : OAuthStateSigner → Str → Action Str
open_state s encoded = do
  payload ← of_result (decoded (decode encoded))
  claims ← of_result (parsed (s.json.unmarshal payload))
  t ← now
  if ltb oauth_state_ttl (t - claims.issued_at * second)
      then fail (external (codes "oauth state expired"))
      else return claims.redirect_to

unfoldable pub verify_parts : OAuthStateSigner → Option (Str × Str) → Action Str
verify_parts s none = fail (external (codes "malformed oauth state"))
verify_parts s (some (encoded, signature)) = do
  expected ← asks (λ p. sig s p encoded)
  if not (str_eq signature expected)
      then fail (external (codes "oauth state signature mismatch"))
      else open_state s encoded

unfoldable pub verify : OAuthStateSigner → Str → Action Str
verify s state = verify_parts s (cut_dot state)

-- start_google_oauth.go.
pub record StartGoogleOAuth : Type 0 where
  pub provider : GoogleOAuthProvider
  pub signer : OAuthStateSigner

abbrev pub new_start_google_oauth : ClaimsJson → GoogleOAuthProvider → Str → StartGoogleOAuth
new_start_google_oauth json provider state_secret = record {
  provider = provider;
  signer = new_oauth_state_signer json state_secret;
}

unfoldable pub start_google_oauth : StartGoogleOAuth → Str → Action Str
start_google_oauth uc redirect_to = do
  state ← wrapping (codes "signing oauth state") (sign uc.signer redirect_to)
  return (uc.provider.authorize_url state)

-- complete_google_oauth.go.
pub record CompleteGoogleOAuthInput : Type 0 where
  pub code : Str
  pub state : Str

pub record CompleteGoogleOAuthResult : Type 0 where
  pub tokens : TokenPair
  pub redirect_to : Str

pub record CompleteGoogleOAuth : Type 0 where
  pub provider : GoogleOAuthProvider
  pub signer : OAuthStateSigner
  pub users : UserRepository
  pub tokens : RefreshTokenRepository
  pub issuer : TokenIssuer

abbrev pub new_complete_google_oauth :
    ClaimsJson
    → GoogleOAuthProvider
    → Str
    → UserRepository
    → RefreshTokenRepository
    → TokenIssuer
    → CompleteGoogleOAuth
new_complete_google_oauth json provider state_secret users tokens issuer = record {
  provider = provider;
  signer = new_oauth_state_signer json state_secret;
  users = users;
  tokens = tokens;
  issuer = issuer;
}

unfoldable pub sign_in :
    CompleteGoogleOAuth → Str → GoogleIdentity → Action CompleteGoogleOAuthResult
sign_in uc redirect_to identity = do
  email ← asks (λ p. normalize_email p identity.email)
  found ← attempt (uc.users.find_by_email email)
  user ←
      find_or_create uc.users email (if is_empty identity.name then email else identity.name) found
  pair ← issue_token_pair_for uc.tokens uc.issuer user
  return (record { tokens = pair; redirect_to = redirect_to })

unfoldable pub complete_verified :
    CompleteGoogleOAuth → Str → Result Str → Action CompleteGoogleOAuthResult
complete_verified uc code (err e) = fail (sentinel Sentinel.oauth_state_invalid)
complete_verified uc code (ok redirect_to) = do
  identity ← wrapping (codes "exchanging google authorization code") (uc.provider.exchange code)
  if not identity.email_verified
      then fail (sentinel Sentinel.oauth_email_not_verified)
      else sign_in uc redirect_to identity

unfoldable pub complete_google_oauth :
    CompleteGoogleOAuth → CompleteGoogleOAuthInput → Action CompleteGoogleOAuthResult
complete_google_oauth uc input = do
  redirect_to ← attempt (verify uc.signer input.state)
  complete_verified uc input.code redirect_to
