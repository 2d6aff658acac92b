-- ===== src/Jwt.antt =====
-- internal/adapter/jwt/issuer.go. The signature is golang-jwt's.
use auth_service_go.Base.{ℕ, ◌+◌, ◌/◌, Option, none, some, List}
use auth_service_go.Base.Strings.{Str, codes, utf8}
use auth_service_go.Domain.{Duration, User, external}
use auth_service_go.Encoding.{hex, encode}
use auth_service_go.Platform.{
  Platform, Result, ok, err, Action, return, of_result, asks, wrapping, now, read_random, ◌>>=◌,
}
use auth_service_go.Usecase.Ports.{TokenIssuer, AccessToken, RefreshTokenValue}

abbrev pub second : Duration
second = 1_000_000_000

abbrev pub refresh_token_bytes : ℕ
refresh_token_bytes = 32

-- The `MapClaims` of an access token, times in Unix seconds.
pub record AccessClaims : Type 0 where
  pub sub : Str
  pub email : Str
  pub name : Str
  pub roles : List Str
  pub iat : ℕ
  pub exp : ℕ
  pub iss : Str

-- `sign` is `SignedString` with the private key, for a `kid` header and claims.
pub record Issuer : Type 0 where
  pub sign : Str → AccessClaims → Option Str
  pub kid : Str
  pub issuer : Str
  pub access_token_ttl : Duration
  pub refresh_token_ttl : Duration

-- The private key is in `sign`.
abbrev pub new_issuer : (Str → AccessClaims → Option Str) → Str → Str → Duration → Duration → Issuer
new_issuer sign kid issuer_name access_token_ttl refresh_token_ttl = record {
  sign = sign;
  kid = kid;
  issuer = issuer_name;
  access_token_ttl = access_token_ttl;
  refresh_token_ttl = refresh_token_ttl;
}

abbrev pub signed : Option Str → Result Str
signed none = err (external (codes "jwt"))
signed (some token) = ok token

unfoldable pub access_claims : Issuer → Platform → User → ℕ → AccessClaims
access_claims i p u t = record {
  sub = p.uuid_string u.id;
  email = u.email;
  name = u.name;
  roles = u.roles;
  iat = t / second;
  exp = (t + i.access_token_ttl) / second;
  iss = i.issuer;
}

unfoldable pub issue_access_token : Issuer → User → Action AccessToken
issue_access_token i u = do
  t ← now
  claims ← asks (λ p. access_claims i p u t)
  token ← wrapping (codes "signing access token") (of_result (signed (i.sign i.kid claims)))
  return (record { token = token; expires_in = i.access_token_ttl / second })

unfoldable pub hash_refresh_token_value : Platform → Str → Str
hash_refresh_token_value p plaintext = hex (p.sha256 (utf8 plaintext))

unfoldable pub new_refresh_token_value : Action RefreshTokenValue
new_refresh_token_value = do
  buf ← wrapping (codes "generating random refresh token") (read_random refresh_token_bytes)
  asks (λ p. record { plaintext = encode buf; hash = hash_refresh_token_value p (encode buf) })

abbrev pub token_issuer : Issuer → TokenIssuer
token_issuer i = record {
  issue_access_token = issue_access_token i;
  new_refresh_token_value = new_refresh_token_value;
  hash_refresh_token_value = hash_refresh_token_value;
  refresh_token_ttl = i.refresh_token_ttl;
}
