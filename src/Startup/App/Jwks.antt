-- ===== src/Startup/App/Jwks.antt =====
-- The JWK set that the assembled service serves, for those who check its tokens.
use auth_service_go.Base.{◌≡◌, ◌≤◌, ◌<◌, ◌+◌, ◌*◌, ◌/◌, refl, sym, ap, ◌∙◌, Option, some, [], ◌∷◌}
use auth_service_go.Base.Strings.{Str, Bytes, codes, str_eq}
use auth_service_go.Domain.{Time, User}
use auth_service_go.Http.{HttpRequest, json, encoded_body}
use auth_service_go.Http.Router.{RouterDeps, Route, new_router, route_to, get}
use auth_service_go.Jwt.{AccessClaims, issue_access_token, second}
use auth_service_go.Platform.{Platform, World, ok}
use auth_service_go.Startup.App.{Libraries, App, assemble}
use auth_service_go.Startup.App.Keyed.{IsJwtLib, assemble-IsKeyed, issued_verifies}
use auth_service_go.Startup.Keys.{RsaPrivateKey, Jwk, thumbprint}
use auth_service_go.Startup.Keys.Published.{Holds}
use auth_service_go.Startup.Settings.{Settings}
use auth_service_go.Usecase.Ports.{AccessToken}

-- GET /.well-known/jwks.json has a route, which answers every request 200 with the body and does
-- nothing.
abbrev pub ServesKeys : RouterDeps → Bytes → Type 0
ServesKeys d body =
    (route : Route) × (route_to (new_router d) get (codes "/.well-known/jwks.json") ≡ some route)
    × ((r : HttpRequest) (p : Platform) (w : World)
        → route.handler r p w ≡ (ok (json 200 (encoded_body body)), w))

-- A token and the key that is served for it. The body that is served is the set of one JWK, for RS256
-- signatures; the token was signed under the id of the JWK, which is the thumbprint of the key that
-- its fields n and e hold; and with that key the token parses, to a claim sub with the given text.
pub record IsServed (lib : Libraries) (app : App) (sub : Str) (t : Time) (token : Str)
    : Type 0 where
  pub jwk : Jwk
  pub body : Bytes
  pub encoded : lib.marshal_jwk_set (jwk ∷ []) ≡ some body
  pub served : ServesKeys app.deps body
  pub rsa : jwk.kty ≡ codes "RSA"
  pub signing : jwk.use_for ≡ codes "sig"
  pub algorithm : jwk.alg ≡ codes "RS256"
  pub key : RsaPrivateKey
  pub modulus : Holds jwk.n key.public.n
  pub exponent : Holds jwk.e key.public.e
  pub named : thumbprint lib.keys key.public ≡ ok jwk.kid
  pub signed : (c : AccessClaims) × (lib.jwt.sign key jwk.kid c ≡ some token) × (c.sub ≡ sub)
  pub parses :
      (claims : Str → Option Str) × (lib.jwt.parse key.public t token ≡ some claims)
      × (claims (codes "sub") ≡ some sub)

routes_keys :
    (d : RouterDeps)
    → route_to (new_router d) get (codes "/.well-known/jwks.json")
      ≡ some
          (record { method = some get; pattern = codes "/.well-known/jwks.json"; handler = d.jwks })
unfolding str_eq
routes_keys d = refl

-- An access token that the assembled service issues can be checked with the key that it serves: GET
-- /.well-known/jwks.json answers every request with the encoded set of one JWK; the token was signed
-- under the id of that JWK, which is the thumbprint of the public key that the JWK's n and e decode
-- to; and before the second in its `exp` the token parses with that key to a claim sub with the id of
-- the account. The setting ACCESS_TOKEN_TTL_SECONDS is at most 9,223,372,036, and golang-jwt is taken
-- at its word (IsJwtLib).
pub issue_access_token-IsServed :
    (lib : Libraries) (s : Settings) (key : RsaPrivateKey) (app : App) (p : Platform) (w : World)
    (u : User) (token : AccessToken) (t : Time)
    → IsJwtLib lib.jwt
    → assemble lib s key ≡ ok app
    → s.access_token_ttl_seconds ≤ 9_223_372_036
    → (issue_access_token app.config.issuer u p w).0 ≡ ok token
    → t < (p.time w.calls + s.access_token_ttl_seconds * second) / second * second
    → IsServed lib app (p.uuid_string u.id) t token.token
issue_access_token-IsServed lib s key app p w u token t good assembled fits issued early =
    let keyed = assemble-IsKeyed lib s key app assembled in
    let (jwk, body, publishes, encoded, answers) = keyed.published in
    let valid = issued_verifies lib s key app p w u token t good assembled fits issued early in
    let (c, signed, same_sub) = valid.signed in
    record {
      jwk = jwk;
      body = body;
      encoded = encoded;
      served = (_, routes_keys app.deps, answers);
      rsa = publishes.rsa;
      signing = publishes.signing;
      algorithm = publishes.algorithm;
      key = key;
      modulus = publishes.modulus;
      exponent = publishes.exponent;
      named = keyed.kid ∙ ap ok (sym publishes.named);
      signed = (c, ap (λ k. lib.jwt.sign key k c) publishes.named ∙ signed, same_sub);
      parses = valid.parses;
    }
