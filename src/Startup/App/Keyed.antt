-- ===== src/Startup/App/Keyed.antt =====
-- The assembled service uses one key pair: tokens are signed with its private half under the id that
-- the JWK set publishes with its public half, and RequireAuth accepts them.
use mathlib.Core.Path.{subst}
use auth_service_go.Base.{
  ℕ, ◌+◌, ◌*◌, ◌/◌, ◌^◌, ◌≤◌, ◌<◌, ◌≡◌, ◌≢◌, refl, sym, ap, ◌∙◌, Option, none, some, [], ◌∷◌, ◌++◌,
  arith, inl, inr, Option-cases,
}
use auth_service_go.Base.Strings.{Str, Bytes, codes}
use auth_service_go.Domain.{Time, User}
use auth_service_go.Http.{HttpRequest, Handler, json, encoded_body}
use auth_service_go.Http.Guards.{require_auth-Names}
use auth_service_go.Http.Handlers.{jwks_handler}
use auth_service_go.Http.Middleware.{require_auth}
use auth_service_go.Jwt.{AccessClaims, access_claims, issue_access_token, second}
use auth_service_go.Platform.{Platform, World, Result, ok, err, ◌>>=◌}
use auth_service_go.Startup.App.{JwtLib, Libraries, App, assemble, with_kid, with_body, router_deps}
use auth_service_go.Startup.Keys.{RsaPrivateKey, Jwk, thumbprint, build_jwk_set}
use auth_service_go.Startup.Keys.Published.{Publishes, build_jwk_set-Publishes}
use auth_service_go.Startup.Settings.{Settings, duration_of_seconds}
use auth_service_go.Usecase.Ports.{AccessToken}

-- What the service takes from golang-jwt: a token is not empty, and until its `exp` it parses with the
-- public half of the key that signed it, to claims with its subject.
pub record IsJwtLib (jwt : JwtLib) : Type 0 where
  pub not_empty :
      (key : RsaPrivateKey) (kid : Str) (c : AccessClaims) (token : Str)
      → jwt.sign key kid c ≡ some token
      → token ≢ []
  pub parses :
      (key : RsaPrivateKey) (kid : Str) (c : AccessClaims) (token : Str) (t : Time)
      → jwt.sign key kid c ≡ some token
      → t < c.exp * second
      → (claims : Str → Option Str) × (jwt.parse key.public t token ≡ some claims)
        × (claims (codes "sub") ≡ some c.sub)

-- The parts of an assembled service that depend on the key: its issuer signs with the private half,
-- under the thumbprint of the public half as id; its verifier checks with the public half; and its
-- JWKS handler serves the set of one JWK, which publishes the public half under that id.
pub record IsKeyed (lib : Libraries) (s : Settings) (key : RsaPrivateKey) (app : App) : Type 0 where
  pub kid : thumbprint lib.keys key.public ≡ ok app.config.issuer.kid
  pub signs : app.config.issuer.sign ≡ lib.jwt.sign key
  pub checks : app.deps.verifier.parse ≡ lib.jwt.parse key.public
  pub parses : app.deps.verifier.parse_uuid ≡ lib.parse_uuid
  pub lifetime : app.config.issuer.access_token_ttl ≡ duration_of_seconds s.access_token_ttl_seconds
  pub published :
      (k : Jwk) × (body : Bytes) × Publishes key.public app.config.issuer.kid k
      × (lib.marshal_jwk_set (k ∷ []) ≡ some body)
      × ((r : HttpRequest) (p : Platform) (w : World)
          → app.deps.jwks r p w ≡ (ok (json 200 (encoded_body body)), w))

pub assemble-IsKeyed :
    (lib : Libraries) (s : Settings) (key : RsaPrivateKey) (app : App)
    → assemble lib s key ≡ ok app
    → IsKeyed lib s key app
unfolding assemble router_deps jwks_handler ◌>>=◌
assemble-IsKeyed lib s key app h = go (thumbprint lib.keys key.public) refl h
  where
    made :
        (kid : Str) (o : Option Bytes)
        → thumbprint lib.keys key.public ≡ ok kid
        → lib.marshal_jwk_set (build_jwk_set key.public kid) ≡ o
        → with_body lib s key kid o ≡ ok app
        → IsKeyed lib s key app
    made kid none e encoded q = cc
    made kid (some body) e encoded q =
        let (k, one, publishes) = build_jwk_set-Publishes key.public kid in
        subst (λ r. KeyedResult r) q
          (record {
            kid = e;
            signs = refl;
            checks = refl;
            parses = refl;
            lifetime = refl;
            published =
                (k, body, publishes, ap lib.marshal_jwk_set (sym one) ∙ encoded, λ r p w. refl);
          })
      where
        KeyedResult : Result App → Type 0
        KeyedResult (ok a) = IsKeyed lib s key a
        KeyedResult (err _) = Unit

    go :
        (r : Result Str)
        → thumbprint lib.keys key.public ≡ r
        → with_kid lib s key r ≡ ok app
        → IsKeyed lib s key app
    go (err x) e q = cc
    go (ok kid) e q = made kid (lib.marshal_jwk_set (build_jwk_set key.public kid)) e refl q

module _ (lib : Libraries) (s : Settings) (key : RsaPrivateKey) (app : App) (p : Platform)
    (w : World) (u : User) (token : AccessToken) where
  -- What an issued token is.
  record IsIssued : Type 0 where
    pub signed :
        app.config.issuer.sign app.config.issuer.kid
          (access_claims app.config.issuer p u (p.time w.calls))
        ≡ some token.token
    pub lasts : token.expires_in ≡ app.config.issuer.access_token_ttl / second

  issued_lem : (issue_access_token app.config.issuer u p w).0 ≡ ok token → IsIssued
  unfolding issue_access_token ◌>>=◌
  issued_lem h =
      elim (Option-cases (
        app.config.issuer.sign app.config.issuer.kid
          (access_claims app.config.issuer p u (p.time w.calls)))) [
            | inl refused ↦ cc (rw refused at h)
            | inr (text, made) ↦
                let issued : AccessToken = record {
                  token = text;
                  expires_in = app.config.issuer.access_token_ttl / second;
                } in
                let same : issued ≡ token = cc (rw made at h) in
                record {
                  signed = made ∙ ap (λ (x : AccessToken). some x.token) same;
                  lasts = ap (λ (x : AccessToken). x.expires_in) (sym same);
                }
          ]

-- A number of seconds that fits is taken whole.
duration_lem :
    (n : ℕ) → n ≤ 9_223_372_036 → (duration_of_seconds n ≡ n * second) × (n * second < 2 ^ 63)
unfolding duration_of_seconds
duration_lem n h = (omega arith, omega arith)

-- What golang-jwt says of an issued token.
pub record IsValid (lib : Libraries) (key : RsaPrivateKey) (kid sub : Str) (t : Time) (token : Str)
    : Type 0 where
  pub signed : (c : AccessClaims) × (lib.jwt.sign key kid c ≡ some token) × (c.sub ≡ sub)
  pub not_empty : token ≢ []
  pub parses :
      (claims : Str → Option Str) × (lib.jwt.parse key.public t token ≡ some claims)
      × (claims (codes "sub") ≡ some sub)

pub issued_verifies :
    (lib : Libraries) (s : Settings) (key : RsaPrivateKey) (app : App) (p : Platform) (w : World)
    (u : User) (token : AccessToken) (t : Time)
    → IsJwtLib lib.jwt
    → assemble lib s key ≡ ok app
    → s.access_token_ttl_seconds ≤ 9_223_372_036
    → (issue_access_token app.config.issuer u p w).0 ≡ ok token
    → t < (p.time w.calls + s.access_token_ttl_seconds * second) / second * second
    → IsValid lib key app.config.issuer.kid (p.uuid_string u.id) t token.token
unfolding access_claims
issued_verifies lib s key app p w u token t good assembled fits issued early =
    let keyed = assemble-IsKeyed lib s key app assembled in
    let made = issued_lem lib s key app p w u token issued in
    let signed =
      ap (λ f. f app.config.issuer.kid (access_claims app.config.issuer p u (p.time w.calls)))
        (sym keyed.signs)
      ∙ made.signed in
    let whole = keyed.lifetime ∙ (duration_lem s.access_token_ttl_seconds fits).0 in
    record {
      signed = (access_claims app.config.issuer p u (p.time w.calls), signed, refl);
      not_empty = good.not_empty key _ _ token.token signed;
      parses =
          good.parses key _ _ token.token t signed
            (subst (λ ttl. t < (p.time w.calls + ttl) / second * second) (sym whole) early);
    }

-- An access token that the assembled service issues is accepted by its RequireAuth: a request that
-- carries it as bearer token before the second in its `exp` is answered by the guarded handler, run
-- for the account that the token was issued to. The `exp` is the time of issue and the setting
-- ACCESS_TOKEN_TTL_SECONDS, at most 9,223,372,036, in whole seconds. golang-jwt is taken at its word
-- (IsJwtLib), and `uuid.Parse` undoes `String` on the account's id.
pub access_token_authenticates :
    (lib : Libraries) (s : Settings) (key : RsaPrivateKey) (app : App) (p : Platform) (w w' : World)
    (u : User) (token : AccessToken) (next : Handler) (r : HttpRequest)
    → IsJwtLib lib.jwt
    → lib.parse_uuid (p.uuid_string u.id) ≡ some u.id
    → assemble lib s key ≡ ok app
    → s.access_token_ttl_seconds ≤ 9_223_372_036
    → (issue_access_token app.config.issuer u p w).0 ≡ ok token
    → p.time w'.calls < (p.time w.calls + s.access_token_ttl_seconds * second) / second * second
    → r.header (codes "Authorization") ≡ codes "Bearer " ++ token.token
    → require_auth app.deps.verifier next r p w'
      ≡ next (record r { user_id = some u.id }) p (record w' { calls = w'.calls + 1 })
access_token_authenticates lib s key app p w w' u token next r good uuid assembled fits issued early
      carried =
    let keyed = assemble-IsKeyed lib s key app assembled in
    let valid = issued_verifies lib s key app p w u token _ good assembled fits issued early in
    let (claims, parsed, named) = valid.parses in
    require_auth-Names app.deps.verifier next r p w' u.id (record {
      token = token.token;
      claims = claims;
      sub = p.uuid_string u.id;
      carried = carried;
      not_empty = valid.not_empty;
      valid = ap (λ f. f (p.time w'.calls) token.token) keyed.checks ∙ parsed;
      claimed = named;
      read = ap (λ f. f (p.uuid_string u.id)) keyed.parses ∙ uuid;
    })

-- Up to 9,223,372,036 seconds, the setting ACCESS_TOKEN_TTL_SECONDS is the `expires_in` of every
-- access token that the assembled service issues: the 64-bit product does not wrap.
pub expires_in-setting :
    (lib : Libraries) (s : Settings) (key : RsaPrivateKey) (app : App) (p : Platform) (w : World)
    (u : User) (token : AccessToken)
    → assemble lib s key ≡ ok app
    → s.access_token_ttl_seconds ≤ 9_223_372_036
    → (issue_access_token app.config.issuer u p w).0 ≡ ok token
    → token.expires_in ≡ s.access_token_ttl_seconds
expires_in-setting lib s key app p w u token assembled fits issued =
    let keyed = assemble-IsKeyed lib s key app assembled in
    (issued_lem lib s key app p w u token issued).lasts
    ∙ ap (λ d. d / second) (keyed.lifetime ∙ (duration_lem s.access_token_ttl_seconds fits).0)
    ∙ omega arith
