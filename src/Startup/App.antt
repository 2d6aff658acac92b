-- ===== src/Startup/App.antt =====
-- cmd/auth-service/main.go, from the settings and the key pair to the router: which adapter, key and
-- setting each use case and each handler gets.
pub mod Keyed
pub mod Jwks
pub mod Contract
use auth_service_go.Base.{ℕ, Option, none, some, List, [], ◌∷◌}
use auth_service_go.Base.Strings.{Str, Bytes, codes}
use auth_service_go.Domain.{Uuid, Time, external, wrap}
use auth_service_go.Hash.{BcryptLib}
use auth_service_go.Http.{Handler}
use auth_service_go.Http.Handlers.{
  register_handler, login_handler, refresh_handler, logout_handler, request_code_handler,
  verify_code_handler, add_role_handler, bulk_create_handler, start_google_oauth_handler,
  complete_google_oauth_handler, jwks_handler,
}
use auth_service_go.Http.Middleware.{Verifier}
use auth_service_go.Http.Requests.{
  JsonLib, Validator, register_wire, login_wire, refresh_wire, logout_wire, request_code_wire,
  verify_code_wire, complete_wire, add_role_wire, bulk_create_wire,
}
use auth_service_go.Http.Router.{RouterDeps}
use auth_service_go.Jwt.{Issuer, AccessClaims, new_issuer}
use auth_service_go.Mail.{new_smtp_sender}
use auth_service_go.Oauth.{HttpLib, new_google_provider}
use auth_service_go.Platform.{Result, ok, err}
use auth_service_go.Service.{
  Config, register_uc, login_uc, refresh_uc, logout_uc, bulk_create_uc, add_role_uc,
  request_code_uc, verify_code_uc, start_google_oauth_uc, complete_google_oauth_uc,
}
use auth_service_go.Startup.Keys.{
  KeyLib, RsaPrivateKey, RsaPublicKey, Jwk, thumbprint, build_jwk_set,
}
use auth_service_go.Startup.Settings.{Settings, EnvLib, duration_of_seconds}
use auth_service_go.Usecase.Google.{ClaimsJson}

-- golang-jwt: `SignedString` with RS256, and `Parse` with RS256 alone at a time.
pub record JwtLib : Type 0 where
  pub sign : RsaPrivateKey → Str → AccessClaims → Option Str
  pub parse : RsaPublicKey → Time → Str → Option (Str → Option Str)

-- Everything that is linked into the program.
pub record Libraries : Type 0 where
  pub env : EnvLib
  pub keys : KeyLib
  pub jwt : JwtLib
  pub parse_uuid : Str → Option Uuid
  pub bcrypt : BcryptLib
  pub http : HttpLib
  pub claims_json : ClaimsJson
  pub json : JsonLib
  pub validator : Validator
  pub marshal_jwk_set : List Jwk → Option Bytes
  pub metrics : Handler

module _ (lib : Libraries) (s : Settings) (key : RsaPrivateKey) (kid : Str) where
  abbrev pub service_issuer : Issuer
  service_issuer =
      new_issuer (lib.jwt.sign key) kid s.issuer (duration_of_seconds s.access_token_ttl_seconds)
        (duration_of_seconds s.refresh_token_ttl_seconds)

  abbrev pub service_config : Config
  service_config = record {
    bcrypt = lib.bcrypt;
    issuer = service_issuer;
    smtp = new_smtp_sender s.smtp_host s.smtp_port s.smtp_username s.smtp_password s.mail_from;
    google =
        new_google_provider lib.http s.google_client_id s.google_client_secret
          s.google_redirect_uri;
    json = lib.claims_json;
  }

module _ (lib : Libraries) (s : Settings) (key : RsaPrivateKey) where
  abbrev pub new_verifier : Verifier
  new_verifier = record { parse = lib.jwt.parse key.public; parse_uuid = lib.parse_uuid }

  unfoldable pub router_deps : Config → Bytes → RouterDeps
  router_deps cfg jwks_body = record {
    register = register_handler (register_uc cfg) (register_wire lib.json lib.validator);
    login = login_handler (login_uc cfg) (login_wire lib.json lib.validator);
    refresh = refresh_handler (refresh_uc cfg) (refresh_wire lib.json lib.validator);
    logout = logout_handler (logout_uc cfg) (logout_wire lib.json lib.validator);
    request_code =
        request_code_handler (request_code_uc cfg) (request_code_wire lib.json lib.validator);
    verify_code =
        verify_code_handler (verify_code_uc cfg) (verify_code_wire lib.json lib.validator);
    start_google_oauth = start_google_oauth_handler (start_google_oauth_uc cfg);
    complete_google_oauth =
        complete_google_oauth_handler (complete_google_oauth_uc cfg)
          (complete_wire lib.json lib.validator);
    jwks = jwks_handler jwks_body;
    metrics = lib.metrics;
    bulk_create =
        bulk_create_handler (bulk_create_uc cfg) (bulk_create_wire lib.json lib.validator);
    add_role = add_role_handler (add_role_uc cfg) (add_role_wire lib.json lib.validator);
    admin_api_key = s.admin_api_key;
    verifier = new_verifier;
  }

-- What `run` has assembled where it calls NewRouter: the adapters that the use cases share (the local
-- variables hasher, issuer and googleProvider, and the argument codeSender(cfg)), and the argument of
-- the call.
pub record App : Type 0 where
  pub config : Config
  pub deps : RouterDeps

abbrev pub with_body : Libraries → Settings → RsaPrivateKey → Str → Option Bytes → Result App
with_body lib s key kid none = err (wrap (codes "marshalling JWK set") (external (codes "json")))
with_body lib s key kid (some body) = ok (record {
  config = service_config lib s key kid;
  deps = router_deps lib s key (service_config lib s key kid) body;
})

abbrev pub with_kid : Libraries → Settings → RsaPrivateKey → Result Str → Result App
with_kid lib s key (err e) = err e
with_kid lib s key (ok kid) =
    with_body lib s key kid (lib.marshal_jwk_set (build_jwk_set key.public kid))

unfoldable pub assemble : Libraries → Settings → RsaPrivateKey → Result App
assemble lib s key = with_kid lib s key (thumbprint lib.keys key.public)
