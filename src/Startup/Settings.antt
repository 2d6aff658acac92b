-- ===== src/Startup/Settings.antt =====
-- internal/config/config.go: the settings that are read from the environment. caarlos0/env is a
-- parameter; integers are those that are not negative.
use auth_service_go.Base.{ℕ, ◌*◌, ◌%◌, ◌^◌, Bool, true, false, Option, none, some, List, [], ◌∷◌}
use auth_service_go.Base.Strings.{Str, codes}
use auth_service_go.Domain.{Duration, external, wrap}
use auth_service_go.Jwt.{second}
use auth_service_go.Platform.{Result, ok, err}

-- The tags of a field.
pub record EnvField : Type 0 where
  pub name : Str
  pub required : Bool
  pub default : Option Str

pub data Kind : Type 0 where
  text integer float : Kind

abbrev pub Environment : Type 0
Environment = Str → Option Str

-- The values of the fields by name: a text, or an integer; a float is kept as its text.
pub record Parsed : Type 0 where
  pub text : Str → Str
  pub number : Str → ℕ

-- `env.Parse`; `none` is its error.
abbrev pub EnvLib : Type 0
EnvLib = List (Kind × EnvField) → Environment → Option Parsed

abbrev pub field : Str → EnvField
field name = record { name = name; required = false; default = none }

abbrev pub needed : Str → EnvField
needed name = record { name = name; required = true; default = none }

abbrev pub with_default : Str → Str → EnvField
with_default name value = record { name = name; required = false; default = some value }

abbrev pub env_fields : List (Kind × EnvField)
env_fields =
    (text, with_default (codes "HTTP_PORT") (codes "8090"))
    ∷ (text, needed (codes "DATABASE_URL"))
    ∷ (text, with_default (codes "JWT_PRIVATE_KEY_PATH") (codes "./keys/private.pem"))
    ∷ (text, with_default (codes "JWT_PUBLIC_KEY_PATH") (codes "./keys/public.pem"))
    ∷ (integer, with_default (codes "ACCESS_TOKEN_TTL_SECONDS") (codes "300"))
    ∷ (integer, with_default (codes "REFRESH_TOKEN_TTL_SECONDS") (codes "2592000"))
    ∷ (text, with_default (codes "AUTH_ISSUER") (codes "orderhub-auth-service"))
    ∷ (text, needed (codes "ADMIN_API_KEY"))
    ∷ (text, field (codes "SMTP_HOST"))
    ∷ (text, with_default (codes "SMTP_PORT") (codes "587"))
    ∷ (text, field (codes "SMTP_USERNAME"))
    ∷ (text, field (codes "SMTP_PASSWORD"))
    ∷ (text, with_default (codes "MAIL_FROM") (codes "no-reply@orderhub.local"))
    ∷ (text, field (codes "GOOGLE_CLIENT_ID"))
    ∷ (text, field (codes "GOOGLE_CLIENT_SECRET"))
    ∷ (
      text,
      with_default (codes "GOOGLE_REDIRECT_URI")
          (codes "http://localhost:3001/api/auth/google/callback"),
    )
    ∷ (
      text,
      with_default (codes "OTEL_EXPORTER_OTLP_ENDPOINT") (codes "http://otel-collector:4317"),
    )
    ∷ (text, with_default (codes "OTEL_SERVICE_NAME") (codes "auth-service"))
    ∷ (float, with_default (codes "OTEL_TRACES_SAMPLE_RATE") (codes "1.0"))
    ∷ []

pub record Settings : Type 0 where
  pub http_port : Str
  pub database_url : Str
  pub jwt_private_key_path : Str
  pub jwt_public_key_path : Str
  pub access_token_ttl_seconds : ℕ
  pub refresh_token_ttl_seconds : ℕ
  pub issuer : Str
  pub admin_api_key : Str
  pub smtp_host : Str
  pub smtp_port : Str
  pub smtp_username : Str
  pub smtp_password : Str
  pub mail_from : Str
  pub google_client_id : Str
  pub google_client_secret : Str
  pub google_redirect_uri : Str
  pub otel_exporter_otlp_endpoint : Str
  pub otel_service_name : Str
  pub otel_traces_sample_rate : Str

abbrev pub settings_of : Parsed → Settings
settings_of v = record {
  http_port = v.text (codes "HTTP_PORT");
  database_url = v.text (codes "DATABASE_URL");
  jwt_private_key_path = v.text (codes "JWT_PRIVATE_KEY_PATH");
  jwt_public_key_path = v.text (codes "JWT_PUBLIC_KEY_PATH");
  access_token_ttl_seconds = v.number (codes "ACCESS_TOKEN_TTL_SECONDS");
  refresh_token_ttl_seconds = v.number (codes "REFRESH_TOKEN_TTL_SECONDS");
  issuer = v.text (codes "AUTH_ISSUER");
  admin_api_key = v.text (codes "ADMIN_API_KEY");
  smtp_host = v.text (codes "SMTP_HOST");
  smtp_port = v.text (codes "SMTP_PORT");
  smtp_username = v.text (codes "SMTP_USERNAME");
  smtp_password = v.text (codes "SMTP_PASSWORD");
  mail_from = v.text (codes "MAIL_FROM");
  google_client_id = v.text (codes "GOOGLE_CLIENT_ID");
  google_client_secret = v.text (codes "GOOGLE_CLIENT_SECRET");
  google_redirect_uri = v.text (codes "GOOGLE_REDIRECT_URI");
  otel_exporter_otlp_endpoint = v.text (codes "OTEL_EXPORTER_OTLP_ENDPOINT");
  otel_service_name = v.text (codes "OTEL_SERVICE_NAME");
  otel_traces_sample_rate = v.text (codes "OTEL_TRACES_SAMPLE_RATE");
}

abbrev pub parsed_settings : Option Parsed → Result Settings
parsed_settings none = err (wrap (codes "loading config from environment") (external (codes "env")))
parsed_settings (some v) = ok (settings_of v)

unfoldable pub load : EnvLib → Environment → Result Settings
load lib env = parsed_settings (lib env_fields env)

-- `time.Duration(seconds) * time.Second` in 64 bits, as the number that the bits spell without sign.
-- Up to 9,223,372,036 seconds this is the duration; above, the duration of the code can be negative,
-- and this number is not it.
unfoldable pub duration_of_seconds : ℕ → Duration
duration_of_seconds n = n * second % 2 ^ 64
