-- ===== src/Tests/Fixtures.antt =====
-- A platform with simple functions for what the service takes from outside, a configuration, and
-- tables with one account, one session and one code.
use mathlib.Core.Path.{subst}
use auth_service_go.Base.{
  ℕ, zero, suc, ◌+◌, ◌*◌, ◌%◌, ◌≡◌, refl, Bool, false, ◌&&◌, ap, ◌==◌, if◌then◌else◌, none, some,
  [], ◌∷◌, arith,
}
use auth_service_go.Base.Strings.{Bytes, codes, str_eq, str_eq_iff}
use auth_service_go.Domain.{role_customer}
use auth_service_go.Database.{UserModel, RefreshTokenModel, VerificationCodeModel}
use auth_service_go.Jwt.{second}
use auth_service_go.Platform.{Platform, World}
use auth_service_go.Service.{Config}
use auth_service_go.Encoding.RoundTrip.{IsBytes}
use auth_service_go.Service.Consistency.{IsConsistent}
use auth_service_go.Usecase.Google.State.{IsJson}
use auth_service_go.Usecase.Google.{ClaimsJson, OAuthStateClaims}

abbrev pub repeated : ℕ → ℕ → Bytes
repeated zero b = []
repeated (suc n) b = b ∷ repeated n b

abbrev pub first_four : Bytes → Bytes
first_four (a ∷ b ∷ c ∷ d ∷ _) = a ∷ b ∷ c ∷ d ∷ []
first_four s = s

-- The n-th call to the outside happens at second n.
abbrev pub platform : Platform
platform = record {
  time = λ n. n * second;
  uuid = λ n. n + 100;
  random = λ n size. some (repeated size (n % 256));
  random_below = λ n bound. some (n % bound);
  fails = λ n. false;
  lower_table = λ c. c;
  uuid_string = λ u. u ∷ [];
  sha256 = first_four;
  hmac_sha256 = λ key text. first_four text;
}

-- A state for "/" with a nonce of zero bytes, signed at second 1.
abbrev pub claims : OAuthStateClaims
claims = record { nonce = repeated 22 b'A'; redirect_to = codes "/"; issued_at = 1 }

abbrev same_claims : OAuthStateClaims → Bool
same_claims c =
    str_eq c.nonce claims.nonce
    && str_eq c.redirect_to claims.redirect_to
    && c.issued_at == claims.issued_at

-- An encoder for these claims alone.
abbrev pub json : ClaimsJson
json = record {
  marshal = λ c. if same_claims c then some (b'{' ∷ []) else none;
  unmarshal = λ payload. some claims;
}

json-same :
    (c : OAuthStateClaims) (payload : Bytes)
    → json.marshal c ≡ some payload
    → (claims ≡ c) × (b'{' ∷ [] ≡ payload)
json-same c payload h =
    ground (arith, str_eq_iff c.nonce claims.nonce, str_eq_iff c.redirect_to claims.redirect_to)

pub json-IsJson : IsJson json
json-IsJson = record {
  parses = λ c payload h. ap some (json-same c payload h).0;
  bytes = λ c payload h. subst IsBytes (json-same c payload h).1 (omega arith, tt);
}

abbrev pub config : Config
config = record {
  bcrypt = record {
    generate_from_password = λ n password. some password;
    compare_hash_and_password = str_eq;
  };
  issuer = record {
    sign = λ kid claims. some (codes "token");
    kid = codes "k";
    issuer = codes "auth";
    access_token_ttl = 300 * second;
    refresh_token_ttl = 2_592_000 * second;
  };
  smtp = record {
    host = codes "mail";
    port = codes "587";
    username = [];
    password = [];
    from = codes "no-reply";
  };
  google = record {
    client_id = codes "id";
    client_secret = codes "secret";
    redirect_uri = codes "uri";
    http = record {
      values_encode = λ values. [];
      client_do = λ n request. none;
      decode_token = λ body. none;
      decode_userinfo = λ body. none;
    };
  };
  json = json;
}

abbrev pub ana : UserModel
ana = record {
  id = 1;
  email = codes "ana@x";
  password_hash = some (codes "pw");
  name = codes "Ana";
  roles = role_customer ∷ [];
  created_at = 0;
  updated_at = 0;
}

-- The session of the refresh token "t"; its hash is "74" in hexadecimal.
abbrev pub session : RefreshTokenModel
session = record {
  id = 2;
  user_id = 1;
  token_hash = codes "74";
  expires_at = 1000 * second;
  revoked_at = none;
  created_at = 0;
}

-- The code "7" of the account; its hash is "37" in hexadecimal.
abbrev pub pending : VerificationCodeModel
pending = record {
  id = 3;
  email = codes "ana@x";
  code_hash = codes "37";
  expires_at = 600 * second;
  consumed_at = none;
  attempts = 4;
  created_at = 0;
}

abbrev pub world : World
world = record {
  db = record {
    users = ana ∷ [];
    refresh_tokens = session ∷ [];
    verification_codes = pending ∷ [];
  };
  calls = 0;
  outbox = [];
}

pub world-IsConsistent : IsConsistent world.db
world-IsConsistent = record {
  user_ids = (tt, tt);
  user_emails = (tt, tt);
  token_ids = (tt, tt);
  token_hashes = (tt, tt);
  token_users = (refl, tt);
  code_ids = (tt, tt);
}
