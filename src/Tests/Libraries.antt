-- ===== src/Tests/Libraries.antt =====
-- Small libraries for the start of the service and for its requests: keys and tokens are written
-- out, and the validator looks at the rules.
use mathlib.Core.Path.{subst}
use auth_service_go.Base.{
  ◌*◌, ◌<◌, ◌≡◌, ◌≢◌, refl, Bool, true, false, not, ◌&&◌, Option, none, some, List, [], ◌∷◌, ◌==◌,
  leb, ltb, if◌then◌else◌, arith,
}
use auth_service_go.Base.Lists.{All, exists, length}
use auth_service_go.Base.Strings.{Str, Bytes, codes, is_empty}
use auth_service_go.Domain.{Time}
use auth_service_go.Http.{answer_status}
use auth_service_go.Http.Requests.{
  JsonLib, Validator, IsValidator, IsValidField, Satisfies, Rule, required, email, numeric,
  min_length, exact_length, Field,
}
use auth_service_go.Jwt.{AccessClaims, second}
use auth_service_go.Startup.{Host, Machine}
use auth_service_go.Startup.App.{JwtLib, Libraries}
use auth_service_go.Startup.App.Keyed.{IsJwtLib}
use auth_service_go.Startup.Keys.{KeyLib, RsaPrivateKey, RsaPublicKey}
use auth_service_go.Startup.Keys.Restart.{IsKeyLib}
use auth_service_go.Tests.Fixtures.{repeated, config, json as claims_json}

abbrev pub key : RsaPrivateKey
key = record { public = record { n = 3233; e = 65537 }; d = 2753 }

abbrev parsed_key : Bytes → Option RsaPrivateKey
parsed_key (n ∷ e ∷ d ∷ []) = some (record { public = record { n = n; e = e }; d = d })
parsed_key _ = none

abbrev pub key_lib : KeyLib
key_lib = record {
  generate = λ n. some key;
  marshal_pkcs1 = λ k. k.public.n ∷ k.public.e ∷ k.d ∷ [];
  parse_pkcs1 = parsed_key;
  marshal_pkix = λ k. some (k.n ∷ k.e ∷ []);
  pem_encode = λ kind content. content;
  pem_decode = λ content. some content;
  dir = λ path. path;
  sha256 = λ content. repeated 32 0xAB;
}

pub key_lib-IsKeyLib : IsKeyLib key_lib
key_lib-IsKeyLib = record { pem = λ kind content. refl; pkcs1 = λ k. refl }

-- The time of its end, the modulus of its key and the subject.
abbrev pub read_token : RsaPublicKey → Time → Str → Option (Str → Option Str)
read_token k t (mark ∷ exp ∷ n ∷ sub) =
    if ltb t (exp * second) && n == k.n then some (λ name. some sub) else none
read_token k t _ = none

abbrev pub jwt_lib : JwtLib
jwt_lib = record { sign = λ k kid c. some (b't' ∷ c.exp ∷ k.public.n ∷ c.sub); parse = read_token }

abbrev token_of : RsaPrivateKey → AccessClaims → Str
token_of k c = b't' ∷ c.exp ∷ k.public.n ∷ c.sub

token_parses :
    (k : RsaPrivateKey) (c : AccessClaims) (t : Time)
    → t < c.exp * second
    → read_token k.public t (token_of k c) ≡ some (λ name. some c.sub)
token_parses k c t early = ground arith

pub jwt_lib-IsJwtLib : IsJwtLib jwt_lib
jwt_lib-IsJwtLib = record {
  not_empty = λ k kid c token signed.
      let same : token_of k c ≡ token = cc in subst (λ x. x ≢ []) same (λ e. cc);
  parses = λ k kid c token t signed early.
      let same : token_of k c ≡ token = cc in
      (
        λ name. some c.sub,
        subst (λ x. read_token k.public t x ≡ some (λ name. some c.sub)) same
            (token_parses k c t early),
        refl,
      );
}

abbrev pub meets : Str → Rule → Bool
meets s required = not (is_empty s)
meets s email = exists (λ c. c == b'@') s
meets s numeric = not (exists (λ c. ltb c b'0') s)
meets s (min_length n) = leb n (length s)
meets s (exact_length n) = length s == n

abbrev pub meets_all : Str → List Rule → Bool
meets_all s [] = true
meets_all s (r ∷ rs) = meets s r && meets_all s rs

abbrev pub fields_ok : List Field → Bool
fields_ok [] = true
fields_ok (f ∷ fs) = meets_all f.value f.rules && fields_ok fs

abbrev pub slice_ok : List (List Field) → Bool
slice_ok [] = true
slice_ok (fs ∷ rest) = fields_ok fs && slice_ok rest

abbrev pub validator : Validator
validator = record {
  struct = λ fs. if fields_ok fs then none else some (codes "invalid");
  slice = λ name n items.
      if leb n (length items) && slice_ok items then none else some (codes "invalid");
  is_email = λ s. exists (λ c. c == b'@') s;
  is_numeric = λ s. not (exists (λ c. ltb c b'0') s);
}

and_left : (a b : Bool) → (a && b) ≡ true → a ≡ true
and_left a b h = ground arith

and_right : (a b : Bool) → (a && b) ≡ true → b ≡ true
and_right a b h = ground arith

meets-Satisfies : (s : Str) (r : Rule) → meets s r ≡ true → Satisfies validator s r
unfolding is_empty
meets-Satisfies [] required h = cc
meets-Satisfies (c ∷ s) required h = λ e. cc
meets-Satisfies s email h = h
meets-Satisfies s numeric h = h
meets-Satisfies s (min_length n) h = ground arith
meets-Satisfies s (exact_length n) h = ground arith

meets_all-All : (s : Str) (rs : List Rule) → meets_all s rs ≡ true → All (Satisfies validator s) rs
meets_all-All s [] h = tt
meets_all-All s (r ∷ rs) h =
    (meets-Satisfies s r (and_left _ _ h), meets_all-All s rs (and_right _ _ h))

fields_ok-All : (fs : List Field) → fields_ok fs ≡ true → All (IsValidField validator) fs
fields_ok-All [] h = tt
fields_ok-All (f ∷ fs) h =
    (meets_all-All f.value f.rules (and_left _ _ h), fields_ok-All fs (and_right _ _ h))

slice_ok-All :
    (items : List (List Field)) → slice_ok items ≡ true → All (All (IsValidField validator)) items
slice_ok-All [] h = tt
slice_ok-All (fs ∷ rest) h =
    (fields_ok-All fs (and_left _ _ h), slice_ok-All rest (and_right _ _ h))

none_if : (b : Bool) (m : Str) → (if b then none else some m) ≡ none → b ≡ true
none_if true m h = refl
none_if false m h = cc

pub validator-IsValidator : IsValidator validator
validator-IsValidator = record {
  struct_sound = λ fs h. fields_ok-All fs (none_if _ _ h);
  slice_sound = λ name n items h.
      let both = none_if (leb n (length items) && slice_ok items) _ h in
      (ground arith, slice_ok-All items (and_right _ _ both));
}

-- Every text field is "ana@x".
abbrev pub json_lib : JsonLib
json_lib = record {
  fields = λ names body. some (λ name. codes "bia@xyzw");
  items = λ name names body. some [];
}

abbrev pub libraries : Libraries
libraries = record {
  env = λ fields env. some (record { text = λ name. name; number = λ name. 300 });
  keys = key_lib;
  jwt = jwt_lib;
  parse_uuid = λ s. elim s [ [] ↦ none | ◌∷◌ u rest ↦ some u ];
  bcrypt = config.bcrypt;
  http = config.google.http;
  claims_json = claims_json;
  json = json_lib;
  validator = validator;
  marshal_jwk_set = λ set. some [];
  metrics = λ r. answer_status 200;
}

abbrev pub host : Host
host = record { fails = λ n. false; torn = λ n. none; stop = λ n. none }

abbrev pub machine : Machine
machine = record { files = λ path. none; calls = 0; events = [] }
