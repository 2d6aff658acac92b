-- ===== src/Http/Requests.antt =====
-- internal/adapter/http/handler: the request types of the handlers, with the names of their JSON
-- fields and the rules of their `validate` tags. encoding/json and go-playground/validator are
-- parameters.
use mathlib.Core.Option
use auth_service_go.Base.{ℕ, ◌≡◌, ◌≢◌, ◌≤◌, Bool, true, Option, none, List, [], ◌∷◌, map}
use auth_service_go.Base.Lists.{All, length}
use auth_service_go.Base.Strings.{Str, Bytes, codes}
use auth_service_go.Http.Handlers.{Wire}
use auth_service_go.Usecase.Accounts.{RegisterInput, LoginInput, BulkCreateItem}
use auth_service_go.Usecase.Codes.{VerifyCodeInput}
use auth_service_go.Usecase.Google.{CompleteGoogleOAuthInput}

-- Decoding into a struct with string fields of these names, "" where the body has none; and into a
-- struct with one field, a slice of such structs.
pub record JsonLib : Type 0 where
  pub fields : List Str → Bytes → Option (Str → Str)
  pub items : Str → List Str → Bytes → Option (List (Str → Str))

-- The rules of the tags.
pub data Rule : Type 0 where
  required email numeric : Rule
  min_length exact_length : ℕ → Rule

pub record Field : Type 0 where
  pub name : Str
  pub value : Str
  pub rules : List Rule

-- `validate.Struct` on a struct with string fields, and on one with a slice under
-- `required,min=…,dive`; `some` is the message of its error. The two formats are the library's.
pub record Validator : Type 0 where
  pub struct : List Field → Option Str
  pub slice : Str → ℕ → List (List Field) → Option Str
  pub is_email : Str → Bool
  pub is_numeric : Str → Bool

module _ (v : Validator) where
  abbrev pub Satisfies : Str → Rule → Type 0
  Satisfies s required = s ≢ []
  Satisfies s email = v.is_email s ≡ true
  Satisfies s numeric = v.is_numeric s ≡ true
  Satisfies s (min_length n) = n ≤ length s
  Satisfies s (exact_length n) = length s ≡ n

  abbrev pub IsValidField : Field → Type 0
  IsValidField f = All (Satisfies f.value) f.rules

  -- The library's documentation: what passes meets its rules; lengths of strings are in runes.
  pub record IsValidator : Type 0 where
    pub struct_sound : (fs : List Field) → v.struct fs ≡ none → All IsValidField fs
    pub slice_sound :
        (name : Str) (n : ℕ) (items : List (List Field))
        → v.slice name n items ≡ none
        → (n ≤ length items) × All (All IsValidField) items

-- register_handler.go; the items of bulk_create_handler.go have the same tags.
abbrev pub account_names : List Str
account_names = codes "email" ∷ codes "password" ∷ codes "name" ∷ []

abbrev pub account_fields : Str → Str → Str → List Field
account_fields address password name =
    record { name = codes "Email"; value = address; rules = required ∷ email ∷ [] }
    ∷ record { name = codes "Password"; value = password; rules = required ∷ min_length 8 ∷ [] }
    ∷ record { name = codes "Name"; value = name; rules = required ∷ [] }
    ∷ []

abbrev pub login_fields : LoginInput → List Field
login_fields i =
    record { name = codes "Email"; value = i.email; rules = required ∷ email ∷ [] }
    ∷ record { name = codes "Password"; value = i.password; rules = required ∷ [] }
    ∷ []

abbrev pub verify_code_fields : VerifyCodeInput → List Field
verify_code_fields i =
    record { name = codes "Email"; value = i.email; rules = required ∷ email ∷ [] }
    ∷ record {
      name = codes "Code";
      value = i.code;
      rules = required ∷ exact_length 6 ∷ numeric ∷ [];
    }
    ∷ []

abbrev pub complete_fields : CompleteGoogleOAuthInput → List Field
complete_fields i =
    record { name = codes "Code"; value = i.code; rules = required ∷ [] }
    ∷ record { name = codes "State"; value = i.state; rules = required ∷ [] }
    ∷ []

module _ (json : JsonLib) (v : Validator) where
  unfoldable pub register_wire : Wire RegisterInput
  register_wire = record {
    decode = λ body.
        Option.map
          (λ get. record {
            email = get (codes "email");
            password = get (codes "password");
            name = get (codes "name");
          })
          (json.fields account_names body);
    violation = λ i. v.struct (account_fields i.email i.password i.name);
  }

  unfoldable pub login_wire : Wire LoginInput
  login_wire = record {
    decode = λ body.
        Option.map
          (λ get. record { email = get (codes "email"); password = get (codes "password") })
          (json.fields (codes "email" ∷ codes "password" ∷ []) body);
    violation = λ i. v.struct (login_fields i);
  }

  -- A request with one string field.
  abbrev pub single_wire : Str → Str → List Rule → Wire Str
  single_wire json_name name rules = record {
    decode = λ body. Option.map (λ get. get json_name) (json.fields (json_name ∷ []) body);
    violation = λ s. v.struct (record { name = name; value = s; rules = rules } ∷ []);
  }

  unfoldable pub refresh_wire : Wire Str
  refresh_wire = single_wire (codes "refresh_token") (codes "RefreshToken") (required ∷ [])

  -- Without tags, and without a call of the validator.
  unfoldable pub logout_wire : Wire Str
  logout_wire = record {
    decode = λ body.
        Option.map (λ get. get (codes "refresh_token"))
          (json.fields (codes "refresh_token" ∷ []) body);
    violation = λ s. none;
  }

  unfoldable pub request_code_wire : Wire Str
  request_code_wire = single_wire (codes "email") (codes "Email") (required ∷ email ∷ [])

  unfoldable pub add_role_wire : Wire Str
  add_role_wire = single_wire (codes "role") (codes "Role") (required ∷ [])

  unfoldable pub verify_code_wire : Wire VerifyCodeInput
  verify_code_wire = record {
    decode = λ body.
        Option.map (λ get. record { email = get (codes "email"); code = get (codes "code") })
          (json.fields (codes "email" ∷ codes "code" ∷ []) body);
    violation = λ i. v.struct (verify_code_fields i);
  }

  unfoldable pub complete_wire : Wire CompleteGoogleOAuthInput
  complete_wire = record {
    decode = λ body.
        Option.map (λ get. record { code = get (codes "code"); state = get (codes "state") })
          (json.fields (codes "code" ∷ codes "state" ∷ []) body);
    violation = λ i. v.struct (complete_fields i);
  }

  unfoldable pub bulk_create_wire : Wire (List BulkCreateItem)
  bulk_create_wire = record {
    decode = λ body.
        Option.map
          (map (λ get. record {
            email = get (codes "email");
            password = get (codes "password");
            name = get (codes "name");
          }))
          (json.items (codes "users") account_names body);
    violation = λ items.
        v.slice (codes "Users") 1 (map (λ i. account_fields i.email i.password i.name) items);
  }
