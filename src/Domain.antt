-- ===== src/Domain.antt =====
-- internal/domain: the entities and the sentinel errors. A UUID is the 128-bit number that its
-- sixteen bytes spell, and a `time.Time` the nanoseconds of its UTC instant.
use auth_service_go.Base.{ℕ, Bool, true, false, ◌&&◌, Option, none, some, List, ltb}
use auth_service_go.Base.Strings.{Str, codes}

abbrev pub Uuid : Type 0
Uuid = ℕ

abbrev pub Time : Type 0
Time = ℕ

abbrev pub Duration : Type 0
Duration = ℕ

-- The variables of errors.go.
pub data Sentinel : Type 0 where
  user_not_found email_already_exists invalid_credentials refresh_token_invalid : Sentinel
  invalid_role code_not_found code_invalid too_many_attempts : Sentinel
  oauth_state_invalid oauth_email_not_verified : Sentinel

-- A Go `error` value: a sentinel, gorm's `ErrRecordNotFound`, `fmt.Errorf("message: %w", e)`, or
-- an error that some other code made.
pub data Error : Type 0 where
  sentinel : Sentinel → Error
  record_not_found : Error
  wrap : Str → Error → Error
  external : Str → Error

abbrev pub same_sentinel : Sentinel → Sentinel → Bool
same_sentinel Sentinel.user_not_found Sentinel.user_not_found = true
same_sentinel Sentinel.email_already_exists Sentinel.email_already_exists = true
same_sentinel Sentinel.invalid_credentials Sentinel.invalid_credentials = true
same_sentinel Sentinel.refresh_token_invalid Sentinel.refresh_token_invalid = true
same_sentinel Sentinel.invalid_role Sentinel.invalid_role = true
same_sentinel Sentinel.code_not_found Sentinel.code_not_found = true
same_sentinel Sentinel.code_invalid Sentinel.code_invalid = true
same_sentinel Sentinel.too_many_attempts Sentinel.too_many_attempts = true
same_sentinel Sentinel.oauth_state_invalid Sentinel.oauth_state_invalid = true
same_sentinel Sentinel.oauth_email_not_verified Sentinel.oauth_email_not_verified = true
same_sentinel _ _ = false

-- `errors.Is(e, target)` for a sentinel, and for gorm's error.
abbrev pub errors_is : Error → Sentinel → Bool
errors_is (sentinel s) target = same_sentinel s target
errors_is record_not_found target = false
errors_is (wrap _ e) target = errors_is e target
errors_is (external _) target = false

abbrev pub is_record_not_found : Error → Bool
is_record_not_found (sentinel _) = false
is_record_not_found record_not_found = true
is_record_not_found (wrap _ e) = is_record_not_found e
is_record_not_found (external _) = false

pub record User : Type 0 where
  pub id : Uuid
  pub email : Str
  pub password_hash : Option Str
  pub name : Str
  pub roles : List Str
  pub created_at : Time
  pub updated_at : Time

abbrev pub role_customer : Str
role_customer = codes "CUSTOMER"

abbrev pub role_seller : Str
role_seller = codes "SELLER"

pub record RefreshToken : Type 0 where
  pub id : Uuid
  pub user_id : Uuid
  pub token_hash : Str
  pub expires_at : Time
  pub revoked_at : Option Time
  pub created_at : Time

abbrev pub is_nil : Option Time → Bool
is_nil none = true
is_nil (some _) = false

-- `t.RevokedAt == nil && now.Before(t.ExpiresAt)`.
unfoldable pub is_valid : RefreshToken → Time → Bool
is_valid t now = is_nil t.revoked_at && ltb now t.expires_at

pub record VerificationCode : Type 0 where
  pub id : Uuid
  pub email : Str
  pub code_hash : Str
  pub expires_at : Time
  pub consumed_at : Option Time
  pub attempts : ℕ
  pub created_at : Time
