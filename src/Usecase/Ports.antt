-- ===== src/Usecase/Ports.antt =====
-- internal/usecase/ports.go: what the use cases need, as records of operations.
use auth_service_go.Base.{ℕ, Bool}
use auth_service_go.Base.Strings.{Str}
use auth_service_go.Domain.{Uuid, Duration, User, RefreshToken, VerificationCode}
use auth_service_go.Platform.{Platform, Action}

pub record UserRepository : Type 0 where
  pub exists_by_email : Str → Action Bool
  pub insert : User → Action Unit
  pub find_by_email : Str → Action User
  pub find_by_id : Uuid → Action User
  pub add_role : Uuid → Str → Action User

pub record RefreshTokenRepository : Type 0 where
  pub insert : RefreshToken → Action Unit
  pub find_by_token_hash : Str → Action RefreshToken
  pub revoke : Uuid → Action Unit

pub record VerificationCodeRepository : Type 0 where
  pub insert : VerificationCode → Action Unit
  pub find_latest_by_email : Str → Action VerificationCode
  pub increment_attempts : Uuid → Action Unit
  pub mark_consumed : Uuid → Action Unit

pub record CodeSender : Type 0 where
  pub send_verification_code : Str → Str → Action Unit

pub record GoogleIdentity : Type 0 where
  pub email : Str
  pub email_verified : Bool
  pub name : Str

pub record GoogleOAuthProvider : Type 0 where
  pub authorize_url : Str → Str
  pub exchange : Str → Action GoogleIdentity

pub record PasswordHasher : Type 0 where
  pub hash : Str → Action Str
  pub matches : Str → Str → Bool

pub record RefreshTokenValue : Type 0 where
  pub plaintext : Str
  pub hash : Str

pub record AccessToken : Type 0 where
  pub token : Str
  pub expires_in : ℕ

pub record TokenIssuer : Type 0 where
  pub issue_access_token : User → Action AccessToken
  pub new_refresh_token_value : Action RefreshTokenValue
  pub hash_refresh_token_value : Platform → Str → Str
  pub refresh_token_ttl : Duration

pub record TokenPair : Type 0 where
  pub access_token : Str
  pub refresh_token : Str
  pub expires_in : ℕ
