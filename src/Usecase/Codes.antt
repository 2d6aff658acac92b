-- ===== src/Usecase/Codes.antt =====
-- internal/usecase/request_code.go and verify_code.go.
use auth_service_go.Base.{
  ℕ, zero, suc, ◌+◌, ◌*◌, Bool, true, not, none, [], ◌∷◌, ltb, leb, if◌then◌else◌,
}
use auth_service_go.Base.Strings.{Str, codes, utf8, str_eq}
use auth_service_go.Domain.{
  Duration, User, VerificationCode, Sentinel, sentinel, wrap, errors_is, is_nil,
}
use auth_service_go.Encoding.{hex}
use auth_service_go.Jwt.{second}
use auth_service_go.Platform.{
  Platform, Result, ok, err, Action, return, fail, asks, attempt, wrapping, now, new_uuid,
  random_int, ◌>>=◌, ◌>>◌,
}
use auth_service_go.Usecase.Accounts.{normalize_email, new_user, issue_token_pair_for}
use auth_service_go.Usecase.Ports.{
  UserRepository, RefreshTokenRepository, VerificationCodeRepository, CodeSender, TokenIssuer,
  TokenPair,
}

-- request_code.go.
abbrev pub verification_code_length : ℕ
verification_code_length = 6

abbrev pub verification_code_ttl : Duration
verification_code_ttl = 10 * 60 * second

pub record RequestCode : Type 0 where
  pub codes : VerificationCodeRepository
  pub sender : CodeSender

abbrev pub new_request_code : VerificationCodeRepository → CodeSender → RequestCode
new_request_code codes sender = record { codes = codes; sender = sender }

-- `rand.Int` answers below its bound, so the index into "0123456789" is in range.
unfoldable pub generate_digits : ℕ → Action Str
generate_digits zero = return []
generate_digits (suc n) = do
  digit ← random_int 10
  rest ← generate_digits n
  return ((b'0' + digit) ∷ rest)

unfoldable pub generate_verification_code : Action Str
generate_verification_code = generate_digits verification_code_length

unfoldable pub hash_verification_code : Platform → Str → Str
hash_verification_code p code = hex (p.sha256 (utf8 code))

unfoldable pub request_code : RequestCode → Str → Action Unit
request_code uc address = do
  email ← asks (λ p. normalize_email p address)
  code ← wrapping (codes "generating verification code") generate_verification_code
  t ← now
  id ← new_uuid
  hash ← asks (λ p. hash_verification_code p code)
  wrapping (codes "persisting verification code") (
      uc.codes.insert (record {
        id = id;
        email = email;
        code_hash = hash;
        expires_at = t + verification_code_ttl;
        consumed_at = none;
        attempts = 0;
        created_at = t;
      }))
  wrapping (codes "sending verification code") (uc.sender.send_verification_code email code)

-- verify_code.go.
abbrev pub max_verification_attempts : ℕ
max_verification_attempts = 5

pub record VerifyCodeInput : Type 0 where
  pub email : Str
  pub code : Str

pub record VerifyCode : Type 0 where
  pub codes : VerificationCodeRepository
  pub users : UserRepository
  pub tokens : RefreshTokenRepository
  pub issuer : TokenIssuer

abbrev pub new_verify_code :
    VerificationCodeRepository → UserRepository → RefreshTokenRepository → TokenIssuer → VerifyCode
new_verify_code codes users tokens issuer = record {
  codes = codes;
  users = users;
  tokens = tokens;
  issuer = issuer;
}

-- `record.ConsumedAt != nil || time.Now().UTC().After(record.ExpiresAt)`; the clock is read only
-- for a code that is not consumed.
unfoldable pub unusable : VerificationCode → Action Bool
unusable r = if is_nil r.consumed_at then (do t ← now; return (ltb r.expires_at t)) else return true

-- The account of a verified address: the one that is there, or a new one with no password.
unfoldable pub find_or_create : UserRepository → Str → Str → Result User → Action User
find_or_create users email name (ok user) = return user
find_or_create users email name (err e) =
    if not (errors_is e Sentinel.user_not_found) then fail (wrap (codes "loading user") e) else do
      t ← now
      id ← new_uuid
      wrapping (codes "creating user") (users.insert (new_user id email none name t))
      return (new_user id email none name t)

unfoldable pub enter : VerifyCode → Str → VerificationCode → Action TokenPair
enter uc email r = do
  wrapping (codes "consuming verification code") (uc.codes.mark_consumed r.id)
  found ← attempt (uc.users.find_by_email email)
  user ← find_or_create uc.users email email found
  issue_token_pair_for uc.tokens uc.issuer user

unfoldable pub reject : VerifyCode → VerificationCode → Action TokenPair
reject uc r = do
  wrapping (codes "recording failed attempt") (uc.codes.increment_attempts r.id)
  fail (sentinel Sentinel.code_invalid)

unfoldable pub check_code : VerifyCode → Str → Str → VerificationCode → Action TokenPair
check_code uc email code r = do
  hash ← asks (λ p. hash_verification_code p code)
  if leb max_verification_attempts r.attempts
      then fail (sentinel Sentinel.too_many_attempts)
      else if not (str_eq hash r.code_hash)
      then reject uc r
      else enter uc email r

unfoldable pub verify_record : VerifyCode → Str → Str → Result VerificationCode → Action TokenPair
verify_record uc email code (err e) = fail (
    if errors_is e Sentinel.code_not_found
    then sentinel Sentinel.code_invalid
    else wrap (codes "loading verification code") e)
verify_record uc email code (ok r) = do
  dead ← unusable r
  if dead then fail (sentinel Sentinel.code_invalid) else check_code uc email code r

unfoldable pub verify_code : VerifyCode → VerifyCodeInput → Action TokenPair
verify_code uc input = do
  email ← asks (λ p. normalize_email p input.email)
  found ← attempt (uc.codes.find_latest_by_email email)
  verify_record uc email input.code found
