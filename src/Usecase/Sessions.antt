-- ===== src/Usecase/Sessions.antt =====
-- internal/usecase/refresh.go and logout.go.
use auth_service_go.Base.{not, if◌then◌else◌}
use auth_service_go.Base.Strings.{Str, codes}
use auth_service_go.Domain.{RefreshToken, is_valid, Sentinel, sentinel, wrap, errors_is}
use auth_service_go.Platform.{
  Result, ok, err, Action, return, fail, asks, attempt, wrapping, now, ◌>>=◌, ◌>>◌,
}
use auth_service_go.Usecase.Accounts.{issue_token_pair_for}
use auth_service_go.Usecase.Ports.{UserRepository, RefreshTokenRepository, TokenIssuer, TokenPair}

pub record RefreshAccessToken : Type 0 where
  pub users : UserRepository
  pub tokens : RefreshTokenRepository
  pub issuer : TokenIssuer

abbrev pub new_refresh_access_token :
    UserRepository → RefreshTokenRepository → TokenIssuer → RefreshAccessToken
new_refresh_access_token users tokens issuer = record {
  users = users;
  tokens = tokens;
  issuer = issuer;
}

unfoldable pub rotate : RefreshAccessToken → RefreshToken → Action TokenPair
rotate uc stored = do
  user ← wrapping (codes "loading user for refresh token") (uc.users.find_by_id stored.user_id)
  wrapping (codes "revoking used refresh token") (uc.tokens.revoke stored.id)
  issue_token_pair_for uc.tokens uc.issuer user

unfoldable pub refresh_stored : RefreshAccessToken → Result RefreshToken → Action TokenPair
refresh_stored uc (err e) = fail (
    if errors_is e Sentinel.refresh_token_invalid
    then sentinel Sentinel.refresh_token_invalid
    else wrap (codes "loading refresh token") e)
refresh_stored uc (ok stored) = do
  t ← now
  if not (is_valid stored t)
      then fail (sentinel Sentinel.refresh_token_invalid)
      else rotate uc stored

unfoldable pub refresh : RefreshAccessToken → Str → Action TokenPair
refresh uc plaintext = do
  hash ← asks (λ p. uc.issuer.hash_refresh_token_value p plaintext)
  stored ← attempt (uc.tokens.find_by_token_hash hash)
  refresh_stored uc stored

pub record Logout : Type 0 where
  pub tokens : RefreshTokenRepository
  pub issuer : TokenIssuer

abbrev pub new_logout : RefreshTokenRepository → TokenIssuer → Logout
new_logout tokens issuer = record { tokens = tokens; issuer = issuer }

unfoldable pub logout_stored : Logout → Result RefreshToken → Action Unit
logout_stored uc (err e) =
    if errors_is e Sentinel.refresh_token_invalid
    then return tt
    else fail (wrap (codes "loading refresh token") e)
logout_stored uc (ok stored) =
    wrapping (codes "revoking refresh token") (uc.tokens.revoke stored.id)

unfoldable pub logout : Logout → Str → Action Unit
logout uc plaintext = do
  hash ← asks (λ p. uc.issuer.hash_refresh_token_value p plaintext)
  stored ← attempt (uc.tokens.find_by_token_hash hash)
  logout_stored uc stored
