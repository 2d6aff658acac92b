-- ===== src/Service/Race.antt =====
-- Two refreshes with one token at the same time: the lookups of both come before the revocation of
-- either.
use mathlib.Core.Path.{subst}
use auth_service_go.Base.{ap, sym, true, ◌==◌, ◌+◌, ◌<◌, ◌≡◌, none, some}
use auth_service_go.Base.Lists.{All-best, exists}
use auth_service_go.Base.Strings.{Str}
use auth_service_go.Domain.{RefreshToken}
use auth_service_go.Database.{RefreshTokenModel}
use auth_service_go.Jwt.{hash_refresh_token_value}
use auth_service_go.Platform.{Platform, World, Result, ok, Action, return, asks, attempt, ◌>>=◌}
use auth_service_go.Postgres.Models.{to_domain_refresh_token}
use auth_service_go.Postgres.Repositories.{find_by_token_hash}
use auth_service_go.Postgres.Repositories.Queries.{called, find_by_token_hash_lem}
use auth_service_go.Postgres.Statements.{token_by_id, update_revoked_at}
use auth_service_go.Service.{Config, refresh_uc}
use auth_service_go.Service.Consistency.{IsConsistent}
use auth_service_go.Service.Issue.{IsCalm, IsFresh}
use auth_service_go.Service.Progress.{session_for, refresh_stored-Issues}
use auth_service_go.Usecase.Ports.{TokenPair}
use auth_service_go.Usecase.Sessions.{refresh_stored}

-- The lookup of each, and then the rest of each.
unfoldable pub race : Config → Str → Action (Result TokenPair × Result TokenPair)
race cfg token = do
  hash ← asks (λ p. hash_refresh_token_value p token)
  first ← attempt (find_by_token_hash hash)
  second ← attempt (find_by_token_hash hash)
  one ← attempt (refresh_stored (refresh_uc cfg) first)
  two ← attempt (refresh_stored (refresh_uc cfg) second)
  return (one, two)

-- The world when the first is done.
abbrev pub first_done : Config → Platform → World → RefreshToken → World
first_done cfg p w m = (refresh_stored (refresh_uc cfg) (ok m) p (called (called w))).1

-- Two refreshes with one token are both served when both lookups come before the first revocation:
-- if ids and token hashes are unique and every session has an account, nothing outside fails, what
-- is drawn is fresh, and the token's session is not revoked and not expired at both checks, then both
-- return a pair. The UPDATE that revokes does not ask whether the session is still open.
pub race_serves_both :
    (cfg : Config) (p : Platform) (token : Str) (w : World) (m : RefreshTokenModel)
    → IsCalm cfg p
    → IsConsistent w.db
    → session_for p token w.db ≡ some m
    → m.revoked_at ≡ none
    → p.time (w.calls + 1 + 1) < m.expires_at
    → let done = first_done cfg p w (to_domain_refresh_token m) in
      p.time done.calls < m.expires_at
      → IsFresh p (w.calls + 1 + 1 + 1 + 1 + 1) w.db
      → IsFresh p (done.calls + 1 + 1 + 1) done.db
      → (one two : TokenPair) × ((race cfg token p w).0 ≡ ok (ok one, ok two))
unfolding race ◌>>=◌ update_revoked_at
race_serves_both cfg p token w m calm c found unrevoked early early_too fresh fresh_too =
    let stored = to_domain_refresh_token m in
    let known = (All-best token_by_id _ _ w.db.refresh_tokens m c.token_users found).0 in
    let (one, first, _) =
      refresh_stored-Issues cfg p calm stored (called (called w)) fresh known unrevoked early in
    let (two, second, _) =
      refresh_stored-Issues cfg p calm stored (first_done cfg p w stored) fresh_too
        (subst
          (λ (r : Result TokenPair × World). exists (λ u. u.id == m.user_id) r.1.db.users ≡ true)
          (sym first) known)
        unrevoked early_too in
    rw
      (
        find_by_token_hash_lem p w (hash_refresh_token_value p token),
        calm.works w.calls,
        found,
        find_by_token_hash_lem p (called w) (hash_refresh_token_value p token),
        calm.works (w.calls + 1),
        found,
      )
      (
        one,
        two,
        ap (λ (rs : Result TokenPair × Result TokenPair). ok rs) (λ j. ((first j).0, (second j).0)),
      )
