-- ===== src/Service/Progress.antt =====
-- What the service does for its users when nothing outside fails: sessions go on, and passwords open
-- their accounts.
use mathlib.Core.Path.{subst}
use auth_service_go.Base.{
  ℕ, ◌+◌, ◌<◌, ◌≡◌, refl, sym, ap, true, Option, none, some, [], ◌∷◌, ◌++◌, ◌==◌, ltb, arith, inl,
  inr, Option-cases,
}
use auth_service_go.Base.Lists.{All-best, best, best-ne-none, best-passes, exists, update_where}
use auth_service_go.Base.Strings.{Str, str_eq}
use auth_service_go.Domain.{RefreshToken, Uuid, is_valid}
use auth_service_go.Database.{Db, RefreshTokenModel, UserModel}
use auth_service_go.Jwt.{hash_refresh_token_value, token_issuer}
use auth_service_go.Platform.{Platform, World, Result, ok, ◌>>=◌}
use auth_service_go.Postgres.Models.{to_domain_refresh_token, to_domain_user}
use auth_service_go.Postgres.Repositories.{revoke, refresh_tokens}
use auth_service_go.Postgres.Repositories.Queries.{called, find_by_id_lem, find_by_token_hash_lem}
use auth_service_go.Postgres.Statements.{token_by_id, user_by_id, update_revoked_at, revoked}
use auth_service_go.Service.{Config, refresh_uc}
use auth_service_go.Service.Consistency.{IsConsistent}
use auth_service_go.Service.Issue.{
  IsCalm, IsFresh, IsFresh-update_revoked_at, Issues, issue_token_pair_for-Issues, new_session,
  session_lem,
}
use auth_service_go.Usecase.Accounts.{issue_token_pair_for}
use auth_service_go.Usecase.Ports.{TokenPair}
use auth_service_go.Usecase.Sessions.{rotate, refresh_stored, refresh}

-- The session of a refresh token.
abbrev pub session_for : Platform → Str → Db → Option RefreshTokenModel
session_for p token d =
    best token_by_id (λ t. str_eq t.token_hash (hash_refresh_token_value p token)) d.refresh_tokens

-- The world of a rotation after the look at the clock, the account and the revocation.
abbrev pub closed : Platform → World → Uuid → World
closed p w id = record w {
  db = (update_revoked_at id (p.time (w.calls + 1 + 1)) w.db).1;
  calls = w.calls + 1 + 1 + 1;
}

module _ (cfg : Config) (p : Platform) (calm : IsCalm cfg p) where
  pub refresh_stored-Issues :
      (m : RefreshToken) (w : World)
      → IsFresh p (w.calls + 1 + 1 + 1) w.db
      → exists (λ u. u.id == m.user_id) w.db.users ≡ true
      → m.revoked_at ≡ none
      → p.time w.calls < m.expires_at
      → Issues cfg p (closed p w m.id) m.user_id (refresh_stored (refresh_uc cfg) (ok m) p w)
  unfolding refresh_stored is_valid rotate revoke ◌>>=◌ update_revoked_at
  refresh_stored-Issues m w fresh known unrevoked early =
      elim (Option-cases (best user_by_id (λ u. u.id == m.user_id) w.db.users)) [
        | inl missing ↦ absurd (best-ne-none _ _ w.db.users known missing)
        | inr (u, hit) ↦
            rw
              (
                unrevoked,
                ltb_true _ _ early,
                find_by_id_lem p (called w) m.user_id,
                calm.works (w.calls + 1),
                hit,
                calm.works (w.calls + 1 + 1),
              )
              (for_account u
                (eqb→eq _ _ (best-passes user_by_id (λ x. x.id == m.user_id) w.db.users u hit)))
      ]
    where
      ltb_true : (a b : ℕ) → a < b → ltb a b ≡ true
      ltb_true a b h = ground arith

      eqb→eq : (a b : ℕ) → (a == b) ≡ true → a ≡ b
      eqb→eq a b h = ground arith

      for_account :
          (u : UserModel)
          → u.id ≡ m.user_id
          → Issues cfg p (closed p w m.id) m.user_id (
              issue_token_pair_for refresh_tokens
                (token_issuer cfg.issuer)
                (to_domain_user u)
                p
                (closed p w m.id))
      for_account u same =
          subst
            (λ id. Issues cfg p (closed p w m.id) id (
              issue_token_pair_for refresh_tokens (token_issuer cfg.issuer) (to_domain_user u) p
                (closed p w m.id)))
            same
            (issue_token_pair_for-Issues cfg p (to_domain_user u) (closed p w m.id) calm
              (IsFresh-update_revoked_at p _ w.db fresh m.id _)
              (subst (λ id. exists (λ x. x.id == id) w.db.users ≡ true) (sym same) known))

-- What a rotation of `m` returns and leaves: a pair whose refresh token has a session in force for
-- the same account, the old session revoked, and the accounts and codes as they were.
pub record IsRotated (cfg : Config) (p : Platform) (w : World) (m : RefreshTokenModel)
    (r : Result TokenPair × World) : Type 0 where
  pub pair : TokenPair
  pub next : RefreshTokenModel
  pub returned : r.0 ≡ ok pair
  pub in_force : session_for p pair.refresh_token r.1.db ≡ some next
  pub account : next.user_id ≡ m.user_id
  pub unrevoked : next.revoked_at ≡ none
  pub until : next.expires_at ≡ p.time (w.calls + 6) + cfg.issuer.refresh_token_ttl
  pub sessions : r.1.db ≡ record w.db {
    refresh_tokens =
        update_where (λ t. t.id == m.id) (revoked (p.time (w.calls + 3))) w.db.refresh_tokens
        ++ next ∷ [];
  }

Issues-IsRotated :
    (cfg : Config) (p : Platform) (w : World) (m : RefreshTokenModel) (r : Result TokenPair × World)
    → Issues cfg p (closed p (called w) m.id) m.user_id r
    → IsRotated cfg p w m r
unfolding update_revoked_at
Issues-IsRotated cfg p w m r (pair, e, unused) =
    let made = new_session cfg p (closed p (called w) m.id) m.user_id pair.refresh_token in
    subst (IsRotated cfg p w m) (sym e) (record {
      pair = pair;
      next = made;
      returned = refl;
      in_force = session_lem p (closed p (called w) m.id) made unused;
      account = refl;
      unrevoked = refl;
      until = ap (λ n. p.time n + cfg.issuer.refresh_token_ttl) (omega arith);
      sessions = ap (λ n. rotated n made) (omega arith);
    })
  where
    rotated : ℕ → RefreshTokenModel → Db
    rotated n made = record w.db {
      refresh_tokens =
          update_where (λ t. t.id == m.id) (revoked (p.time n)) w.db.refresh_tokens ++ made ∷ [];
    }

-- Refresh goes on: if ids and token hashes are unique and every session has an account, nothing
-- outside fails, the id and the token that are drawn are not those of a session, and the token's
-- session is not revoked and not expired at the second call, then the refresh returns a pair. Its refresh token has
-- a session of the same account in force, for the configured time; the old session is revoked; no
-- account, code or other session changes.
pub refresh_goes_on :
    (cfg : Config) (p : Platform) (token : Str) (w : World) (m : RefreshTokenModel)
    → IsCalm cfg p
    → IsFresh p (w.calls + 1 + 1 + 1 + 1) w.db
    → IsConsistent w.db
    → session_for p token w.db ≡ some m
    → m.revoked_at ≡ none
    → p.time (w.calls + 1) < m.expires_at
    → IsRotated cfg p w m (refresh (refresh_uc cfg) token p w)
unfolding refresh ◌>>=◌ update_revoked_at
refresh_goes_on cfg p token w m calm fresh c found unrevoked early =
    rw (find_by_token_hash_lem p w (hash_refresh_token_value p token), calm.works w.calls, found)
      (Issues-IsRotated cfg p w m _ (
        refresh_stored-Issues cfg p calm (to_domain_refresh_token m) (called w) fresh
          (All-best token_by_id _ _ w.db.refresh_tokens m c.token_users found).0 unrevoked early))
