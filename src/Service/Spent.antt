-- ===== src/Service/Spent.antt =====
-- A refresh token that was rotated or revoked is worth nothing afterwards.
use auth_service_go.Base.{ℕ, ◌≡◌, refl, Bool, true, false, Option, none, some, List}
use auth_service_go.Base.Lists.{All-best, best, best-ne-none, exists}
use auth_service_go.Base.Strings.{Str, str_eq, str_eq→eq, codes}
use auth_service_go.Domain.{Error, RefreshToken, Sentinel, is_valid}
use auth_service_go.Database.{Db, RefreshTokenModel}
use auth_service_go.Jwt.{hash_refresh_token_value}
use auth_service_go.Platform.{Platform, World, Result, ok, err, Action, attempt, ◌>>=◌}
use auth_service_go.Platform.Brings.{Brings}
use auth_service_go.Postgres.Models.{to_domain_refresh_token}
use auth_service_go.Postgres.Repositories.{find_by_token_hash}
use auth_service_go.Postgres.Repositories.Queries.{answer, called, find_by_token_hash_lem}
use auth_service_go.Postgres.Statements.{token_by_id}
use auth_service_go.Service.{Config, Request, refresh_uc, logout_uc}
use auth_service_go.Platform.Process.{interleave}
use auth_service_go.Service.Concurrent.{pool, under_way-steady}
use auth_service_go.Service.Concurrent.Invariants.{interleave-IsConsistent}
use auth_service_go.Service.Consistency.{IsConsistent}
use auth_service_go.Usecase.Ports.{TokenPair}
use auth_service_go.Usecase.Sessions.{refresh_stored, refresh, logout_stored, logout}
use auth_service_go.Service.Sessions.{
  IsSpent, IsSession, IsSpent-steady, refresh_stored-Brings, logout_stored-Brings, found-IsSession,
}

-- What follows a query by hash, if it returns: it ran on a session that was found, unless it
-- returns on the error of a failed statement or of a missing row.
module _ {A : Type 0} (Q : Db → Type 0) (hash : Str) (p : Platform) (w : World)
    (rest : Result RefreshToken → Action A) (a : A) (c : IsConsistent w.db) where
  abbrev selected : Option RefreshTokenModel
  selected = best token_by_id (λ t. str_eq t.token_hash hash) w.db.refresh_tokens

  abbrev replied : Bool → Option RefreshTokenModel → Result RefreshToken
  replied =
      answer Sentinel.refresh_token_invalid (codes "finding refresh token") to_domain_refresh_token

  abbrev Gives : Result RefreshToken → Type 0
  Gives r = (rest r p (called w)).0 ≡ ok a → Q (rest r p (called w)).1.db

  after_query :
      (selected ≡ none → Gives (replied false none))
      → Gives (replied true none)
      → ((t : RefreshToken) → Brings p (IsSession hash t.id) Q (rest (ok t)))
      → ((attempt (find_by_token_hash hash) >>= rest) p w).0 ≡ ok a
      → Q ((attempt (find_by_token_hash hash) >>= rest) p w).1.db
  unfolding ◌>>=◌
  after_query missing failed session =
      rw (find_by_token_hash_lem p w hash) (go (p.fails w.calls) selected refl)
    where
      go : (b : Bool) (o : Option RefreshTokenModel) → selected ≡ o → Gives (replied b o)
      go true o e q = failed q
      go false none e q = missing e q
      go false (some m) e q =
          (session (to_domain_refresh_token m)).at (called w) a (found-IsSession hash m w.db c e) q

-- A spent token is refused, whatever the clock, and the tables stay as they are.
spent_is_refused :
    (cfg : Config) (p : Platform) (token : Str) (w : World)
    → IsSpent (hash_refresh_token_value p token) w.db
    → ((e : Error) × ((refresh (refresh_uc cfg) token p w).0 ≡ err e))
      × ((refresh (refresh_uc cfg) token p w).1.db ≡ w.db)
unfolding refresh refresh_stored is_valid ◌>>=◌
spent_is_refused cfg p token w h =
    rw (find_by_token_hash_lem p w (hash_refresh_token_value p token))
      (go (p.fails w.calls) (best token_by_id test w.db.refresh_tokens) refl)
  where
    test : RefreshTokenModel → Bool
    test t = str_eq t.token_hash (hash_refresh_token_value p token)

    result : Bool → Option RefreshTokenModel → Result RefreshToken
    result b o =
        answer Sentinel.refresh_token_invalid (codes "finding refresh token")
          to_domain_refresh_token b o

    go :
        (b : Bool) (o : Option RefreshTokenModel)
        → best token_by_id test w.db.refresh_tokens ≡ o
        → ((e : Error) × ((refresh_stored (refresh_uc cfg) (result b o) p (called w)).0 ≡ err e))
          × ((refresh_stored (refresh_uc cfg) (result b o) p (called w)).1.db ≡ w.db)
    go true o e = ((_, refl), refl)
    go false none e = ((_, refl), refl)
    go false (some m) e =
        let over = All-best token_by_id test _ w.db.refresh_tokens m h.over e in
        let closed = over.0 (str_eq→eq _ _ over.1) in rw closed ((_, refl), refl)

refreshed-IsSpent :
    (cfg : Config) (p : Platform) (token : Str) (w : World) (pair : TokenPair)
    → IsConsistent w.db
    → (refresh (refresh_uc cfg) token p w).0 ≡ ok pair
    → IsSpent (hash_refresh_token_value p token) (refresh (refresh_uc cfg) token p w).1.db
unfolding refresh refresh_stored ◌>>=◌
refreshed-IsSpent cfg p token w pair c q =
    after_query _ (hash_refresh_token_value p token) p w (refresh_stored (refresh_uc cfg)) pair c
      (λ _ e. cc) (λ e. cc) (refresh_stored-Brings _ p cfg) q

logged_out-IsSpent :
    (cfg : Config) (p : Platform) (token : Str) (w : World)
    → IsConsistent w.db
    → exists (λ t. str_eq t.token_hash (hash_refresh_token_value p token)) w.db.refresh_tokens
      ≡ true
    → (logout (logout_uc cfg) token p w).0 ≡ ok tt
    → IsSpent (hash_refresh_token_value p token) (logout (logout_uc cfg) token p w).1.db
unfolding logout logout_stored ◌>>=◌
logged_out-IsSpent cfg p token w c known q =
    after_query _ (hash_refresh_token_value p token) p w (logout_stored (logout_uc cfg)) tt c
      (λ missing. absurd (best-ne-none _ _ w.db.refresh_tokens known missing)) (λ e. cc)
      (logout_stored-Brings _ p cfg) q

-- Rotation: if ids and token hashes are unique, some requests are under way, and a refresh with a
-- token then returns a pair, then after any further turns of those requests, in whatever order their
-- calls come, whatever fails and whatever the clock says, a refresh with the same token returns no
-- pair and changes no table.
pub refresh_never_twice :
    (cfg : Config) (p : Platform) (token : Str) (w : World) (pair : TokenPair)
    (requests : List Request) (before after : List ℕ)
    → IsConsistent w.db
    → let (left, at) = interleave before (pool cfg p requests) p w in
      (refresh (refresh_uc cfg) token p at).0 ≡ ok pair
      → let w' = (interleave after left p (refresh (refresh_uc cfg) token p at).1).1 in
        ((e : Error) × ((refresh (refresh_uc cfg) token p w').0 ≡ err e))
        × ((refresh (refresh_uc cfg) token p w').1.db ≡ w'.db)
refresh_never_twice cfg p token w pair requests before after c q = spent_is_refused cfg p token _ (
    under_way-steady cfg p (IsSpent-steady _ p) before after requests w _
      (refreshed-IsSpent cfg p token _ pair (interleave-IsConsistent cfg p before requests w c) q))

-- Logout: if ids and token hashes are unique, some requests are under way, the token belongs to a
-- session and the logout then returns without an error, then after any further turns of those
-- requests, in whatever order their calls come, whatever fails and whatever the clock says, a refresh
-- with the token returns no pair and changes no table.
pub no_refresh_after_logout :
    (cfg : Config) (p : Platform) (token : Str) (w : World) (requests : List Request)
    (before after : List ℕ)
    → IsConsistent w.db
    → let (left, at) = interleave before (pool cfg p requests) p w in
      exists (λ t. str_eq t.token_hash (hash_refresh_token_value p token)) at.db.refresh_tokens
        ≡ true
      → (logout (logout_uc cfg) token p at).0 ≡ ok tt
      → let w' = (interleave after left p (logout (logout_uc cfg) token p at).1).1 in
        ((e : Error) × ((refresh (refresh_uc cfg) token p w').0 ≡ err e))
        × ((refresh (refresh_uc cfg) token p w').1.db ≡ w'.db)
no_refresh_after_logout cfg p token w requests before after c known q =
    spent_is_refused cfg p token _ (
      under_way-steady cfg p (IsSpent-steady _ p) before after requests w _ (
        logged_out-IsSpent cfg p token _ (interleave-IsConsistent cfg p before requests w c) known
          q))
