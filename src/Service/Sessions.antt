-- ===== src/Service/Sessions.antt =====
-- Sessions by the hash of their refresh token: when one is spent, that no request brings it back,
-- and that rotation and logout spend it.
use mathlib.Core.Path.{subst}
use auth_service_go.Base.{ℕ, ◌≡◌, ◌≢◌, refl, sym, ap, ◌∙◌, true, false, some, ◌==◌, arith}
use auth_service_go.Base.Lists.{
  All, All-append, All-mono, All-update_where, best, best-exists, best-passes, best_unique, exists,
  exists-append, exists-update_where,
}
use auth_service_go.Base.Strings.{Str, str_eq, str_eq→eq}
use auth_service_go.Domain.{Uuid, Time, RefreshToken, is_nil}
use auth_service_go.Database.{Db, RefreshTokenModel, accepts_refresh_token}
use auth_service_go.Platform.{Platform, ok}
use auth_service_go.Platform.Keeps.{keeps_rules}
use auth_service_go.Platform.Brings.{
  Brings, Brings-fail, Brings-statement, Brings-wrapping, Brings-if, Brings-bind, Brings-then,
}
use auth_service_go.Postgres.Repositories.{revoke}
use auth_service_go.Postgres.Statements.{
  update_revoked_at, update_user_roles, update_attempts, update_consumed_at, token_by_id, revoked,
}
use auth_service_go.Postgres.Statements.Cases.{
  create_user-cases, create_refresh_token-cases, create_verification_code-cases,
}
use auth_service_go.Service.{Config, refresh_uc, logout_uc}
use auth_service_go.Service.Consistency.{IsConsistent, accepts_refresh_token-hash}
use auth_service_go.Service.Invariant.{IsInvariant, IsSteady}
use auth_service_go.Service.Invariant.Requests.{issue_token_pair_for-Keeps, read_rules}
use auth_service_go.Usecase.Sessions.{rotate, refresh_stored, logout_stored}

-- A session with this token hash is there, and none with it is in force.
pub record IsSpent (hash : Str) (d : Db) : Type 0 where
  pub known : exists (λ (t : RefreshTokenModel). str_eq t.token_hash hash) d.refresh_tokens ≡ true
  pub over :
      All
        (λ (t : RefreshTokenModel). t.token_hash ≡ hash → is_nil t.revoked_at ≡ false)
        d.refresh_tokens

-- The session with this token hash is the one with this id.
pub record IsSession (hash : Str) (id : Uuid) (d : Db) : Type 0 where
  pub known : exists (λ (t : RefreshTokenModel). str_eq t.token_hash hash) d.refresh_tokens ≡ true
  pub only : All (λ (t : RefreshTokenModel). t.token_hash ≡ hash → t.id ≡ id) d.refresh_tokens

other_id : (a b : ℕ) → (a == b) ≡ false → a ≢ b
other_id a b h = ground arith

module _ (hash : Str) where
  create_refresh_token-IsSpent :
      (m : RefreshTokenModel) (d : Db)
      → accepts_refresh_token d m ≡ true
      → IsSpent hash d
      → m.token_hash ≢ hash
  create_refresh_token-IsSpent m d accepted h e =
      let absent = accepts_refresh_token-hash m d accepted in
      cc (
        subst (λ k. exists (λ t. str_eq t.token_hash k) d.refresh_tokens ≡ false) e absent,
        h.known,
      )

  revoked-over :
      (id : Uuid) (t : Time) (d : Db)
      → All
          (λ (m : RefreshTokenModel).
            (m.id == id) ≡ false → m.token_hash ≡ hash → is_nil m.revoked_at ≡ false)
          d.refresh_tokens
      → exists (λ (m : RefreshTokenModel). str_eq m.token_hash hash) d.refresh_tokens ≡ true
      → IsSpent hash (update_revoked_at id t d).1
  unfolding update_revoked_at
  revoked-over id t d others known = record {
    known = exists-update_where _ _ (revoked t) d.refresh_tokens (λ m. refl) known;
    over =
        All-update_where _ _ (revoked t) d.refresh_tokens
          (All-mono _ _ (λ m o. (λ _ _. refl, o)) d.refresh_tokens others);
  }

  IsSpent-invariant : (p : Platform) → IsInvariant p (IsSpent hash)
  unfolding update_user_roles update_consumed_at
  IsSpent-invariant p = record {
    at_create_user = λ id email h name made t d k.
        create_user-cases (IsSpent hash) t d k _ λ _. record { known = k.known; over = k.over };
    at_update_user_roles = λ id t d k. record { known = k.known; over = k.over };
    at_create_refresh_token = λ m t d _ k.
        create_refresh_token-cases (IsSpent hash) t d k m λ accepted. record {
          known = exists-append _ d.refresh_tokens _ k.known;
          over =
              All-append _ d.refresh_tokens _ k.over
                (λ e. absurd (create_refresh_token-IsSpent m d accepted k e), tt);
        };
    at_update_revoked_at =
        λ id t d k. revoked-over id t d (All-mono _ _ (λ m o _. o) d.refresh_tokens k.over) k.known;
    at_create_verification_code = λ m t d _ _ k.
        create_verification_code-cases (IsSpent hash) t d k m
          λ _. record { known = k.known; over = k.over };
    at_update_consumed_at = λ id made t d k. record { known = k.known; over = k.over };
  }

  update_attempts-IsSpent :
      (id : Uuid) (t : Time) (d : Db) → IsSpent hash d → IsSpent hash (update_attempts id t d).1
  unfolding update_attempts
  update_attempts-IsSpent id t d k = record { known = k.known; over = k.over }

  pub IsSpent-steady : (p : Platform) → IsSteady p (IsSpent hash)
  IsSpent-steady p = record {
    rows = IsSpent-invariant p;
    at_update_attempts = update_attempts-IsSpent;
  }

  revoke-Brings :
      (p : Platform) (id : Uuid) → Brings p (IsSession hash id) (IsSpent hash) (revoke id)
  unfolding revoke
  revoke-Brings p id = Brings-wrapping _ _ (
      Brings-statement _ λ t d h.
        revoked-over id t d
          (All-mono _ _ (λ m only other same. absurd (other_id m.id id other (only same)))
            d.refresh_tokens h.only)
          h.known)

  rotate-Brings :
      (p : Platform) (cfg : Config) (t : RefreshToken)
      → Brings p (IsSession hash t.id) (IsSpent hash) (rotate (refresh_uc cfg) t)
  unfolding rotate
  rotate-Brings p cfg t = Brings-bind _ _ (search read_rules) λ u.
      Brings-then _ _ (Brings-wrapping _ _ (revoke-Brings p t.id))
        λ _. issue_token_pair_for-Keeps (IsSpent-invariant p) cfg u

  pub refresh_stored-Brings :
      (p : Platform) (cfg : Config) (t : RefreshToken)
      → Brings p (IsSession hash t.id) (IsSpent hash) (refresh_stored (refresh_uc cfg) (ok t))
  unfolding refresh_stored
  refresh_stored-Brings p cfg t =
      Brings-bind _ _ (search keeps_rules)
        λ at. Brings-if _ _ _ (Brings-fail _) (rotate-Brings p cfg t)

  pub logout_stored-Brings :
      (p : Platform) (cfg : Config) (t : RefreshToken)
      → Brings p (IsSession hash t.id) (IsSpent hash) (logout_stored (logout_uc cfg) (ok t))
  unfolding logout_stored
  logout_stored-Brings p cfg t = Brings-wrapping _ _ (revoke-Brings p t.id)

  -- The session that a query finds by its hash is the only one with it.
  pub found-IsSession :
      (m : RefreshTokenModel) (d : Db)
      → IsConsistent d
      → best token_by_id (λ t. str_eq t.token_hash hash) d.refresh_tokens ≡ some m
      → IsSession hash m.id d
  found-IsSession m d c e =
      let named =
        str_eq→eq _ _
          (best-passes token_by_id (λ t. str_eq t.token_hash hash) d.refresh_tokens m e) in
      record {
        known = best-exists _ _ d.refresh_tokens m e;
        only =
            All-mono _ _ (λ t same eq. ap (λ (r : RefreshTokenModel). r.id) (same (eq ∙ sym named)))
              d.refresh_tokens
              (best_unique _ _ (λ t. t.token_hash) d.refresh_tokens m c.token_hashes e);
      }
