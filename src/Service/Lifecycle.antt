-- ===== src/Service/Lifecycle.antt =====
-- The life of a refresh token as the tables tell it, against its state machine: unknown, in force,
-- closed, and never back.
use mathlib.Core.Path.{subst}
use auth_service_go.Base.{
  ◌≡◌, refl, sym, ◌∙◌, true, false, Option, none, some, List, inl, inr, Bool-cases, if◌then◌else◌,
  ◌≢◌, Option-cases,
}
use auth_service_go.Base.Lists.{
  All-best, All-mono, best, best-ne-none, best-exists, best-passes, best_unique, exists,
  exists-append, exists-update_where,
}
use auth_service_go.Base.Strings.{Str, str_eq, str_eq→eq}
use auth_service_go.Domain.{Uuid, Time, is_nil}
use auth_service_go.Database.{Db, RefreshTokenModel}
use auth_service_go.Platform.{Platform, World}
use auth_service_go.Postgres.Statements.{
  update_revoked_at, update_user_roles, update_attempts, update_consumed_at, token_by_id, revoked,
}
use auth_service_go.Postgres.Statements.Cases.{
  create_user-cases, create_refresh_token-cases, create_verification_code-cases,
}
use auth_service_go.Service.{Config, Request, serve}
use auth_service_go.Service.Consistency.{IsConsistent}
use auth_service_go.Service.Invariant.{IsInvariant, IsSteady}
use auth_service_go.Service.Invariant.Requests.{serve-steady}
use auth_service_go.Service.Sessions.{IsSpent, IsSpent-steady}

-- The abstract session.
pub data Status : Type 0 where
  unknown in_force closed : Status

pub data Step : Status → Status → Type 0 where
  issue : Step unknown in_force
  close : Step in_force closed

-- Steps one after another.
pub data Reaches : Status → Status → Type 0 where
  stays : {s : Status} → Reaches s s
  steps : {s t u : Status} → Step s t → Reaches t u → Reaches s u

-- The status of the session that a lookup by hash selects.
abbrev pub status_of_row : Option RefreshTokenModel → Status
status_of_row none = Status.unknown
status_of_row (some m) = if is_nil m.revoked_at then Status.in_force else Status.closed

abbrev pub status : Str → Db → Status
status hash d = status_of_row (best token_by_id (λ t. str_eq t.token_hash hash) d.refresh_tokens)

abbrev pub IsKnown : Str → Db → Type 0
IsKnown hash d =
    exists (λ (t : RefreshTokenModel). str_eq t.token_hash hash) d.refresh_tokens ≡ true

module _ (hash : Str) where
  IsKnown-invariant : (p : Platform) → IsInvariant p (IsKnown hash)
  unfolding update_user_roles update_consumed_at update_revoked_at
  IsKnown-invariant p = record {
    at_create_user = λ id email h name made t d k. create_user-cases (IsKnown hash) t d k _ λ _. k;
    at_update_user_roles = λ id t d k. k;
    at_create_refresh_token = λ m t d _ k.
        create_refresh_token-cases (IsKnown hash) t d k m λ _. exists-append _ d.refresh_tokens _ k;
    at_update_revoked_at =
        λ id t d k. exists-update_where _ _ (revoked t) d.refresh_tokens (λ m. refl) k;
    at_create_verification_code =
        λ m t d _ _ k. create_verification_code-cases (IsKnown hash) t d k m λ _. k;
    at_update_consumed_at = λ id made t d k. k;
  }

  update_attempts-IsKnown :
      (id : Uuid) (t : Time) (d : Db) → IsKnown hash d → IsKnown hash (update_attempts id t d).1
  unfolding update_attempts
  update_attempts-IsKnown id t d k = k

  pub IsKnown-steady : (p : Platform) → IsSteady p (IsKnown hash)
  IsKnown-steady p = record {
    rows = IsKnown-invariant p;
    at_update_attempts = update_attempts-IsKnown;
  }

-- From a row to a later one: a row stays, and closed stays closed.
rows-Reaches :
    (before after : Option RefreshTokenModel)
    → (before ≢ none → after ≢ none)
    → ((m m' : RefreshTokenModel)
        → before ≡ some m
        → after ≡ some m'
        → is_nil m.revoked_at ≡ false
        → is_nil m'.revoked_at ≡ false)
    → Reaches (status_of_row before) (status_of_row after)
rows-Reaches none none known over = stays
rows-Reaches none (some m) known over = elim (Bool-cases (is_nil m.revoked_at)) [
  | inl open_now ↦ rw open_now (steps issue stays)
  | inr closed_now ↦ rw closed_now (steps issue (steps close stays))
]
rows-Reaches (some m) none known over = absurd (known (λ e. cc) refl)
rows-Reaches (some m) (some m') known over = elim (Bool-cases (is_nil m.revoked_at)) [
  | inr was_closed ↦ rw (was_closed, over m m' refl refl was_closed) stays
  | inl was_open ↦ elim (Bool-cases (is_nil m'.revoked_at)) [
    | inl open_now ↦ rw (was_open, open_now) stays
    | inr closed_now ↦ rw (was_open, closed_now) (steps close stays)
  ]
]

-- The session that a lookup finds closed is spent.
closed-IsSpent :
    (hash : Str) (m : RefreshTokenModel) (d : Db)
    → IsConsistent d
    → best token_by_id (λ t. str_eq t.token_hash hash) d.refresh_tokens ≡ some m
    → is_nil m.revoked_at ≡ false
    → IsSpent hash d
closed-IsSpent hash m d c found over =
    let named =
      str_eq→eq _ _
        (best-passes token_by_id (λ t. str_eq t.token_hash hash) d.refresh_tokens m found) in
    record {
      known = best-exists _ _ d.refresh_tokens m found;
      over =
          All-mono _ _
            (λ t same eq.
              subst (λ (r : RefreshTokenModel). is_nil r.revoked_at ≡ false)
                (sym (same (eq ∙ sym named))) over)
            d.refresh_tokens
            (best_unique _ _ (λ t. t.token_hash) d.refresh_tokens m c.token_hashes found);
    }

-- The status between two states of the tables, where a known session stays known and a spent one
-- spent.
pub db-Reaches :
    (hash : Str) (d d' : Db)
    → IsConsistent d
    → (IsKnown hash d → IsKnown hash d')
    → (IsSpent hash d → IsSpent hash d')
    → Reaches (status hash d) (status hash d')
db-Reaches hash d d' c known spent =
    rows-Reaches _ _
      (λ there missing.
        elim (Option-cases (best token_by_id (λ t. str_eq t.token_hash hash) d.refresh_tokens)) [
          | inl absent ↦ there absent
          | inr (m, found) ↦
              best-ne-none _ _ d'.refresh_tokens (known (best-exists _ _ d.refresh_tokens m found))
                missing
        ])
      (λ m m' before after over.
        let (same, named) =
          All-best token_by_id (λ t. str_eq t.token_hash hash) _ d'.refresh_tokens m'
            (spent (closed-IsSpent hash m d c before over)).over after in
        same (str_eq→eq _ _ named))

-- If ids and token hashes are unique, then along any requests, whatever fails, the status of every
-- token hash goes along the steps unknown, in force, closed, and never back.
serve-Reaches :
    (cfg : Config) (p : Platform) (requests : List Request) (w : World) (hash : Str)
    → IsConsistent w.db
    → Reaches (status hash w.db) (status hash (serve cfg requests p w).db)
serve-Reaches cfg p requests w hash c =
    db-Reaches hash w.db _ c (serve-steady cfg (IsKnown-steady hash p) requests w)
      (serve-steady cfg (IsSpent-steady hash p) requests w)
