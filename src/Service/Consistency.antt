-- ===== src/Service/Consistency.antt =====
-- The keys of the tables: no two rows share one, and every session belongs to an account.
use auth_service_go.Base.{
  ℕ, ◌≡◌, ◌≢◌, refl, Bool, true, false, List, [], ◌∷◌, ◌==◌, arith, inl, inr, Bool-cases,
}
use auth_service_go.Base.Lists.{
  All, All-append, All-mono, All-update_where, UniqueBy, exists, exists-All, exists-append,
  exists-update_where, update_where,
}
use auth_service_go.Base.Updates.{UniqueBy-append, UniqueBy-update_where}
use auth_service_go.Base.Strings.{Str, str_eq, str_eq_iff}
use auth_service_go.Domain.{Uuid, Time}
use auth_service_go.Database.{
  Db, UserModel, RefreshTokenModel, VerificationCodeModel, accepts_user, accepts_refresh_token,
  accepts_verification_code, empty_db,
}
use auth_service_go.Platform.{Platform, World}
use auth_service_go.Postgres.Statements.{
  create_user, update_user_roles, create_refresh_token, update_revoked_at, create_verification_code,
  update_attempts, update_consumed_at, grant, revoked, attempted, consumed,
}
use auth_service_go.Service.{Config, Request, serve}
use auth_service_go.Service.Invariant.{IsInvariant, IsSteady}
use auth_service_go.Service.Invariant.Requests.{serve-steady}

pub record IsConsistent (d : Db) : Type 0 where
  pub user_ids : UniqueBy (λ (u : UserModel). u.id) d.users
  pub user_emails : UniqueBy (λ (u : UserModel). u.email) d.users
  pub token_ids : UniqueBy (λ (t : RefreshTokenModel). t.id) d.refresh_tokens
  pub token_hashes : UniqueBy (λ (t : RefreshTokenModel). t.token_hash) d.refresh_tokens
  pub token_users :
      All
        (λ (t : RefreshTokenModel). exists (λ u. u.id == t.user_id) d.users ≡ true)
        d.refresh_tokens
  pub code_ids : UniqueBy (λ (c : VerificationCodeModel). c.id) d.verification_codes

eq_false→ne : (a b : ℕ) → (a == b) ≡ false → a ≢ b
eq_false→ne a b h = ground arith

pub str_eq_false→ne : (s t : Str) → str_eq s t ≡ false → s ≢ t
str_eq_false→ne s t h e = ground (arith, str_eq_iff s t)

-- An INSERT that the table takes repeats no id.
fresh_id {ℓ} :
    {A : Type ℓ} (key : A → ℕ) (k : ℕ) (xs : List A)
    → exists (λ x. key x == k) xs ≡ false
    → All (λ x. key x ≢ k) xs
fresh_id key k xs e =
    All-mono _ _ (λ x. eq_false→ne (key x) k) xs (exists-All (λ x. key x == k) xs e)

fresh_text {ℓ} :
    {A : Type ℓ} (key : A → Str) (k : Str) (xs : List A)
    → exists (λ x. str_eq (key x) k) xs ≡ false
    → All (λ x. key x ≢ k) xs
fresh_text key k xs e =
    All-mono _ _ (λ x. str_eq_false→ne (key x) k) xs (exists-All (λ x. str_eq (key x) k) xs e)

module _ (m : UserModel) (d : Db) (accepted : accepts_user d m ≡ true) where
  pub accepts_user-id : exists (λ u. u.id == m.id) d.users ≡ false
  unfolding accepts_user
  accepts_user-id = ground arith

  pub accepts_user-email : exists (λ u. str_eq u.email m.email) d.users ≡ false
  unfolding accepts_user
  accepts_user-email = ground arith

module _ (m : RefreshTokenModel) (d : Db) (accepted : accepts_refresh_token d m ≡ true) where
  pub accepts_refresh_token-id : exists (λ t. t.id == m.id) d.refresh_tokens ≡ false
  unfolding accepts_refresh_token
  accepts_refresh_token-id = ground arith

  pub accepts_refresh_token-hash :
      exists (λ t. str_eq t.token_hash m.token_hash) d.refresh_tokens ≡ false
  unfolding accepts_refresh_token
  accepts_refresh_token-hash = ground arith

  accepts_refresh_token-user : exists (λ u. u.id == m.user_id) d.users ≡ true
  unfolding accepts_refresh_token
  accepts_refresh_token-user = ground arith

pub accepts_verification_code-id :
    (m : VerificationCodeModel) (d : Db)
    → accepts_verification_code d m ≡ true
    → exists (λ c. c.id == m.id) d.verification_codes ≡ false
unfolding accepts_verification_code
accepts_verification_code-id m d accepted = ground arith

create_user-IsConsistent :
    (m : UserModel) (t : Time) (d : Db) → IsConsistent d → IsConsistent (create_user m t d).1
unfolding create_user
create_user-IsConsistent m t d h = elim (Bool-cases (accepts_user d m)) [
  | inr refused ↦ rw refused h
  | inl accepted ↦ rw accepted (record {
    user_ids =
        UniqueBy-append _ m d.users h.user_ids
          (fresh_id _ m.id d.users (accepts_user-id m d accepted));
    user_emails =
        UniqueBy-append _ m d.users h.user_emails
          (fresh_text _ m.email d.users (accepts_user-email m d accepted));
    token_ids = h.token_ids;
    token_hashes = h.token_hashes;
    token_users =
        All-mono _ _ (λ s e. exists-append (λ u. u.id == s.user_id) d.users (m ∷ []) e)
          d.refresh_tokens h.token_users;
    code_ids = h.code_ids;
  })
]

update_user_roles-IsConsistent :
    (id : Uuid) (role : Str) (t : Time) (d : Db)
    → IsConsistent d
    → IsConsistent (update_user_roles id role t d).1
unfolding update_user_roles
update_user_roles-IsConsistent id role t d h = record {
  user_ids = UniqueBy-update_where _ _ (grant role t) (λ u. refl) d.users h.user_ids;
  user_emails = UniqueBy-update_where _ _ (grant role t) (λ u. refl) d.users h.user_emails;
  token_ids = h.token_ids;
  token_hashes = h.token_hashes;
  token_users =
      All-mono _ _
        (λ s e. exists-update_where (λ u. u.id == s.user_id) _ (grant role t) d.users (λ u. refl) e)
        d.refresh_tokens h.token_users;
  code_ids = h.code_ids;
}

create_refresh_token-IsConsistent :
    (m : RefreshTokenModel) (t : Time) (d : Db)
    → IsConsistent d
    → IsConsistent (create_refresh_token m t d).1
unfolding create_refresh_token
create_refresh_token-IsConsistent m t d h = elim (Bool-cases (accepts_refresh_token d m)) [
  | inr refused ↦ rw refused h
  | inl accepted ↦ rw accepted (record {
    user_ids = h.user_ids;
    user_emails = h.user_emails;
    token_ids =
        UniqueBy-append _ m d.refresh_tokens h.token_ids
          (fresh_id _ m.id d.refresh_tokens (accepts_refresh_token-id m d accepted));
    token_hashes =
        UniqueBy-append _ m d.refresh_tokens h.token_hashes
          (fresh_text _ m.token_hash d.refresh_tokens (accepts_refresh_token-hash m d accepted));
    token_users =
        All-append _ d.refresh_tokens (m ∷ []) h.token_users
          (accepts_refresh_token-user m d accepted, tt);
    code_ids = h.code_ids;
  })
]

update_revoked_at-IsConsistent :
    (id : Uuid) (t : Time) (d : Db) → IsConsistent d → IsConsistent (update_revoked_at id t d).1
unfolding update_revoked_at
update_revoked_at-IsConsistent id t d h = record {
  user_ids = h.user_ids;
  user_emails = h.user_emails;
  token_ids = UniqueBy-update_where _ _ (revoked t) (λ m. refl) d.refresh_tokens h.token_ids;
  token_hashes = UniqueBy-update_where _ _ (revoked t) (λ m. refl) d.refresh_tokens h.token_hashes;
  token_users =
      All-update_where _ _ (revoked t) d.refresh_tokens
        (All-mono _ _ (λ m e. (λ _. e, λ _. e)) d.refresh_tokens h.token_users);
  code_ids = h.code_ids;
}

create_verification_code-IsConsistent :
    (m : VerificationCodeModel) (t : Time) (d : Db)
    → IsConsistent d
    → IsConsistent (create_verification_code m t d).1
unfolding create_verification_code
create_verification_code-IsConsistent m t d h = elim (Bool-cases (accepts_verification_code d m)) [
  | inr refused ↦ rw refused h
  | inl accepted ↦ rw accepted (record {
    user_ids = h.user_ids;
    user_emails = h.user_emails;
    token_ids = h.token_ids;
    token_hashes = h.token_hashes;
    token_users = h.token_users;
    code_ids =
        UniqueBy-append _ m d.verification_codes h.code_ids
          (fresh_id _ m.id d.verification_codes (accepts_verification_code-id m d accepted));
  })
]

update_codes-IsConsistent :
    (test : VerificationCodeModel → Bool) (change : VerificationCodeModel → VerificationCodeModel)
    → ((c : VerificationCodeModel) → (change c).id ≡ c.id)
    → (d : Db) → IsConsistent d
    → IsConsistent (record d { verification_codes = update_where test change d.verification_codes })
update_codes-IsConsistent test change same d h = record {
  user_ids = h.user_ids;
  user_emails = h.user_emails;
  token_ids = h.token_ids;
  token_hashes = h.token_hashes;
  token_users = h.token_users;
  code_ids = UniqueBy-update_where _ test change same d.verification_codes h.code_ids;
}

pub IsConsistent-invariant : (p : Platform) → IsInvariant p IsConsistent
unfolding update_consumed_at
IsConsistent-invariant p = record {
  at_create_user = λ id email h name made t d. create_user-IsConsistent _ t d;
  at_update_user_roles = λ id t d. update_user_roles-IsConsistent id _ t d;
  at_create_refresh_token = λ m t d _. create_refresh_token-IsConsistent m t d;
  at_update_revoked_at = update_revoked_at-IsConsistent;
  at_create_verification_code = λ m t d _ _. create_verification_code-IsConsistent m t d;
  at_update_consumed_at = λ id made t d. update_codes-IsConsistent _ (consumed made) (λ c. refl) d;
}

pub update_attempts-IsConsistent :
    (id : Uuid) (t : Time) (d : Db) → IsConsistent d → IsConsistent (update_attempts id t d).1
unfolding update_attempts
update_attempts-IsConsistent id t d = update_codes-IsConsistent _ attempted (λ c. refl) d

pub IsConsistent-steady : (p : Platform) → IsSteady p IsConsistent
IsConsistent-steady p = record {
  rows = IsConsistent-invariant p;
  at_update_attempts = update_attempts-IsConsistent;
}

-- Whatever requests are served, and whatever calls to the outside fail: ids, addresses and token
-- hashes stay unique, and every session belongs to an account.
pub serve-IsConsistent :
    (cfg : Config) (p : Platform) (requests : List Request) (w : World)
    → IsConsistent w.db
    → IsConsistent (serve cfg requests p w).db
serve-IsConsistent cfg p = serve-steady cfg (IsConsistent-steady p)

pub IsConsistent-empty : IsConsistent empty_db
IsConsistent-empty = record {
  user_ids = tt;
  user_emails = tt;
  token_ids = tt;
  token_hashes = tt;
  token_users = tt;
  code_ids = tt;
}
