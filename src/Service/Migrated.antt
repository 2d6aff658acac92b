-- ===== src/Service/Migrated.antt =====
-- What the service finds when it first runs on the last version of the schema.
use auth_service_go.Base.{ℕ, ◌≡◌, refl, true, List, [], ◌∷◌, map, ◌==◌, inl, inr}
use auth_service_go.Base.Lists.{All, Any, UniqueBy, exists, All-mono}
use auth_service_go.Database.{Db, UserModel, RefreshTokenModel}
use auth_service_go.Database.Migrations.{
  OldUserModel, with_roles, up, add_roles, add_verification_codes,
}
use auth_service_go.Platform.{Platform, World}
use auth_service_go.Service.{Config, Request}
use auth_service_go.Service.Addresses.{HasAccount}
use auth_service_go.Service.Concurrent.Invariants.{
  interleaved, interleave-IsConsistent, interleave-HasKnownRoles, interleave-HasAccount,
}
use auth_service_go.Service.Consistency.{IsConsistent}
use auth_service_go.Service.Roles.{HasKnownRoles, IsRoleList}

-- What the constraints of the first two versions say of their rows.
pub record IsOldConsistent (users : List OldUserModel) (tokens : List RefreshTokenModel)
    : Type 0 where
  pub user_ids : UniqueBy (λ (u : OldUserModel). u.id) users
  pub user_emails : UniqueBy (λ (u : OldUserModel). u.email) users
  pub token_ids : UniqueBy (λ (t : RefreshTokenModel). t.id) tokens
  pub token_hashes : UniqueBy (λ (t : RefreshTokenModel). t.token_hash) tokens
  pub token_users :
      All (λ (t : RefreshTokenModel). exists (λ u. u.id == t.user_id) users ≡ true) tokens

All-map :
    {A B : Type 0} (P : B → Type 0) (f : A → B) (xs : List A)
    → All (λ a. P (f a)) xs
    → All P (map f xs)
All-map P f [] h = tt
All-map P f (x ∷ xs) h = (h.0, All-map P f xs h.1)

UniqueBy-map :
    {A B K : Type 0} (key : B → K) (f : A → B) (xs : List A)
    → UniqueBy (λ a. key (f a)) xs
    → UniqueBy key (map f xs)
UniqueBy-map key f [] h = tt
UniqueBy-map key f (x ∷ xs) h = (All-map _ f xs h.0, UniqueBy-map key f xs h.1)

exists-map :
    (id : ℕ) (users : List OldUserModel)
    → exists (λ (u : UserModel). u.id == id) (map with_roles users)
      ≡ exists (λ (u : OldUserModel). u.id == id) users
exists-map id [] = refl
exists-map id (u ∷ users) = rw (exists-map id users) refl

-- The tables after the last two migrations.
abbrev pub migrated : List OldUserModel → List RefreshTokenModel → Db
migrated users tokens = up add_verification_codes (up add_roles (users, tokens))

module _ (users : List OldUserModel) (tokens : List RefreshTokenModel)
    (old : IsOldConsistent users tokens) where
  migrated-IsConsistent : IsConsistent (migrated users tokens)
  migrated-IsConsistent = record {
    user_ids = UniqueBy-map _ with_roles users old.user_ids;
    user_emails = UniqueBy-map _ with_roles users old.user_emails;
    token_ids = old.token_ids;
    token_hashes = old.token_hashes;
    token_users = All-mono _ _ (λ t h. rw (exists-map t.user_id users) h) tokens old.token_users;
    code_ids = tt;
  }

  migrated-HasKnownRoles : HasKnownRoles (migrated users tokens)
  migrated-HasKnownRoles = All-map _ with_roles users (all_customers users)
    where
      all_customers : (us : List OldUserModel) → All (λ u. IsRoleList (with_roles u).roles) us
      all_customers [] = tt
      all_customers (u ∷ us) = (inl refl, all_customers us)

-- Each old row is there with its roles.
migrated-HasAccounts :
    (users : List OldUserModel)
    → All
        (λ u.
          Any
            (λ (v : UserModel).
              (v.id ≡ u.id)
              × (v.email ≡ u.email)
              × (v.password_hash ≡ u.password_hash)
              × (v.name ≡ u.name))
            (map with_roles users))
        users
migrated-HasAccounts [] = tt
migrated-HasAccounts (u ∷ users) =
    (inl (refl, refl, refl, refl), All-mono _ _ (λ v h. inr h) users (migrated-HasAccounts users))

-- The world of the service then, at some number of calls to the outside.
abbrev pub first_world : List OldUserModel → List RefreshTokenModel → ℕ → World
first_world users tokens calls = record { db = migrated users tokens; calls = calls; outbox = [] }

-- If the rows of accounts and sessions of the version without roles meet its constraints, then after
-- the last two migrations and any turns of any requests, in whatever order the calls come and
-- whatever fails, ids, addresses and token hashes are unique and every session belongs to an account,
-- every account's roles are CUSTOMER alone or CUSTOMER and SELLER, and every old account is there with
-- its id, address, password hash and name.
pub migrated_then_served :
    (cfg : Config) (p : Platform) (users : List OldUserModel) (tokens : List RefreshTokenModel)
    (schedule : List ℕ) (requests : List Request) (calls : ℕ)
    → IsOldConsistent users tokens
    → let d = (interleaved cfg p schedule requests (first_world users tokens calls)).db in
      IsConsistent d
      × HasKnownRoles d
      × All (λ u. HasAccount u.id u.email u.password_hash u.name d) users
migrated_then_served cfg p users tokens schedule requests calls old =
    let w = first_world users tokens calls in
    (
      interleave-IsConsistent cfg p schedule requests w (migrated-IsConsistent users tokens old),
      interleave-HasKnownRoles cfg p schedule requests w (migrated-HasKnownRoles users tokens old),
      All-mono _ _
          (λ u h.
            interleave-HasAccount cfg p schedule requests w u.id u.email u.password_hash u.name h)
          users (migrated-HasAccounts users),
    )
