-- ===== src/Service/Roles.antt =====
-- Which roles an account can hold.
use auth_service_go.Base.{◌≡◌, refl, ◌⊎◌, List, [], ◌∷◌, ◌==◌, inl, inr}
use auth_service_go.Base.Lists.{All, All-append, All-mono, All-update_where, update_where}
use auth_service_go.Base.Strings.{Str, str_eq}
use auth_service_go.Domain.{Uuid, Time, role_customer, role_seller}
use auth_service_go.Database.{Db, UserModel}
use auth_service_go.Platform.{Platform, World}
use auth_service_go.Postgres.Statements.{
  update_user_roles, update_revoked_at, update_attempts, update_consumed_at, with_role, grant,
}
use auth_service_go.Postgres.Statements.Cases.{
  create_user-cases, create_refresh_token-cases, create_verification_code-cases,
}
use auth_service_go.Service.{Config, Request, serve}
use auth_service_go.Service.Invariant.{IsInvariant, IsSteady}
use auth_service_go.Service.Invariant.Requests.{serve-steady}

-- CUSTOMER from the start, and SELLER perhaps, once.
abbrev pub IsRoleList : List Str → Type 0
IsRoleList roles = (roles ≡ role_customer ∷ []) ⊎ (roles ≡ role_customer ∷ role_seller ∷ [])

abbrev pub HasKnownRoles : Db → Type 0
HasKnownRoles d = All (λ (u : UserModel). IsRoleList u.roles) d.users

with_role-IsRoleList :
    (roles : List Str) → IsRoleList roles → IsRoleList (with_role role_seller roles)
unfolding str_eq
with_role-IsRoleList roles (inl e) = inr (rw e)
with_role-IsRoleList roles (inr e) = inr (rw e)

grant-IsRoleList :
    (id : Uuid) (t : Time) (us : List UserModel)
    → All (λ u. IsRoleList u.roles) us
    → All (λ u. IsRoleList u.roles) (update_where (λ u. u.id == id) (grant role_seller t) us)
grant-IsRoleList id t us k =
    All-update_where _ _ (grant role_seller t) us
      (All-mono _ _ (λ u r. (λ _. with_role-IsRoleList u.roles r, λ _. r)) us k)

HasKnownRoles-invariant : (p : Platform) → IsInvariant p HasKnownRoles
unfolding update_user_roles update_revoked_at update_consumed_at
HasKnownRoles-invariant p = record {
  at_create_user = λ id email h name made t d k.
      create_user-cases HasKnownRoles t d k _ λ _. All-append _ d.users _ k (inl refl, tt);
  at_update_user_roles = λ id t d. grant-IsRoleList id t d.users;
  at_create_refresh_token = λ m t d _ k. create_refresh_token-cases HasKnownRoles t d k m λ _. k;
  at_update_revoked_at = λ id t d k. k;
  at_create_verification_code =
      λ m t d _ _ k. create_verification_code-cases HasKnownRoles t d k m λ _. k;
  at_update_consumed_at = λ id made t d k. k;
}

update_attempts-HasKnownRoles :
    (id : Uuid) (t : Time) (d : Db) → HasKnownRoles d → HasKnownRoles (update_attempts id t d).1
unfolding update_attempts
update_attempts-HasKnownRoles id t d k = k

pub HasKnownRoles-steady : (p : Platform) → IsSteady p HasKnownRoles
HasKnownRoles-steady p = record {
  rows = HasKnownRoles-invariant p;
  at_update_attempts = update_attempts-HasKnownRoles;
}

-- If each account's roles are CUSTOMER alone or CUSTOMER and SELLER, in this order and once each,
-- then they are so after any requests, whatever calls to the outside fail.
serve-HasKnownRoles :
    (cfg : Config) (p : Platform) (requests : List Request) (w : World)
    → HasKnownRoles w.db
    → HasKnownRoles (serve cfg requests p w).db
serve-HasKnownRoles cfg p = serve-steady cfg (HasKnownRoles-steady p)
