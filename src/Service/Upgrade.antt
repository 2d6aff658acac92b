-- ===== src/Service/Upgrade.antt =====
-- The SELLER upgrade: what it writes, and that asking twice is asking once.
use mathlib.Core.Option
use mathlib.Core.Path.{subst}
use auth_service_go.Base.{
  ◌≡◌, ◌+◌, refl, ap, ◌⊎◌, Bool, true, Option, none, some, List, [], ◌∷◌, ◌==◌, inl, inr,
  Bool-cases, Option-cases,
}
use auth_service_go.Base.Lists.{
  best, best-none, best-passes, update_where, exists, exists-append_one,
}
use auth_service_go.Base.Updates.{best-update_where, update_where-none, updated}
use auth_service_go.Base.Strings.{Str, codes, str_eq, str_eq→eq, str_eq_refl}
use auth_service_go.Domain.{Uuid, Time, User, Error, role_seller}
use auth_service_go.Database.{UserModel}
use auth_service_go.Platform.{Platform, World, Result, ok, err, ◌>>=◌}
use auth_service_go.Postgres.Models.{to_domain_user}
use auth_service_go.Postgres.Repositories.{affected, add_role as add_role_row}
use auth_service_go.Postgres.Statements.{update_user_roles, grant, with_role, user_by_id}
use auth_service_go.Service.{Config, add_role_uc}
use auth_service_go.Service.Granted.{
  IsGranted, IsAnswered, RowByRow, grant-IsGranted, update_where-RowByRow,
}
use auth_service_go.Usecase.Accounts.{AddRoleInput, add_role}

abbrev pub row_of : World → Uuid → Option UserModel
row_of w id = best user_by_id (λ u. u.id == id) w.db.users

-- An upgrade that returned a user: it was one to SELLER, the account was there, and its row has the
-- role, the time of the upgrade and what it had, and is what was returned. Row by row, that is what
-- was written.
pub record IsUpgraded (p : Platform) (i : AddRoleInput) (w w' : World) (u : User) : Type 0 where
  pub to_seller : i.role ≡ codes "SELLER"
  pub row :
      (m : UserModel) × (m' : UserModel) × (row_of w i.user_id ≡ some m)
      × (row_of w' i.user_id ≡ some m')
      × IsGranted (p.time w.calls) m m'
      × IsAnswered u m'
  pub rows : RowByRow i.user_id (p.time w.calls) w.db.users w'.db.users
  pub same_tokens : w'.db.refresh_tokens ≡ w.db.refresh_tokens
  pub same_codes : w'.db.verification_codes ≡ w.db.verification_codes
  pub written : w'.db ≡ record w.db {
    users = update_where (λ x. x.id == i.user_id) (grant role_seller (p.time w.calls)) w.db.users;
  }

module _ (id : Uuid) (t : Time) where
  abbrev hit : UserModel → Bool
  hit u = u.id == id

  id-updated : (x : UserModel) → (updated hit (grant role_seller t) x).id ≡ x.id
  id-updated x = elim (Bool-cases (x.id == id)) [ inl e ↦ rw e | inr e ↦ rw e ]

  updated_row :
      (us : List UserModel)
      → best user_by_id hit (update_where hit (grant role_seller t) us)
        ≡ Option.map (updated hit (grant role_seller t)) (best user_by_id hit us)
  updated_row =
      best-update_where hit (grant role_seller t) user_by_id hit
        (λ x. ap (λ k. k == id) (id-updated x)) (λ x y. rw (id-updated x, id-updated y) refl)

abbrev pub Outcome : Platform → AddRoleInput → World → Result User × World → Type 0
Outcome p i w r =
    ((u : User) × (r.0 ≡ ok u) × IsUpgraded p i w r.1 u)
    ⊎ ((e : Error) × (r.0 ≡ err e) × (r.1.db ≡ w.db))

-- The not-found case of the update.
missing_row :
    (id : Uuid) (t : Time) (us : List UserModel)
    → best user_by_id (hit id t) us ≡ none
    → update_where (hit id t) (grant role_seller t) us ≡ us
missing_row id t us none_there =
    update_where-none (hit id t) (grant role_seller t) us
      (best-none user_by_id (hit id t) us none_there)

module _ (p : Platform) (i : AddRoleInput) (w : World) where
  found_hit : (m : UserModel) → row_of w i.user_id ≡ some m → (m.id == i.user_id) ≡ true
  found_hit m there = best-passes user_by_id (λ x. x.id == i.user_id) w.db.users m there

  abbrev upgraded_world : World
  upgraded_world = record w {
    calls = w.calls + 1;
    db = record w.db {
      users = update_where (λ x. x.id == i.user_id) (grant role_seller (p.time w.calls)) w.db.users;
    };
  }

  abbrev granted : UserModel → UserModel
  granted m = grant role_seller (p.time w.calls) m

  upgraded :
      (m : UserModel)
      → i.role ≡ role_seller
      → row_of w i.user_id ≡ some m
      → IsUpgraded p i w upgraded_world (to_domain_user (granted m))
  upgraded m to_seller there = record {
    to_seller = to_seller;
    row = (
      m,
      granted m,
      there,
      rw (updated_row i.user_id (p.time w.calls) w.db.users, there, found_hit m there),
      grant-IsGranted (p.time w.calls) m,
      record {
        id = refl;
        email = refl;
        password_hash = refl;
        name = refl;
        roles = refl;
        created_at = refl;
        updated_at = refl;
      },
    );
    rows = update_where-RowByRow i.user_id (p.time w.calls) w.db.users;
    same_tokens = refl;
    same_codes = refl;
    written = refl;
  }

module _ (cfg : Config) (p : Platform) (i : AddRoleInput) (w : World) where
  seller-Outcome : i.role ≡ role_seller → Outcome p i w (add_role (add_role_uc cfg) i p w)
  unfolding add_role add_role_row affected update_user_roles ◌>>=◌
  seller-Outcome to_seller =
      rw (to_seller, str_eq_refl role_seller)
        (elim (Bool-cases (p.fails w.calls)) [
          | inl failed ↦ rw failed (inr (_, refl, refl))
          | inr works ↦
              rw (works, updated_row i.user_id (p.time w.calls) w.db.users)
                (elim (Option-cases (row_of w i.user_id)) [
                  | inl absent ↦
                      rw (absent, missing_row i.user_id (p.time w.calls) w.db.users absent)
                        (inr (_, refl, refl))
                  | inr (m, there) ↦
                      rw (there, found_hit p i w m there)
                        (inl (
                          _,
                          refl,
                          upgraded p (record { user_id = i.user_id; role = role_seller }) w m refl
                              there,
                        ))
                ])
        ])

-- An upgrade either returns a user or fails and changes no table. If it returns a user, it was one to
-- SELLER and the account was there; its row, which is what is returned, keeps all but its roles and
-- its time of update, which is that of the upgrade, and its roles are the same if SELLER was among
-- them, and have SELLER added if it was not; every other row of every table is as it was.
pub add_role-Outcome :
    (cfg : Config) (p : Platform) (i : AddRoleInput) (w : World)
    → Outcome p i w (add_role (add_role_uc cfg) i p w)
unfolding add_role ◌>>=◌
add_role-Outcome cfg p i w = elim (Bool-cases (str_eq i.role role_seller)) [
  | inl e ↦ seller-Outcome cfg p i w (str_eq→eq _ _ e)
  | inr e ↦ rw e (inr (_, refl, refl))
]

with_seller_twice :
    (r : List Str) → with_role role_seller (with_role role_seller r) ≡ with_role role_seller r
with_seller_twice r = elim (Bool-cases (exists (λ x. str_eq x role_seller) r)) [
  | inl e ↦ rw (e, e)
  | inr e ↦
      rw (e, exists-append_one (λ x. str_eq x role_seller) r role_seller (str_eq_refl role_seller))
]

grant_twice :
    (id : Uuid) (t t' : Time) (us : List UserModel)
    → update_where
        (hit id t')
        (grant role_seller t')
        (update_where (hit id t) (grant role_seller t) us)
      ≡ update_where (hit id t') (grant role_seller t') us
grant_twice id t t' [] = refl
grant_twice id t t' (u ∷ us) = elim (Bool-cases (u.id == id)) [
  | inl e ↦ rw (e, e, with_seller_twice u.roles, grant_twice id t t' us)
  | inr e ↦ rw (e, e, grant_twice id t t' us)
]

-- After two upgrades in a row that each return a user, the tables are those of the start with SELLER
-- granted once, at the time of the second: the role is not added twice.
add_role_twice :
    (cfg : Config) (p : Platform) (i : AddRoleInput) (w w' : World) (u v : User)
    → add_role (add_role_uc cfg) i p w ≡ (ok u, w')
    → (add_role (add_role_uc cfg) i p w').0 ≡ ok v
    → (add_role (add_role_uc cfg) i p w').1.db ≡ record w.db {
      users =
          update_where (λ x. x.id == i.user_id) (grant role_seller (p.time w'.calls)) w.db.users;
    }
add_role_twice cfg p i w w' u v hu hv =
    go (ok u) w' (add_role (add_role_uc cfg) i p w')
      (subst (Outcome p i w) hu (add_role-Outcome cfg p i w)) (add_role-Outcome cfg p i w') refl hv
  where
    go :
        (r : Result User) (a : World) (b : Result User × World)
        → Outcome p i w (r, a)
        → Outcome p i a b
        → r ≡ ok u
        → b.0 ≡ ok v
        → b.1.db ≡ record w.db {
          users =
              update_where (λ x. x.id == i.user_id) (grant role_seller (p.time a.calls)) w.db.users;
        }
    go r a b (inr (e, failed, same)) o q h = cc
    go r a b (inl _) (inr (e, failed, same)) q h = cc
    go r a b (inl (x, xe, one)) (inl (y, ye, two)) q h = rw (
      two.written,
      one.written,
      grant_twice i.user_id (p.time w.calls) (p.time a.calls) w.db.users,
    )
