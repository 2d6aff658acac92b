-- ===== src/Service/Granted.antt =====
-- The rows before and after SELLER is granted to an account, spelled out.
use auth_service_go.Base.{
  ◌≡◌, ◌≢◌, ◌⊎◌, refl, true, false, List, [], ◌∷◌, ◌++◌, ◌==◌, inl, inr, Bool-cases, arith,
}
use auth_service_go.Base.Lists.{Any, exists, Any-exists, Any-append_right, update_where}
use auth_service_go.Base.Strings.{Str, codes, str_eq, str_eq→eq, str_eq_refl}
use auth_service_go.Domain.{Uuid, Time, User, role_seller}
use auth_service_go.Database.{UserModel}
use auth_service_go.Postgres.Statements.{grant, with_role}

-- The text SELLER is in the list.
abbrev HasSeller : List Str → Type 0
HasSeller roles = Any (λ r. r ≡ codes "SELLER") roles

-- The same roles if SELLER was there, and SELLER after them if it was not.
abbrev GainsSeller : List Str → List Str → Type 0
GainsSeller before after =
    (HasSeller before × (after ≡ before))
    ⊎ ((¬ HasSeller before) × (after ≡ before ++ codes "SELLER" ∷ []))

-- A row before and after an upgrade at a time.
pub record IsGranted (t : Time) (m m' : UserModel) : Type 0 where
  pub same_id : m'.id ≡ m.id
  pub same_email : m'.email ≡ m.email
  pub same_hash : m'.password_hash ≡ m.password_hash
  pub same_name : m'.name ≡ m.name
  pub same_created_at : m'.created_at ≡ m.created_at
  pub updated_now : m'.updated_at ≡ t
  pub gains : GainsSeller m.roles m'.roles
  pub is_seller : HasSeller m'.roles

-- The fields of a row, as they are answered.
pub record IsAnswered (u : User) (m : UserModel) : Type 0 where
  pub id : u.id ≡ m.id
  pub email : u.email ≡ m.email
  pub password_hash : u.password_hash ≡ m.password_hash
  pub name : u.name ≡ m.name
  pub roles : u.roles ≡ m.roles
  pub created_at : u.created_at ≡ m.created_at
  pub updated_at : u.updated_at ≡ m.updated_at

-- The rows in order: the account's is upgraded, and every other one is as it was.
abbrev pub RowByRow : Uuid → Time → List UserModel → List UserModel → Type 0
RowByRow id t [] [] = Unit
RowByRow id t [] (_ ∷ _) = ⊥
RowByRow id t (_ ∷ _) [] = ⊥
RowByRow id t (m ∷ before) (m' ∷ after) =
    (((m.id ≡ id) × IsGranted t m m') ⊎ ((m.id ≢ id) × (m' ≡ m))) × RowByRow id t before after

exists-HasSeller :
    (roles : List Str) → exists (λ r. str_eq r (codes "SELLER")) roles ≡ true → HasSeller roles
exists-HasSeller [] h = cc
exists-HasSeller (r ∷ roles) h = elim (Bool-cases (str_eq r (codes "SELLER"))) [
  | inl e ↦ inl (str_eq→eq _ _ e)
  | inr e ↦ inr (exists-HasSeller roles (rw e at h))
]

HasSeller-exists :
    (roles : List Str) → HasSeller roles → exists (λ r. str_eq r (codes "SELLER")) roles ≡ true
HasSeller-exists roles =
    Any-exists (λ r. r ≡ codes "SELLER") (λ r. str_eq r (codes "SELLER"))
      (λ r e. rw e (str_eq_refl (codes "SELLER"))) roles

with_role-GainsSeller :
    (roles : List Str)
    → GainsSeller roles (with_role role_seller roles) × HasSeller (with_role role_seller roles)
with_role-GainsSeller roles = elim (Bool-cases (exists (λ r. str_eq r (codes "SELLER")) roles)) [
  | inl there ↦ let has = exists-HasSeller roles there in rw there (inl (has, refl), has)
  | inr missing ↦
      rw missing
        (inr (λ has. cc (missing, HasSeller-exists roles has), refl), Any-append_right _ roles refl)
]

pub grant-IsGranted : (t : Time) (m : UserModel) → IsGranted t m (grant role_seller t m)
grant-IsGranted t m =
    let (gains, is_seller) = with_role-GainsSeller m.roles in
    record {
      same_id = refl;
      same_email = refl;
      same_hash = refl;
      same_name = refl;
      same_created_at = refl;
      updated_now = refl;
      gains = gains;
      is_seller = is_seller;
    }

different : (a b : Uuid) → (a == b) ≡ false → a ≢ b
different a b h = ground arith

the_same : (a b : Uuid) → (a == b) ≡ true → a ≡ b
the_same a b h = ground arith

-- The update, row by row.
pub update_where-RowByRow :
    (id : Uuid) (t : Time) (us : List UserModel)
    → RowByRow id t us (update_where (λ u. u.id == id) (grant role_seller t) us)
update_where-RowByRow id t [] = tt
update_where-RowByRow id t (u ∷ us) = (
  elim (Bool-cases (u.id == id)) [
    | inl e ↦ rw e (inl (the_same u.id id e, grant-IsGranted t u))
    | inr e ↦ rw e (inr (different u.id id e, refl))
  ],
  update_where-RowByRow id t us,
)
