-- ===== src/Service/Registration.antt =====
-- Registration: what a call writes, and when.
use native.Mathlib.Numerals.{add-one}
use auth_service_go.Base.{
  ℕ, if◌then◌else◌, ◌+◌, ◌≡◌, refl, ap, ◌⊎◌, Bool, true, false, some, List, [], ◌∷◌, ◌++◌, arith,
  inl, inr, Bool-cases, Option-cases,
}
use auth_service_go.Base.Lists.{exists, length, length-concat}
use auth_service_go.Base.Strings.{Str, utf8, str_eq}
use auth_service_go.Domain.{Sentinel, sentinel, User, Error, role_customer}
use auth_service_go.Database.{Db, accepts_user}
use auth_service_go.Platform.{Platform, World, Result, ok, err, fail, ◌>>=◌}
use auth_service_go.Postgres.Models.{from_domain_user}
use auth_service_go.Postgres.Repositories.{exists_by_email, insert_user}
use auth_service_go.Postgres.Repositories.Queries.{called, exists_by_email_lem}
use auth_service_go.Postgres.Statements.{create_user}
use auth_service_go.Service.{Config, register_uc, bulk_create_uc}
use auth_service_go.Usecase.Accounts.{
  RegisterInput, register, create_account, normalize_email, new_user, BulkCreateItem,
  BulkCreateResult, record_outcome, skip_reason, register_input, create_from, create_users_bulk,
}

-- Whether an account with the normalised address is there.
abbrev pub is_taken : Platform → World → Str → Bool
is_taken p w email = exists (λ u. str_eq u.email (normalize_email p email)) w.db.users

-- The account that a registration returned is the one row that it added.
pub record IsRegistered (cfg : Config) (p : Platform) (i : RegisterInput) (w w' : World) (u : User)
    : Type 0 where
  pub was_free : is_taken p w i.email ≡ false
  pub added : w'.db ≡ record w.db { users = w.db.users ++ from_domain_user u ∷ [] }
  pub address : u.email ≡ normalize_email p i.email
  pub customer : u.roles ≡ role_customer ∷ []
  pub named : u.name ≡ i.name
  pub hashed :
      (hash : Str) × (u.password_hash ≡ some hash)
      × (cfg.bcrypt.generate_from_password (w.calls + 1) (utf8 i.password) ≡ some hash)

-- How a registration from `w` may end.
abbrev pub Outcome : Config → Platform → RegisterInput → World → Result User × World → Type 0
Outcome cfg p i w r =
    ((u : User) × (r.0 ≡ ok u) × IsRegistered cfg p i w r.1 u)
    ⊎ ((e : Error) × (r.0 ≡ err e) × (r.1.db ≡ w.db))

module _ (cfg : Config) (p : Platform) (i : RegisterInput) (w : World) where
  create_account-Outcome :
      is_taken p w i.email ≡ false
      → Outcome cfg p i w
          (create_account (register_uc cfg) i (normalize_email p i.email) p (called w))
  unfolding create_account insert_user create_user ◌>>=◌
  create_account-Outcome free =
      elim (Option-cases (cfg.bcrypt.generate_from_password (w.calls + 1) (utf8 i.password))) [
        | inl no_hash ↦ inr (rw no_hash (_, refl, refl))
        | inr (hash, made) ↦ rw made (elim (Bool-cases (p.fails (w.calls + 1 + 1 + 1 + 1))) [
          | inl failed ↦ rw failed (inr (_, refl, refl))
          | inr works ↦
              rw works
                (elim (Bool-cases (
                  accepts_user w.db (
                    from_domain_user (
                      new_user (p.uuid (w.calls + 1 + 1 + 1)) (normalize_email p i.email)
                        (some hash) i.name (p.time (w.calls + 1 + 1)))))) [
                          | inr no_room ↦ rw no_room (inr (_, refl, refl))
                          | inl accepted ↦ rw accepted (
                              inl (
                                _,
                                refl,
                                record {
                                  was_free = free;
                                  added = refl;
                                  address = refl;
                                  customer = refl;
                                  named = refl;
                                  hashed = (hash, refl, made);
                                },
                              ))
                        ])
        ])
      ]

  after_lookup :
      (b : Bool)
      → is_taken p w i.email ≡ b
      → Outcome cfg p i w (
          (if b
              then fail (sentinel Sentinel.email_already_exists)
              else create_account (register_uc cfg) i (normalize_email p i.email))
            p
            (called w))
  unfolding ◌>>=◌
  after_lookup true taken = inr (_, refl, refl)
  after_lookup false free = create_account-Outcome free

-- A registration adds exactly one account or changes no table. If it returns a user, no account had
-- the normalised address, and the new row is that user: the normalised address, the given name,
-- CUSTOMER as its only role, and the hash that bcrypt made of the given password.
pub register_all_or_nothing :
    (cfg : Config) (p : Platform) (i : RegisterInput) (w : World)
    → Outcome cfg p i w (register (register_uc cfg) i p w)
unfolding register ◌>>=◌
register_all_or_nothing cfg p i w = elim (Bool-cases (p.fails w.calls)) [
  | inl failed ↦ unfold exists_by_email in rw failed (inr (_, refl, refl))
  | inr works ↦
      rw (exists_by_email_lem p w (normalize_email p i.email) works)
        (after_lookup cfg p i w (is_taken p w i.email) refl)
]

-- Where the lookup does not fail, an address whose normal form some account has is refused as
-- ErrEmailAlreadyExists, and nothing but the lookup is done: no password is hashed.
register_duplicate :
    (cfg : Config) (p : Platform) (i : RegisterInput) (w : World)
    → p.fails w.calls ≡ false
    → is_taken p w i.email ≡ true
    → register (register_uc cfg) i p w ≡ (err (sentinel Sentinel.email_already_exists), called w)
unfolding register ◌>>=◌
register_duplicate cfg p i w works taken =
    rw (exists_by_email_lem p w (normalize_email p i.email) works) (rw taken refl)

-- What a batch from `result` and `w` ends with: each item created or skipped, and an account more
-- for each that was created.
record IsTally (result : BulkCreateResult) (items : ℕ) (w : World) (done : BulkCreateResult)
    (w' : World) : Type 0 where
  pub every_item :
      length done.created + length done.skipped
      ≡ length result.created + length result.skipped + items
  pub accounts :
      length w'.db.users + length result.created ≡ length w.db.users + length done.created

module _ (cfg : Config) (p : Platform) (result : BulkCreateResult) (item : BulkCreateItem) where
  -- One more item before a batch.
  step-IsTally :
      (w w1 : World) (r : Result User) (n : ℕ) (done : BulkCreateResult) (w' : World)
      → Outcome cfg p (register_input item) w (r, w1)
      → IsTally (record_outcome result item r) n w1 done w'
      → IsTally result (n + 1) w done w'
  step-IsTally w w1 (ok u) n done w' (inr (e, failed, same)) k = cc
  step-IsTally w w1 (err e) n done w' (inl (u, made, one)) k = cc
  step-IsTally w w1 (err e) n done w' (inr (_, failed, same)) k = record {
    every_item = omega (
      arith,
      k.every_item,
      length-concat result.skipped (record { email = item.email; reason = skip_reason e }),
    );
    accounts = omega (arith, k.accounts, ap (λ (d : Db). length d.users) same);
  }
  step-IsTally w w1 (ok v) n done w' (inl (u, made, one)) k = record {
    every_item =
        omega (
          arith,
          k.every_item,
          length-concat result.created (record { id = v.id; email = v.email }),
        );
    accounts = omega (
      arith,
      k.accounts,
      length-concat result.created (record { id = v.id; email = v.email }),
      ap (λ (d : Db). length d.users) one.added,
      length-concat w.db.users (from_domain_user u),
    );
  }

create_from-IsTally :
    (cfg : Config) (p : Platform) (result : BulkCreateResult) (items : List BulkCreateItem)
    (w : World)
    → let r = create_from (bulk_create_uc cfg) result items p w in
      (done : BulkCreateResult) × (r.0 ≡ ok done) × IsTally result (length items) w done r.1
unfolding create_from ◌>>=◌
create_from-IsTally cfg p result [] w =
    (result, refl, record { every_item = omega arith; accounts = refl })
create_from-IsTally cfg p result (item ∷ items) w =
    let (r, w1) = register (register_uc cfg) (register_input item) p w in
    let (done, e, k) = create_from-IsTally cfg p (record_outcome result item r) items w1 in
    (
      done,
      e,
      rw (← add-one) (
          step-IsTally cfg p result item w w1 r (length items) done _
            (register_all_or_nothing cfg p (register_input item) w) k),
    )

-- A batch never fails: it answers with lists of created and skipped users that together have one
-- entry for each item, and the number of accounts grows by the number of created users.
pub create_users_bulk_counts :
    (cfg : Config) (p : Platform) (items : List BulkCreateItem) (w : World)
    → let r = create_users_bulk (bulk_create_uc cfg) items p w in
      (done : BulkCreateResult) × (r.0 ≡ ok done)
      × (length done.created + length done.skipped ≡ length items)
      × (length r.1.db.users ≡ length w.db.users + length done.created)
unfolding create_users_bulk
create_users_bulk_counts cfg p items w =
    let (done, e, k) = create_from-IsTally cfg p (record { created = []; skipped = [] }) items w in
    (done, e, omega (arith, k.every_item), omega (arith, k.accounts))
