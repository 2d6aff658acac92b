-- ===== src/Service/Return.antt =====
-- An account that was registered can log in with its password, whatever was asked of the service
-- in between.
use mathlib.Core.Path.{subst}
use auth_service_go.Base.{
  ◌+◌, ◌≡◌, sym, ap, ◌∙◌, true, Option, some, List, [], ◌∷◌, inl, inr, Option-cases, ℕ,
}
use auth_service_go.Base.Lists.{
  Any-All, Any-append_right, Any-exists, best, best-ne-none, best-passes, best_unique,
}
use auth_service_go.Base.Strings.{Str, Bytes, str_eq, str_eq→eq, str_eq_refl, utf8}
use auth_service_go.Domain.{User, Uuid}
use auth_service_go.Database.{Db, UserModel}
use auth_service_go.Platform.{Platform, World, Result, ok, err, ◌>>=◌}
use auth_service_go.Postgres.Models.{to_domain_user}
use auth_service_go.Postgres.Repositories.Queries.{called}
use auth_service_go.Postgres.Statements.{user_by_id}
use auth_service_go.Service.{
  Config, Request, register_request, perform, serve, login_uc, register_uc,
}
use auth_service_go.Service.Addresses.{HasAccount, HasAccount-steady}
use auth_service_go.Platform.Process.{interleave}
use auth_service_go.Service.Concurrent.{pool, under_way-steady}
use auth_service_go.Service.Concurrent.Invariants.{interleave-IsConsistent}
use auth_service_go.Service.Consistency.{IsConsistent, IsConsistent-steady, serve-IsConsistent}
use auth_service_go.Service.Credentials.{account_for, opens, login_lem}
use auth_service_go.Service.Issue.{
  IsCalm, IsFresh, Issues, account-exists, issue_token_pair_for-Issues,
}
use auth_service_go.Service.Registration.{Outcome, register_all_or_nothing}
use auth_service_go.Usecase.Accounts.{
  LoginInput, RegisterInput, login, login_user, normalize_email, register,
}

-- A login whose password opens the account of the address returns a pair.
login-Issues :
    (cfg : Config) (p : Platform) (w : World) (i : LoginInput) (u : UserModel)
    → IsCalm cfg p
    → IsFresh p (w.calls + 1) w.db
    → account_for p w i.email ≡ some u
    → opens cfg i.password (some u) ≡ true
    → Issues cfg p (called w) u.id (login (login_uc cfg) i p w)
unfolding login_user ◌>>=◌
login-Issues cfg p w i u calm fresh found right =
    rw (login_lem cfg p w i, calm.works w.calls, found, right)
      (issue_token_pair_for-Issues cfg p (to_domain_user u) (called w) calm fresh
        (account-exists _ w.db.users u found))

-- An account is found by its address.
account_found :
    (id : Uuid) (email : Str) (hash : Option Str) (name : Str) (d : Db)
    → IsConsistent d
    → HasAccount id email hash name d
    → (u : UserModel) × (best user_by_id (λ x. str_eq x.email email) d.users ≡ some u)
      × (u.id ≡ id)
      × (u.password_hash ≡ hash)
account_found id email hash name d c has =
    elim (Option-cases (best user_by_id (λ x. str_eq x.email email) d.users)) [
      | inl missing ↦ absurd (
          best-ne-none _ _ d.users
            (Any-exists _ _ (λ x h. rw (h.1) (str_eq_refl email)) d.users has) missing)
      | inr (u, hit) ↦
          let named =
            str_eq→eq _ _ (best-passes user_by_id (λ x. str_eq x.email email) d.users u hit) in
          let (x, h, same) =
            Any-All _ _ d.users has
              (best_unique user_by_id _ (λ x. x.email) d.users u c.user_emails hit) in
          let eq = same (h.1 ∙ sym named) in
          (
            u,
            hit,
            ap (λ (x : UserModel). x.id) (sym eq) ∙ h.0,
            ap (λ (x : UserModel). x.password_hash) (sym eq) ∙ h.2,
          )
    ]

-- bcrypt accepts a password against a hash that it made of it.
abbrev pub IsBcrypt : Config → Type 0
IsBcrypt cfg =
    (n : ℕ) (password : Bytes) (hash : Str)
    → cfg.bcrypt.generate_from_password n password ≡ some hash
    → cfg.bcrypt.compare_hash_and_password hash password ≡ true

-- The account that a registration added is there, with a hash of the password.
registered-HasAccount :
    (cfg : Config) (p : Platform) (i : RegisterInput) (w : World) (u : User)
    → (register (register_uc cfg) i p w).0 ≡ ok u
    → (hash : Str) × (n : ℕ) × HasAccount u.id
        (normalize_email p i.email)
        (some hash)
        i.name
        (register (register_uc cfg) i p w).1.db
      × (cfg.bcrypt.generate_from_password n (utf8 i.password) ≡ some hash)
unfolding perform ◌>>=◌
registered-HasAccount cfg p i w u h =
    go (register (register_uc cfg) i p w) h (register_all_or_nothing cfg p i w)
  where
    go :
        (r : Result User × World)
        → r.0 ≡ ok u
        → Outcome cfg p i w r
        → (hash : Str) × (n : ℕ) × HasAccount u.id
            (normalize_email p i.email)
            (some hash)
            i.name
            r.1.db
          × (cfg.bcrypt.generate_from_password n (utf8 i.password) ≡ some hash)
    go (ok v, w') q (inr (e, failed, _)) = cc
    go (err e, w') q (inl (v, made, one)) = cc
    go (err e, w') q (inr _) = cc
    go (ok x, w') q (inl (v, made, one)) =
        let same : v ≡ u = cc in
        let (hash, stored, hashed) = one.hashed in
        (
          hash,
          w.calls + 1,
          subst (HasAccount u.id (normalize_email p i.email) (some hash) i.name) (sym one.added) (
              Any-append_right _ w.db.users
                (ap (λ (y : User). y.id) same, one.address, stored, one.named)),
          hashed,
        )

registered-IsConsistent :
    (cfg : Config) (p : Platform) (i : RegisterInput) (w : World)
    → IsConsistent w.db
    → IsConsistent (register (register_uc cfg) i p w).1.db
unfolding serve perform ◌>>=◌
registered-IsConsistent cfg p i w = serve-IsConsistent cfg p (register_request i ∷ []) w

-- A registered account can log in: if ids, addresses and token hashes are unique, a registration
-- returned an account while some requests were under way, bcrypt accepts what it hashed, and nothing
-- outside fails, then after any further turns of those requests, in whatever order their calls come,
-- a login with the same password, and an address that normalises to the same, returns a token pair
-- and adds a session of that account and nothing else, provided that the id and the token that it
-- draws are not those of a session.
pub register_then_login :
    (cfg : Config) (p : Platform) (i : RegisterInput) (w : World) (u : User)
    (requests : List Request) (before after : List ℕ) (again : LoginInput)
    → IsCalm cfg p
    → IsBcrypt cfg
    → IsConsistent w.db
    → normalize_email p again.email ≡ normalize_email p i.email
    → again.password ≡ i.password
    → let (left, at) = interleave before (pool cfg p requests) p w in
      (register (register_uc cfg) i p at).0 ≡ ok u
      → let w' = (interleave after left p (register (register_uc cfg) i p at).1).1 in
        IsFresh p (w'.calls + 1) w'.db
        → Issues cfg p (called w') u.id (login (login_uc cfg) again p w')
register_then_login cfg p i w u requests before after again calm bcrypt c same_email same_password
      done fresh =
    let (left, at) = interleave before (pool cfg p requests) p w in
    let w' = (interleave after left p (register (register_uc cfg) i p at).1).1 in
    let consistent =
      under_way-steady cfg p (IsConsistent-steady p) before after requests w _
        (registered-IsConsistent cfg p i at (interleave-IsConsistent cfg p before requests w c)) in
    let (hash, n, has, hashed) = registered-HasAccount cfg p i at u done in
    let still =
      under_way-steady cfg p (HasAccount-steady p u.id _ _ _) before after requests w _ has in
    let (m, found, id, stored) = account_found _ _ _ _ w'.db consistent still in
    subst (λ k. Issues cfg p (called w') k (login (login_uc cfg) again p w')) id
      (login-Issues cfg p w' again m calm fresh (rw same_email found)
        (rw (stored, same_password) (bcrypt n _ hash hashed)))
