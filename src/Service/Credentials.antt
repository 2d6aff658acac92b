-- ===== src/Service/Credentials.antt =====
-- Password login: who gets a token pair, and that a refusal does not tell why.
use auth_service_go.Base.{
  ◌≡◌, refl, sym, ap, ◌∙◌, ◌⊎◌, Bool, true, false, Option, none, some, inl, inr, Bool-cases,
  Option-cases,
}
use auth_service_go.Base.Lists.{best}
use auth_service_go.Base.Strings.{Str, codes, str_eq, utf8}
use auth_service_go.Domain.{Sentinel, sentinel, User}
use auth_service_go.Database.{UserModel}
use auth_service_go.Hash.{bcrypt_hasher}
use auth_service_go.Platform.{Platform, World, Result, ok, err, ◌>>=◌}
use auth_service_go.Postgres.Models.{to_domain_user}
use auth_service_go.Postgres.Repositories.Queries.{answer, called, find_by_email_lem}
use auth_service_go.Postgres.Statements.{user_by_id}
use auth_service_go.Service.{Config, login_uc}
use auth_service_go.Usecase.Accounts.{
  LoginInput, login, login_user, normalize_email, password_accepted,
}
use auth_service_go.Usecase.Ports.{TokenPair}

-- The account that a login looks up.
abbrev pub account_for : Platform → World → Str → Option UserModel
account_for p w email = best user_by_id (λ u. str_eq u.email (normalize_email p email)) w.db.users

-- The test of the login.
abbrev pub opens : Config → Str → Option UserModel → Bool
opens cfg password none = false
opens cfg password (some m) = password_accepted (bcrypt_hasher cfg.bcrypt) m.password_hash password

-- What was looked up is an account with a password hash, against which bcrypt accepts the password.
pub record IsOpened (cfg : Config) (password : Str) (o : Option UserModel) : Type 0 where
  pub account : UserModel
  pub hash : Str
  pub found : o ≡ some account
  pub stored : account.password_hash ≡ some hash
  pub accepts : cfg.bcrypt.compare_hash_and_password hash (utf8 password) ≡ true

-- Nothing was found, or an account without a password hash, or one against whose hash bcrypt refuses
-- the password.
abbrev pub NotOpened : Config → Str → Option UserModel → Type 0
NotOpened cfg password o =
    (o ≡ none)
    ⊎ ((m : UserModel) × (o ≡ some m) × (m.password_hash ≡ none))
    ⊎ ((m : UserModel) × (hash : Str) × (o ≡ some m)
        × (m.password_hash ≡ some hash)
        × (cfg.bcrypt.compare_hash_and_password hash (utf8 password) ≡ false))

module _ (cfg : Config) (password : Str) where
  opens-IsOpened : (o : Option UserModel) → opens cfg password o ≡ true → IsOpened cfg password o
  opens-IsOpened none h = cc
  opens-IsOpened (some m) h = elim (Option-cases m.password_hash) [
    | inl passwordless ↦ cc (rw passwordless at h)
    | inr (hash, stored) ↦ record {
      account = m;
      hash = hash;
      found = refl;
      stored = stored;
      accepts = rw stored at h;
    }
  ]

  NotOpened→opens : (o : Option UserModel) → NotOpened cfg password o → opens cfg password o ≡ false
  NotOpened→opens o (inl missing) = rw missing refl
  NotOpened→opens o (inr (inl (m, found, passwordless))) = rw (found, passwordless) refl
  NotOpened→opens o (inr (inr (m, hash, found, stored, refused))) = rw (found, stored, refused) refl

module _ (cfg : Config) (p : Platform) (w : World) (i : LoginInput) where
  abbrev looked_up : Bool → Option UserModel → Result User
  looked_up = answer Sentinel.user_not_found (codes "finding user by email") to_domain_user

  pub login_lem :
      login (login_uc cfg) i p w
      ≡ login_user
          (login_uc cfg)
          i.password
          (looked_up (p.fails w.calls) (account_for p w i.email))
          p
          (called w)
  unfolding login ◌>>=◌
  login_lem = rw (find_by_email_lem p w (normalize_email p i.email)) refl

  refused :
      (o : Option UserModel)
      → opens cfg i.password o ≡ false
      → login_user (login_uc cfg) i.password (looked_up false o) p (called w)
        ≡ (err (sentinel Sentinel.invalid_credentials), called w)
  unfolding login_user ◌>>=◌
  refused none h = refl
  refused (some m) h = rw h

  admitted :
      (b : Bool) (o : Option UserModel) (pair : TokenPair)
      → (login_user (login_uc cfg) i.password (looked_up b o) p (called w)).0 ≡ ok pair
      → opens cfg i.password o ≡ true
  unfolding login_user ◌>>=◌
  admitted true o pair h = cc
  admitted false none pair h = cc
  admitted false (some m) pair h = elim (Bool-cases (opens cfg i.password (some m))) [
    | inl e ↦ e
    | inr e ↦ cc (rw e at h)
  ]

-- A login that returns a token pair looked up an account that the password opens.
pub login_checks_password :
    (cfg : Config) (p : Platform) (w : World) (i : LoginInput) (pair : TokenPair)
    → (login (login_uc cfg) i p w).0 ≡ ok pair
    → IsOpened cfg i.password (account_for p w i.email)
login_checks_password cfg p w i pair h = opens-IsOpened cfg i.password (account_for p w i.email) (
    admitted cfg p w i (p.fails w.calls) (account_for p w i.email) pair
      (ap (λ (x : Result TokenPair × World). x.0) (sym (login_lem cfg p w i)) ∙ h))

-- If the lookup does not fail, then a login at an unknown address, one to an account without a
-- password hash, and one with a password that bcrypt refuses against the hash of the account get the
-- same answer, ErrInvalidCredentials, after that one call, and nothing is written.
pub login_refusals_alike :
    (cfg : Config) (p : Platform) (w : World) (i : LoginInput)
    → p.fails w.calls ≡ false
    → NotOpened cfg i.password (account_for p w i.email)
    → login (login_uc cfg) i p w ≡ (err (sentinel Sentinel.invalid_credentials), called w)
login_refusals_alike cfg p w i works h =
    login_lem cfg p w i
    ∙ rw works (
        refused cfg p w i (account_for p w i.email)
          (NotOpened→opens cfg i.password (account_for p w i.email) h))
