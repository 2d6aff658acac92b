-- ===== src/Service/SignIn.antt =====
-- Whose session a sign-in opens, for each way to sign in.
pub mod Ways
use mathlib.Core.Path.{subst}
use auth_service_go.Base.{
  ◌≡◌, refl, sym, ap, ◌∙◌, Bool, true, false, Option, none, some, [], ◌∷◌, ◌++◌, not, if◌then◌else◌,
  inl, inr, Bool-cases,
}
use auth_service_go.Base.Lists.{Any, Any-append_right, best, best-Any, best-passes}
use auth_service_go.Base.Strings.{Str, codes, str_eq, str_eq→eq}
use auth_service_go.Domain.{Uuid, Time, User, RefreshToken, Sentinel, is_nil, errors_is}
use auth_service_go.Database.{Db, UserModel, RefreshTokenModel, accepts_user, accepts_refresh_token}
use auth_service_go.Jwt.{hash_refresh_token_value, new_refresh_token_value, token_issuer}
use auth_service_go.Platform.{Platform, World, Result, ok, err, Action, attempt, ◌>>=◌}
use auth_service_go.Platform.Keeps.{Keeps}
use auth_service_go.Platform.Returns.{
  Returns, wrapping-Returns, Ensures, Ensures-bind, Ensures-after, Ensures-wrapping,
  Ensures-statement, Ensures-return, Ensures-if, Ensures-fail, Ensures-given, Ensures-asks,
  Anywhere,
}
use auth_service_go.Postgres.Models.{to_domain_user, from_domain_user, from_domain_refresh_token}
use auth_service_go.Postgres.Repositories.{
  find_by_email, users, refresh_tokens, insert_user, insert_refresh_token,
}
use auth_service_go.Postgres.Repositories.Queries.{answer, called, find_by_email_lem}
use auth_service_go.Postgres.Statements.{create_user, create_refresh_token, user_by_id}
use auth_service_go.Service.{Config}
use auth_service_go.Service.Addresses.{HasAccount, HasAccount-steady}
use auth_service_go.Service.Invariant.Requests.{issue_token_pair_for-Keeps}
use auth_service_go.Usecase.Accounts.{new_user, issue_token_pair_for}
use auth_service_go.Usecase.Codes.{find_or_create}
use auth_service_go.Usecase.Ports.{TokenPair}

-- There is a session in force of this account, with the hash of this refresh token.
abbrev pub HasSession : Platform → Uuid → Str → Db → Type 0
HasSession p user_id refresh_token d =
    Any
      (λ (t : RefreshTokenModel).
        (t.user_id ≡ user_id)
        × (t.token_hash ≡ hash_refresh_token_value p refresh_token)
        × (is_nil t.revoked_at ≡ true))
      d.refresh_tokens

-- The refresh token has a session in force, and the session's account has this address.
pub record IsSignedIn (p : Platform) (email refresh_token : Str) (d : Db) : Type 0 where
  pub id : Uuid
  pub password_hash : Option Str
  pub name : Str
  pub account : HasAccount id email password_hash name d
  pub session : HasSession p id refresh_token d

-- An INSERT that returned appended its row.
created_session :
    (P : RefreshTokenModel → Type 0) (m : RefreshTokenModel) (t : Time) (d d' : Db) (a : Unit)
    → P m
    → create_refresh_token m t d ≡ (ok a, d')
    → Any P d'.refresh_tokens
unfolding create_refresh_token
created_session P m t d d' a held h = elim (Bool-cases (accepts_refresh_token d m)) [
  | inl accepted ↦
      subst (λ (x : Result Unit × Db). Any P x.1.refresh_tokens) (rw accepted at h)
        (Any-append_right P d.refresh_tokens held)
  | inr refused ↦ cc (rw refused at h)
]

created_account :
    (P : UserModel → Type 0) (m : UserModel) (t : Time) (d d' : Db) (a : Unit)
    → P m
    → create_user m t d ≡ (ok a, d')
    → Any P d'.users
unfolding create_user
created_account P m t d d' a held h = elim (Bool-cases (accepts_user d m)) [
  | inl accepted ↦
      subst (λ (x : Result Unit × Db). Any P x.1.users) (rw accepted at h)
        (Any-append_right P d.users held)
  | inr refused ↦ cc (rw refused at h)
]

-- The account of a lookup that found one.
abbrev pub HasUser : Str → User → Db → Type 0
HasUser email u d = HasAccount u.id email u.password_hash u.name d

abbrev pub IsFound : Str → Result User → Db → Type 0
IsFound email (ok u) d = HasUser email u d
IsFound email (err _) d = Unit

module _ (p : Platform) (cfg : Config) where
  -- A refresh token comes with its hash.
  new_value-Ensures :
      Ensures p Anywhere new_refresh_token_value
        (λ v _. v.hash ≡ hash_refresh_token_value p v.plaintext)
  unfolding new_refresh_token_value
  new_value-Ensures = Ensures-after _ _ λ buf. Ensures-asks _ λ w _. refl

  issue_token_pair_for-Ensures :
      (u : User)
      → Ensures p Anywhere
          (issue_token_pair_for refresh_tokens (token_issuer cfg.issuer) u)
          (λ pair w. HasSession p u.id pair.refresh_token w.db)
  unfolding issue_token_pair_for insert_refresh_token
  issue_token_pair_for-Ensures u = Ensures-after _ _ λ access.
      Ensures-bind _ _ _ (Ensures-wrapping _ _ new_value-Ensures) λ value.
        Ensures-given (value.hash ≡ hash_refresh_token_value p value.plaintext) _ (λ w h. h)
          λ same. Ensures-after _ _ λ t. Ensures-after _ _ λ id.
            Ensures-bind (λ _ w. HasSession p u.id value.plaintext w.db) _ _
              (Ensures-wrapping _ _ (
                Ensures-wrapping _ _ (
                  Ensures-statement _
                    λ w w' a _ ran. created_session _ _ _ _ _ a (refl, same, refl) ran)))
              λ _. Ensures-return _ λ w h. h

  pub find_by_email-Ensures :
      (email : Str)
      → Ensures p Anywhere (attempt (find_by_email email)) (λ r w. IsFound email r w.db)
  unfolding attempt
  find_by_email-Ensures email = record {
    at = λ w w' r _ h.
        subst (λ (x : Result (Result User) × World). outcome x.0 x.1.db) h
          (rw (find_by_email_lem p w email)
            (go w (p.fails w.calls) (best user_by_id (λ u. str_eq u.email email) w.db.users) refl));
  }
    where
      outcome : Result (Result User) → Db → Type 0
      outcome (ok r) d = IsFound email r d
      outcome (err _) d = Unit

      go :
          (w : World) (b : Bool) (o : Option UserModel)
          → best user_by_id (λ u. str_eq u.email email) w.db.users ≡ o
          → IsFound email
              (answer Sentinel.user_not_found (codes "finding user by email") to_domain_user b o)
              w.db
      go w true o e = tt
      go w false none e = tt
      go w false (some m) e = best-Any user_by_id _ _ w.db.users m e (
        refl,
        str_eq→eq _ _ (best-passes user_by_id (λ u. str_eq u.email email) w.db.users m e),
        refl,
        refl,
      )

  find_or_create-Ensures :
      (email name : Str) (r : Result User)
      → Ensures p
          (λ w. IsFound email r w.db)
          (find_or_create users email name r)
          (λ u w. HasUser email u w.db)
  unfolding find_or_create insert_user
  find_or_create-Ensures email name (ok u) = Ensures-return _ λ w h. h
  find_or_create-Ensures email name (err e) =
      Ensures-if (not (errors_is e Sentinel.user_not_found)) _ _ (λ _. Ensures-fail _)
        λ _. Ensures-after _ _ λ t. Ensures-after _ _ λ id.
          Ensures-bind (λ _ w. HasUser email (new_user id email none name t) w.db) _ _
            (Ensures-wrapping _ _ (
              Ensures-wrapping _ _ (
                Ensures-statement _
                  λ w w' a _ ran. created_account _ _ _ _ _ a (refl, refl, refl, refl) ran)))
            λ _. Ensures-return _ λ w h. h

  -- The account of an address, looked up or made.
  pub account_of-Ensures :
      (email name : Str) {A : Type 0} (f : User → Action A) (Q : A → World → Type 0)
      → ((u : User) → Ensures p (λ w. HasUser email u w.db) (f u) Q)
      → Ensures p Anywhere
          (do
            found ← attempt (users.find_by_email email)
            u ← find_or_create users email name found
            f u)
          Q
  account_of-Ensures email name f Q rest =
      Ensures-bind _ _ _ (find_by_email-Ensures email)
        λ r. Ensures-bind _ _ _ (find_or_create-Ensures email name r) rest

  -- An account that is there has, after its pair is issued, a session for the pair.
  pub sign_in-Ensures :
      (email : Str) (u : User)
      → Ensures p
          (λ w. HasUser email u w.db)
          (issue_token_pair_for refresh_tokens (token_issuer cfg.issuer) u)
          (λ pair w. IsSignedIn p email pair.refresh_token w.db)
  sign_in-Ensures email u = record {
    at = λ w w' pair h q. record {
      id = u.id;
      password_hash = u.password_hash;
      name = u.name;
      account =
          subst (λ (x : Result TokenPair × World). HasUser email u x.1.db) q
            ((issue_token_pair_for-Keeps
                (HasAccount-steady p u.id email u.password_hash u.name).rows cfg u).at
              w h);
      session = (issue_token_pair_for-Ensures u).at w w' pair tt q;
    };
  }
