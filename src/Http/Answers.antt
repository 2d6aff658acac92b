-- ===== src/Http/Answers.antt =====
-- What the endpoints answer and change, from the use cases behind them.
use mathlib.Core.Path.{subst}
use auth_service_go.Base.{
  ℕ, ◌+◌, ◌≡◌, refl, sym, ap, ◌∙◌, ◌⊎◌, Option, none, some, inl, inr, Bool-cases, ◌==◌, arith,
}
use auth_service_go.Base.Lists.{update_where}
use auth_service_go.Base.Strings.{Str, is_empty}
use auth_service_go.Domain.{Uuid, Time, User, Sentinel, errors_is, role_seller}
use auth_service_go.Database.{Db}
use auth_service_go.Http.{HttpRequest, Response, bare, status_of}
use auth_service_go.Http.Bearer.{Names}
use auth_service_go.Http.Guards.{Guarded, require_auth-Guarded}
use auth_service_go.Http.Handlers.{
  Wire, decoded, validated, logout_handler, logout_decoded, login_handler, login_response,
  add_role_handler, add_role_for, add_role_response,
}
use auth_service_go.Http.Middleware.{Verifier, require_auth}
use auth_service_go.Platform.{Platform, World, Result, Action, ok, err, attempt, ◌>>=◌}
use auth_service_go.Postgres.Statements.{grant}
use auth_service_go.Service.{Config, login_uc, logout_uc, add_role_uc}
use auth_service_go.Service.Credentials.{IsOpened, account_for, login_checks_password}
use auth_service_go.Service.Upgrade.{add_role-Outcome}
use auth_service_go.Usecase.Accounts.{LoginInput, login, add_role, AddRoleInput}
use auth_service_go.Usecase.Ports.{TokenPair}

-- A logout is answered 204, whatever the body is and whatever fails.
logout_always_204 :
    (cfg : Config) (wire : Wire Str) (r : HttpRequest) (p : Platform) (w : World)
    → (logout_handler (logout_uc cfg) wire r p w).0 ≡ ok (bare 204)
unfolding logout_handler logout_decoded ◌>>=◌
logout_always_204 cfg wire r p w = go (wire.decode r.body)
  where
    go : (o : Option Str) → (logout_decoded (logout_uc cfg) o p w).0 ≡ ok (bare 204)
    go none = refl
    go (some token) = elim (Bool-cases (is_empty token)) [
      | inl no_token ↦ rw no_token refl
      | inr a_token ↦ rw a_token refl
    ]

-- The status of an answer; no handler here ends in an error.
abbrev pub status : Result Response → ℕ
status (ok a) = status_of a
status (err e) = 0

-- The body decodes to input without violation, and bcrypt accepts its password against the hash of
-- the account of its address.
pub record IsLogin (cfg : Config) (wire : Wire LoginInput) (r : HttpRequest) (p : Platform)
    (w : World) : Type 0 where
  pub input : LoginInput
  pub read : wire.decode r.body ≡ some input
  pub valid : wire.violation input ≡ none
  pub accepted : IsOpened cfg input.password (account_for p w input.email)

answered_200 :
    (p : Platform) (w : World) (x : Result TokenPair)
    → status (login_response x p w).0 ≡ 200
    → (pair : TokenPair) × (x ≡ ok pair)
unfolding ◌>>=◌
answered_200 p w (ok pair) h = (pair, refl)
answered_200 p w (err x) h = elim (Bool-cases (errors_is x Sentinel.invalid_credentials)) [
  | inl refused ↦ absurd (omega (arith, rw refused at h))
  | inr failed ↦ absurd (omega (arith, rw failed at h))
]

-- A login request that is answered 200 had a body that decodes and validates to an address and a
-- password, with an account under the normalised address that has a password hash, against which
-- bcrypt accepts the password.
pub login_handler-IsLogin :
    (cfg : Config) (wire : Wire LoginInput) (r : HttpRequest) (p : Platform) (w : World)
    → status (login_handler (login_uc cfg) wire r p w).0 ≡ 200
    → IsLogin cfg wire r p w
unfolding login_handler ◌>>=◌
login_handler-IsLogin cfg wire r p w h = go (wire.decode r.body) refl h
  where
    use_case : LoginInput → Action Response
    use_case i = attempt (login (login_uc cfg) i) >>= login_response

    checked :
        (i : LoginInput) (v : Option Str)
        → wire.decode r.body ≡ some i
        → wire.violation i ≡ v
        → status (validated use_case i v p w).0 ≡ 200
        → IsLogin cfg wire r p w
    checked i (some message) read valid q = absurd (omega (arith, q))
    checked i none read valid q =
        let (pair, e) = answered_200 p _ (login (login_uc cfg) i p w).0 q in
        record {
          input = i;
          read = read;
          valid = valid;
          accepted = login_checks_password cfg p w i pair e;
        }

    go :
        (o : Option LoginInput)
        → wire.decode r.body ≡ o
        → status (decoded use_case wire o p w).0 ≡ 200
        → IsLogin cfg wire r p w
    go none read q = absurd (omega (arith, q))
    go (some i) read q = checked i (wire.violation i) read refl q

-- The tables `d` are those of `w`, or those with SELLER granted to the account `id`.
abbrev pub GrantedAtMost : World → Uuid → Db → Type 0
GrantedAtMost w id d =
    (d ≡ w.db)
    ⊎ ((t : Time) × (d ≡ record w.db {
      users = update_where (λ u. u.id == id) (grant role_seller t) w.db.users;
    }))

module _ (cfg : Config) (wire : Wire Str) (p : Platform) where
  add_role_response-db : (x : Result User) (w : World) → (add_role_response x p w).1.db ≡ w.db
  unfolding ◌>>=◌
  add_role_response-db (ok user) w = refl
  add_role_response-db (err x) w = elim (Bool-cases (errors_is x Sentinel.invalid_role)) [
    | inl invalid ↦ rw invalid refl
    | inr other ↦ elim (Bool-cases (errors_is x Sentinel.user_not_found)) [
      | inl missing ↦ rw (other, missing) refl
      | inr failed ↦ rw (other, failed) refl
    ]
  ]

  module _ (r : HttpRequest) (w : World) (id : Uuid) where
    abbrev input_for : Str → AddRoleInput
    input_for role = record { user_id = id; role = role }

    abbrev use_case : Str → Action Response
    use_case role = attempt (add_role (add_role_uc cfg) (input_for role)) >>= add_role_response

    use_case-GrantedAtMost : (role : Str) → GrantedAtMost w id (use_case role p w).1.db
    unfolding ◌>>=◌
    use_case-GrantedAtMost role =
        let (x, w') = add_role (add_role_uc cfg) (input_for role) p w in
        elim (add_role-Outcome cfg p (input_for role) w) [
          | inl (u, _, done) ↦ inr (p.time w.calls, add_role_response-db x w' ∙ done.written)
          | inr (e, _, same) ↦ inl (add_role_response-db x w' ∙ same)
        ]

    add_role_for-GrantedAtMost :
        GrantedAtMost w id (add_role_for (add_role_uc cfg) wire r (some id) p w).1.db
    unfolding ◌>>=◌
    add_role_for-GrantedAtMost = go (wire.decode r.body)
      where
        checked :
            (role : Str) (v : Option Str) → GrantedAtMost w id (validated use_case role v p w).1.db
        checked role (some message) = inl refl
        checked role none = use_case-GrantedAtMost role

        go : (o : Option Str) → GrantedAtMost w id (decoded use_case wire o p w).1.db
        go none = inl refl
        go (some role) = checked role (wire.violation role)

-- A request to POST /users/me/roles changes no table, or names an account, in the claim sub of a
-- bearer token that parses at that time, and grants SELLER to that account, and changes nothing else.
pub upgrade_own_account :
    (cfg : Config) (wire : Wire Str) (v : Verifier) (r : HttpRequest) (p : Platform) (w : World)
    → let d = (require_auth v (add_role_handler (add_role_uc cfg) wire) r p w).1.db in
      (d ≡ w.db) ⊎ ((id : Uuid) × Names v (p.time w.calls) r id × GrantedAtMost w id d)
unfolding add_role_handler
upgrade_own_account cfg wire v r p w =
    go (require_auth-Guarded v (add_role_handler (add_role_uc cfg) wire) r p w)
  where
    out : Result Response × World
    out = require_auth v (add_role_handler (add_role_uc cfg) wire) r p w

    go :
        Guarded v (add_role_handler (add_role_uc cfg) wire) r p w out
        → (out.1.db ≡ w.db)
          ⊎ ((id : Uuid) × Names v (p.time w.calls) r id × GrantedAtMost w id out.1.db)
    go (inr (_, _, same)) = inl same
    go (inl (id, named, ran)) = inr (
      id,
      named,
      subst (GrantedAtMost w id) (ap (λ (x : Result Response × World). x.1.db) (sym ran)) (
          add_role_for-GrantedAtMost cfg wire p (record r { user_id = some id })
            (record w { calls = w.calls + 1 }) id),
    )
