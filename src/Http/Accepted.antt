-- ===== src/Http/Accepted.antt =====
-- Registration from the body of the request to the row of the account.
use auth_service_go.Base.{
  ◌≡◌, ◌≢◌, ◌≤◌, refl, ◌∙◌, ◌⊎◌, true, Option, none, some, [], inl, inr, Bool-cases, arith,
}
use auth_service_go.Base.Lists.{All, length}
use auth_service_go.Base.Strings.{Str}
use auth_service_go.Domain.{User, Error, Sentinel, errors_is}
use auth_service_go.Http.{HttpRequest, Response}
use auth_service_go.Http.Answers.{status}
use auth_service_go.Http.Handlers.{decoded, validated, register_handler, register_response}
use auth_service_go.Http.Requests.{
  JsonLib, Validator, IsValidator, IsValidField, account_fields, register_wire,
}
use auth_service_go.Platform.{Platform, World, Result, Action, ok, err, attempt, ◌>>=◌}
use auth_service_go.Service.{Config, register_uc}
use auth_service_go.Service.Registration.{IsRegistered, Outcome, register_all_or_nothing}
use auth_service_go.Usecase.Accounts.{RegisterInput, register}

-- A body that decodes to input with an address, a password of at least eight characters and a name,
-- and the one new account for it.
pub record IsAccepted (cfg : Config) (json : JsonLib) (v : Validator) (r : HttpRequest)
    (p : Platform) (w w' : World) : Type 0 where
  pub input : RegisterInput
  pub read : (register_wire json v).decode r.body ≡ some input
  pub address : v.is_email input.email ≡ true
  pub password : 8 ≤ length input.password
  pub name : input.name ≢ []
  pub user : User
  pub registered : IsRegistered cfg p input w w' user

abbrev pub RegisterEnds :
    Config → JsonLib → Validator → HttpRequest → Platform → World → Result Response × World → Type 0
RegisterEnds cfg json v r p w out =
    ((status out.0 ≡ 201) × IsAccepted cfg json v r p w out.1)
    ⊎ ((status out.0 ≢ 201) × (out.1.db ≡ w.db))

-- An error is not answered 201, and its answer changes nothing.
register_response-err :
    (p : Platform) (e : Error) (w : World)
    → (status (register_response (err e) p w).0 ≢ 201)
      × ((register_response (err e) p w).1.db ≡ w.db)
unfolding ◌>>=◌
register_response-err p e w = elim (Bool-cases (errors_is e Sentinel.email_already_exists)) [
  | inl taken ↦ rw taken (λ q. omega (arith, q), refl)
  | inr failed ↦ rw failed (λ q. omega (arith, q), refl)
]

-- A registration request is answered 201 or changes no table. If it is answered 201, its body decoded
-- to a valid address, a password of at least eight characters and a name, and one account was added
-- for them: the normalised address, the name, CUSTOMER alone, and the password's bcrypt hash.
pub register_handler-ends :
    (cfg : Config) (json : JsonLib) (v : Validator) (r : HttpRequest) (p : Platform) (w : World)
    → IsValidator v
    → RegisterEnds cfg json v r p w
        (register_handler (register_uc cfg) (register_wire json v) r p w)
unfolding register_handler register_wire ◌>>=◌
register_handler-ends cfg json v r p w good = go ((register_wire json v).decode r.body) refl
  where
    use_case : RegisterInput → Action Response
    use_case i = attempt (register (register_uc cfg) i) >>= register_response

    done :
        (i : RegisterInput)
        → (register_wire json v).decode r.body ≡ some i
        → All (IsValidField v) (account_fields i.email i.password i.name)
        → (x : Result User) (w' : World) → Outcome cfg p i w (x, w')
        → RegisterEnds cfg json v r p w (register_response x p w')
    done i read ok_fields (err e) w' (inl (u, made, one)) = cc
    done i read ok_fields (err e) w' (inr (_, failed, same)) =
        inr ((register_response-err p e w').0, (register_response-err p e w').1 ∙ same)
    done i read ok_fields (ok u) w' (inr (e, failed, same)) = cc
    done i read ok_fields (ok u) w' (inl (u', made, one)) = inl (
      refl,
      record {
        input = i;
        read = read;
        address = ok_fields.0.1.0;
        password = ok_fields.1.0.1.0;
        name = ok_fields.1.1.0.0;
        user = u';
        registered = one;
      },
    )

    checked :
        (i : RegisterInput) (m : Option Str)
        → (register_wire json v).decode r.body ≡ some i
        → v.struct (account_fields i.email i.password i.name) ≡ m
        → RegisterEnds cfg json v r p w (validated use_case i m p w)
    checked i (some message) read m = inr (λ q. omega (arith, q), refl)
    checked i none read m =
        let out = register (register_uc cfg) i p w in
        done i read (good.struct_sound _ m) out.0 out.1 (register_all_or_nothing cfg p i w)

    go :
        (o : Option RegisterInput)
        → (register_wire json v).decode r.body ≡ o
        → RegisterEnds cfg json v r p w (decoded use_case (register_wire json v) o p w)
    go none read = inr (λ q. omega (arith, q), refl)
    go (some i) read = checked i (v.struct (account_fields i.email i.password i.name)) read refl
