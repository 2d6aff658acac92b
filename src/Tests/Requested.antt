-- ===== src/Tests/Requested.antt =====
-- A code that is requested and used, for an address without an account.
use mathlib.Core.Path.{subst}
use auth_service_go.Base.{◌+◌, ◌≡◌, refl, sym, none, false, ◌==◌, ◌≤◌, [], ◌∷◌, ◌++◌, arith}
use auth_service_go.Base.Strings.{
  Str, is_empty, codes, str_eq, utf8, trim_space, to_lower, is_space, lower_rune,
}
use auth_service_go.Database.{accepts_verification_code}
use auth_service_go.Encoding.{hex, encode, letter}
use auth_service_go.Jwt.{hash_refresh_token_value}
use auth_service_go.Platform.{World, send_mail, ok, ◌>>=◌}
use auth_service_go.Postgres.Repositories.{insert_code}
use auth_service_go.Postgres.Statements.{create_verification_code}
use auth_service_go.Service.{request_code_uc, verify_code_uc}
use auth_service_go.Service.Issue.{IsFresh}
use auth_service_go.Usecase.Accounts.{normalize_email}
use auth_service_go.Service.Credentials.{account_for}
use auth_service_go.Service.Passwordless.FirstLogin.{CanEnter, requested_code_signs_in}
use auth_service_go.Service.SignIn.{IsSignedIn}
use auth_service_go.Base.Lists.{exists, length}
use auth_service_go.Service.Requested.{delivery}
use auth_service_go.Usecase.Codes.{
  request_code, generate_verification_code, generate_digits, hash_verification_code, verify_code,
}
use auth_service_go.Usecase.Ports.{TokenPair}
use auth_service_go.Tests.Fixtures.{platform, config, world, repeated}
use auth_service_go.Tests.Progress.{calm}

abbrev started : World
started = record world { calls = 1 }

requested : (request_code (request_code_uc config) (codes "bob@x") platform started).0 ≡ ok tt
unfolding request_code generate_verification_code generate_digits hash_verification_code insert_code
    create_verification_code accepts_verification_code send_mail hex utf8 normalize_email trim_space
    to_lower is_space lower_rune is_empty ◌>>=◌
requested = refl

abbrev mailed_world : World
mailed_world = (request_code (request_code_uc config) (codes "bob@x") platform started).1

mailed_world-calls : mailed_world.calls ≡ 11
unfolding request_code generate_verification_code generate_digits hash_verification_code insert_code
    create_verification_code accepts_verification_code send_mail hex utf8 normalize_email trim_space
    to_lower is_space lower_rune is_empty ◌>>=◌
mailed_world-calls = refl

verification-IsFresh : IsFresh platform 19 mailed_world.db
unfolding request_code generate_verification_code generate_digits hash_verification_code insert_code
    create_verification_code accepts_verification_code send_mail hash_refresh_token_value hex utf8
    encode letter str_eq normalize_email trim_space to_lower is_space lower_rune is_empty ◌>>=◌
verification-IsFresh = record {
  buf = repeated 32 20;
  drawn = refl;
  new_id = refl;
  new_token = refl;
}

absent : account_for platform mailed_world (codes "bob@x") ≡ none
unfolding request_code generate_verification_code generate_digits hash_verification_code insert_code
    create_verification_code accepts_verification_code send_mail hash_refresh_token_value hex utf8
    encode letter str_eq normalize_email trim_space to_lower is_space lower_rune is_empty ◌>>=◌
absent = refl

unknown_id : exists (λ u. u.id == platform.uuid 17) mailed_world.db.users ≡ false
unfolding request_code generate_verification_code generate_digits hash_verification_code insert_code
    create_verification_code accepts_verification_code send_mail hash_refresh_token_value hex utf8
    encode letter str_eq normalize_email trim_space to_lower is_space lower_rune is_empty ◌>>=◌
unknown_id = refl

short : length (normalize_email platform (codes "bob@x")) ≤ 255
unfolding normalize_email trim_space to_lower is_space lower_rune
short = omega arith

newcomer : CanEnter platform mailed_world (codes "bob@x")
newcomer =
    CanEnter.newcomer absent
      (subst
        (λ n.
          exists (λ u. u.id == platform.uuid (n + 1 + 1 + 1 + 1 + 1 + 1)) mailed_world.db.users
          ≡ false)
        (sym mailed_world-calls) unknown_id)
      short
      (subst (λ n. IsFresh platform (n + 1 + 1 + 1 + 1 + 1 + 1 + 1 + 1) mailed_world.db)
        (sym mailed_world-calls) verification-IsFresh)

requested_code_signs_in_example :
    (code : Str) × (mailed_world.outbox
      ≡ started.outbox ++ delivery config (normalize_email platform (codes "bob@x")) code ∷ [])
    × ((pair : TokenPair) × (let entered =
            verify_code
              (verify_code_uc config)
              (record { email = codes "bob@x"; code = code })
              platform
              mailed_world in
          (entered.0 ≡ ok pair)
          × IsSignedIn platform
              (normalize_email platform (codes "bob@x"))
              pair.refresh_token
              entered.1.db))
requested_code_signs_in_example =
    requested_code_signs_in config platform (codes "bob@x") (codes "bob@x") started calm
      (λ i j h. omega (arith, h)) (omega arith, tt) requested refl newcomer
      (rw mailed_world-calls (omega arith))
