-- ===== src/Tests/Codes.antt =====
-- A login by code for the code "7".
use mathlib.Core.Path.{subst}
use auth_service_go.Base.{ℕ, ◌≡◌, ◌≢◌, ◌+◌, refl, sym, some, List, [], ◌∷◌}
use auth_service_go.Base.Strings.{
  codes, str_eq, utf8, trim_space, to_lower, is_space, lower_rune, is_empty,
}
use auth_service_go.Database.{
  VerificationCodeModel, accepts_refresh_token, accepts_verification_code,
}
use auth_service_go.Encoding.{hex, encode, letter}
use auth_service_go.Jwt.{
  issue_access_token, new_refresh_token_value, hash_refresh_token_value, access_claims,
}
use auth_service_go.Platform.{World, ok, send_mail, ◌>>=◌}
use auth_service_go.Postgres.Repositories.{
  found, find_by_email, insert_refresh_token, find_latest_by_email, mark_consumed, insert_code,
}
use auth_service_go.Postgres.Statements.{
  select_user_by_email, create_refresh_token, select_latest_code, update_consumed_at,
  create_verification_code,
}
use auth_service_go.Service.{Request, request_code_request, serve, perform, verify_code_uc}
use auth_service_go.Platform.Process.{interleave}
use auth_service_go.Service.Concurrent.{pool, serve-interleaves}
use auth_service_go.Service.CodeUse.{code_never_twice}
use auth_service_go.Service.CodeChecks.{Accepts, latest_code}
use auth_service_go.Service.SignIn.{IsSignedIn}
use auth_service_go.Service.SignIn.Ways.{verify_code-SignsIn}
use auth_service_go.Usecase.Accounts.{normalize_email, issue_token_pair_for}
use auth_service_go.Usecase.Codes.{
  VerifyCodeInput, request_code, generate_verification_code, generate_digits, verify_code,
  verify_record, unusable, check_code, enter, find_or_create, hash_verification_code,
}
use auth_service_go.Usecase.Ports.{TokenPair}
use auth_service_go.Tests.Fixtures.{platform, config, world, pending}

abbrev guess : VerifyCodeInput
guess = record { email = codes "ana@x"; code = codes "7" }

abbrev code_pair : TokenPair
code_pair = record {
  access_token = codes "token";
  refresh_token = codes "BgYGBgYGBgYGBgYGBgYGBgYGBgYGBgYGBgYGBgYGBgY";
  expires_in = 300;
}

verified : (verify_code (verify_code_uc config) guess platform world).0 ≡ ok code_pair
unfolding verify_code verify_record unusable check_code hash_verification_code issue_token_pair_for
    normalize_email trim_space to_lower find_latest_by_email find_by_email found mark_consumed
    select_user_by_email select_latest_code update_consumed_at insert_refresh_token
    create_refresh_token accepts_refresh_token issue_access_token access_claims
    new_refresh_token_value hash_refresh_token_value hex utf8 encode letter str_eq is_space
    lower_rune enter find_or_create ◌>>=◌
verified = refl

verify_code-SignsIn_example :
    ((m : VerificationCodeModel) × (latest_code platform world guess.email ≡ some m)
      × Accepts platform (platform.time (world.calls + 1)) guess.code m)
    × IsSignedIn platform
        (normalize_email platform guess.email)
        code_pair.refresh_token
        (verify_code (verify_code_uc config) guess platform world).1.db
verify_code-SignsIn_example = verify_code-SignsIn config platform world guess code_pair verified

abbrev later : List Request
later = request_code_request (codes "ana@x") ∷ []

abbrev second_guess : VerifyCodeInput
second_guess = record { email = codes "ana@x"; code = codes "012345" }

abbrev second_pair : TokenPair
second_pair = record {
  access_token = codes "token";
  refresh_token = codes "GhoaGhoaGhoaGhoaGhoaGhoaGhoaGhoaGhoaGhoaGho";
  expires_in = 300;
}

abbrev verified_world : World
verified_world = (verify_code (verify_code_uc config) guess platform world).1

abbrev then_world : World
then_world = serve config later platform verified_world

newest : latest_code platform world guess.email ≡ some pending
unfolding normalize_email trim_space to_lower str_eq is_space lower_rune
newest = refl

verified_again :
    (verify_code (verify_code_uc config) second_guess platform then_world).0 ≡ ok second_pair
unfolding verify_code verify_record unusable check_code hash_verification_code issue_token_pair_for
    normalize_email trim_space to_lower find_latest_by_email find_by_email found mark_consumed
    select_user_by_email select_latest_code update_consumed_at insert_refresh_token
    create_refresh_token accepts_refresh_token issue_access_token access_claims
    new_refresh_token_value hash_refresh_token_value hex utf8 encode letter str_eq is_space
    lower_rune enter find_or_create serve perform request_code generate_verification_code
    generate_digits insert_code create_verification_code accepts_verification_code is_empty
    send_mail ◌>>=◌
verified_again = refl

-- Turns that run the later request alone.
abbrev turns : List ℕ
turns = (serve-interleaves config platform later verified_world).0

abbrev turned_world : World
turned_world = (interleave turns (pool config platform later) platform verified_world).1

verified_after_turns :
    (verify_code (verify_code_uc config) second_guess platform turned_world).0 ≡ ok second_pair
verified_after_turns =
    subst
      (λ (w : World).
        (verify_code (verify_code_uc config) second_guess platform w).0 ≡ ok second_pair)
      (sym (serve-interleaves config platform later verified_world).1) verified_again

code_never_twice_example :
    (n : VerificationCodeModel) × (latest_code platform turned_world second_guess.email ≡ some n)
    × (n.id ≢ pending.id)
unfolding interleave
code_never_twice_example =
    code_never_twice config platform world guess second_guess pending code_pair second_pair later []
      turns newest verified verified_after_turns
