-- ===== src/Tests/Guesses.antt =====
-- Seven wrong guesses at the code "7", which has four counted guesses.
use auth_service_go.Base.{◌≡◌, ◌+◌, ◌≢◌, refl, false, some, List, [], ◌∷◌, map, arith}
use auth_service_go.Base.Lists.{All, All-mono, exists-All, length}
use auth_service_go.Base.Strings.{
  Str, codes, utf8, trim_space, to_lower, is_space, lower_rune, str_eq, str_eq_iff,
}
use auth_service_go.Database.{VerificationCodeModel}
use auth_service_go.Domain.{Sentinel, sentinel}
use auth_service_go.Encoding.{hex}
use auth_service_go.Platform.{ok, err}
use auth_service_go.Service.CodeChecks.{latest_code}
use auth_service_go.Service.Guesses.{guess_together, parallel_guesses_unlimited}
use auth_service_go.Usecase.Accounts.{normalize_email}
use auth_service_go.Usecase.Codes.{hash_verification_code}
use auth_service_go.Tests.Fixtures.{platform, config, world, world-IsConsistent, pending}
use auth_service_go.Tests.Progress.{calm}

abbrev guesses : List Str
guesses = codes "0" ∷ codes "1" ∷ codes "2" ∷ codes "3" ∷ codes "4" ∷ codes "5" ∷ codes "6" ∷ []

newest : latest_code platform world (codes "ana@x") ≡ some pending
unfolding normalize_email trim_space to_lower str_eq is_space lower_rune
newest = refl

unequal : (s t : Str) → str_eq s t ≡ false → s ≢ t
unequal s t h e = ground (arith, str_eq_iff s t)

wrong : All (λ g. hash_verification_code platform g ≢ pending.code_hash) guesses
unfolding hash_verification_code hex utf8 str_eq
wrong =
    All-mono (λ g. str_eq (hash_verification_code platform g) pending.code_hash ≡ false)
      (λ g. hash_verification_code platform g ≢ pending.code_hash)
      (λ g h. unequal (hash_verification_code platform g) pending.code_hash h) guesses
      (exists-All (λ g. str_eq (hash_verification_code platform g) pending.code_hash) guesses refl)

parallel_guesses_unlimited_example :
    let after =
      guess_together config (normalize_email platform (codes "ana@x")) guesses platform world in
    (after.0 ≡ ok (map (λ _. err (sentinel Sentinel.code_invalid)) guesses))
    × All
        (λ (c : VerificationCodeModel). c.id ≡ 3 → c.attempts ≡ 4 + length guesses)
        after.1.db.verification_codes
parallel_guesses_unlimited_example =
    parallel_guesses_unlimited config platform (codes "ana@x") guesses world pending calm
      world-IsConsistent newest refl (omega arith) (λ k below. omega arith) wrong
