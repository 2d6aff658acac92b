-- ===== src/Service/Guesses.antt =====
-- Guesses at one verification code at the same time: the lookups of all come before any of them is
-- counted.
use mathlib.Core.Path.{subst}
use auth_service_go.Base.{
  ℕ, zero, suc, ◌+◌, ◌*◌, ◌<◌, ◌≤◌, ◌≡◌, ◌≢◌, refl, sym, ap, ◌∙◌, false, none, some, List, [], ◌∷◌,
  map, leb, ltb, arith, inl, inr, Bool-cases,
}
use auth_service_go.Base.Lists.{All, All-mono, All-update_where, best, best_unique, length}
use auth_service_go.Base.Strings.{Str, str_eq, str_eq→eq}
use auth_service_go.Domain.{Time, VerificationCode, Sentinel, sentinel}
use auth_service_go.Database.{Db, VerificationCodeModel}
use auth_service_go.Platform.{Platform, World, Result, ok, err, Action, return, attempt, ◌>>=◌}
use auth_service_go.Postgres.Models.{to_domain_verification_code}
use auth_service_go.Postgres.Repositories.{find_latest_by_email, increment_attempts}
use auth_service_go.Postgres.Repositories.Queries.{called, find_latest_by_email_lem}
use auth_service_go.Postgres.Statements.{update_attempts, attempted, newer}
use auth_service_go.Service.{Config, verify_code_uc}
use auth_service_go.Service.CodeChecks.{latest_code}
use auth_service_go.Service.Consistency.{IsConsistent}
use auth_service_go.Service.Issue.{IsCalm}
use auth_service_go.Usecase.Accounts.{normalize_email}
use auth_service_go.Usecase.Codes.{
  max_verification_attempts, hash_verification_code, verify_record, unusable, check_code, reject,
}
use auth_service_go.Usecase.Ports.{TokenPair}

-- The lookup of each guess.
unfoldable pub look_each : Str → List Str → Action (List (Str × Result VerificationCode))
look_each email [] = return []
look_each email (code ∷ others) = do
  found ← attempt (find_latest_by_email email)
  rest ← look_each email others
  return ((code, found) ∷ rest)

-- The rest of each guess, with what its lookup found.
unfoldable pub check_each :
    Config → Str → List (Str × Result VerificationCode) → Action (List (Result TokenPair))
check_each cfg email [] = return []
check_each cfg email ((code, found) ∷ others) = do
  one ← attempt (verify_record (verify_code_uc cfg) email code found)
  rest ← check_each cfg email others
  return (one ∷ rest)

unfoldable pub guess_together : Config → Str → List Str → Action (List (Result TokenPair))
guess_together cfg email guesses = do looked ← look_each email guesses; check_each cfg email looked

early→ltb : (t e : ℕ) → t ≤ e → ltb e t ≡ false
early→ltb t e h = ground arith

few→leb : (n : ℕ) → n < 5 → leb 5 n ≡ false
few→leb n h = ground arith

different : (s t : Str) → s ≢ t → str_eq s t ≡ false
different s t h = elim (Bool-cases (str_eq s t)) [
  | inl same ↦ absurd (h (str_eq→eq s t same))
  | inr other ↦ other
]

abbrev after_calls : ℕ → World → World
after_calls zero w = w
after_calls (suc n) w = after_calls n (called w)

after_calls-db : (n : ℕ) (w : World) → (after_calls n w).db ≡ w.db
after_calls-db zero w = refl
after_calls-db (suc n) w = after_calls-db n (called w)

after_calls-calls : (n : ℕ) (w : World) → (after_calls n w).calls ≡ w.calls + n
after_calls-calls zero w = omega arith
after_calls-calls (suc n) w = after_calls-calls n (called w) ∙ omega arith

module _ (cfg : Config) (p : Platform) (email : Str) (m : VerificationCodeModel)
    (calm : IsCalm cfg p) where
  abbrev row : VerificationCode
  row = to_domain_verification_code m

  look_each_lem :
      (guesses : List Str) (w : World)
      → best newer (λ c. str_eq c.email email) w.db.verification_codes ≡ some m
      → look_each email guesses p w
        ≡ (ok (map (λ g. (g, ok row)) guesses), after_calls (length guesses) w)
  unfolding look_each ◌>>=◌
  look_each_lem [] w newest = refl
  look_each_lem (g ∷ guesses) w newest =
      rw
        (
          find_latest_by_email_lem p w email,
          calm.works w.calls,
          newest,
          look_each_lem guesses (called w) newest,
        )
        refl

  -- The row has a number of counted guesses.
  abbrev HasCount : ℕ → Db → Type 0
  HasCount n d =
      All (λ (c : VerificationCodeModel). c.id ≡ m.id → c.attempts ≡ n) d.verification_codes

  counted-HasCount :
      (n : ℕ) (t : Time) (d : Db) → HasCount n d → HasCount (n + 1) (update_attempts m.id t d).1
  unfolding update_attempts
  counted-HasCount n t d k = All-update_where _ _ attempted d.verification_codes (
      All-mono _ _ (λ c e. (λ hit. ground arith, λ miss same. ground arith)) d.verification_codes k)

  -- A wrong guess is refused and counted.
  abbrev wrong_result : World → Result TokenPair × World
  wrong_result w = (
    err (sentinel Sentinel.code_invalid),
    record w { calls = w.calls + 1 + 1; db = (update_attempts m.id (p.time (w.calls + 1)) w.db).1 },
  )

  wrong_lem :
      (guess : Str) (w : World)
      → m.consumed_at ≡ none
      → m.attempts < max_verification_attempts
      → p.time w.calls ≤ m.expires_at
      → hash_verification_code p guess ≢ m.code_hash
      → verify_record (verify_code_uc cfg) email guess (ok row) p w ≡ wrong_result w
  unfolding verify_record unusable check_code reject increment_attempts update_attempts ◌>>=◌
  wrong_lem guess w unused few early wrong =
      rw
        (
          unused,
          early→ltb _ _ early,
          few→leb m.attempts few,
          different _ _ wrong,
          calm.works (w.calls + 1),
        )
        refl

  check_each_lem :
      (guesses : List Str) (w : World) (n : ℕ)
      → m.consumed_at ≡ none
      → m.attempts < max_verification_attempts
      → ((k : ℕ) → k < w.calls + 2 * length guesses → p.time k ≤ m.expires_at)
      → All (λ g. hash_verification_code p g ≢ m.code_hash) guesses
      → HasCount n w.db
      → let after = check_each cfg email (map (λ g. (g, ok row)) guesses) p w in
        (after.0 ≡ ok (map (λ _. err (sentinel Sentinel.code_invalid)) guesses))
        × HasCount (n + length guesses) after.1.db
  unfolding check_each ◌>>=◌
  check_each_lem [] w n unused few early wrong k =
      (refl, All-mono _ _ (λ c e same. e same ∙ omega arith) w.db.verification_codes k)
  check_each_lem (g ∷ guesses) w n unused few early wrong k =
      let (refused, counted) =
        check_each_lem guesses (wrong_result w).1 (n + 1) unused few
          (λ j below. early j (ground arith)) wrong.1 (counted-HasCount n _ w.db k) in
      rw (wrong_lem g w unused few (early w.calls (ground arith)) wrong.0, refused)
        (
          refl,
          All-mono _ _ (λ c e same. e same ∙ omega arith)
              (check_each cfg email (map (λ g. (g, ok row)) guesses) p
                (wrong_result w).1).1.db.verification_codes
              counted,
        )

-- Guesses at one code are not limited when their lookups all come before the first count: if nothing
-- outside fails, the newest code of the address is not consumed, has fewer than five counted guesses
-- and does not expire meanwhile, and every guess is wrong, then each of the guesses, however many,
-- is compared and answered as a wrong code, never as one too many, and their number is added to the
-- guesses of the code.
pub parallel_guesses_unlimited :
    (cfg : Config) (p : Platform) (address : Str) (guesses : List Str) (w : World)
    (m : VerificationCodeModel)
    → IsCalm cfg p
    → IsConsistent w.db
    → latest_code p w address ≡ some m
    → m.consumed_at ≡ none
    → m.attempts < max_verification_attempts
    → ((k : ℕ) → k < w.calls + 3 * length guesses → p.time k ≤ m.expires_at)
    → All (λ g. hash_verification_code p g ≢ m.code_hash) guesses
    → let after = guess_together cfg (normalize_email p address) guesses p w in
      (after.0 ≡ ok (map (λ _. err (sentinel Sentinel.code_invalid)) guesses))
      × All
          (λ (c : VerificationCodeModel). c.id ≡ m.id → c.attempts ≡ m.attempts + length guesses)
          after.1.db.verification_codes
unfolding guess_together ◌>>=◌
parallel_guesses_unlimited cfg p address guesses w m calm c newest unused few early wrong =
    let email = normalize_email p address in
    let w' = after_calls (length guesses) w in
    rw (look_each_lem cfg p email m calm guesses w newest) (
      check_each_lem cfg p email m calm guesses w' m.attempts unused few
        (λ k below. early k (ground (arith, below, after_calls-calls (length guesses) w))) wrong
        (subst
          (λ d.
            All (λ (x : VerificationCodeModel). x.id ≡ m.id → x.attempts ≡ m.attempts)
              d.verification_codes)
          (sym (after_calls-db (length guesses) w))
          (All-mono _ _ (λ x same i. ap (λ (y : VerificationCodeModel). y.attempts) (same i))
            w.db.verification_codes
            (best_unique newer _ (λ (x : VerificationCodeModel). x.id) w.db.verification_codes m
              c.code_ids newest))))
