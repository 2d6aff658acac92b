-- ===== src/Service/Requested.antt =====
-- A code that was requested: what is stored and delivered.
use mathlib.Core.Path.{subst}
use auth_service_go.Base.{
  ℕ, zero, suc, ◌+◌, ◌≤◌, ◌≡◌, refl, sym, none, [], ◌∷◌, ◌++◌, if◌then◌else◌, inl, inr, Bool-cases,
  Option-cases, arith,
}
use auth_service_go.Base.Strings.{Str, codes, is_empty}
use auth_service_go.Database.{VerificationCodeModel, accepts_verification_code}
use auth_service_go.Mail.{verification_mail}
use auth_service_go.Platform.{
  Platform, World, Result, ok, err, Action, Delivery, mailed, logged, wrapping, wrap_result, return,
  continue, now, new_uuid, asks, send_mail, log_code, ◌>>=◌, ◌>>◌,
}
use auth_service_go.Postgres.Repositories.{insert_code}
use auth_service_go.Postgres.Statements.{create_verification_code}
use auth_service_go.Service.{Config, code_sender, request_code_uc}
use auth_service_go.Usecase.Accounts.{normalize_email}
use auth_service_go.Usecase.Codes.{
  generate_digits, generate_verification_code, hash_verification_code, request_code,
  verification_code_length, verification_code_ttl,
}

-- What the configured sender delivers.
abbrev pub delivery : Config → Str → Str → Delivery
delivery cfg to code =
    if is_empty cfg.smtp.host then logged to code else mailed (verification_mail cfg.smtp to code)

-- The row for a code that was made at call n.
abbrev pub new_code : Platform → ℕ → Str → Str → VerificationCodeModel
new_code p n email code = record {
  id = p.uuid (n + 1);
  email = email;
  code_hash = hash_verification_code p code;
  expires_at = p.time n + verification_code_ttl;
  consumed_at = none;
  attempts = 0;
  created_at = p.time n;
}

-- The request stored one code, made at a call of its own, and delivered it to the address.
pub record IsRequested (cfg : Config) (p : Platform) (email : Str) (w w' : World) : Type 0 where
  pub code : Str
  pub made_at : ℕ
  pub not_before : w.calls ≤ made_at
  pub delivered : w'.outbox ≡ w.outbox ++ delivery cfg email code ∷ []
  pub stored : w'.db ≡ record w.db {
    verification_codes = w.db.verification_codes ++ new_code p made_at email code ∷ [];
  }

-- Drawing digits changes nothing but the number of calls.
generate_digits-calls :
    (n : ℕ) (p : Platform) (w : World)
    → (k : ℕ) × (w.calls ≤ k) × ((generate_digits n p w).1 ≡ record w { calls = k })
unfolding generate_digits ◌>>=◌
generate_digits-calls zero p w = (w.calls, omega arith, refl)
generate_digits-calls (suc n) p w = elim (Option-cases (p.random_below w.calls 10)) [
  | inl none_drawn ↦ rw none_drawn (w.calls + 1, omega arith, refl)
  | inr (digit, drawn) ↦
      let (k, later, same) = generate_digits-calls n p (record w { calls = w.calls + 1 }) in
      rw drawn (
        k,
        omega (arith, later),
        go digit k (generate_digits n p (record w { calls = w.calls + 1 })) same,
      )
]
  where
    go :
        (digit k : ℕ) (g : Result Str × World)
        → g.1 ≡ record w { calls = k }
        → (continue g.0 (λ rest. return ((b'0' + digit) ∷ rest)) p g.1).1 ≡ record w { calls = k }
    go digit k (ok rest, w1) e = e
    go digit k (err x, w1) e = e

module _ (cfg : Config) (p : Platform) (email : Str) (w : World) where
  -- The delivery, the last step.
  sent_lem :
      (code : Str) (w1 : World)
      → let sent = (code_sender cfg).send_verification_code email code p w1 in
        sent.0 ≡ ok tt
        → (sent.1.db ≡ w1.db) × (sent.1.outbox ≡ w1.outbox ++ delivery cfg email code ∷ [])
  unfolding send_mail log_code
  sent_lem code w1 h = elim (Bool-cases (is_empty cfg.smtp.host)) [
    | inl console ↦ rw console (refl, refl)
    | inr smtp ↦ elim (Bool-cases (p.fails w1.calls)) [
      | inl failed ↦ cc (rw (smtp, failed) at h)
      | inr works ↦ rw (smtp, works) (refl, refl)
    ]
  ]

  -- What follows the digits in `request_code`.
  store : Str → Action Unit
  store code = do
    t ← now
    id ← new_uuid
    hash ← asks (λ q. hash_verification_code q code)
    wrapping (codes "persisting verification code") (
        insert_code (record {
          id = id;
          email = email;
          code_hash = hash;
          expires_at = t + verification_code_ttl;
          consumed_at = none;
          attempts = 0;
          created_at = t;
        }))
    wrapping (codes "sending verification code")
        ((code_sender cfg).send_verification_code email code)

  -- The world with the code.
  with_code : Str → ℕ → World
  with_code code k = record w {
    db = record w.db {
      verification_codes = w.db.verification_codes ++ new_code p k email code ∷ [];
    };
    calls = k + 1 + 1 + 1;
  }

  delivered_lem :
      (code : Str) (k : ℕ)
      → w.calls ≤ k
      → let sent =
          wrapping
            (codes "sending verification code")
            ((code_sender cfg).send_verification_code email code)
            p
            (with_code code k) in
        sent.0 ≡ ok tt → IsRequested cfg p email w sent.1
  unfolding with_code ◌>>=◌
  delivered_lem code k later =
      go ((code_sender cfg).send_verification_code email code p (with_code code k))
        (sent_lem code (with_code code k))
    where
      go :
          (x : Result Unit × World)
          → (x.0 ≡ ok tt
              → (x.1.db ≡ (with_code code k).db)
                × (x.1.outbox ≡ w.outbox ++ delivery cfg email code ∷ []))
          → wrap_result (codes "sending verification code") x.0 ≡ ok tt
          → IsRequested cfg p email w x.1
      go (ok _, w') sent q = record {
        code = code;
        made_at = k;
        not_before = later;
        delivered = (sent refl).1;
        stored = (sent refl).0;
      }
      go (err e, w') sent q = cc

  store-IsRequested :
      (code : Str) (k : ℕ)
      → w.calls ≤ k
      → (store code p (record w { calls = k })).0 ≡ ok tt
      → IsRequested cfg p email w (store code p (record w { calls = k })).1
  unfolding store with_code insert_code create_verification_code ◌>>=◌
  store-IsRequested code k later h = elim (Bool-cases (p.fails (k + 1 + 1))) [
    | inl failed ↦ cc (rw failed at h)
    | inr works ↦ elim (Bool-cases (accepts_verification_code w.db (new_code p k email code))) [
      | inr refused ↦ cc (rw (works, refused) at h)
      | inl accepted ↦ rw (works, accepted) (delivered_lem code k later (rw (works, accepted) at h))
    ]
  ]

-- A request for a code that returns without an error has stored one code for the normalised address,
-- unused, without guesses and with ten minutes to live, and delivered it to that address; it
-- changed nothing else.
pub request_code-IsRequested :
    (cfg : Config) (p : Platform) (address : Str) (w : World)
    → (request_code (request_code_uc cfg) address p w).0 ≡ ok tt
    → IsRequested cfg p
        (normalize_email p address)
        w
        (request_code (request_code_uc cfg) address p w).1
unfolding request_code generate_verification_code ◌>>=◌ store
request_code-IsRequested cfg p address w =
    let (k, later, same) = generate_digits-calls verification_code_length p w in
    go k later (generate_digits verification_code_length p w) same
  where
    go :
        (k : ℕ)
        → w.calls ≤ k
        → (g : Result Str × World) → g.1 ≡ record w { calls = k }
        → let x =
            continue
              (wrap_result (codes "generating verification code") g.0)
              (store cfg p (normalize_email p address) w)
              p
              g.1 in
          x.0 ≡ ok tt → IsRequested cfg p (normalize_email p address) w x.1
    go k later (ok code, w1) e =
        subst
          (λ v.
            (store cfg p (normalize_email p address) w code p v).0 ≡ ok tt
            → IsRequested cfg p (normalize_email p address) w
                (store cfg p (normalize_email p address) w code p v).1)
          (sym e) (store-IsRequested cfg p (normalize_email p address) w code k later)
    go k later (err x, w1) e = λ q. cc
