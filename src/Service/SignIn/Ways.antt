-- ===== src/Service/SignIn/Ways.antt =====
-- The three ways to sign in: password, mailed code, Google.
use auth_service_go.Base.{◌≡◌, refl, sym, ap, ◌∙◌, ◌+◌, true, some, not, leb, inl, inr, Bool-cases}
use auth_service_go.Base.Strings.{Str, str_eq}
use auth_service_go.Domain.{User, VerificationCode}
use auth_service_go.Database.{VerificationCodeModel}
use auth_service_go.Hash.{bcrypt_hasher}
use auth_service_go.Oauth.{exchange}
use auth_service_go.Platform.{Platform, World, Result, ok, err, fail, ◌>>=◌}
use auth_service_go.Platform.Returns.{
  Returns, Returns-outcome, bind-Returns, wrapping-Returns, Ensures, Ensures-bind, Ensures-after,
  Ensures-return, Ensures-if, Ensures-fail, Ensures-bind-asks, Anywhere,
}
use auth_service_go.Service.{
  Config, login_uc, verify_code_uc, complete_google_oauth_uc, state_signer,
}
use auth_service_go.Service.CodeChecks.{Accepts, latest_code, verify_code-Accepts}
use auth_service_go.Service.Credentials.{IsOpened, account_for, login_checks_password}
use auth_service_go.Service.SignIn.{
  IsSignedIn, IsFound, find_by_email-Ensures, account_of-Ensures, sign_in-Ensures,
}
use auth_service_go.Usecase.Accounts.{
  LoginInput, login, login_user, normalize_email, password_accepted,
}
use auth_service_go.Usecase.Codes.{
  max_verification_attempts, VerifyCodeInput, verify_code, verify_record, check_code, reject, enter,
}
use auth_service_go.Usecase.Google.{
  CompleteGoogleOAuthInput, CompleteGoogleOAuthResult, complete_google_oauth, complete_verified,
  sign_in, verify,
}
use auth_service_go.Usecase.Ports.{GoogleIdentity, TokenPair}

module _ (cfg : Config) (p : Platform) where
  abbrev SignsIn : Str → TokenPair → World → Type 0
  SignsIn email pair w = IsSignedIn p email pair.refresh_token w.db

  login-Ensures :
      (i : LoginInput)
      → Ensures p Anywhere (login (login_uc cfg) i) (SignsIn (normalize_email p i.email))
  unfolding login login_user
  login-Ensures i =
      Ensures-bind-asks _ _ (Ensures-bind _ _ _ (find_by_email-Ensures p cfg _) checked)
    where
      checked :
          (r : Result User)
          → Ensures p
              (λ w. IsFound (normalize_email p i.email) r w.db)
              (login_user (login_uc cfg) i.password r)
              (SignsIn (normalize_email p i.email))
      checked (ok u) =
          Ensures-if (not (password_accepted (bcrypt_hasher cfg.bcrypt) u.password_hash i.password))
            _ _ (λ _. Ensures-fail _) (λ _. sign_in-Ensures p cfg _ u)
      checked (err e) = Ensures-fail _

  enter-Ensures :
      (email : Str) (r : VerificationCode)
      → Ensures p Anywhere (enter (verify_code_uc cfg) email r) (SignsIn email)
  unfolding enter
  enter-Ensures email r =
      Ensures-after _ _ λ _. account_of-Ensures p cfg email email _ _ (sign_in-Ensures p cfg email)

  verify_record-Ensures :
      (email code : Str) (r : Result VerificationCode)
      → Ensures p Anywhere (verify_record (verify_code_uc cfg) email code r) (SignsIn email)
  unfolding verify_record check_code reject
  verify_record-Ensures email code (err e) = Ensures-fail _
  verify_record-Ensures email code (ok r) = Ensures-after _ _ λ dead.
      Ensures-if dead _ _ (λ _. Ensures-fail _)
        λ _. Ensures-after _ _ λ hash.
          Ensures-if (leb max_verification_attempts r.attempts) _ _ (λ _. Ensures-fail _)
            λ _.
              Ensures-if (not (str_eq hash r.code_hash)) _ _
                (λ _. Ensures-after _ _ λ _. Ensures-fail _) (λ _. enter-Ensures email r)

  verify_code-Ensures :
      (i : VerifyCodeInput)
      → Ensures p Anywhere
          (verify_code (verify_code_uc cfg) i)
          (SignsIn (normalize_email p i.email))
  unfolding verify_code
  verify_code-Ensures i = Ensures-bind-asks _ _ (Ensures-after _ _ (verify_record-Ensures _ i.code))

  google-Ensures :
      (to : Str) (identity : GoogleIdentity)
      → Ensures p Anywhere
          (sign_in (complete_google_oauth_uc cfg) to identity)
          (λ r w. (r.redirect_to ≡ to) × SignsIn (normalize_email p identity.email) r.tokens w)
  unfolding sign_in
  google-Ensures to identity = Ensures-bind-asks _ _ (
      account_of-Ensures p cfg _ _ _ _ λ u.
        Ensures-bind _ _ _ (sign_in-Ensures p cfg _ u) λ pair. Ensures-return _ λ w h. (refl, h))

-- A password login that returns a token pair found an account under the normalised address that has
-- a password hash, against which bcrypt accepts the given password, and leaves a session in force with the hash
-- of the returned refresh token, for an account of that address.
pub login-SignsIn :
    (cfg : Config) (p : Platform) (w : World) (i : LoginInput) (pair : TokenPair)
    → (login (login_uc cfg) i p w).0 ≡ ok pair
    → IsOpened cfg i.password (account_for p w i.email)
      × IsSignedIn p
          (normalize_email p i.email)
          pair.refresh_token
          (login (login_uc cfg) i p w).1.db
login-SignsIn cfg p w i pair h = (
  login_checks_password cfg p w i pair h,
  (login-Ensures cfg p i).at w _ pair tt (Returns-outcome (login (login_uc cfg) i) p w pair h),
)

-- A verification that returns a token pair found, as the newest code of the normalised address, one
-- that is unused, not past its expiry at the time of the check, with fewer than five counted guesses
-- and with the hash of the given text, and leaves a session in force with the hash of the returned
-- refresh token, for an account of that address: the one that was there, or a new one.
pub verify_code-SignsIn :
    (cfg : Config) (p : Platform) (w : World) (i : VerifyCodeInput) (pair : TokenPair)
    → (verify_code (verify_code_uc cfg) i p w).0 ≡ ok pair
    → ((m : VerificationCodeModel) × (latest_code p w i.email ≡ some m)
        × Accepts p (p.time (w.calls + 1)) i.code m)
      × IsSignedIn p
          (normalize_email p i.email)
          pair.refresh_token
          (verify_code (verify_code_uc cfg) i p w).1.db
verify_code-SignsIn cfg p w i pair h = (
  verify_code-Accepts cfg p w i pair h,
  (verify_code-Ensures cfg p i).at w _ pair tt
      (Returns-outcome (verify_code (verify_code_uc cfg) i) p w pair h),
)

-- What a sign-in with Google went by: a state that was verified with the returned target, and an
-- identity that the provider gave for the code afterwards, with a verified address. A session in
-- force for an account of that address, normalised, has the hash of the returned refresh token.
pub record IsGoogleSignIn (cfg : Config) (p : Platform) (i : CompleteGoogleOAuthInput)
    (w after : World) (r : CompleteGoogleOAuthResult) : Type 0 where
  pub identity : GoogleIdentity
  pub state : (verify (state_signer cfg) i.state p w).0 ≡ ok r.redirect_to
  pub given :
      (exchange cfg.google i.code p (verify (state_signer cfg) i.state p w).1).0 ≡ ok identity
  pub verified : identity.email_verified ≡ true
  pub signed_in : IsSignedIn p (normalize_email p identity.email) r.tokens.refresh_token after.db

module _ (cfg : Config) (p : Platform) (i : CompleteGoogleOAuthInput) (w after : World)
    (r : CompleteGoogleOAuthResult) where
  complete_verified-IsGoogleSignIn :
      (to : Result Str)
      → (verify (state_signer cfg) i.state p w).0 ≡ to
      → Returns
          (complete_verified (complete_google_oauth_uc cfg) i.code to)
          p
          (verify (state_signer cfg) i.state p w).1
          r
          after
      → IsGoogleSignIn cfg p i w after r
  unfolding complete_verified fail
  complete_verified-IsGoogleSignIn (err e) _ h = cc
  complete_verified-IsGoogleSignIn (ok to) state h =
      let (identity, v, exchanged, rest) = bind-Returns _ _ h in
      elim (Bool-cases identity.email_verified) [
        | inr unverified ↦ cc (rw unverified at rest)
        | inl verified ↦
            let (same, signed_in) =
              (google-Ensures cfg p to identity).at v after r tt (rw verified at rest) in
            record {
              identity = identity;
              state = state ∙ ap ok (sym same);
              given =
                  ap (λ (x : Result GoogleIdentity × World). x.0)
                    (wrapping-Returns _ _ p _ v identity exchanged);
              verified = verified;
              signed_in = signed_in;
            }
      ]

-- A sign-in with Google that returns has verified the state, which gave the redirect target, and was
-- told a verified address by the provider after that; it leaves a session in force with the hash of
-- the returned refresh token, for an account of that address, normalised: the one that was there, or
-- a new one.
pub complete_google_oauth-SignsIn :
    (cfg : Config) (p : Platform) (w : World) (i : CompleteGoogleOAuthInput)
    (r : CompleteGoogleOAuthResult)
    → (complete_google_oauth (complete_google_oauth_uc cfg) i p w).0 ≡ ok r
    → IsGoogleSignIn cfg p i w (complete_google_oauth (complete_google_oauth_uc cfg) i p w).1 r
unfolding complete_google_oauth ◌>>=◌
complete_google_oauth-SignsIn cfg p w i r h =
    complete_verified-IsGoogleSignIn cfg p i w _ r _ refl (
      Returns-outcome
        (complete_verified (complete_google_oauth_uc cfg) i.code
          (verify (state_signer cfg) i.state p w).0)
        p (verify (state_signer cfg) i.state p w).1 r h)
