-- ===== src/Postgres/Statements/Cases.antt =====
-- An INSERT appends its row or changes nothing.
use auth_service_go.Base.{◌≡◌, true, [], ◌∷◌, ◌++◌, inl, inr, Bool-cases}
use auth_service_go.Domain.{Time}
use auth_service_go.Database.{
  Db, UserModel, RefreshTokenModel, VerificationCodeModel, accepts_user, accepts_refresh_token,
  accepts_verification_code,
}
use auth_service_go.Postgres.Statements.{
  create_user, create_refresh_token, create_verification_code,
}

module _ (P : Db → Type 0) (t : Time) (d : Db) (kept : P d) where
  pub create_user-cases :
      (m : UserModel)
      → (accepts_user d m ≡ true → P (record d { users = d.users ++ m ∷ [] }))
      → P (create_user m t d).1
  unfolding create_user
  create_user-cases m added = elim (Bool-cases (accepts_user d m)) [
    | inl accepted ↦ rw accepted (added accepted)
    | inr refused ↦ rw refused kept
  ]

  pub create_refresh_token-cases :
      (m : RefreshTokenModel)
      → (accepts_refresh_token d m ≡ true
          → P (record d { refresh_tokens = d.refresh_tokens ++ m ∷ [] }))
      → P (create_refresh_token m t d).1
  unfolding create_refresh_token
  create_refresh_token-cases m added = elim (Bool-cases (accepts_refresh_token d m)) [
    | inl accepted ↦ rw accepted (added accepted)
    | inr refused ↦ rw refused kept
  ]

  pub create_verification_code-cases :
      (m : VerificationCodeModel)
      → (accepts_verification_code d m ≡ true
          → P (record d { verification_codes = d.verification_codes ++ m ∷ [] }))
      → P (create_verification_code m t d).1
  unfolding create_verification_code
  create_verification_code-cases m added = elim (Bool-cases (accepts_verification_code d m)) [
    | inl accepted ↦ rw accepted (added accepted)
    | inr refused ↦ rw refused kept
  ]
