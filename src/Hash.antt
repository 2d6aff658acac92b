-- ===== src/Hash.antt =====
-- internal/adapter/hash/bcrypt.go, over the functions of golang.org/x/crypto/bcrypt.
use auth_service_go.Base.{ℕ, Bool, Option, none, some}
use auth_service_go.Base.Strings.{Str, Bytes, utf8, codes}
use auth_service_go.Domain.{external}
use auth_service_go.Platform.{Result, ok, err, call}
use auth_service_go.Usecase.Ports.{PasswordHasher}

-- `GenerateFromPassword` at the default cost, whose salt the n-th call to the outside draws, and
-- whether `CompareHashAndPassword` returns nil.
pub record BcryptLib : Type 0 where
  pub generate_from_password : ℕ → Bytes → Option Str
  pub compare_hash_and_password : Str → Bytes → Bool

abbrev pub generated : Option Str → Result Str
generated none = err (external (codes "bcrypt"))
generated (some hash) = ok hash

abbrev pub bcrypt_hasher : BcryptLib → PasswordHasher
bcrypt_hasher lib = record {
  hash = λ password. call (λ p n. generated (lib.generate_from_password n (utf8 password)));
  matches = λ hash password. lib.compare_hash_and_password hash (utf8 password);
}
