-- ===== src/Startup/Keys.antt =====
-- internal/adapter/jwt/keys.go and jwks.go: the key pair that is loaded or made at the start, its
-- thumbprint, and the JWK set of its public half. crypto/rsa, crypto/x509 and encoding/pem are
-- parameters.
pub mod BigBytes
pub mod Restart
pub mod Published
use auth_service_go.Base.{
  ℕ, zero, suc, Bool, true, false, Option, none, some, List, [], ◌∷◌, if◌then◌else◌,
}
use auth_service_go.Base.Strings.{Str, Bytes, codes}
use auth_service_go.Domain.{external}
use auth_service_go.Encoding.{hex, encode}
use auth_service_go.Platform.{Result, ok, err}
use auth_service_go.Startup.{
  Boot, give, ask, noting, file_exists, read_file, write_file, make_directory, ◌>>=◌, ◌>>◌,
}
use auth_service_go.Startup.Keys.BigBytes.{big_bytes}

pub record RsaPublicKey : Type 0 where
  pub n : ℕ
  pub e : ℕ

pub record RsaPrivateKey : Type 0 where
  pub public : RsaPublicKey
  -- The private exponent.
  pub d : ℕ

-- The libraries: `rsa.GenerateKey`, `x509.MarshalPKCS1PrivateKey` and its parser,
-- `x509.MarshalPKIXPublicKey`, `pem.EncodeToMemory` and the bytes of `pem.Decode`'s block,
-- `filepath.Dir`, `sha256.Sum256`.
pub record KeyLib : Type 0 where
  pub generate : ℕ → Option RsaPrivateKey
  pub marshal_pkcs1 : RsaPrivateKey → Bytes
  pub parse_pkcs1 : Bytes → Option RsaPrivateKey
  pub marshal_pkix : RsaPublicKey → Option Bytes
  pub pem_encode : Str → Bytes → Bytes
  pub pem_decode : Bytes → Option Bytes
  pub dir : Str → Str
  pub sha256 : Bytes → Bytes

abbrev pub or_fail : {A : Type 0} → Str → Option A → Result A
or_fail message (some a) = ok a
or_fail message none = err (external message)

abbrev pub take : ℕ → Str → Str
take zero s = []
take (suc n) [] = []
take (suc n) (c ∷ s) = c ∷ take n s

-- `fileExists(privPath) && fileExists(pubPath)`.
unfoldable pub both_exist : Str → Str → Boot Bool
both_exist private_path public_path = do
  there ← file_exists private_path
  if there then file_exists public_path else give (ok false)

module _ (lib : KeyLib) where
  unfoldable pub load_private_key : Str → Boot RsaPrivateKey
  load_private_key path = do
    content ← noting (codes "reading private key file") (read_file path)
    block ← give (or_fail (codes "no PEM block found") (lib.pem_decode content))
    noting (codes "parsing private key") (give (or_fail (codes "x509") (lib.parse_pkcs1 block)))

  unfoldable pub save_private_key : Str → RsaPrivateKey → Boot Unit
  save_private_key path key = do
    noting (codes "creating key directory") (make_directory (lib.dir path))
    write_file path (lib.pem_encode (codes "RSA PRIVATE KEY") (lib.marshal_pkcs1 key))

  unfoldable pub save_public_key : Str → RsaPublicKey → Boot Unit
  save_public_key path key = do
    noting (codes "creating key directory") (make_directory (lib.dir path))
    der ←
        noting (codes "marshalling public key")
          (give (or_fail (codes "x509") (lib.marshal_pkix key)))
    write_file path (lib.pem_encode (codes "PUBLIC KEY") der)

  unfoldable pub generate_key_pair : Str → Str → Boot RsaPrivateKey
  generate_key_pair private_path public_path = do
    drawn ← ask lib.generate
    key ← noting (codes "generating RSA key pair") (give (or_fail (codes "rsa") drawn))
    save_private_key private_path key
    save_public_key public_path key.public
    give (ok key)

  unfoldable pub load_or_generate_key_pair : Str → Str → Boot RsaPrivateKey
  load_or_generate_key_pair private_path public_path = do
    there ← both_exist private_path public_path
    if there then load_private_key private_path else generate_key_pair private_path public_path

  -- A digest is long enough for the slice `[:16]`.
  abbrev pub fingerprint : Option Bytes → Result Str
  fingerprint none = err (external (codes "marshalling public key"))
  fingerprint (some der) = ok (take 16 (hex (lib.sha256 der)))

  unfoldable pub thumbprint : RsaPublicKey → Result Str
  thumbprint key = fingerprint (lib.marshal_pkix key)

-- jwks.go.
pub record Jwk : Type 0 where
  pub kty : Str
  pub use_for : Str
  pub kid : Str
  pub alg : Str
  pub n : Str
  pub e : Str

unfoldable pub build_jwk_set : RsaPublicKey → Str → List Jwk
build_jwk_set key kid =
    record {
      kty = codes "RSA";
      use_for = codes "sig";
      kid = kid;
      alg = codes "RS256";
      n = encode (big_bytes key.n);
      e = encode (big_bytes key.e);
    }
    ∷ []
