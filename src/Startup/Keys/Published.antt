-- ===== src/Startup/Keys/Published.antt =====
-- What the thumbprint and the JWK set say of a key.
use mathlib.Core.Path.{subst}
use auth_service_go.Base.{ℕ, zero, suc, ◌*◌, ◌≡◌, ◌≤◌, refl, Option, none, some, [], ◌∷◌, arith}
use auth_service_go.Base.Lists.{length}
use auth_service_go.Base.Strings.{Str, Bytes, codes}
use auth_service_go.Encoding.{hex, encode, decode}
use auth_service_go.Encoding.RoundTrip.{decode-encode}
use auth_service_go.Platform.{ok}
use auth_service_go.Startup.Keys.{
  KeyLib, RsaPublicKey, Jwk, thumbprint, fingerprint, build_jwk_set, take,
}
use auth_service_go.Startup.Keys.BigBytes.{big_bytes, spelled, spelled-big_bytes, big_bytes-IsBytes}

pub length-hex : (bs : Bytes) → length (hex bs) ≡ 2 * length bs
unfolding hex
length-hex [] = refl
length-hex (b ∷ bs) = omega (arith, length-hex bs)

length-take : (n : ℕ) (s : Str) → n ≤ length s → length (take n s) ≡ n
length-take zero s h = refl
length-take (suc n) [] h = absurd (omega arith)
length-take (suc n) (c ∷ s) h = omega (arith, length-take n s (omega arith))

-- Where a SHA-256 digest has 32 bytes, a thumbprint has 16 characters: the slice is in range.
pub length-thumbprint :
    (lib : KeyLib) (key : RsaPublicKey) (kid : Str)
    → ((der : Bytes) → length (lib.sha256 der) ≡ 32)
    → thumbprint lib key ≡ ok kid
    → length kid ≡ 16
unfolding thumbprint
length-thumbprint lib key kid size h = go (lib.marshal_pkix key) h
  where
    go : (o : Option Bytes) → fingerprint lib o ≡ ok kid → length kid ≡ 16
    go none q = cc
    go (some der) q =
        let same : take 16 (hex (lib.sha256 der)) ≡ kid = cc in
        subst (λ k. length k ≡ 16) same
          (length-take 16 (hex (lib.sha256 der))
            (omega (arith, length-hex (lib.sha256 der), size der)))

-- The number that a field of a JWK holds, in base64 and big-endian bytes.
abbrev pub Holds : Str → ℕ → Type 0
Holds field n = (bs : Bytes) × (decode field ≡ some bs) × (spelled bs ≡ n)

holds_lem : (n : ℕ) → Holds (encode (big_bytes n)) n
holds_lem n = (big_bytes n, decode-encode (big_bytes n) (big_bytes-IsBytes n), spelled-big_bytes n)

-- A JWK that publishes a key for RS256 signatures under an id.
pub record Publishes (key : RsaPublicKey) (kid : Str) (k : Jwk) : Type 0 where
  pub rsa : k.kty ≡ codes "RSA"
  pub signing : k.use_for ≡ codes "sig"
  pub algorithm : k.alg ≡ codes "RS256"
  pub named : k.kid ≡ kid
  pub modulus : Holds k.n key.n
  pub exponent : Holds k.e key.e

-- The JWK set has one entry, with the id that was given, whose n and e decode to the modulus and the
-- exponent of the key.
pub build_jwk_set-Publishes :
    (key : RsaPublicKey) (kid : Str)
    → (k : Jwk) × (build_jwk_set key kid ≡ k ∷ []) × Publishes key kid k
unfolding build_jwk_set
build_jwk_set-Publishes key kid = (
  _,
  refl,
  record {
    rsa = refl;
    signing = refl;
    algorithm = refl;
    named = refl;
    modulus = holds_lem key.n;
    exponent = holds_lem key.e;
  },
)
