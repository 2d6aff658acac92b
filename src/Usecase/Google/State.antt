-- ===== src/Usecase/Google/State.antt =====
-- The state parameter: what is signed is accepted until it expires, and what is accepted is signed.
use auth_service_go.Base.{
  ℕ, ◌+◌, ◌-◌, ◌*◌, ◌/◌, ◌≤◌, ◌≡◌, refl, sym, ap, ◌∙◌, Option, none, some, ◌∷◌, ◌++◌, ltb, arith,
  if◌then◌else◌, inl, inr, Bool-cases,
}
use auth_service_go.Base.Strings.{Str, Bytes, codes, str_eq, str_eq_refl, str_eq→eq}
use auth_service_go.Domain.{wrap, external}
use auth_service_go.Encoding.{encode, decode, cut_dot}
use auth_service_go.Encoding.RoundTrip.{IsBytes, decode-encode, cut_dot-encode}
use auth_service_go.Jwt.{second}
use auth_service_go.Platform.{Platform, World, Result, ok, err, ◌>>=◌}
use auth_service_go.Usecase.Google.{
  OAuthStateClaims, ClaimsJson, OAuthStateSigner, oauth_state_ttl, sig, sign, open_state,
  verify_parts, verify,
}

-- Encoding/json at the claims of a state: parsing gives back what was written, which is bytes.
pub record IsJson (json : ClaimsJson) : Type 0 where
  pub parses :
      (c : OAuthStateClaims) (payload : Bytes)
      → json.marshal c ≡ some payload
      → json.unmarshal payload ≡ some c
  pub bytes :
      (c : OAuthStateClaims) (payload : Bytes) → json.marshal c ≡ some payload → IsBytes payload

abbrev pub state_of : OAuthStateSigner → Platform → Bytes → Str
state_of s p payload = encode payload ++ b'.' ∷ sig s p (encode payload)

-- The claims that a call of `sign` writes.
abbrev claims_at : Platform → World → Str → Bytes → OAuthStateClaims
claims_at p w redirect_to nonce = record {
  nonce = encode nonce;
  redirect_to = redirect_to;
  issued_at = p.time (w.calls + 1) / second;
}

-- What `sign` answers, by the random bytes and by the JSON encoder.
abbrev sealed : OAuthStateSigner → Platform → Option Bytes → Result Str
sealed s p none = err (wrap (codes "encoding oauth state") (external (codes "json")))
sealed s p (some payload) = ok (state_of s p payload)

abbrev sign_result : OAuthStateSigner → Platform → World → Str → Option Bytes → Result Str
sign_result s p w redirect_to none =
    err (wrap (codes "generating oauth state nonce") (external (codes "rand")))
sign_result s p w redirect_to (some nonce) =
    sealed s p (s.json.marshal (claims_at p w redirect_to nonce))

sign_lem :
    (s : OAuthStateSigner) (p : Platform) (w : World) (redirect_to : Str)
    → (sign s redirect_to p w).0 ≡ sign_result s p w redirect_to (p.random w.calls 16)
unfolding sign ◌>>=◌
sign_lem s p w redirect_to = ground arith

sealed-eq-ok :
    (s : OAuthStateSigner) (p : Platform) (o : Option Bytes) (state : Str)
    → sealed s p o ≡ ok state
    → (payload : Bytes) × (o ≡ some payload) × (state ≡ state_of s p payload)
sealed-eq-ok s p none state h = cc
sealed-eq-ok s p (some payload) state h = (payload, refl, cc)

sign-eq-ok :
    (s : OAuthStateSigner) (p : Platform) (w : World) (redirect_to state : Str)
    → (sign s redirect_to p w).0 ≡ ok state
    → (c : OAuthStateClaims) × (payload : Bytes) × (s.json.marshal c ≡ some payload)
      × (c.redirect_to ≡ redirect_to)
      × (c.issued_at ≡ p.time (w.calls + 1) / second)
      × (state ≡ state_of s p payload)
sign-eq-ok s p w redirect_to state h =
    go (p.random w.calls 16) (sym (sign_lem s p w redirect_to) ∙ h)
  where
    go :
        (o : Option Bytes)
        → sign_result s p w redirect_to o ≡ ok state
        → (c : OAuthStateClaims) × (payload : Bytes) × (s.json.marshal c ≡ some payload)
          × (c.redirect_to ≡ redirect_to)
          × (c.issued_at ≡ p.time (w.calls + 1) / second)
          × (state ≡ state_of s p payload)
    go none q = cc
    go (some nonce) q =
        let (payload, e, made) = sealed-eq-ok s p _ state q in
        (claims_at p w redirect_to nonce, payload, e, refl, refl, made)

open_state_lem :
    (s : OAuthStateSigner) (j : IsJson s.json) (p : Platform) (w : World) (c : OAuthStateClaims)
    (payload : Bytes)
    → s.json.marshal c ≡ some payload
    → (open_state s (encode payload) p w).0 ≡ (
        if ltb oauth_state_ttl (p.time w.calls - c.issued_at * second)
        then err (external (codes "oauth state expired"))
        else ok c.redirect_to)
unfolding open_state ◌>>=◌
open_state_lem s j p w c payload e =
    rw (decode-encode payload (j.bytes c payload e), j.parses c payload e)
      (elim (Bool-cases (ltb oauth_state_ttl (p.time w.calls - c.issued_at * second))) [
        | inl expired ↦ rw expired
        | inr fresh ↦ rw fresh
      ])

verify-state_of :
    (s : OAuthStateSigner) (p : Platform) (w : World) (payload : Bytes)
    → verify s (state_of s p payload) p w ≡ open_state s (encode payload) p w
unfolding verify verify_parts ◌>>=◌
verify-state_of s p w payload =
    rw (cut_dot-encode payload (sig s p (encode payload)))
      (rw (str_eq_refl (sig s p (encode payload))) refl)

-- A state that was signed is accepted later, with the redirect target that it was signed for, until
-- more than ten minutes have passed since the second of its signing; then it is refused as expired.
-- The JSON decoder undoes the encoder.
pub verify-sign :
    (s : OAuthStateSigner) (p : Platform) (w later : World) (redirect_to state : Str)
    → IsJson s.json
    → (sign s redirect_to p w).0 ≡ ok state
    → (verify s state p later).0 ≡ (
        if ltb oauth_state_ttl (p.time later.calls - p.time (w.calls + 1) / second * second)
        then err (external (codes "oauth state expired"))
        else ok redirect_to)
verify-sign s p w later redirect_to state j h =
    let (c, payload, e, to, at, made) = sign-eq-ok s p w redirect_to state h in
    rw (made, verify-state_of s p later payload, open_state_lem s j p later c payload e, to, at)
      refl

-- What `open_state` answers, by the decoders.
abbrev timely : ℕ → Option OAuthStateClaims → Result Str
timely t none = err (wrap (codes "parsing oauth state") (external (codes "json")))
timely t (some c) =
    if ltb oauth_state_ttl (t - c.issued_at * second)
    then err (external (codes "oauth state expired"))
    else ok c.redirect_to

abbrev opened : OAuthStateSigner → ℕ → Option Bytes → Result Str
opened s t none = err (wrap (codes "decoding oauth state") (external (codes "base64")))
opened s t (some payload) = timely t (s.json.unmarshal payload)

opened_lem :
    (s : OAuthStateSigner) (p : Platform) (w : World) (encoded : Str)
    → (open_state s encoded p w).0 ≡ opened s (p.time w.calls) (decode encoded)
unfolding open_state ◌>>=◌
opened_lem s p w encoded = ground arith

timely-eq-ok :
    (t : ℕ) (o : Option OAuthStateClaims) (redirect_to : Str)
    → timely t o ≡ ok redirect_to
    → (c : OAuthStateClaims) × (o ≡ some c)
      × (c.redirect_to ≡ redirect_to)
      × (t - c.issued_at * second ≤ oauth_state_ttl)
timely-eq-ok t none redirect_to h = cc
timely-eq-ok t (some c) redirect_to h = (c, refl, ground arith, ground arith)

opened-eq-ok :
    (s : OAuthStateSigner) (t : ℕ) (o : Option Bytes) (redirect_to : Str)
    → opened s t o ≡ ok redirect_to
    → (payload : Bytes) × (o ≡ some payload)
      × (timely t (s.json.unmarshal payload) ≡ ok redirect_to)
opened-eq-ok s t none redirect_to h = cc
opened-eq-ok s t (some payload) redirect_to h = (payload, refl, h)

verify_parts-eq-ok :
    (s : OAuthStateSigner) (p : Platform) (w : World) (o : Option (Str × Str)) (redirect_to : Str)
    → (verify_parts s o p w).0 ≡ ok redirect_to
    → (encoded : Str) × (o ≡ some (encoded, sig s p encoded))
      × ((open_state s encoded p w).0 ≡ ok redirect_to)
unfolding verify_parts ◌>>=◌
verify_parts-eq-ok s p w none redirect_to h = cc
verify_parts-eq-ok s p w (some (encoded, signature)) redirect_to h =
    elim (Bool-cases (str_eq signature (sig s p encoded))) [
      | inl same ↦ (encoded, ap (λ t. some (encoded, t)) (str_eq→eq _ _ same), rw same at h)
      | inr other ↦ cc (rw other at h)
    ]

-- A state is accepted only if it is a text, a dot and the signature of that text under the secret,
-- the text holds claims with the returned target, and the claims' age is at most ten minutes.
pub verified_is_signed :
    (s : OAuthStateSigner) (p : Platform) (w : World) (state redirect_to : Str)
    → (verify s state p w).0 ≡ ok redirect_to
    → (encoded : Str) × (payload : Bytes) × (c : OAuthStateClaims) × (cut_dot state
        ≡ some (encoded, sig s p encoded))
      × (decode encoded ≡ some payload)
      × (s.json.unmarshal payload ≡ some c)
      × (c.redirect_to ≡ redirect_to)
      × (p.time w.calls - c.issued_at * second ≤ oauth_state_ttl)
unfolding verify
verified_is_signed s p w state redirect_to h =
    let (encoded, parts, q) = verify_parts-eq-ok s p w (cut_dot state) redirect_to h in
    let (payload, e, r) = opened-eq-ok s _ _ redirect_to (sym (opened_lem s p w encoded) ∙ q) in
    let (c, f, to, young) = timely-eq-ok _ _ redirect_to r in
    (encoded, payload, c, parts, e, f, to, young)
