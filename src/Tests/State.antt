-- ===== src/Tests/State.antt =====
-- The state for "/" that is signed at second 1.
use auth_service_go.Base.{◌+◌, ◌-◌, ◌*◌, ◌/◌, ◌≤◌, ◌≡◌, refl, some, ltb, if◌then◌else◌}
use auth_service_go.Base.Strings.{Str, Bytes, codes, utf8, str_eq}
use auth_service_go.Domain.{external}
use auth_service_go.Encoding.{
  encode, letter, decode, cut_dot, letter_value, values, from_values, drop_line_ends,
}
use auth_service_go.Jwt.{second}
use auth_service_go.Platform.{World, ok, err, ◌>>=◌}
use auth_service_go.Service.{state_signer}
use auth_service_go.Usecase.Google.{
  OAuthStateClaims, OAuthStateSigner, oauth_state_ttl, sig, sign, open_state, verify_parts, verify,
}
use auth_service_go.Usecase.Google.State.{verify-sign, verified_is_signed}
use auth_service_go.Tests.Fixtures.{platform, config, world, json-IsJson}

abbrev signer : OAuthStateSigner
signer = state_signer config

abbrev state : Str
state = codes "ew.ZXc"

abbrev later : World
later = record world { calls = 30 }

signed : (sign signer (codes "/") platform world).0 ≡ ok state
unfolding sign encode letter sig utf8 str_eq ◌>>=◌
signed = refl

verify-sign_example : (verify signer state platform later).0 ≡ (
    if ltb oauth_state_ttl
      (platform.time later.calls - platform.time (world.calls + 1) / second * second)
    then err (external (codes "oauth state expired"))
    else ok (codes "/"))
verify-sign_example = verify-sign signer platform world later (codes "/") state json-IsJson signed

verified : (verify signer state platform later).0 ≡ ok (codes "/")
unfolding verify verify_parts open_state cut_dot decode encode letter letter_value values
    from_values drop_line_ends sig utf8 str_eq ◌>>=◌
verified = refl

verified_is_signed_example :
    (encoded : Str) × (payload : Bytes) × (c : OAuthStateClaims) × (cut_dot state
      ≡ some (encoded, sig signer platform encoded))
    × (decode encoded ≡ some payload)
    × (signer.json.unmarshal payload ≡ some c)
    × (c.redirect_to ≡ codes "/")
    × (platform.time later.calls - c.issued_at * second ≤ oauth_state_ttl)
verified_is_signed_example = verified_is_signed signer platform later state (codes "/") verified
