-- ===== src/Http/Middleware.antt =====
-- internal/adapter/http/middleware.go: RequireAuth and AdminAPIKey, and the verifier of
-- internal/adapter/jwt/verifier.go, whose `jwt.Parse` and `uuid.Parse` are parameters.
use auth_service_go.Base.{not, Option, none, some, [], ◌∷◌, if◌then◌else◌, ◌||◌, ◌==◌}
use auth_service_go.Base.Strings.{Str, codes, utf8, str_eq, is_empty}
use auth_service_go.Domain.{Uuid, Time, external}
use auth_service_go.Http.{HttpRequest, Handler, Response, answer_status}
use auth_service_go.Platform.{Result, ok, err, Action, of_result, attempt, now, ◌>>=◌}

-- `jwt.Parse` with the public key and RS256 alone, at a time: the claims of a valid token, where a
-- claim is there with a text or not. `uuid.Parse`.
pub record Verifier : Type 0 where
  pub parse : Time → Str → Option (Str → Option Str)
  pub parse_uuid : Str → Option Uuid

abbrev pub subject : Verifier → Option (Str → Option Str) → Result Uuid
subject v none = err (external (codes "invalid token"))
subject v (some claims) = text (claims (codes "sub"))
  where
    id : Option Uuid → Result Uuid
    id none = err (external (codes "invalid sub claim"))
    id (some u) = ok u

    text : Option Str → Result Uuid
    text none = err (external (codes "token missing sub claim"))
    text (some sub) = id (v.parse_uuid sub)

unfoldable pub verify_subject : Verifier → Str → Action Uuid
verify_subject v token = do t ← now; of_result (subject v (v.parse t token))

-- The context of a request holds at most the user's id.
abbrev pub context_with_user_id : HttpRequest → Uuid → HttpRequest
context_with_user_id r id = record r { user_id = some id }

abbrev pub user_id_from_context : HttpRequest → Option Uuid
user_id_from_context r = r.user_id

-- `strings.CutPrefix`.
unfoldable pub cut_prefix : Str → Str → Option Str
cut_prefix [] s = some s
cut_prefix (_ ∷ _) [] = none
cut_prefix (c ∷ prefix) (d ∷ s) = let rest = cut_prefix prefix s in if c == d then rest else none

abbrev pub as_user : Handler → HttpRequest → Result Uuid → Action Response
as_user next r (err e) = answer_status 401
as_user next r (ok id) = next (context_with_user_id r id)

unfoldable pub with_bearer : Verifier → Handler → HttpRequest → Option Str → Action Response
with_bearer v next r none = answer_status 401
with_bearer v next r (some token) =
    if is_empty token
    then answer_status 401
    else attempt (verify_subject v token) >>= as_user next r

unfoldable pub require_auth : Verifier → Handler → Handler
require_auth v next r =
    with_bearer v next r (cut_prefix (codes "Bearer ") (r.header (codes "Authorization")))

-- `subtle.ConstantTimeCompare` is 1 where the bytes are equal.
unfoldable pub admin_api_key : Str → Handler → Handler
admin_api_key expected next r =
    let provided = r.header (codes "X-Admin-Api-Key") in
    if is_empty provided || not (str_eq (utf8 provided) (utf8 expected))
    then answer_status 401
    else next r
