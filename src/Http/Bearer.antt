-- ===== src/Http/Bearer.antt =====
-- Which account a request names, as RequireAuth of internal/adapter/http/middleware.go finds it.
use auth_service_go.Base.{
  ◌≡◌, ◌≢◌, refl, ◌∙◌, false, Option, none, some, [], ◌∷◌, ◌++◌, arith, inl, inr, Bool-cases,
  Option-cases, ◌==◌, if◌then◌else◌,
}
use auth_service_go.Base.Strings.{Str, codes, is_empty}
use auth_service_go.Domain.{Uuid, Time}
use auth_service_go.Http.{HttpRequest}
use auth_service_go.Http.Middleware.{Verifier, subject, cut_prefix}
use auth_service_go.Platform.{Result, ok, err}

-- The request names an account at a time: it carries a bearer token that is not empty and that parses
-- at the time, and the claim sub of the token is the text of the account's id.
pub record Names (v : Verifier) (t : Time) (r : HttpRequest) (id : Uuid) : Type 0 where
  pub token : Str
  pub claims : Str → Option Str
  pub sub : Str
  pub carried : r.header (codes "Authorization") ≡ codes "Bearer " ++ token
  pub not_empty : token ≢ []
  pub valid : v.parse t token ≡ some claims
  pub claimed : claims (codes "sub") ≡ some sub
  pub read : v.parse_uuid sub ≡ some id

cut_prefix-append : (prefix s : Str) → cut_prefix prefix (prefix ++ s) ≡ some s
unfolding cut_prefix
cut_prefix-append [] s = refl
cut_prefix-append (c ∷ prefix) s =
    rw (cut_prefix-append prefix s)
      (elim (Bool-cases (c == c)) [ inl e ↦ rw e | inr e ↦ absurd (ground arith) ])

cut_prefix-eq : (prefix s rest : Str) → cut_prefix prefix s ≡ some rest → s ≡ prefix ++ rest
unfolding cut_prefix
cut_prefix-eq [] s rest h = cc
cut_prefix-eq (_ ∷ _) [] rest h = cc
cut_prefix-eq (c ∷ prefix) (d ∷ s) rest h = elim (Bool-cases (c == d)) [
  | inl e ↦
      let tail = cut_prefix-eq prefix s rest (rw e at h) in
      let same : c ≡ d = ground arith in rw (same, tail)
  | inr e ↦ cc (rw e at h)
]

ne→is_empty : (s : Str) → s ≢ [] → is_empty s ≡ false
unfolding is_empty
ne→is_empty [] h = absurd (h refl)
ne→is_empty (c ∷ s) h = refl

is_empty→ne : (s : Str) → is_empty s ≡ false → s ≢ []
unfolding is_empty
is_empty→ne [] h = cc
is_empty→ne (c ∷ s) h = λ e. cc

abbrev pub subject_of : Result Uuid → Option Uuid
subject_of (ok id) = some id
subject_of (err e) = none

abbrev pub token_subject : Verifier → Time → Option Str → Option Uuid
token_subject v t none = none
token_subject v t (some token) =
    if is_empty token then none else subject_of (subject v (v.parse t token))

-- The account that the code finds in a request.
abbrev pub authenticated : Verifier → Time → HttpRequest → Option Uuid
authenticated v t r =
    token_subject v t (cut_prefix (codes "Bearer ") (r.header (codes "Authorization")))

module _ (v : Verifier) (t : Time) (r : HttpRequest) (id : Uuid) where
  pub Names-authenticated : Names v t r id → authenticated v t r ≡ some id
  Names-authenticated n =
      rw
        (
          n.carried,
          cut_prefix-append (codes "Bearer ") n.token,
          ne→is_empty n.token n.not_empty,
          n.valid,
          n.claimed,
          n.read,
        )
        refl

  pub authenticated-Names : authenticated v t r ≡ some id → Names v t r id
  authenticated-Names h =
      elim (Option-cases (cut_prefix (codes "Bearer ") (r.header (codes "Authorization")))) [
        | inl no_token ↦ cc (rw no_token at h)
        | inr (token, cut) ↦ bearer token cut (rw cut at h)
      ]
    where
      bearer :
          (token : Str)
          → cut_prefix (codes "Bearer ") (r.header (codes "Authorization")) ≡ some token
          → token_subject v t (some token) ≡ some id
          → Names v t r id
      bearer token cut q = elim (Bool-cases (is_empty token)) [
        | inl empty ↦ cc (rw empty at q)
        | inr not_empty ↦ elim (Option-cases (v.parse t token)) [
          | inl invalid ↦ cc (rw (not_empty, invalid) at q)
          | inr (claims, valid) ↦ elim (Option-cases (claims (codes "sub"))) [
            | inl missing ↦ cc (rw (not_empty, valid, missing) at q)
            | inr (sub, claimed) ↦ elim (Option-cases (v.parse_uuid sub)) [
              | inl no_id ↦ cc (rw (not_empty, valid, claimed, no_id) at q)
              | inr (found, read) ↦
                  let same : some found ≡ some id = rw (not_empty, valid, claimed, read) at q in
                  record {
                    token = token;
                    claims = claims;
                    sub = sub;
                    carried = cut_prefix-eq _ _ token cut;
                    not_empty = is_empty→ne token not_empty;
                    valid = valid;
                    claimed = claimed;
                    read = read ∙ same;
                  }
            ]
          ]
        ]
      ]
