-- ===== src/Http/Guards.antt =====
-- Which requests get past the guards of the route table.
use mathlib.Core.Path.{subst}
use auth_service_go.Base.{
  ◌≡◌, refl, sym, ◌+◌, ◌∙◌, Bool, true, false, not, Option, none, some, List, [], ◌∷◌, ◌++◌, ◌&&◌,
  ◌||◌, arith, inl, inr, Bool-cases, ◌==◌, if◌then◌else◌, ◌⊎◌,
}
use auth_service_go.Base.Lists.{All, All-append, All-mono, exists, exists-All}
use auth_service_go.Base.Strings.{Str, codes, utf8, str_eq, str_eq→eq, is_empty}
use auth_service_go.Domain.{Uuid}
use auth_service_go.Http.{HttpRequest, Handler, Response, bare, answer_status}
use auth_service_go.Http.Bearer.{
  Names, authenticated, token_subject, subject_of, Names-authenticated, authenticated-Names,
}
use auth_service_go.Http.Middleware.{
  Verifier, as_user, subject, admin_api_key, require_auth, with_bearer, cut_prefix, verify_subject,
}
use auth_service_go.Http.Router.{
  RouterDeps, Route, Method, infra_routes, auth_routes, admin_routes, user_routes, new_router,
  route_to, takes,
}
use auth_service_go.Platform.{Platform, World, Result, ok, err, ◌>>=◌}

abbrev starts_with : Str → Str → Bool
starts_with [] s = true
starts_with (_ ∷ _) [] = false
starts_with (c ∷ prefix) (d ∷ s) = c == d && starts_with prefix s

both : (a b : Bool) → (a && b) ≡ true → b ≡ true
both a b h = ground arith

-- What holds of every route of a table holds of the one that serves a path.
route_to-All :
    (P : Str → Handler → Type 0) (rs : List Route) (m : Method) (path : Str) (r : Route)
    → All (λ x. P x.pattern x.handler) rs
    → route_to rs m path ≡ some r
    → P path r.handler
route_to-All P [] m path r h e = cc
route_to-All P (x ∷ rs) m path r h e =
    elim (Bool-cases (takes x.method m && str_eq x.pattern path)) [
      | inl here ↦
          let same : x ≡ r = cc (rw here at e) in
          subst (λ (y : Route). P path y.handler) same
            (subst (λ s. P s x.handler) (str_eq→eq _ _ (both (takes x.method m) _ here)) h.0)
      | inr there ↦ route_to-All P rs m path r h.1 (rw there at e)
    ]

-- The request carries the key.
abbrev pub has_key : Str → HttpRequest → Bool
has_key key r =
    not (is_empty (r.header (codes "X-Admin-Api-Key")))
    && str_eq (utf8 (r.header (codes "X-Admin-Api-Key"))) (utf8 key)

unguarded : {A : Type 0} → false ≡ true → A
unguarded h = cc

-- The routes of a table without the prefix.
outside-All :
    (prefix : Str) (P : Handler → Type 0) (rs : List Route)
    → exists (λ x. starts_with prefix x.pattern) rs ≡ false
    → All (λ x. starts_with prefix x.pattern ≡ true → P x.handler) rs
outside-All prefix P rs e =
    All-mono (λ x. starts_with prefix x.pattern ≡ false) _ (λ x no yes. unguarded (sym no ∙ yes)) rs
      (exists-All (λ x. starts_with prefix x.pattern) rs e)

refuses_no_key :
    (key : Str) (next : Handler) (r : HttpRequest) (p : Platform) (w : World)
    → has_key key r ≡ false
    → admin_api_key key next r p w ≡ (ok (bare 401), w)
unfolding admin_api_key ◌>>=◌
refuses_no_key key next r p w h = refused (is_empty (r.header (codes "X-Admin-Api-Key"))) _ h
  where
    refused :
        (a b : Bool)
        → (not a && b) ≡ false
        → (if a || not b then answer_status 401 else next r) p w ≡ (ok (bare 401), w)
    refused true b h = refl
    refused false true h = cc
    refused false false h = refl

-- A request whose path starts with /admin/ and that any route takes, without the configured key in
-- X-Admin-Api-Key, is answered 401, and nothing is done.
pub admin_needs_key :
    (d : RouterDeps) (m : Method) (path : Str) (route : Route) (r : HttpRequest) (p : Platform)
    (w : World)
    → route_to (new_router d) m path ≡ some route
    → starts_with (codes "/admin/") path ≡ true
    → has_key d.admin_api_key r ≡ false
    → route.handler r p w ≡ (ok (bare 401), w)
admin_needs_key d m path route r p w e under_admin no_key =
    route_to-All (λ path h. starts_with (codes "/admin/") path ≡ true → Refused h) (new_router d) m
      path route
      (All-append under_admin-Refused (infra_routes d)
        (auth_routes d ++ admin_routes d ++ user_routes d)
        (outside-All (codes "/admin/") Refused (infra_routes d) refl)
        (All-append under_admin-Refused (auth_routes d) (admin_routes d ++ user_routes d)
          (outside-All (codes "/admin/") Refused (auth_routes d) refl) guarded))
      e under_admin
  where
    Refused : Handler → Type 0
    Refused h = h r p w ≡ (ok (bare 401), w)

    under_admin-Refused : Route → Type 0
    under_admin-Refused x = starts_with (codes "/admin/") x.pattern ≡ true → Refused x.handler

    guarded : All under_admin-Refused (admin_routes d ++ user_routes d)
    guarded = (λ _. refuses_no_key d.admin_api_key d.bulk_create r p w no_key, (unguarded, tt))

-- How a guarded handler ends, for the account that was found.
abbrev Ends :
    Handler → HttpRequest → Platform → World → Option Uuid → Result Response × World → Type 0
Ends next r p w none x = (x.0 ≡ ok (bare 401)) × (x.1.db ≡ w.db)
Ends next r p w (some id) x =
    x ≡ next (record r { user_id = some id }) p (record w { calls = w.calls + 1 })

require_auth-Ends :
    (v : Verifier) (next : Handler) (r : HttpRequest) (p : Platform) (w : World)
    → Ends next r p w (authenticated v (p.time w.calls) r) (require_auth v next r p w)
unfolding require_auth with_bearer verify_subject ◌>>=◌
require_auth-Ends v next r p w =
    go (cut_prefix (codes "Bearer ") (r.header (codes "Authorization")))
  where
    go :
        (o : Option Str)
        → Ends next r p w (token_subject v (p.time w.calls) o) (with_bearer v next r o p w)
    go none = (refl, refl)
    go (some token) = elim (Bool-cases (is_empty token)) [
      | inl no_token ↦ rw no_token (refl, refl)
      | inr a_token ↦ rw a_token (named (subject v (v.parse (p.time w.calls) token)))
    ]
      where
        named :
            (x : Result Uuid)
            → Ends next r p w (subject_of x) (as_user next r x p (record w { calls = w.calls + 1 }))
        named (ok id) = refl
        named (err e) = (refl, refl)

-- A handler behind RequireAuth: the request names an account at the time, and the handler is run for
-- that account and the answer is its answer; or the request names no account, and the answer is 401
-- and no table changes.
abbrev pub Guarded :
    Verifier → Handler → HttpRequest → Platform → World → Result Response × World → Type 0
Guarded v next r p w x =
    ((id : Uuid) × Names v (p.time w.calls) r id
      × (x ≡ next (record r { user_id = some id }) p (record w { calls = w.calls + 1 })))
    ⊎ (((id : Uuid) → ¬ Names v (p.time w.calls) r id) × (x.0 ≡ ok (bare 401)) × (x.1.db ≡ w.db))

-- RequireAuth runs the handler for the account that the request names: the one in the claim sub of a
-- bearer token that is not empty and that parses at the time of the request. If the request names
-- none, it answers 401 and changes no table.
pub require_auth-Guarded :
    (v : Verifier) (next : Handler) (r : HttpRequest) (p : Platform) (w : World)
    → Guarded v next r p w (require_auth v next r p w)
require_auth-Guarded v next r p w =
    go (authenticated v (p.time w.calls) r) refl (require_auth-Ends v next r p w)
  where
    go :
        (o : Option Uuid)
        → authenticated v (p.time w.calls) r ≡ o
        → Ends next r p w o (require_auth v next r p w)
        → Guarded v next r p w (require_auth v next r p w)
    go none e x = inr (λ id n. cc (e, Names-authenticated v (p.time w.calls) r id n), x.0, x.1)
    go (some id) e x = inl (id, authenticated-Names v (p.time w.calls) r id e, x)

-- A request that names an account is run for it.
pub require_auth-Names :
    (v : Verifier) (next : Handler) (r : HttpRequest) (p : Platform) (w : World) (id : Uuid)
    → Names v (p.time w.calls) r id
    → require_auth v next r p w
      ≡ next (record r { user_id = some id }) p (record w { calls = w.calls + 1 })
require_auth-Names v next r p w id n =
    subst (λ o. Ends next r p w o (require_auth v next r p w))
      (Names-authenticated v (p.time w.calls) r id n) (require_auth-Ends v next r p w)
