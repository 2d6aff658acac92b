-- ===== src/Postgres/Repositories/Queries.antt =====
-- What each query of the repositories answers, by whether the statement fails and by the row that
-- it selects. A query changes no table.
use auth_service_go.Base.{
  ◌+◌, ◌≡◌, refl, Bool, true, false, Option, none, some, ◌==◌, inl, inr, Bool-cases,
}
use auth_service_go.Base.Lists.{best, exists, count_where-pos}
use auth_service_go.Base.Strings.{Str, str_eq, codes}
use auth_service_go.Domain.{Uuid, Sentinel, sentinel, wrap, external}
use auth_service_go.Platform.{Platform, World, Result, ok, err, attempt, statement, ◌>>=◌}
use auth_service_go.Postgres.Models.{
  to_domain_user, to_domain_refresh_token, to_domain_verification_code,
}
use auth_service_go.Postgres.Repositories.{
  found, exists_by_email, find_by_email, find_by_id, find_by_token_hash, find_latest_by_email,
}
use auth_service_go.Postgres.Statements.{
  Statement, first_of_rows, count_users_by_email, select_user_by_email, select_user_by_id,
  select_refresh_token, select_latest_code, user_by_id, token_by_id, newer,
}

-- The world after one call to the outside.
abbrev pub called : World → World
called w = record w { calls = w.calls + 1 }

module _ {M A : Type 0} where
  abbrev pub answer : Sentinel → Str → (M → A) → Bool → Option M → Result A
  answer missing message to_domain true o = err (wrap message (external (codes "database")))
  answer missing message to_domain false none = err (sentinel missing)
  answer missing message to_domain false (some m) = ok (to_domain m)

  query_lem :
      (missing : Sentinel) (message : Str) (to_domain : M → A) (select : Statement M) (p : Platform)
      (w : World) (o : Option M)
      → select (p.time w.calls) w.db ≡ (first_of_rows o, w.db)
      → (attempt (statement select) >>= found missing message to_domain) p w
        ≡ (answer missing message to_domain (p.fails w.calls) o, called w)
  unfolding ◌>>=◌ found
  query_lem missing message to_domain select p w o e = elim (Bool-cases (p.fails w.calls)) [
    | inl failed ↦ rw failed
    | inr works ↦ rw (works, e) (go o)
  ]
    where
      go :
          (o : Option M)
          → found missing message to_domain (first_of_rows o) p (called w)
            ≡ (answer missing message to_domain false o, called w)
      go none = refl
      go (some m) = refl

module _ (p : Platform) (w : World) where
  pub find_by_email_lem :
      (email : Str)
      → find_by_email email p w ≡ (
        answer Sentinel.user_not_found
            (codes "finding user by email")
            to_domain_user
            (p.fails w.calls)
            (best user_by_id (λ u. str_eq u.email email) w.db.users),
        called w,
      )
  unfolding find_by_email select_user_by_email
  find_by_email_lem email = query_lem _ _ _ (select_user_by_email email) p w _ refl

  pub find_by_id_lem :
      (id : Uuid)
      → find_by_id id p w ≡ (
        answer Sentinel.user_not_found
            (codes "finding user by id")
            to_domain_user
            (p.fails w.calls)
            (best user_by_id (λ u. u.id == id) w.db.users),
        called w,
      )
  unfolding find_by_id select_user_by_id
  find_by_id_lem id = query_lem _ _ _ (select_user_by_id id) p w _ refl

  pub find_by_token_hash_lem :
      (hash : Str)
      → find_by_token_hash hash p w ≡ (
        answer Sentinel.refresh_token_invalid
            (codes "finding refresh token")
            to_domain_refresh_token
            (p.fails w.calls)
            (best token_by_id (λ m. str_eq m.token_hash hash) w.db.refresh_tokens),
        called w,
      )
  unfolding find_by_token_hash select_refresh_token
  find_by_token_hash_lem hash = query_lem _ _ _ (select_refresh_token hash) p w _ refl

  pub find_latest_by_email_lem :
      (email : Str)
      → find_latest_by_email email p w ≡ (
        answer Sentinel.code_not_found
            (codes "finding verification code by email")
            to_domain_verification_code
            (p.fails w.calls)
            (best newer (λ m. str_eq m.email email) w.db.verification_codes),
        called w,
      )
  unfolding find_latest_by_email select_latest_code
  find_latest_by_email_lem email = query_lem _ _ _ (select_latest_code email) p w _ refl

  pub exists_by_email_lem :
      (email : Str)
      → p.fails w.calls ≡ false
      → exists_by_email email p w ≡ (ok (exists (λ u. str_eq u.email email) w.db.users), called w)
  unfolding exists_by_email count_users_by_email ◌>>=◌
  exists_by_email_lem email works = rw (works, count_where-pos) refl
