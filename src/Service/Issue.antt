-- ===== src/Service/Issue.antt =====
-- Issuing a token pair when nothing outside fails: the pair is returned, and its session is added.
use auth_service_go.Base.{
  ℕ, ◌+◌, ◌≤◌, ◌≡◌, refl, Bool, true, false, none, some, List, [], ◌∷◌, ◌++◌, ◌==◌, ◌/◌, leb, arith,
  ◌∙◌,
}
use auth_service_go.Base.Lists.{
  exists, length, update_where, best, best-append, best-Any, Any-exists, exists-All,
}
use auth_service_go.Base.Updates.{exists-update_where_eq}
use auth_service_go.Base.Strings.{Str, Bytes, str_eq, str_eq_refl}
use auth_service_go.Domain.{User, Uuid, Time}
use auth_service_go.Database.{Db, RefreshTokenModel, UserModel, accepts_refresh_token}
use auth_service_go.Encoding.{encode}
use auth_service_go.Jwt.{
  AccessClaims, hash_refresh_token_value, issue_access_token, new_refresh_token_value,
  refresh_token_bytes, access_claims, second, token_issuer,
}
use auth_service_go.Platform.{Platform, World, Result, ok, ◌>>=◌}
use auth_service_go.Postgres.Repositories.{refresh_tokens, insert_refresh_token}
use auth_service_go.Postgres.Statements.{
  create_refresh_token, user_by_id, token_by_id, update_revoked_at, revoked,
}
use auth_service_go.Service.{Config}
use auth_service_go.Usecase.Accounts.{issue_token_pair_for}
use auth_service_go.Usecase.Ports.{TokenPair}

-- No statement fails, the key signs, and a digest in hexadecimal has at most the 64 characters of the
-- column.
pub record IsCalm (cfg : Config) (p : Platform) : Type 0 where
  pub works : (n : ℕ) → p.fails n ≡ false
  pub signs : (kid : Str) (c : AccessClaims) → (token : Str) × (cfg.issuer.sign kid c ≡ some token)
  pub short : (text : Str) → length (hash_refresh_token_value p text) ≤ 64

-- Issuing from call n on draws random bytes, and neither the token that they spell nor the id that is
-- drawn is that of a session.
pub record IsFresh (p : Platform) (n : ℕ) (d : Db) : Type 0 where
  pub buf : Bytes
  pub drawn : p.random (n + 1) refresh_token_bytes ≡ some buf
  pub new_id : exists (λ t. t.id == p.uuid (n + 1 + 1 + 1)) d.refresh_tokens ≡ false
  pub new_token :
      exists (λ t. str_eq t.token_hash (hash_refresh_token_value p (encode buf))) d.refresh_tokens
      ≡ false

le→leb : (m n : ℕ) → m ≤ n → leb m n ≡ true
le→leb m n h = ground arith

-- The session for an account and a refresh token, made by the calls from `w` on.
abbrev pub new_session : Config → Platform → World → Uuid → Str → RefreshTokenModel
new_session cfg p w user_id plaintext = record {
  id = p.uuid (w.calls + 1 + 1 + 1);
  user_id = user_id;
  token_hash = hash_refresh_token_value p plaintext;
  expires_at = p.time (w.calls + 1 + 1) + cfg.issuer.refresh_token_ttl;
  revoked_at = none;
  created_at = p.time (w.calls + 1 + 1);
}

-- The world after the five calls.
abbrev pub with_session : World → RefreshTokenModel → World
with_session w m = record w {
  db = record w.db { refresh_tokens = w.db.refresh_tokens ++ m ∷ [] };
  calls = w.calls + 1 + 1 + 1 + 1 + 1;
}

-- A token pair is returned, and what changes is the session that is added for its refresh token,
-- whose hash no other session has.
abbrev pub Issues : Config → Platform → World → Uuid → Result TokenPair × World → Type 0
Issues cfg p w id r =
    (pair : TokenPair) × (r ≡ (ok pair, with_session w (new_session cfg p w id pair.refresh_token)))
    × (exists (λ t. str_eq t.token_hash (hash_refresh_token_value p pair.refresh_token))
          w.db.refresh_tokens
        ≡ false)

pub issue_token_pair_for-Issues :
    (cfg : Config) (p : Platform) (u : User) (w : World)
    → IsCalm cfg p
    → IsFresh p w.calls w.db
    → exists (λ x. x.id == u.id) w.db.users ≡ true
    → Issues cfg p w u.id (issue_token_pair_for refresh_tokens (token_issuer cfg.issuer) u p w)
unfolding issue_token_pair_for issue_access_token new_refresh_token_value insert_refresh_token
    create_refresh_token accepts_refresh_token ◌>>=◌
issue_token_pair_for-Issues cfg p u w calm fresh known =
    let (text, signed) =
      calm.signs cfg.issuer.kid (access_claims cfg.issuer p u (p.time w.calls)) in
    (
      record {
        access_token = text;
        refresh_token = encode fresh.buf;
        expires_in = cfg.issuer.access_token_ttl / second;
      },
      rw
          (
            signed,
            fresh.drawn,
            fresh.new_id,
            fresh.new_token,
            known,
            le→leb _ _ (calm.short (encode fresh.buf)),
            calm.works (w.calls + 1 + 1 + 1 + 1),
          )
          refl,
      fresh.new_token,
    )

-- The pair's refresh token finds its session.
pub session_lem :
    (p : Platform) (w : World) (m : RefreshTokenModel)
    → exists (λ t. str_eq t.token_hash m.token_hash) w.db.refresh_tokens ≡ false
    → best token_by_id (λ t. str_eq t.token_hash m.token_hash) (with_session w m).db.refresh_tokens
      ≡ some m
session_lem p w m fresh =
    best-append token_by_id (λ t. str_eq t.token_hash m.token_hash) m w.db.refresh_tokens
      (exists-All _ w.db.refresh_tokens fresh) (str_eq_refl m.token_hash)

pub IsFresh-update_revoked_at :
    (p : Platform) (n : ℕ) (d : Db)
    → IsFresh p n d
    → (id : Uuid) (t : Time) → IsFresh p n (update_revoked_at id t d).1
unfolding update_revoked_at
IsFresh-update_revoked_at p n d fresh id t = record {
  buf = fresh.buf;
  drawn = fresh.drawn;
  new_id = same _ (λ m. refl) ∙ fresh.new_id;
  new_token = same _ (λ m. refl) ∙ fresh.new_token;
}
  where
    same :
        (test : RefreshTokenModel → Bool)
        → ((m : RefreshTokenModel) → test (revoked t m) ≡ test m)
        → exists test (update_where (λ m. m.id == id) (revoked t) d.refresh_tokens)
          ≡ exists test d.refresh_tokens
    same test = exists-update_where_eq _ (revoked t) test d.refresh_tokens

-- An account that a lookup selects is there by its id.
pub account-exists :
    (test : UserModel → Bool) (us : List UserModel) (u : UserModel)
    → best user_by_id test us ≡ some u
    → exists (λ x. x.id == u.id) us ≡ true
account-exists test us u found =
    Any-exists (λ x. (x.id == u.id) ≡ true) _ (λ x h. h) us
      (best-Any user_by_id test _ us u found (eqb_refl u.id))
  where
    eqb_refl : (n : ℕ) → (n == n) ≡ true
    eqb_refl n = ground arith
