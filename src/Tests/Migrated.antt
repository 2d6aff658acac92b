-- ===== src/Tests/Migrated.antt =====
-- An account and a session of the version without roles, and an upgrade after the migrations.
use auth_service_go.Base.{refl, none, List, [], ◌∷◌}
use auth_service_go.Base.Lists.{All}
use auth_service_go.Base.Strings.{codes}
use auth_service_go.Database.{RefreshTokenModel}
use auth_service_go.Database.Migrations.{OldUserModel}
use auth_service_go.Domain.{role_seller}
use auth_service_go.Service.{Request, add_role_request}
use auth_service_go.Service.Addresses.{HasAccount}
use auth_service_go.Service.Concurrent.Invariants.{interleaved}
use auth_service_go.Service.Consistency.{IsConsistent}
use auth_service_go.Service.Migrated.{IsOldConsistent, first_world, migrated_then_served}
use auth_service_go.Service.Roles.{HasKnownRoles}
use auth_service_go.Tests.Fixtures.{platform, config, session}

abbrev old_users : List OldUserModel
old_users =
    record {
      id = 1;
      email = codes "ana@x";
      password_hash = none;
      name = codes "Ana";
      created_at = 0;
      updated_at = 0;
    }
    ∷ []

abbrev old_tokens : List RefreshTokenModel
old_tokens = session ∷ []

old-IsOldConsistent : IsOldConsistent old_users old_tokens
old-IsOldConsistent = record {
  user_ids = (tt, tt);
  user_emails = (tt, tt);
  token_ids = (tt, tt);
  token_hashes = (tt, tt);
  token_users = (refl, tt);
}

abbrev upgrades : List Request
upgrades = add_role_request (record { user_id = 1; role = role_seller }) ∷ []

migrated_then_served_example :
    let d =
      (interleaved config platform (0 ∷ 0 ∷ []) upgrades (first_world old_users old_tokens 0)).db in
    IsConsistent d
    × HasKnownRoles d
    × All (λ u. HasAccount u.id u.email u.password_hash u.name d) old_users
migrated_then_served_example =
    migrated_then_served config platform old_users old_tokens (0 ∷ 0 ∷ []) upgrades 0
      old-IsOldConsistent
