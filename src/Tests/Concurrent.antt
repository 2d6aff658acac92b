-- ===== src/Tests/Concurrent.antt =====
-- Requests whose calls alternate: two refreshes with the token "t", a registration and an upgrade.
use auth_service_go.Base.{ℕ, refl, inl, some, List, [], ◌∷◌}
use auth_service_go.Base.Strings.{codes, trim_space, to_lower, is_space, lower_rune}
use auth_service_go.Domain.{role_seller}
use auth_service_go.Tests.Invariants.{table_IsLowerTable}
use auth_service_go.Platform.Process.{interleave}
use auth_service_go.Service.{
  Request, refresh_request, register_request, add_role_request, verify_code_request,
}
use auth_service_go.Service.CodeLife.{Leads, code_status, interleave-Leads}
use auth_service_go.Service.Concurrent.{pool}
use auth_service_go.Service.Concurrent.Invariants.{
  interleaved, interleave-IsConsistent, interleave-Reaches, interleave-HasKnownRoles,
  interleave-HasNormalEmails, interleave-HasAccount,
}
use auth_service_go.Service.Addresses.{HasNormalEmails, HasAccount}
use auth_service_go.Service.Roles.{HasKnownRoles}
use auth_service_go.Usecase.Accounts.{normalize_email}
use auth_service_go.Service.Consistency.{IsConsistent}
use auth_service_go.Service.Lifecycle.{Reaches, status}
use auth_service_go.Tests.Fixtures.{platform, config, world, world-IsConsistent}

abbrev requests : List Request
requests = refresh_request (codes "t") ∷ refresh_request (codes "t") ∷ []

-- The turns: the lookups of both, the checks of both, the revocations of both.
abbrev schedule : List ℕ
schedule = 0 ∷ 1 ∷ 0 ∷ 1 ∷ 0 ∷ 1 ∷ []

-- A registration and an upgrade whose calls alternate.
abbrev upgrades : List Request
upgrades =
    register_request (record { email = codes " Bob@X "; password = codes "pw"; name = codes "Bob" })
    ∷ add_role_request (record { user_id = 1; role = role_seller })
    ∷ []

abbrev turns : List ℕ
turns = 0 ∷ 0 ∷ 1 ∷ 0 ∷ 0 ∷ 0 ∷ []

-- A wrong and a right guess at one code.
abbrev guesses : List Request
guesses =
    verify_code_request (record { email = codes "ana@x"; code = codes "8" })
    ∷ verify_code_request (record { email = codes "ana@x"; code = codes "7" })
    ∷ []

interleave-IsConsistent_example :
    IsConsistent (interleave schedule (pool config platform requests) platform world).1.db
interleave-IsConsistent_example =
    interleave-IsConsistent config platform schedule requests world world-IsConsistent

interleave-Reaches_example :
    Reaches (status (codes "74") world.db) (
      status (codes "74") (interleave schedule (pool config platform requests) platform world).1.db)
interleave-Reaches_example =
    interleave-Reaches config platform schedule requests world (codes "74") world-IsConsistent

interleave-HasKnownRoles_example :
    HasKnownRoles (interleaved config platform turns upgrades world).db
interleave-HasKnownRoles_example =
    interleave-HasKnownRoles config platform turns upgrades world (inl refl, tt)

interleave-HasNormalEmails_example :
    HasNormalEmails platform (interleaved config platform turns upgrades world).db
unfolding normalize_email trim_space to_lower is_space lower_rune
interleave-HasNormalEmails_example =
    interleave-HasNormalEmails config platform turns upgrades world table_IsLowerTable (refl, tt)

interleave-HasAccount_example :
    HasAccount 1
      (codes "ana@x")
      (some (codes "pw"))
      (codes "Ana")
      (interleaved config platform turns upgrades world).db
interleave-HasAccount_example =
    interleave-HasAccount config platform turns upgrades world 1 (codes "ana@x") (some (codes "pw"))
      (codes "Ana") (inl (refl, refl, refl, refl))

interleave-Leads_example :
    Leads
      (code_status 3 world.db)
      (code_status 3 (interleaved config platform schedule guesses world).db)
interleave-Leads_example =
    interleave-Leads config platform schedule guesses world 3 world-IsConsistent
