-- ===== src/Tests/Invariants.antt =====
-- The invariants of a run, at a run that uses several requests.
use auth_service_go.Base.{◌≡◌, refl, List, [], ◌∷◌, arith}
use auth_service_go.Base.Strings.{codes, lower_rune}
use auth_service_go.Base.Strings.Trim.{IsLowerTable}
use auth_service_go.Service.{
  Request, serve, register_request, refresh_request, verify_code_request, add_role_request,
}
use auth_service_go.Service.Addresses.{normalize_email_idem}
use auth_service_go.Service.Attempts.{IsGuarded, serve-IsGuarded}
use auth_service_go.Domain.{role_seller}
use auth_service_go.Usecase.Accounts.{normalize_email}
use auth_service_go.Tests.Fixtures.{platform, config, world, world-IsConsistent}

abbrev requests : List Request
requests =
    register_request (record { email = codes " Bob@X "; password = codes "pw"; name = codes "Bob" })
    ∷ verify_code_request (record { email = codes "ana@x"; code = codes "8" })
    ∷ add_role_request (record { user_id = 1; role = role_seller })
    ∷ refresh_request (codes "t")
    ∷ []

pub table_IsLowerTable : IsLowerTable platform.lower_table
unfolding lower_rune
table_IsLowerTable = record { lowered = λ c h. ground arith; spaces = λ c h. refl }

serve-IsGuarded_example : IsGuarded (serve config requests platform world).db
serve-IsGuarded_example =
    serve-IsGuarded config platform requests world
      (record { consistent = world-IsConsistent; counted = (omega arith, tt) })

normalize_email_idem_example :
    normalize_email platform (normalize_email platform (codes " Bob@X "))
    ≡ normalize_email platform (codes " Bob@X ")
normalize_email_idem_example = normalize_email_idem platform (codes " Bob@X ") table_IsLowerTable
