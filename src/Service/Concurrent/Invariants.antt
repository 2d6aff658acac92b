-- ===== src/Service/Concurrent/Invariants.antt =====
-- What holds whatever requests run at the same time, in whatever order their calls come and whatever
-- fails.
use auth_service_go.Base.{ℕ, Option, List}
use auth_service_go.Base.Strings.{Str}
use auth_service_go.Base.Strings.Trim.{IsLowerTable}
use auth_service_go.Domain.{Uuid}
use auth_service_go.Platform.{Platform, World}
use auth_service_go.Platform.Process.{interleave}
use auth_service_go.Service.{Config, Request}
use auth_service_go.Service.Addresses.{
  HasNormalEmails, HasNormalEmails-steady, HasAccount, HasAccount-steady,
}
use auth_service_go.Service.Concurrent.{pool, interleave-steady}
use auth_service_go.Service.Consistency.{IsConsistent, IsConsistent-steady}
use auth_service_go.Service.Lifecycle.{Reaches, status, db-Reaches, IsKnown-steady}
use auth_service_go.Service.Roles.{HasKnownRoles, HasKnownRoles-steady}
use auth_service_go.Service.Sessions.{IsSpent-steady}

-- The world after the turns of a schedule.
abbrev pub interleaved : Config → Platform → List ℕ → List Request → World → World
interleaved cfg p schedule requests w = (interleave schedule (pool cfg p requests) p w).1

-- If ids, addresses and token hashes are unique and every session belongs to an account, then they
-- are so after any turns of any requests, in whatever order the calls come and whatever fails.
pub interleave-IsConsistent :
    (cfg : Config) (p : Platform) (schedule : List ℕ) (requests : List Request) (w : World)
    → IsConsistent w.db
    → IsConsistent (interleaved cfg p schedule requests w).db
interleave-IsConsistent cfg p = interleave-steady cfg p (IsConsistent-steady p)

-- If each account's roles are CUSTOMER alone or CUSTOMER and SELLER, in this order and once each,
-- then they are so after any turns of any requests, in whatever order the calls come and whatever
-- fails.
pub interleave-HasKnownRoles :
    (cfg : Config) (p : Platform) (schedule : List ℕ) (requests : List Request) (w : World)
    → HasKnownRoles w.db
    → HasKnownRoles (interleaved cfg p schedule requests w).db
interleave-HasKnownRoles cfg p = interleave-steady cfg p (HasKnownRoles-steady p)

-- If every account's address is normalised, then it is after any turns of any requests, in whatever
-- order the calls come and whatever fails, if Unicode's lower-case table leaves its own results alone
-- and maps spaces, and only spaces, to spaces.
pub interleave-HasNormalEmails :
    (cfg : Config) (p : Platform) (schedule : List ℕ) (requests : List Request) (w : World)
    → IsLowerTable p.lower_table
    → HasNormalEmails p w.db
    → HasNormalEmails p (interleaved cfg p schedule requests w).db
interleave-HasNormalEmails cfg p schedule requests w h =
    interleave-steady cfg p (HasNormalEmails-steady p h) schedule requests w

-- No turns of any requests, in whatever order the calls come, remove an account or change its id,
-- address, password hash or name.
pub interleave-HasAccount :
    (cfg : Config) (p : Platform) (schedule : List ℕ) (requests : List Request) (w : World)
    (id : Uuid) (email : Str) (hash : Option Str) (name : Str)
    → HasAccount id email hash name w.db
    → HasAccount id email hash name (interleaved cfg p schedule requests w).db
interleave-HasAccount cfg p schedule requests w id email hash name =
    interleave-steady cfg p (HasAccount-steady p id email hash name) schedule requests w

-- Refinement of the session's state machine, for requests at the same time: if ids and token hashes
-- are unique, then whatever order the calls come in and whatever fails, the status of every token
-- hash goes along the steps unknown, in force, closed, and never back.
pub interleave-Reaches :
    (cfg : Config) (p : Platform) (schedule : List ℕ) (requests : List Request) (w : World)
    (hash : Str)
    → IsConsistent w.db
    → Reaches (status hash w.db) (status hash (interleaved cfg p schedule requests w).db)
interleave-Reaches cfg p schedule requests w hash c =
    db-Reaches hash w.db _ c (interleave-steady cfg p (IsKnown-steady hash p) schedule requests w)
      (interleave-steady cfg p (IsSpent-steady hash p) schedule requests w)
