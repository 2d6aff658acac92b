-- ===== src/Tests.antt =====
-- Concrete inputs: a platform, a configuration and small tables, and the theorems applied to them.
mod Fixtures
mod Libraries
mod Logging
mod Invariants
mod State
mod Progress
mod Requested
mod Spent
mod Accounts
mod Codes
mod Google
mod Guesses
mod Concurrent
mod Migrated
mod Http
mod Startup
mod Transport
