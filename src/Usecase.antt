-- ===== src/Usecase.antt =====
-- internal/usecase: the ports and the use cases, a module for each group of files.
pub mod Ports
pub mod Accounts
pub mod Sessions
pub mod Codes
pub mod Google
