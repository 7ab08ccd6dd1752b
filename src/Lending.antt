-- ===== src/Lending.antt =====
-- From a project to a contract: app/projects/, app/loans/, app/contracts/, app/lending/ and, of
-- app/underwriting/, the life of a score run.
pub mod Applications
pub mod Contracts
pub mod Calls
pub mod Rows
pub mod Submitted
pub mod Frozen
pub mod Grounded
mod Tests
