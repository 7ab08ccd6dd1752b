-- ===== src/Db.antt =====
-- The database that the services work on: tables, session and exceptions (app/ledger/models.py,
-- app/lending/models.py, app/users/models.py).
mod LedgerTables
mod LendingTables
mod UserTables
mod Session
pub mod Frames
pub mod Claims
pub use LedgerTables.*
pub use LendingTables.*
pub use UserTables.*
pub use Session.*
