-- ===== src/Ledger.antt =====
-- app/ledger/service.py: accounts, balances and `post_transaction`.
pub mod Chart
pub mod Checks
pub mod Post
pub mod PassThrough
pub mod RingFence
pub mod Posting
pub mod Outcome
pub mod Keys
pub mod Replay
pub mod Accounts
pub mod Balance
mod Tests
