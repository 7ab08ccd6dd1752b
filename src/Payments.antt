-- ===== src/Payments.antt =====
-- app/payments/service.py and app/payments/router.py: disbursements, and repayments split among the
-- lenders by the largest remainder.
pub mod Disburse
pub mod Repay
pub mod Routes
pub mod Split
pub mod Replay
pub mod OtherKind
mod Tests
