-- ===== src/Verification.antt =====
-- app/verification/: the sessions of an identity check, and the webhook that reports on them.
pub mod Json
pub mod Webhook
pub mod Sessions
pub mod Deliveries
pub mod Once
mod Tests
