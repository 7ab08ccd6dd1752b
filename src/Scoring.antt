-- ===== src/Scoring.antt =====
-- app/underwriting/service.py and app/loans/lite_grading.py: what the engine is given, and what
-- becomes of its grades.
pub mod Desk
pub mod Sector
pub mod Rates
pub mod InForce
pub mod Inputs
pub mod Assess
pub mod Runs
pub mod Calls
pub mod Started
pub mod Stored
pub mod Replay
mod Tests
