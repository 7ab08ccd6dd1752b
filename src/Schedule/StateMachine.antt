-- ===== src/Schedule/StateMachine.antt =====
-- app/repayment_schedule/state_machine.py: the transition table, its guards, and `apply_transition`.
pub mod Rules
pub mod Apply
pub mod Diagram
pub mod Guards
pub mod Check
pub mod Runs
pub mod Stale
