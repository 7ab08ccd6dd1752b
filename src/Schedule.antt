-- ===== src/Schedule.antt =====
-- app/repayment_schedule/: the fixed daily repayment schedule of a facility.
pub mod Facility
pub mod StateMachine
pub mod Calendar
pub mod Origination
mod Tests
