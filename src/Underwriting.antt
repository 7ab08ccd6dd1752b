-- ===== src/Underwriting.antt =====
-- app/underwriting/grading/: the gates and the decision of the grading engine.
pub mod Numbers
pub mod Types
pub mod Derive
pub mod Factors
pub mod Pricing
pub mod Gates
pub mod Engine
pub mod Decision
pub mod Fires
pub mod Resolved
pub mod Graded
pub mod ZeroQuarter
pub mod Rate
pub mod Samples
mod GradeTests
mod Tests
