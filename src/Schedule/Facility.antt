-- ===== src/Schedule/Facility.antt =====
-- app/repayment_schedule/models.py: the facility, its schedule and its history.
use fund_lok.Prelude.{ℕ, String, Option}
use fund_lok.Decimals.{Decimal}

-- FACILITY_STATES, and any other text.
pub data FacilityState : Type 0 where
  draft approved disbursed active arrears_warning : FacilityState
  arrears accelerated in_recovery settled written_off : FacilityState
  unknown : String → FacilityState

-- The texts that `trigger` is compared with, and any other.
pub data Trigger : Type 0 where
  admin_approve disbursement_posted schedule_activated cutoff_missed : Trigger
  payment_within_grace_window grace_window_expired arrears_cleared : Trigger
  recovery_threshold_breached backstop_reached cure_period_expired : Trigger
  obligation_satisfied manual_write_off originated : Trigger
  other_trigger : String → Trigger

pub record Facility : Type 0 where
  pub contract_id : ℕ
  pub principal_vnd : ℕ
  pub annual_rate_pct : Decimal
  pub contractual_term_months : ℕ
  pub interest_vnd : ℕ
  pub total_obligation_vnd : ℕ
  pub business_day_count : ℕ
  pub backstop_day_index : Option ℕ
  pub backstop_date : Option ℕ
  pub status : FacilityState
  pub payment_reference : String

pub record ScheduleVersion : Type 0 where
  pub version_number : ℕ
  pub daily_amount_vnd : ℕ
  pub day_count : ℕ
  pub remainder_vnd : ℕ
  pub final_instalment_vnd : ℕ

pub record ScheduledPayment : Type 0 where
  pub day_index : ℕ
  pub scheduled_date : ℕ
  pub expected_amount_vnd : ℕ
