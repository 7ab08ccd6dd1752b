-- ===== src/Schedule/Origination.antt =====
-- app/repayment_schedule/origination.py: the amounts of a facility, their invariants, and the rows that
-- are written.
pub mod Amounts
pub mod Rows
mod Tests
use fund_lok.Prelude.{
  ℕ, suc, ◌+◌, ◌-◌, ◌*◌, ◌/◌, ◌%◌, ◌^◌, String, Bool, true, false, not, ◌||◌, Option, none, some,
  List, [], ◌∷◌, ltb, leb, ◌==◌, if◌then◌else◌, length, any_of, ℤ, pos, negsuc, ◌-ℤ◌, leb_ℤ,
  pos_part,
}
use fund_lok.Decimals.{
  Decimal, of_int, mul, div, minus_one, magnitude, is_negative, is_above, half_up, fits_context,
}
use fund_lok.Schedule.Facility.{Facility, ScheduleVersion, ScheduledPayment, draft, originated}
use fund_lok.Schedule.StateMachine.Apply.{StateTransition}
use fund_lok.Schedule.Calendar.{
  BusinessDayCalendar, Checked, good, bad, ◌>>=◌, ◌>>◌, reject_if, value_error, invariant_violated,
  invalid_operation, is_business_day, generate_business_days, recompute_backstop_date,
}

-- `-(-numerator // denominator)`: floor division of -n by d is -((n + d - 1) / d).
abbrev pub ceil_div : ℕ → ℕ → ℕ
ceil_div numerator denominator = (numerator + (denominator - 1)) / denominator

abbrev pub min_of : ℕ → ℕ → ℕ
min_of a b = if leb a b then a else b

unfoldable pub compute_backstop_day_index : ℕ → ℕ → ℕ
compute_backstop_day_index business_day_count working_days_per_month =
    min_of (ceil_div (business_day_count * 4) 3) (24 * working_days_per_month)

pub record OriginationResult : Type 0 where
  pub principal_vnd : ℕ
  pub interest_vnd : ℕ
  pub total_obligation_vnd : ℕ
  pub business_day_count : ℕ
  pub daily_amount_vnd : ℕ
  pub remainder_vnd : ℕ
  pub final_instalment_vnd : ℕ
  pub backstop_day_index : ℕ
  pub annual_rate_pct : Decimal
  pub contractual_term_months : ℕ

-- `principal * (rate / 100) * (term / 12)`, rounded half up to a whole number
unfoldable pub interest_of : ℕ → Decimal → ℕ → ℕ
interest_of principal rate term = half_up (
    mul (mul (of_int principal) (div (magnitude rate) (of_int 100)))
      (div (of_int term) (of_int 12)))

-- `contractual_term_months * working_days_per_month`, where the first is positive
abbrev pub day_count : ℕ → ℤ → ℤ
day_count term (pos w) = pos (term * w)
day_count term (negsuc w) = pos 0 -ℤ pos (term * suc w)

-- The result for arguments that have passed the checks.
unfoldable pub result_of : ℕ → Decimal → ℕ → ℕ → ℕ → ℕ → OriginationResult
unfolding compute_backstop_day_index
result_of principal rate term working_days interest count = record {
  principal_vnd = principal;
  interest_vnd = interest;
  total_obligation_vnd = principal + interest;
  business_day_count = count;
  daily_amount_vnd = (principal + interest) / count;
  remainder_vnd = (principal + interest) % count;
  final_instalment_vnd = (principal + interest) / count + (principal + interest) % count;
  backstop_day_index = compute_backstop_day_index count working_days;
  annual_rate_pct = rate;
  contractual_term_months = term;
}

unfoldable pub compute_origination : ℤ → Decimal → ℤ → ℤ → Checked OriginationResult
unfolding interest_of result_of
compute_origination principal_vnd annual_rate_pct contractual_term_months working_days_per_month =
    do
      reject_if (leb_ℤ principal_vnd (pos 0)) value_error
      reject_if (leb_ℤ contractual_term_months (pos 0)) value_error
      reject_if (is_negative annual_rate_pct) value_error
      reject_if (is_above annual_rate_pct 20) value_error
      let principal = pos_part principal_vnd
      let term = pos_part contractual_term_months
      let interest = interest_of principal annual_rate_pct term
      reject_if (not (fits_context interest)) invalid_operation
      let count = day_count term working_days_per_month
      reject_if (leb_ℤ count (pos 0)) value_error
      good (
          result_of principal annual_rate_pct term (pos_part working_days_per_month) interest
            (pos_part count))

-- INV-5: `(T0 / P - 1) * 12 / term > 0.20`
unfoldable pub breaks_cap : OriginationResult → Bool
breaks_cap r =
    let implied_nominal =
      div
        (mul (minus_one (div (of_int r.total_obligation_vnd) (of_int r.principal_vnd))) (of_int 12))
        (of_int r.contractual_term_months) in
    ltb (20 * 10 ^ implied_nominal.places) (implied_nominal.digits * 100)

-- `for d in schedule_dates`: each must be a business day.
pub check_dates : BusinessDayCalendar → List ℕ → Checked (Unit {0})
check_dates cal [] = good tt
check_dates cal (d ∷ dates) =
    let rest = check_dates cal dates in
    is_business_day cal d >>= λ open_day. elim open_day [
      | true ↦ rest
      | false ↦ bad invariant_violated
    ]

-- `len(set(dates)) != len(dates)`
abbrev pub has_repeat : List ℕ → Bool
has_repeat [] = false
has_repeat (d ∷ dates) = any_of (λ x. x == d) dates || has_repeat dates

-- `_assert_origination_invariants`, check by check
unfoldable pub assert_origination_invariants :
    OriginationResult → List ℕ → BusinessDayCalendar → Checked (Unit {0})
unfolding breaks_cap check_dates
assert_origination_invariants r schedule_dates cal = do
  reject_if (not (0 + r.total_obligation_vnd == r.total_obligation_vnd)) invariant_violated
  reject_if (breaks_cap r) invariant_violated
  reject_if
      (not (
        r.daily_amount_vnd * (r.business_day_count - 1) + r.final_instalment_vnd
        == r.total_obligation_vnd))
      invariant_violated
  reject_if (not (r.final_instalment_vnd == r.daily_amount_vnd + r.remainder_vnd))
      invariant_violated
  reject_if (not (ltb r.remainder_vnd r.business_day_count)) invariant_violated
  reject_if (is_above r.annual_rate_pct 20) invariant_violated
  reject_if (not (length schedule_dates == r.business_day_count)) invariant_violated
  check_dates cal schedule_dates
  reject_if (has_repeat schedule_dates) invariant_violated

-- `enumerate(schedule_dates, start=1)`: the last day has the final instalment.
pub payments_from : OriginationResult → ℕ → List ℕ → List ScheduledPayment
payments_from r day_index [] = []
payments_from r day_index (scheduled_date ∷ dates) =
    record {
      day_index = day_index;
      scheduled_date = scheduled_date;
      expected_amount_vnd =
          if day_index == r.business_day_count then r.final_instalment_vnd else r.daily_amount_vnd;
    }
    ∷ payments_from r (suc day_index) dates

-- The rows that `originate_facility` adds.
pub record Origination : Type 0 where
  pub facility : Facility
  pub transition : StateTransition
  pub version : ScheduleVersion
  pub payments : List ScheduledPayment

unfoldable pub origination_of : OriginationResult → ℕ → ℕ → String → Option ℕ → List ℕ → Origination
unfolding payments_from
origination_of r backstop_date contract_id payment_reference actor_id schedule_dates = record {
  facility = record {
    contract_id = contract_id;
    principal_vnd = r.principal_vnd;
    annual_rate_pct = r.annual_rate_pct;
    contractual_term_months = r.contractual_term_months;
    interest_vnd = r.interest_vnd;
    total_obligation_vnd = r.total_obligation_vnd;
    business_day_count = r.business_day_count;
    backstop_day_index = some r.backstop_day_index;
    backstop_date = some backstop_date;
    status = draft;
    payment_reference = payment_reference;
  };
  transition = record {
    from_status = none;
    to_status = draft;
    trigger = originated;
    actor_id = actor_id;
    metadata = none;
    occurred_at = none;
  };
  version = record {
    version_number = 1;
    daily_amount_vnd = r.daily_amount_vnd;
    day_count = r.business_day_count;
    remainder_vnd = r.remainder_vnd;
    final_instalment_vnd = r.final_instalment_vnd;
  };
  payments = payments_from r 1 schedule_dates;
}

unfoldable pub originate_facility :
    ℕ → ℤ → Decimal → ℤ → String → ℕ → BusinessDayCalendar → ℤ → Option ℕ → Checked Origination
unfolding origination_of
originate_facility contract_id principal_vnd annual_rate_pct contractual_term_months
      payment_reference start_date cal working_days_per_month actor_id =
    do
      r ←
          compute_origination principal_vnd annual_rate_pct contractual_term_months
            working_days_per_month
      schedule_dates ← generate_business_days cal start_date (pos r.business_day_count)
      assert_origination_invariants r schedule_dates cal
      backstop_date ← recompute_backstop_date cal start_date (pos r.backstop_day_index)
      good (origination_of r backstop_date contract_id payment_reference actor_id schedule_dates)
