-- ===== src/Schedule/Origination/Tests.antt =====
-- A small facility (app/repayment_schedule/origination.py), and the theorems applied to it.
use fund_lok.Prelude.{ℕ, ◌+◌, ◌≡◌, refl, none, [], ◌∷◌, length, pos}
use fund_lok.Decimals.{Decimal}
use fund_lok.Schedule.Origination.{
  compute_origination, originate_facility, Origination, origination_of, interest_of,
  compute_backstop_day_index,
}
use fund_lok.Schedule.Origination.Amounts.{
  IsExact, compute_origination-IsExact, computed, expected, dates_of, IsNumbered,
}
use fund_lok.Schedule.Origination.Rows.{originate_facility_pays}
use fund_lok.Schedule.Calendar.{BusinessDayCalendar, good}
use fund_lok.Schedule.Calendar.Scan.{days_in}

-- The year 2026 with its first of January (day 739617, a Thursday) as the one holiday.
abbrev calendar : BusinessDayCalendar
calendar = record {
  years = (2026, record { status = "confirmed"; dates = 739617 ∷ [] }) ∷ [];
  extra_holidays = [];
}

-- 12 percent a year.
abbrev twelve : Decimal
twelve = record { coefficient = pos 12; places = 0 }

-- The worked example of the source: three months on 5000000 cost 150000.
interest_worked : interest_of 5000000 twelve 3 ≡ 150000
unfolding interest_of fund_lok.Decimals.half_up fund_lok.Decimals.mul fund_lok.Decimals.div
interest_worked = refl

-- The exact interest is 94.5.
interest_rounded_down : interest_of 1350 twelve 7 ≡ 94
unfolding interest_of fund_lok.Decimals.half_up fund_lok.Decimals.mul fund_lok.Decimals.div
interest_rounded_down = refl

-- 1000 over one month of two working days.
small_computed :
    compute_origination (pos 1000) twelve (pos 1) (pos 2)
    ≡ good (computed (pos 1000) twelve (pos 1) (pos 2))
unfolding compute_origination fund_lok.Decimals.half_up fund_lok.Decimals.mul fund_lok.Decimals.div
small_computed = refl

compute_origination-IsExact_example :
    (pos 1000 ≡ pos 1000)
    × (twelve ≡ twelve)
    × (pos 1 ≡ pos 1)
    × IsExact (computed (pos 1000) twelve (pos 1) (pos 2))
unfolding fund_lok.Schedule.Origination.result_of
compute_origination-IsExact_example =
    compute_origination-IsExact (pos 1000) twelve (pos 1) (pos 2)
      (computed (pos 1000) twelve (pos 1) (pos 2)) small_computed

abbrev small : Origination
small =
    origination_of (computed (pos 1000) twelve (pos 1) (pos 2)) 739622 7 "FL-7" none
      (739618 ∷ 739621 ∷ [])

small_originated :
    originate_facility 7 (pos 1000) twelve (pos 1) "FL-7" 739617 calendar (pos 2) none ≡ good small
unfolding originate_facility compute_origination fund_lok.Decimals.half_up fund_lok.Decimals.mul
    fund_lok.Decimals.div fund_lok.Schedule.Calendar.generate_business_days
    fund_lok.Schedule.Calendar.is_business_day
    fund_lok.Schedule.Origination.assert_origination_invariants fund_lok.Decimals.minus_one
    fund_lok.Schedule.Calendar.recompute_backstop_date fund_lok.Schedule.Calendar.nth_business_day
small_originated = refl

originate_facility_pays_example :
    (expected small.payments ≡ small.facility.total_obligation_vnd)
    × (small.facility.total_obligation_vnd
        ≡ small.facility.principal_vnd + small.facility.interest_vnd)
    × (length (dates_of small.payments) ≡ small.facility.business_day_count)
    × IsNumbered 1 small.payments
    × (k : ℕ) × (dates_of small.payments ≡ days_in calendar 739617 k)
originate_facility_pays_example =
    originate_facility_pays 7 (pos 1000) twelve (pos 1) "FL-7" 739617 calendar (pos 2) none small
      small_originated
