-- ===== src/Schedule/Origination/Rows.antt =====
-- The rows that `originate_facility` (app/repayment_schedule/origination.py) writes.
use fund_lok.Prelude.{ℕ, ◌+◌, String, ◌≡◌, ap, ◌∙◌, Option, List, length, ℤ, pos}
use fund_lok.Decimals.{Decimal}
use fund_lok.Schedule.Calendar.{
  BusinessDayCalendar, good, generate_business_days, recompute_backstop_date,
}
use fund_lok.Schedule.Calendar.Scan.{days_in, generate_business_days_sound}
use fund_lok.Schedule.Origination.{
  OriginationResult, compute_origination, assert_origination_invariants, Origination,
  origination_of, originate_facility,
}
use fund_lok.Schedule.Origination.Amounts.{
  bind_good, good_injective, compute_origination-IsExact, expected, payments_total, dates_of,
  IsNumbered, payments-IsNumbered,
}

originate_facility_inv :
    (contract_id : ℕ) (principal : ℤ) (rate : Decimal) (term : ℤ) (payment_reference : String)
    (start_date : ℕ) (cal : BusinessDayCalendar) (working_days : ℤ) (actor_id : Option ℕ)
    (o : Origination)
    → originate_facility contract_id principal rate term payment_reference start_date cal
        working_days actor_id
      ≡ good o
    → (r : OriginationResult) × (dates : List ℕ) × (backstop : ℕ) × (compute_origination principal
          rate term working_days
        ≡ good r)
      × (generate_business_days cal start_date (pos r.business_day_count) ≡ good dates)
      × (assert_origination_invariants r dates cal ≡ good tt)
      × (recompute_backstop_date cal start_date (pos r.backstop_day_index) ≡ good backstop)
      × (origination_of r backstop contract_id payment_reference actor_id dates ≡ o)
unfolding originate_facility
originate_facility_inv contract_id principal rate term payment_reference start_date cal working_days
      actor_id o h =
    let (r, hr, k1) = bind_good _ _ o h in
    let (dates, hd, k2) = bind_good _ _ o k1 in
    let (u, ha, k3) = bind_good _ _ o k2 in
    let (backstop, hb, k4) = bind_good _ _ o k3 in
    (r, dates, backstop, hr, hd, ha, hb, good_injective _ o k4)

pos_injective : (a b : ℕ) → pos a ≡ pos b → a ≡ b
pos_injective a b h = cc

-- An origination that returns writes a schedule whose expected amounts add up to the facility's
-- whole obligation, principal and interest; it has one payment for each of the counted days,
-- numbered from 1, and they fall on all the business days of a stretch from the start date.
pub originate_facility_pays :
    (contract_id : ℕ) (principal : ℤ) (rate : Decimal) (term : ℤ) (payment_reference : String)
    (start_date : ℕ) (cal : BusinessDayCalendar) (working_days : ℤ) (actor_id : Option ℕ)
    (o : Origination)
    → originate_facility contract_id principal rate term payment_reference start_date cal
        working_days actor_id
      ≡ good o
    → (expected o.payments ≡ o.facility.total_obligation_vnd)
      × (o.facility.total_obligation_vnd ≡ o.facility.principal_vnd + o.facility.interest_vnd)
      × (length (dates_of o.payments) ≡ o.facility.business_day_count)
      × IsNumbered 1 o.payments
      × (k : ℕ) × (dates_of o.payments ≡ days_in cal start_date k)
unfolding origination_of
originate_facility_pays contract_id principal rate term payment_reference start_date cal
      working_days actor_id o h =
    let (r, dates, backstop, hr, hd, ha, hb, same) =
      originate_facility_inv contract_id principal rate term payment_reference start_date cal
        working_days actor_id o h in
    let (same_principal, same_rate, same_term, exact) =
      compute_origination-IsExact principal rate term working_days r hr in
    let (k, days, full, years) =
      generate_business_days_sound cal start_date (pos r.business_day_count) dates hd in
    let counted = pos_injective _ _ full in
    let (dated, numbered) = payments-IsNumbered r 1 dates in
    rw (← same) (
      payments_total r dates exact counted,
      exact.obligation,
      ap length dated ∙ counted,
      numbered,
      k,
      dated ∙ days,
    )
