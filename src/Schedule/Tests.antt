-- ===== src/Schedule/Tests.antt =====
-- Sample facilities and calendars (app/repayment_schedule/), and the theorems applied to them.
use fund_lok.Prelude.{ℕ, ◌≡◌, refl, ◌↔◌, ◌⊎◌, true, none, some, List, [], ◌∷◌, arith, All, pos}
use fund_lok.Schedule.Facility.{
  FacilityState, active, arrears_warning, arrears, accelerated, in_recovery, settled, written_off,
  Trigger, cutoff_missed, backstop_reached, cure_period_expired, obligation_satisfied,
  manual_write_off, Facility,
}
use fund_lok.Schedule.StateMachine.Apply.{
  assert_inv4, check_transition, or_empty, Machine, StateTransition,
}
use fund_lok.Schedule.StateMachine.Rules.{
  Context, empty_context, done, failed, Outcome, TransitionError,
}
use fund_lok.Schedule.StateMachine.Diagram.{Edge}
use fund_lok.Schedule.StateMachine.Check.{check_transition_iff}
use fund_lok.Schedule.StateMachine.Runs.{
  Request, call, run, row_of, Chain, apply_transition_outcome, run-Chain, WrittenOffLate,
  run-WrittenOffLate,
}
use fund_lok.Schedule.Calendar.{BusinessDayCalendar, good, generate_business_days, year_is_known}
use fund_lok.Schedule.Calendar.Scan.{
  days_in, YearsKnown, generate_business_days_sound, generate_business_days_total,
}

abbrev facility : FacilityState → Facility
facility status = record {
  contract_id = 7;
  principal_vnd = 5000000;
  annual_rate_pct = record { coefficient = pos 12; places = 0 };
  contractual_term_months = 3;
  interest_vnd = 150000;
  total_obligation_vnd = 5150000;
  business_day_count = 66;
  backstop_day_index = some 88;
  backstop_date = none;
  status = status;
  payment_reference = "FL-7";
}

abbrev machine : FacilityState → Machine
machine status = record { facility = facility status; history = [] }

abbrev request : FacilityState → Trigger → Context → Request
request to_status trigger context = record {
  to_status = to_status;
  trigger = trigger;
  actor_id = some 3;
  context = some context;
  occurred_at = none;
}

-- Day 90 of a facility whose backstop is day 88, with 1000 owed.
abbrev day_90 : Context
day_90 = record empty_context {
  day_index = some (pos 90);
  backstop_day_index = some (some (pos 88));
  balance_vnd = some (pos 1000);
}

abbrev write_off_late : Request
write_off_late = request written_off manual_write_off day_90

check_transition_iff_example :
    (check_transition in_recovery written_off manual_write_off (some day_90) ≡ done tt)
    ↔ Edge day_90 in_recovery manual_write_off written_off
check_transition_iff_example =
    check_transition_iff in_recovery written_off manual_write_off (some day_90)

apply_transition_outcome_example :
    (Edge day_90 in_recovery manual_write_off written_off
      × (call write_off_late (machine in_recovery) ≡ (
        done (row_of write_off_late (machine in_recovery)),
        record {
          facility = facility written_off;
          history = row_of write_off_late (machine in_recovery) ∷ [];
        },
      )))
    ⊎ ((¬ Edge day_90 in_recovery manual_write_off written_off)
        × (e : TransitionError) × (call write_off_late (machine in_recovery)
            ≡ (failed e, machine in_recovery)))
apply_transition_outcome_example = apply_transition_outcome write_off_late (machine in_recovery)

-- Missed payments, the backstop, the end of the cure period, a write-off and a late settlement.
abbrev decline : List Request
decline =
    request arrears_warning cutoff_missed empty_context
    ∷ request arrears Trigger.grace_window_expired
        (record empty_context { grace_window_expired = some true })
    ∷ request accelerated backstop_reached day_90
    ∷ request in_recovery cure_period_expired (record empty_context {
      now = some 20;
      cure_period_ends = some (some 10);
      balance_vnd = some (pos 1000);
    })
    ∷ write_off_late
    ∷ request settled obligation_satisfied (record empty_context { balance_vnd = some (pos 0) })
    ∷ []

run-decline : (run decline (machine active)).facility.status ≡ written_off
unfolding run fund_lok.Schedule.StateMachine.Apply.apply_transition check_transition
    fund_lok.Schedule.StateMachine.Apply.validate_transition
    fund_lok.Schedule.StateMachine.Rules.transitions fund_lok.Schedule.StateMachine.Rules.run_guard
run-decline = refl

run-Chain_example :
    Chain active
      (run decline (machine active)).history
      (run decline (machine active)).facility.status
run-Chain_example = run-Chain active decline (machine active) refl

run-WrittenOffLate_example : All WrittenOffLate (run decline (machine active)).history
run-WrittenOffLate_example = run-WrittenOffLate decline (machine active) refl

-- The year 2026 with its first of January (day 739617, a Thursday) as the one holiday.
abbrev calendar : BusinessDayCalendar
calendar = record {
  years = (2026, record { status = "confirmed"; dates = 739617 ∷ [] }) ∷ [];
  extra_holidays = [];
}

week : generate_business_days calendar 739617 (pos 2) ≡ good (739618 ∷ 739621 ∷ [])
unfolding generate_business_days fund_lok.Schedule.Calendar.is_business_day
week = refl

generate_business_days_sound_example :
    (k : ℕ) × (739618 ∷ 739621 ∷ [] ≡ days_in calendar 739617 k)
    × (pos 2 ≡ pos 2)
    × YearsKnown calendar 739617 k
generate_business_days_sound_example =
    generate_business_days_sound calendar 739617 (pos 2) (739618 ∷ 739621 ∷ []) week

years_known : YearsKnown calendar 739617 5
unfolding fund_lok.Schedule.Calendar.year_of
years_known = (refl, (refl, (refl, (refl, (refl, tt)))))

two_open : days_in calendar 739617 5 ≡ 739618 ∷ 739621 ∷ []
unfolding fund_lok.Schedule.Calendar.is_open
two_open = refl

generate_business_days_total_example :
    (dates : List ℕ) × (generate_business_days calendar 739617 (pos 2) ≡ good dates)
generate_business_days_total_example =
    generate_business_days_total calendar 739617 2 5 (omega arith) years_known
      (rw two_open (omega arith)) (omega arith)
