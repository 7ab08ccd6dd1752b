-- ===== src/Schedule/StateMachine/Diagram.antt =====
-- The diagram and the transition rules of section 5 of
-- docs/specs/repayment_schedule/facility-state-machine.md as a relation, and the check of the code
-- against it.
use fund_lok.Prelude.{ℕ, ◌<◌, ◌≡◌, refl, true, Option, some, arith, ℤ, pos, ◌≤ℤ◌}
use fund_lok.Schedule.Facility.{
  FacilityState, draft, approved, disbursed, active, arrears_warning, arrears, accelerated,
  in_recovery, settled, written_off, Trigger, admin_approve, disbursement_posted,
  schedule_activated, cutoff_missed, payment_within_grace_window, arrears_cleared,
  recovery_threshold_breached, backstop_reached, cure_period_expired, obligation_satisfied,
  manual_write_off,
}
use fund_lok.Schedule.StateMachine.Rules.{Context, done, run_guard, transitions}
use fund_lok.Schedule.StateMachine.Apply.{validate_transition, check_transition, or_empty}

-- From a day on that is not before the backstop, with something still owed.
abbrev pub BackstopReached : Context → Type 0
BackstopReached ctx =
    (day backstop balance : ℤ) × (ctx.day_index ≡ some day)
    × (ctx.backstop_day_index ≡ some (some backstop))
    × (ctx.balance_vnd ≡ some balance)
    × (backstop ≤ℤ day)
    × (pos 1 ≤ℤ balance)

abbrev pub CureExpired : Context → Type 0
CureExpired ctx =
    (time ends : ℕ) × (balance : ℤ) × (ctx.now ≡ some time)
    × (ctx.cure_period_ends ≡ some (some ends))
    × (ctx.balance_vnd ≡ some balance)
    × (ends < time)
    × (pos 1 ≤ℤ balance)

abbrev pub PastBackstop : Context → Type 0
PastBackstop ctx =
    (day backstop : ℤ) × (ctx.day_index ≡ some day)
    × (ctx.backstop_day_index ≡ some (some backstop))
    × (¬ (day ≤ℤ backstop))

abbrev pub ThresholdReached : Context → Type 0
ThresholdReached ctx =
    (owed threshold : ℤ) × (ctx.arrears_balance_vnd ≡ some owed)
    × (ctx.recovery_threshold_vnd ≡ some threshold)
    × (threshold ≤ℤ owed)

-- `Edge ctx s t u`: in state `s`, trigger `t` may lead to `u`.
pub data Edge (ctx : Context) : FacilityState → Trigger → FacilityState → Type 0 where
  approve : Edge ctx draft admin_approve approved
  disburse : Edge ctx approved disbursement_posted disbursed
  activate : Edge ctx disbursed schedule_activated active
  miss : Edge ctx active cutoff_missed arrears_warning
  pay_in_time :
      ctx.within_grace_window ≡ some true
      → Edge ctx arrears_warning payment_within_grace_window active
  fall_behind :
      ctx.grace_window_expired ≡ some true
      → Edge ctx arrears_warning Trigger.grace_window_expired arrears
  clear : ctx.arrears_balance_vnd ≡ some (pos 0) → Edge ctx arrears arrears_cleared active
  breach : ThresholdReached ctx → Edge ctx arrears recovery_threshold_breached in_recovery
  accelerate_active : BackstopReached ctx → Edge ctx active backstop_reached accelerated
  accelerate_arrears : BackstopReached ctx → Edge ctx arrears backstop_reached accelerated
  fail_to_cure : CureExpired ctx → Edge ctx accelerated cure_period_expired in_recovery
  settle_active : ctx.balance_vnd ≡ some (pos 0) → Edge ctx active obligation_satisfied settled
  settle_accelerated :
      ctx.balance_vnd ≡ some (pos 0) → Edge ctx accelerated obligation_satisfied settled
  settle_in_recovery :
      ctx.balance_vnd ≡ some (pos 0) → Edge ctx in_recovery obligation_satisfied settled
  write_off : PastBackstop ctx → Edge ctx in_recovery manual_write_off written_off

-- Every edge whose condition holds is let through.
pub Edge-check :
    (context : Option Context) {s u : FacilityState} {t : Trigger}
    → Edge (or_empty context) s t u
    → check_transition s u t context ≡ done tt
unfolding check_transition validate_transition run_guard transitions
Edge-check context approve = refl
Edge-check context disburse = refl
Edge-check context activate = refl
Edge-check context miss = refl
Edge-check context (pay_in_time h) = ground arith
Edge-check context (fall_behind h) = ground arith
Edge-check context (clear h) = ground arith
Edge-check context (breach h) = ground arith
Edge-check context (accelerate_active h) = ground arith
Edge-check context (accelerate_arrears h) = ground arith
Edge-check context (fail_to_cure h) = ground arith
Edge-check context (settle_active h) = ground arith
Edge-check context (settle_accelerated h) = ground arith
Edge-check context (settle_in_recovery h) = ground arith
Edge-check context (write_off h) = ground arith
