-- ===== src/Schedule/StateMachine/Rules.antt =====
-- The transition table and its guards (app/repayment_schedule/state_machine.py).
use fund_lok.Prelude.{
  ℕ, Bool, true, false, ◌&&◌, Option, none, some, ltb, ◌==◌, if◌then◌else◌, ℤ, pos, ltb_ℤ, leb_ℤ,
  eq_ℤ,
}
use fund_lok.Schedule.Facility.{
  FacilityState, draft, approved, disbursed, active, arrears_warning, arrears, accelerated,
  in_recovery, settled, written_off, unknown, Trigger, admin_approve, disbursement_posted,
  schedule_activated, cutoff_missed, payment_within_grace_window, grace_window_expired,
  arrears_cleared, recovery_threshold_breached, backstop_reached, cure_period_expired,
  obligation_satisfied, manual_write_off,
}

-- The guard context. A key that the caller may leave out is optional; `backstop_day_index` and
-- `cure_period_ends` may also be there with the value None.
pub record Context : Type 0 where
  pub day_index : Option ℤ
  pub backstop_day_index : Option (Option ℤ)
  pub balance_vnd : Option ℤ
  pub arrears_balance_vnd : Option ℤ
  pub recovery_threshold_vnd : Option ℤ
  pub within_grace_window : Option Bool
  pub grace_window_expired : Option Bool
  pub now : Option ℕ
  pub cure_period_ends : Option (Option ℕ)

abbrev pub empty_context : Context
empty_context = record {
  day_index = none;
  backstop_day_index = none;
  balance_vnd = none;
  arrears_balance_vnd = none;
  recovery_threshold_vnd = none;
  within_grace_window = none;
  grace_window_expired = none;
  now = none;
  cure_period_ends = none;
}

-- InvalidTransitionError, TransitionGuardError, and the KeyError of `ctx[key]`.
pub data TransitionError : Type 0 where
  invalid_transition guard_rejected key_error : TransitionError

pub data Outcome {ℓ} (A : Type ℓ) : Type ℓ where
  done : A → Outcome A
  failed : TransitionError → Outcome A

infixl 5 ◌>>=◌
abbrev pub ◌>>=◌ {ℓ κ} : {A : Type ℓ} {B : Type κ} → Outcome A → (A → Outcome B) → Outcome B
done a >>= f = f a
failed e >>= f = failed e

-- `ctx[key]`
abbrev pub item {ℓ} : {A : Type ℓ} → Option A → Outcome A
item none = failed key_error
item (some a) = done a

-- `ctx.get(key)` in a test
abbrev pub flag : Option Bool → Bool
flag none = false
flag (some b) = b

pub data Guard : Type 0 where
  no_guard backstop_reached_guard within_grace_window_guard grace_window_expired_guard : Guard
  arrears_cleared_guard recovery_threshold_breached_guard balance_zero_guard : Guard
  cure_period_expired_guard written_off_guard : Guard

-- `backstop_day_index is not None and …`
abbrev pub reached : Option ℤ → ℤ → ℤ → Bool
reached none day balance = false
reached (some backstop) day balance = leb_ℤ backstop day && ltb_ℤ (pos 0) balance

abbrev pub expired : Option ℕ → ℕ → ℤ → Bool
expired none now balance = false
expired (some ends) now balance = ltb ends now && ltb_ℤ (pos 0) balance

abbrev pub past : Option ℤ → ℤ → Bool
past none day = false
past (some backstop) day = ltb_ℤ backstop day

-- The eight guard functions: whether they let the transition through.
unfoldable pub run_guard : Guard → Context → Outcome Bool
run_guard no_guard ctx = done true
run_guard backstop_reached_guard ctx = do
  day ← item ctx.day_index
  backstop ← item ctx.backstop_day_index
  balance ← item ctx.balance_vnd
  done (reached backstop day balance)
run_guard within_grace_window_guard ctx = done (flag ctx.within_grace_window)
run_guard grace_window_expired_guard ctx = done (flag ctx.grace_window_expired)
run_guard arrears_cleared_guard ctx = do
  arrears_balance ← item ctx.arrears_balance_vnd
  done (eq_ℤ arrears_balance (pos 0))
run_guard recovery_threshold_breached_guard ctx = do
  arrears_balance ← item ctx.arrears_balance_vnd
  threshold ← item ctx.recovery_threshold_vnd
  done (leb_ℤ threshold arrears_balance)
run_guard balance_zero_guard ctx = do balance ← item ctx.balance_vnd; done (eq_ℤ balance (pos 0))
run_guard cure_period_expired_guard ctx = do
  time ← item ctx.now
  ends ← item ctx.cure_period_ends
  balance ← item ctx.balance_vnd
  done (expired ends time balance)
run_guard written_off_guard ctx = do
  day ← item ctx.day_index
  backstop ← item ctx.backstop_day_index
  done (past backstop day)

pub record TransitionRule : Type 0 where
  pub trigger : Trigger
  pub guard : Guard

abbrev pub rule : Trigger → Guard → Option TransitionRule
rule trigger guard = some (record { trigger = trigger; guard = guard })

-- TRANSITIONS: every rule there has one trigger.
unfoldable pub transitions : FacilityState → FacilityState → Option TransitionRule
transitions draft approved = rule admin_approve no_guard
transitions approved disbursed = rule disbursement_posted no_guard
transitions disbursed active = rule schedule_activated no_guard
transitions active arrears_warning = rule cutoff_missed no_guard
transitions arrears_warning active = rule payment_within_grace_window within_grace_window_guard
transitions arrears_warning arrears = rule grace_window_expired grace_window_expired_guard
transitions arrears active = rule arrears_cleared arrears_cleared_guard
transitions arrears in_recovery = rule recovery_threshold_breached recovery_threshold_breached_guard
transitions active accelerated = rule backstop_reached backstop_reached_guard
transitions arrears accelerated = rule backstop_reached backstop_reached_guard
transitions accelerated in_recovery = rule cure_period_expired cure_period_expired_guard
transitions active settled = rule obligation_satisfied balance_zero_guard
transitions accelerated settled = rule obligation_satisfied balance_zero_guard
transitions in_recovery settled = rule obligation_satisfied balance_zero_guard
transitions in_recovery written_off = rule manual_write_off written_off_guard
transitions from to = none

-- TERMINAL_STATES
abbrev pub is_terminal : FacilityState → Bool
is_terminal settled = true
is_terminal written_off = true
is_terminal s = false

-- `to_status in FACILITY_STATES`
abbrev pub is_known : FacilityState → Bool
is_known (unknown s) = false
is_known s = true

-- Equality of the named triggers; a rule never has any other.
abbrev pub trigger_code : Trigger → ℕ
trigger_code admin_approve = 1
trigger_code disbursement_posted = 2
trigger_code schedule_activated = 3
trigger_code cutoff_missed = 4
trigger_code payment_within_grace_window = 5
trigger_code Trigger.grace_window_expired = 6
trigger_code arrears_cleared = 7
trigger_code recovery_threshold_breached = 8
trigger_code backstop_reached = 9
trigger_code cure_period_expired = 10
trigger_code obligation_satisfied = 11
trigger_code manual_write_off = 12
trigger_code Trigger.originated = 13
trigger_code (Trigger.other_trigger s) = 0

abbrev pub has_trigger : Trigger → Option TransitionRule → Outcome TransitionRule
has_trigger trigger none = failed invalid_transition
has_trigger trigger (some r) =
    if trigger_code trigger == trigger_code r.trigger then done r else failed invalid_transition
