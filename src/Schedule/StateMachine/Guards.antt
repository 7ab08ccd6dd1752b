-- ===== src/Schedule/StateMachine/Guards.antt =====
-- The guards of app/repayment_schedule/state_machine.py: what it means that one lets a transition
-- through.
use fund_lok.Prelude.{◌≡◌, inl, inr, true, none, some, arith, pos, Option-cases}
use fund_lok.Schedule.StateMachine.Rules.{
  Context, done, run_guard, backstop_reached_guard, cure_period_expired_guard, written_off_guard,
  recovery_threshold_breached_guard, balance_zero_guard, arrears_cleared_guard,
  within_grace_window_guard, grace_window_expired_guard,
}
use fund_lok.Schedule.StateMachine.Diagram.{
  BackstopReached, CureExpired, PastBackstop, ThresholdReached,
}

pub guard_backstop :
    (ctx : Context) → run_guard backstop_reached_guard ctx ≡ done true → BackstopReached ctx
unfolding run_guard
guard_backstop ctx h = elim (Option-cases ctx.day_index) [
  | inl e ↦ absurd (ground arith)
  | inr (day, e) ↦ elim (Option-cases ctx.backstop_day_index) [
    | inl e' ↦ absurd (ground arith)
    | inr (none, e') ↦ absurd (ground arith)
    | inr (some backstop, e') ↦ elim (Option-cases ctx.balance_vnd) [
      | inl e'' ↦ absurd (ground arith)
      | inr (balance, e'') ↦ (day, backstop, balance, e, e', e'', ground arith, ground arith)
    ]
  ]
]

pub guard_cure :
    (ctx : Context) → run_guard cure_period_expired_guard ctx ≡ done true → CureExpired ctx
unfolding run_guard
guard_cure ctx h = elim (Option-cases ctx.now) [
  | inl e ↦ absurd (ground arith)
  | inr (time, e) ↦ elim (Option-cases ctx.cure_period_ends) [
    | inl e' ↦ absurd (ground arith)
    | inr (none, e') ↦ absurd (ground arith)
    | inr (some ends, e') ↦ elim (Option-cases ctx.balance_vnd) [
      | inl e'' ↦ absurd (ground arith)
      | inr (balance, e'') ↦ (time, ends, balance, e, e', e'', ground arith, ground arith)
    ]
  ]
]

pub guard_written_off :
    (ctx : Context) → run_guard written_off_guard ctx ≡ done true → PastBackstop ctx
unfolding run_guard
guard_written_off ctx h = elim (Option-cases ctx.day_index) [
  | inl e ↦ absurd (ground arith)
  | inr (day, e) ↦ elim (Option-cases ctx.backstop_day_index) [
    | inl e' ↦ absurd (ground arith)
    | inr (none, e') ↦ absurd (ground arith)
    | inr (some backstop, e') ↦ (day, backstop, e, e', ground arith)
  ]
]

pub guard_threshold :
    (ctx : Context)
    → run_guard recovery_threshold_breached_guard ctx ≡ done true
    → ThresholdReached ctx
unfolding run_guard
guard_threshold ctx h = elim (Option-cases ctx.arrears_balance_vnd) [
  | inl e ↦ absurd (ground arith)
  | inr (owed, e) ↦ elim (Option-cases ctx.recovery_threshold_vnd) [
    | inl e' ↦ absurd (ground arith)
    | inr (threshold, e') ↦ (owed, threshold, e, e', ground arith)
  ]
]

pub guard_balance :
    (ctx : Context) → run_guard balance_zero_guard ctx ≡ done true → ctx.balance_vnd ≡ some (pos 0)
unfolding run_guard
guard_balance ctx h = ground arith

pub guard_cleared :
    (ctx : Context)
    → run_guard arrears_cleared_guard ctx ≡ done true
    → ctx.arrears_balance_vnd ≡ some (pos 0)
unfolding run_guard
guard_cleared ctx h = ground arith

pub guard_grace :
    (ctx : Context)
    → run_guard within_grace_window_guard ctx ≡ done true
    → ctx.within_grace_window ≡ some true
unfolding run_guard
guard_grace ctx h = ground arith

pub guard_grace_expired :
    (ctx : Context)
    → run_guard grace_window_expired_guard ctx ≡ done true
    → ctx.grace_window_expired ≡ some true
unfolding run_guard
guard_grace_expired ctx h = ground arith
