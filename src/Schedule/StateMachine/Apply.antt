-- ===== src/Schedule/StateMachine/Apply.antt =====
-- `validate_transition`, `apply_transition` and the INV-4 assertion
-- (app/repayment_schedule/state_machine.py).
use fund_lok.Prelude.{
  ℕ, Bool, true, false, ◌&&◌, ◌||◌, Option, none, some, List, [], ◌∷◌, ◌++◌, if◌then◌else◌, ℤ, pos,
  ltb_ℤ,
}
use fund_lok.Schedule.Facility.{FacilityState, active, arrears, Trigger, Facility}
use fund_lok.Schedule.StateMachine.Rules.{
  ◌>>=◌, Context, empty_context, invalid_transition, guard_rejected, Outcome, done, failed,
  run_guard, TransitionRule, transitions, is_terminal, is_known, has_trigger,
}

-- `validate_transition`, with the rule that it has looked up
unfoldable pub validate_transition :
    FacilityState → FacilityState → Trigger → Outcome TransitionRule
validate_transition from to trigger =
    if is_terminal from
    then failed invalid_transition
    else if is_known to
    then has_trigger trigger (transitions from to)
    else failed invalid_transition

-- A row of `state_transition`.
pub record StateTransition : Type 0 where
  pub from_status : Option FacilityState
  pub to_status : FacilityState
  pub trigger : Trigger
  pub actor_id : Option ℕ
  pub metadata : Option Context
  pub occurred_at : Option ℕ

-- A facility with its history.
pub record Machine : Type 0 where
  pub facility : Facility
  pub history : List StateTransition

abbrev pub or_empty : Option Context → Context
or_empty none = empty_context
or_empty (some ctx) = ctx

-- `context if context else None`: a context with no key counts as None.
abbrev pub is_set {ℓ} : {A : Type ℓ} → Option A → Bool
is_set none = false
is_set (some a) = true

abbrev pub has_some_key : Context → Bool
has_some_key ctx =
    is_set ctx.day_index
    || (is_set ctx.backstop_day_index
        || (is_set ctx.balance_vnd
            || (is_set ctx.arrears_balance_vnd
                || (is_set ctx.recovery_threshold_vnd
                    || (is_set ctx.within_grace_window
                        || (is_set ctx.grace_window_expired
                            || (is_set ctx.now || is_set ctx.cure_period_ends)))))))

abbrev pub metadata_of : Option Context → Option Context
metadata_of none = none
metadata_of (some ctx) = if has_some_key ctx then some ctx else none

abbrev pub allow : Bool → Outcome (Unit {0})
allow true = done tt
allow false = failed guard_rejected

-- What `apply_transition` checks before it writes.
unfoldable pub check_transition :
    FacilityState → FacilityState → Trigger → Option Context → Outcome (Unit {0})
check_transition from to trigger context = do
  r ← validate_transition from to trigger
  passes ← run_guard r.guard (or_empty context)
  allow passes

abbrev pub write_transition :
    Outcome (Unit {0})
    → Machine
    → FacilityState
    → StateTransition
    → Outcome StateTransition × Machine
write_transition (failed e) m to row = (failed e, m)
write_transition (done checked) m to row = (
  done row,
  record { facility = record m.facility { status = to }; history = m.history ++ row ∷ [] },
)

unfoldable pub apply_transition :
    FacilityState
    → Trigger
    → Option ℕ
    → Option Context
    → Option ℕ
    → Machine
    → Outcome StateTransition × Machine
apply_transition to_status trigger actor_id context occurred_at m =
    write_transition (check_transition m.facility.status to_status trigger context) m to_status
      (record {
        from_status = some m.facility.status;
        to_status = to_status;
        trigger = trigger;
        actor_id = actor_id;
        metadata = metadata_of context;
        occurred_at = occurred_at;
      })

-- `assert_inv4_no_stale_active_or_arrears`: whether it raises.
abbrev pub is_collecting : FacilityState → Bool
is_collecting active = true
is_collecting arrears = true
is_collecting s = false

abbrev pub after_backstop : Option ℕ → ℤ → Bool
after_backstop none day = false
after_backstop (some backstop) day = ltb_ℤ (pos backstop) day

unfoldable pub assert_inv4 : Facility → ℤ → ℤ → Outcome (Unit {0})
assert_inv4 f day balance =
    if is_collecting f.status && (after_backstop f.backstop_day_index day && ltb_ℤ (pos 0) balance)
    then failed guard_rejected
    else done tt
