-- ===== src/Schedule/StateMachine/Check.antt =====
-- The check of app/repayment_schedule/state_machine.py against the transition relation.
use fund_lok.Prelude.{
  ℕ, ◌<◌, ◌≡◌, refl, sym, ap, ◌∙◌, ◌↔◌, ◌⊎◌, inl, inr, true, false, Option, none, some, arith, ◌==◌,
  if◌then◌else◌, Bool-cases, ==_iff,
}
use fund_lok.Schedule.Facility.{
  FacilityState, draft, approved, disbursed, active, arrears_warning, arrears, accelerated,
  in_recovery, settled, written_off, Trigger, admin_approve, disbursement_posted,
  schedule_activated, cutoff_missed, payment_within_grace_window, arrears_cleared,
  recovery_threshold_breached, backstop_reached, cure_period_expired, obligation_satisfied,
  manual_write_off,
}
use fund_lok.Schedule.StateMachine.Rules.{
  Context, done, run_guard, transitions, TransitionRule, trigger_code, is_terminal, has_trigger,
  Outcome, is_known, TransitionError, failed,
}
use fund_lok.Schedule.StateMachine.Apply.{validate_transition, check_transition, or_empty}
use fund_lok.Schedule.StateMachine.Diagram.{
  Edge, Edge-check, approve, disburse, activate, miss, pay_in_time, fall_behind, clear, breach,
  accelerate_active, accelerate_arrears, fail_to_cure, settle_active, settle_accelerated,
  settle_in_recovery, write_off,
}
use fund_lok.Schedule.StateMachine.Guards.{
  guard_backstop, guard_cure, guard_written_off, guard_threshold, guard_balance, guard_cleared,
  guard_grace, guard_grace_expired,
}

has_trigger_ok :
    (t : Trigger) (o : Option TransitionRule) (r : TransitionRule)
    → has_trigger t o ≡ done r
    → (o ≡ some r) × (trigger_code t ≡ trigger_code r.trigger)
has_trigger_ok t none r h = cc
has_trigger_ok t (some q) r h = elim (Bool-cases (trigger_code t == trigger_code q.trigger)) [
  | inl same ↦
      let q_is_r : q ≡ r = cc (rw same at h) in
      (ap some q_is_r, rw (← q_is_r) ((==_iff _ _).0 same))
  | inr other ↦ absurd (cc (rw other at h))
]

validate_transition_ok :
    (s u : FacilityState) (t : Trigger) (r : TransitionRule)
    → validate_transition s u t ≡ done r
    → (transitions s u ≡ some r) × (trigger_code t ≡ trigger_code r.trigger)
unfolding validate_transition
validate_transition_ok s u t r h = elim (Bool-cases (is_terminal s)) [
  | inl terminal ↦ absurd (cc (rw terminal at h))
  | inr live ↦ elim (Bool-cases (is_known u)) [
    | inl known ↦ has_trigger_ok t (transitions s u) r (rw (live, known) at h)
    | inr strange ↦ absurd (cc (rw (live, strange) at h))
  ]
]

pub Outcome-cases :
    {A : Type 0} (o : Outcome A)
    → ((a : A) × (o ≡ done a)) ⊎ ((e : TransitionError) × (o ≡ failed e))
Outcome-cases (done a) = inl (a, refl)
Outcome-cases (failed e) = inr (e, refl)

-- A check that passes has found a rule, been called with its trigger, and passed its guard.
check_transition_ok :
    (s u : FacilityState) (t : Trigger) (context : Option Context)
    → check_transition s u t context ≡ done tt
    → (r : TransitionRule) × (transitions s u ≡ some r)
      × (trigger_code t ≡ trigger_code r.trigger)
      × (run_guard r.guard (or_empty context) ≡ done true)
unfolding check_transition
check_transition_ok s u t context h = elim (Outcome-cases (validate_transition s u t)) [
  | inr (e, refused) ↦ absurd (cc (rw refused at h))
  | inl (r, valid) ↦ elim (Outcome-cases (run_guard r.guard (or_empty context))) [
    | inr (e, refused) ↦ absurd (cc (rw (valid, refused) at h))
    | inl (true, passed) ↦
        let (found, same) = validate_transition_ok s u t r valid in (r, found, same, passed)
    | inl (false, blocked) ↦ absurd (cc (rw (valid, blocked) at h))
  ]
]

named_trigger : ℕ → Trigger
named_trigger code =
    if code == 1
    then admin_approve
    else if code == 2
    then disbursement_posted
    else if code == 3
    then schedule_activated
    else if code == 4
    then cutoff_missed
    else if code == 5
    then payment_within_grace_window
    else if code == 6
    then Trigger.grace_window_expired
    else if code == 7
    then arrears_cleared
    else if code == 8
    then recovery_threshold_breached
    else if code == 9
    then backstop_reached
    else if code == 10
    then cure_period_expired
    else if code == 11
    then obligation_satisfied
    else if code == 12
    then manual_write_off
    else if code == 13
    then Trigger.originated
    else Trigger.other_trigger ""

named_trigger-trigger_code : (t : Trigger) → 0 < trigger_code t → named_trigger (trigger_code t) ≡ t
unfolding named_trigger
named_trigger-trigger_code admin_approve h = refl
named_trigger-trigger_code disbursement_posted h = refl
named_trigger-trigger_code schedule_activated h = refl
named_trigger-trigger_code cutoff_missed h = refl
named_trigger-trigger_code payment_within_grace_window h = refl
named_trigger-trigger_code Trigger.grace_window_expired h = refl
named_trigger-trigger_code arrears_cleared h = refl
named_trigger-trigger_code recovery_threshold_breached h = refl
named_trigger-trigger_code backstop_reached h = refl
named_trigger-trigger_code cure_period_expired h = refl
named_trigger-trigger_code obligation_satisfied h = refl
named_trigger-trigger_code manual_write_off h = refl
named_trigger-trigger_code Trigger.originated h = refl
named_trigger-trigger_code (Trigger.other_trigger s) h = absurd (omega arith)

-- Triggers of one code are one trigger, but for the texts that no rule has.
trigger_code-injective :
    (t u : Trigger) → trigger_code t ≡ trigger_code u → 0 < trigger_code u → t ≡ u
trigger_code-injective t u e h =
    sym (named_trigger-trigger_code t (omega arith))
    ∙ ap named_trigger e
    ∙ named_trigger-trigger_code u h

module _ (ctx : Context) (s u : FacilityState) (t : Trigger) (r : TransitionRule) where
  by_rule :
      (q : TransitionRule)
      → Option.some q ≡ some r
      → trigger_code t ≡ trigger_code r.trigger
      → run_guard r.guard ctx ≡ done true
      → 0 < trigger_code q.trigger
      → (run_guard q.guard ctx ≡ done true → Edge ctx s q.trigger u)
      → Edge ctx s t u
  by_rule q e same g named edge =
      let q_is_r : q ≡ r = cc in
      rw (trigger_code-injective t q.trigger (rw q_is_r same) named) (edge (rw q_is_r g))

rule-Edge :
    (ctx : Context) (s u : FacilityState) (t : Trigger) (r : TransitionRule)
    → transitions s u ≡ some r
    → trigger_code t ≡ trigger_code r.trigger
    → run_guard r.guard ctx ≡ done true
    → Edge ctx s t u
unfolding transitions
rule-Edge ctx draft approved t r h same g =
    by_rule ctx draft approved t r _ h same g (omega arith) (λ g'. approve)
rule-Edge ctx approved disbursed t r h same g =
    by_rule ctx approved disbursed t r _ h same g (omega arith) (λ g'. disburse)
rule-Edge ctx disbursed active t r h same g =
    by_rule ctx disbursed active t r _ h same g (omega arith) (λ g'. activate)
rule-Edge ctx active arrears_warning t r h same g =
    by_rule ctx active arrears_warning t r _ h same g (omega arith) (λ g'. miss)
rule-Edge ctx arrears_warning active t r h same g =
    by_rule ctx arrears_warning active t r _ h same g (omega arith)
      (λ g'. pay_in_time (guard_grace ctx g'))
rule-Edge ctx arrears_warning arrears t r h same g =
    by_rule ctx arrears_warning arrears t r _ h same g (omega arith)
      (λ g'. fall_behind (guard_grace_expired ctx g'))
rule-Edge ctx arrears active t r h same g =
    by_rule ctx arrears active t r _ h same g (omega arith) (λ g'. clear (guard_cleared ctx g'))
rule-Edge ctx arrears in_recovery t r h same g =
    by_rule ctx arrears in_recovery t r _ h same g (omega arith)
      (λ g'. breach (guard_threshold ctx g'))
rule-Edge ctx active accelerated t r h same g =
    by_rule ctx active accelerated t r _ h same g (omega arith)
      (λ g'. accelerate_active (guard_backstop ctx g'))
rule-Edge ctx arrears accelerated t r h same g =
    by_rule ctx arrears accelerated t r _ h same g (omega arith)
      (λ g'. accelerate_arrears (guard_backstop ctx g'))
rule-Edge ctx accelerated in_recovery t r h same g =
    by_rule ctx accelerated in_recovery t r _ h same g (omega arith)
      (λ g'. fail_to_cure (guard_cure ctx g'))
rule-Edge ctx active settled t r h same g =
    by_rule ctx active settled t r _ h same g (omega arith)
      (λ g'. settle_active (guard_balance ctx g'))
rule-Edge ctx accelerated settled t r h same g =
    by_rule ctx accelerated settled t r _ h same g (omega arith)
      (λ g'. settle_accelerated (guard_balance ctx g'))
rule-Edge ctx in_recovery settled t r h same g =
    by_rule ctx in_recovery settled t r _ h same g (omega arith)
      (λ g'. settle_in_recovery (guard_balance ctx g'))
rule-Edge ctx in_recovery written_off t r h same g =
    by_rule ctx in_recovery written_off t r _ h same g (omega arith)
      (λ g'. write_off (guard_written_off ctx g'))
rule-Edge ctx s u t r h same g = absurd (cc)

-- The check lets a transition through exactly if the diagram `Edge` has it and the condition there
-- holds in the given context, an absent context being empty. The diagram has the fifteen edges and
-- the conditions of facility-state-machine.md, which leaves the rows of UNDER_REVIEW out.
pub check_transition_iff :
    (s u : FacilityState) (t : Trigger) (context : Option Context)
    → (check_transition s u t context ≡ done tt) ↔ Edge (or_empty context) s t u
check_transition_iff s u t context = (sound, Edge-check context)
  where
    sound : check_transition s u t context ≡ done tt → Edge (or_empty context) s t u
    sound h =
        let (r, found, same, passed) = check_transition_ok s u t context h in
        rule-Edge (or_empty context) s u t r found same passed
