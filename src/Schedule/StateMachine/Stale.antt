-- ===== src/Schedule/StateMachine/Stale.antt =====
-- INV-4 of app/repayment_schedule/state_machine.py, and the transition that restores it.
use fund_lok.Prelude.{
  ℕ, ◌≡◌, refl, ◌≢◌, inl, inr, true, ◌&&◌, Option, none, some, arith, ℤ, pos, ltb_ℤ, Bool-cases,
  &&-eq-true,
}
use fund_lok.Schedule.Facility.{
  FacilityState, active, arrears, accelerated, Facility, backstop_reached,
}
use fund_lok.Schedule.StateMachine.Rules.{Context, empty_context, done}
use fund_lok.Schedule.StateMachine.Apply.{
  assert_inv4, check_transition, is_collecting, after_backstop,
}
use fund_lok.Schedule.StateMachine.Diagram.{
  Edge-check, accelerate_active, accelerate_arrears, BackstopReached,
}

-- What is known of the facility on a day.
abbrev pub on_day : Option ℕ → ℤ → ℤ → Context
on_day none day balance = empty_context
on_day (some backstop) day balance = record empty_context {
  day_index = some day;
  backstop_day_index = some (some (pos backstop));
  balance_vnd = some balance;
}

stale_parts :
    (f : Facility) (day balance : ℤ)
    → assert_inv4 f day balance ≢ done tt
    → (is_collecting f.status ≡ true)
      × (after_backstop f.backstop_day_index day ≡ true)
      × (ltb_ℤ (pos 0) balance ≡ true)
unfolding assert_inv4
stale_parts f day balance h =
    elim (Bool-cases (
      is_collecting f.status
      && (after_backstop f.backstop_day_index day && ltb_ℤ (pos 0) balance))) [
        | inl stale ↦
            let (a, b) = &&-eq-true _ _ stale in let (c, d) = &&-eq-true _ _ b in (a, c, d)
        | inr fine ↦ absurd (h (rw fine refl))
      ]

reached_on :
    (backstop : Option ℕ) (day balance : ℤ)
    → after_backstop backstop day ≡ true
    → ltb_ℤ (pos 0) balance ≡ true
    → BackstopReached (on_day backstop day balance)
reached_on none day balance h h' = absurd (cc)
reached_on (some b) day balance h h' =
    (day, pos b, balance, refl, refl, refl, ground arith, ground arith)

accelerates :
    (s : FacilityState) (ctx : Context)
    → is_collecting s ≡ true
    → BackstopReached ctx
    → check_transition s accelerated backstop_reached (some ctx) ≡ done tt
accelerates active ctx h reached = Edge-check (some ctx) (accelerate_active reached)
accelerates arrears ctx h reached = Edge-check (some ctx) (accelerate_arrears reached)
accelerates s ctx h reached = absurd (cc)

-- Whenever the INV-4 assertion raises for a facility, a day and a balance, the acceleration of the
-- facility is an allowed transition in the context of that day, backstop and balance.
pub assert_inv4_remedy :
    (f : Facility) (day balance : ℤ)
    → assert_inv4 f day balance ≢ done tt
    → check_transition f.status accelerated backstop_reached
        (some (on_day f.backstop_day_index day balance))
      ≡ done tt
assert_inv4_remedy f day balance stale =
    let (collecting, late, owed) = stale_parts f day balance stale in
    accelerates f.status _ collecting (reached_on f.backstop_day_index day balance late owed)
