-- ===== src/Underwriting/GradeTests.antt =====
-- The engine on a sample application (app/underwriting/grading/), and the theorems applied to it.
use fund_lok.Prelude.{
  ℕ, ◌*◌, ◌/◌, ◌≤◌, ◌≡◌, refl, ◌⊎◌, inl, inr, true, none, some, List, [], ◌∷◌, arith, leb, ◌==◌,
  Bool-cases,
}
use fund_lok.Db.{ok, err, zero_division}
use fund_lok.Underwriting.Samples.{
  quotient, whole, sample_params, twelve, sample_input, sample_result,
}
use fund_lok.Underwriting.Graded.{IsGraded, grade_cases}
use fund_lok.Underwriting.ZeroQuarter.{IsDividing, grade_zero_quarter}
use fund_lok.Underwriting.Rate.{IsMonotone, price_monotone}
use fund_lok.Underwriting.Types.{GradingInput, insufficient_data, GradingResult}
use fund_lok.Underwriting.Engine.{
  insufficient_data_result, validate_inputs, sufficient_months, grade,
}
use fund_lok.Underwriting.Pricing.{PricingResult, price}
use fund_lok.Underwriting.Derive.{revenue_y1_decimal, total_cost_decimal}
use fund_lok.Underwriting.Gates.{decide}
use fund_lok.Underwriting.Numbers.{ok_injective}
use native.Mathlib.Nat.{mul-le-mul, mul-le-mul_left}

graded_sample : grade whole sample_input sample_params ≡ ok sample_result
unfolding grade decide
graded_sample = refl

grade_cases_example :
    ((sufficient_months whole sample_input ≡ ok none)
      × (sample_result ≡ insufficient_data_result sample_params))
    ⊎ ((monthly : List ℕ) × (sufficient_months whole sample_input ≡ ok (some monthly))
        × IsGraded whole sample_input sample_params sample_result)
grade_cases_example = grade_cases whole sample_input sample_params sample_result graded_sample

-- A month that is missing leaves nothing to score.
short :
    (r : GradingResult ℕ ℕ) × (grade whole
        (record sample_input { monthly_revenue = some 3 ∷ [] })
        sample_params
      ≡ ok r)
    × (r.decision ≡ insufficient_data)
unfolding grade
short = (insufficient_data_result sample_params, refl, refl)

whole-IsDividing : IsDividing whole
whole-IsDividing = record {
  divides = λ a b. divides_whole a b;
  by_zero = λ a. refl;
  total_zero = refl;
  zero_float = refl;
}
  where
    divides_whole :
        (a b : ℕ) → ((q : ℕ) × (quotient a b ≡ ok q)) ⊎ (quotient a b ≡ err zero_division)
    divides_whole a b = elim (Bool-cases (b == 0)) [
      | inl nil ↦ inr (rw nil refl)
      | inr other ↦ inl (a / b, rw other refl)
    ]

-- No revenue from the third to the fifth month.
abbrev closed_months : List ℕ
closed_months =
    50 ∷ 50 ∷ 0 ∷ 0 ∷ 0 ∷ 50 ∷ 50 ∷ 50 ∷ 50 ∷ 50 ∷ 50 ∷ 50 ∷ 60 ∷ 60 ∷ 60 ∷ 60 ∷ 60 ∷ 60 ∷ 60 ∷ 60
    ∷ 60 ∷ 60 ∷ 60 ∷ 60 ∷ []

abbrev closed_input : GradingInput ℕ ℕ
closed_input = record sample_input {
  monthly_revenue =
      some 50
      ∷ some 50
      ∷ some 0
      ∷ some 0
      ∷ some 0
      ∷ some 50
      ∷ some 50
      ∷ some 50
      ∷ some 50
      ∷ some 50
      ∷ some 50
      ∷ some 50
      ∷ twelve (some 60);
}

grade_zero_quarter_example : grade whole closed_input sample_params ≡ err zero_division
unfolding validate_inputs sufficient_months revenue_y1_decimal total_cost_decimal
grade_zero_quarter_example =
    grade_zero_quarter whole closed_input sample_params closed_months 2 whole-IsDividing refl refl
      refl refl (omega arith)

to_le : (a b : ℕ) → leb a b ≡ true → a ≤ b
to_le a b h = ground arith

to_leb : (a b : ℕ) → a ≤ b → leb a b ≡ true
to_leb a b h = ground arith

share_le : (a b : ℕ) → leb a 100 ≡ true → leb b 100 ≡ true → leb (a * b / 100) 100 ≡ true
share_le a b p q =
    to_leb (a * b / 100) 100 (omega (arith, mul-le-mul (to_le a 100 p) (to_le b 100 q)))

shares_le : (a b c q r : ℕ) → leb b c ≡ true → a * b / 100 ≡ q → a * c / 100 ≡ r → leb q r ≡ true
shares_le a b c q r h d d' =
    rw (← d, ← d')
      (to_leb (a * b / 100) (a * c / 100) (omega (arith, mul-le-mul_left a (to_le b c h))))

-- Whole numbers keep their order.
whole-IsMonotone : IsMonotone whole
whole-IsMonotone = record {
  hundred = (refl, refl);
  not_le = λ a b p q h. ground arith;
  le_of_lt = λ a b h. ground arith;
  refl_of_le = λ a b h. ground arith;
  lt_of_le = λ a b c h k. ground arith;
  sub_percent = λ a b p q h. ground arith;
  sub_anti = λ a b c p q r h. ground arith;
  share = λ a b p q. (a * b / 100, refl, (ground arith, share_le a b p.1 q.1));
  share_mono =
      λ a b c q r ha hb hc h d d'. shares_le a b c q r h (ok_injective _ q d) (ok_injective _ r d');
  add_percent = λ a b p q. ground arith;
  add_mono = λ a b c p q r h. ground arith;
}

abbrev at_rate : ℕ → PricingResult ℕ ℕ
at_rate rate = record {
  interest_rate_pct = rate;
  target_payment_vnd = 600;
  target_daily_vnd = 4;
  avg_daily_revenue_vnd = 2;
  daily_repayment_rate = 2;
}

price_monotone_example : (leb 12 13 ≡ true) × (leb 13 17 ≡ true) × (leb 17 20 ≡ true)
unfolding price
price_monotone_example =
    price_monotone whole sample_params 12 30 80 600 600 6 6 720 720 (at_rate 17) (at_rate 13)
      whole-IsMonotone (refl, refl) (refl, refl) (refl, refl) (refl, refl) refl refl refl
