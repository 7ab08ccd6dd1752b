-- ===== src/Underwriting/Engine.antt =====
-- app/underwriting/grading/engine.py: the grade of an application.
use fund_lok.Prelude.{
  String, Bool, true, false, not, ◌&&◌, ◌||◌, Option, none, some, List, [], ◌∷◌, ◌==◌,
  if◌then◌else◌, length, any_of, pos,
}
use fund_lok.Db.{Result, ok, value_error}
use fund_lok.Underwriting.Numbers.{Numbers, ◌>>=◌, ◌>>◌, refuse_if}
use fund_lok.Underwriting.Types.{
  GradingInput, GateResult, insufficient_data, GradingResult, FactorParam, ParamSet,
}
use fund_lok.Underwriting.Derive.{
  revenue_y1_decimal, total_cost_decimal, min_trailing_twelve_decimal, compute_derived,
}
use fund_lok.Underwriting.Factors.{score_all_factors}
use fund_lok.Underwriting.Pricing.{PricingResult, compute_rollup, price}
use fund_lok.Underwriting.Gates.{
  text_in, ai_score_keys, gate_fires, evaluate_gates, decide, any_missing,
}

abbrev pub is_set : {A : Type 0} → Option A → Bool
is_set none = false
is_set (some a) = true

module _ {D : Type 0} where
  -- The months, if none is None.
  abbrev cons_month : Option D → Option (List D) → Option (List D)
  cons_month none rest = none
  cons_month (some x) none = none
  cons_month (some x) (some xs) = some (x ∷ xs)

  unfoldable pub all_months : List (Option D) → Option (List D)
  all_months [] = some []
  all_months (v ∷ vs) = cons_month v (all_months vs)

  abbrev keep_unless : List D → Bool → Option (List D)
  keep_unless monthly c = if c then none else some monthly

module _ {F : Type 0} where
  abbrev pub without_score : List (FactorParam F) → List (String × Option F)
  without_score [] = []
  without_score (factor ∷ factors) = (factor.key, none) ∷ without_score factors

module _ {F D : Type 0} where
  unfoldable pub insufficient_data_result : ParamSet F → GradingResult F D
  insufficient_data_result params = record {
    engine_version = params.engine_version;
    params_version = params.params_version;
    derived = [];
    factor_scores = without_score params.factors;
    premiums = [];
    final_grade = none;
    interest_rate_pct = none;
    target_payment_vnd = none;
    target_daily_vnd = none;
    avg_daily_revenue_vnd = none;
    daily_repayment_rate = none;
    fired_gates = [];
    decision = insufficient_data;
  }

  abbrev pub graded :
      ParamSet F
      → List (String × Option F)
      → List (String × Option F)
      → List (String × F)
      → F
      → PricingResult F D
      → List GateResult
      → Bool
      → GradingResult F D
  graded params derived factor_scores premiums final_grade pricing fired_gates pending = record {
    engine_version = params.engine_version;
    params_version = params.params_version;
    derived = derived;
    factor_scores = factor_scores;
    premiums = premiums;
    final_grade = some final_grade;
    interest_rate_pct = some pricing.interest_rate_pct;
    target_payment_vnd = some pricing.target_payment_vnd;
    target_daily_vnd = some pricing.target_daily_vnd;
    avg_daily_revenue_vnd = some pricing.avg_daily_revenue_vnd;
    daily_repayment_rate = some pricing.daily_repayment_rate;
    fired_gates = fired_gates;
    decision = decide pending fired_gates;
  }

module _ {F D : Type 0} (n : Numbers F D) where
  unfoldable pub validate_inputs : GradingInput F D → ParamSet F → Result (Unit {0})
  validate_inputs inputs params = do
    refuse_if (not (any_of (λ m. m == inputs.duration_months) params.allowed_durations_months))
        value_error
    refuse_if
        (not (
          n.le_dec (n.decimal_of params.min_vnd) inputs.loan_size_vnd
          && n.le_dec inputs.loan_size_vnd (n.decimal_of params.max_vnd)))
        value_error
    refuse_if
        (not (
          text_in inputs.industry params.supported_industries
          || text_in inputs.industry params.excluded_industries))
        value_error
    refuse_if (n.le params.rate_cap_pct inputs.bank_rate_pct) value_error

  -- `revenue_y1 == 0 or total_cost == 0 or min_trailing == 0`
  unfoldable pub has_zero : GradingInput F D → List D → Result Bool
  unfolding revenue_y1_decimal total_cost_decimal min_trailing_twelve_decimal
  has_zero inputs monthly = do
    least ← min_trailing_twelve_decimal n monthly
    let zero_dec = n.decimal (pos 0)
    ok (
        n.same_dec (revenue_y1_decimal n monthly) zero_dec
        || n.same_dec (total_cost_decimal n inputs) zero_dec
        || n.same_dec least zero_dec)

  abbrev pub enough_months : GradingInput F D → Option (List D) → Result (Option (List D))
  enough_months inputs none = ok none
  enough_months inputs (some monthly) = do
    refused ← has_zero inputs monthly
    ok (keep_unless monthly refused)

  -- `_is_insufficient_data`: none if so, and the months if not.
  unfoldable pub sufficient_months : GradingInput F D → Result (Option (List D))
  unfolding all_months has_zero
  sufficient_months inputs =
      if not (length inputs.monthly_revenue == 24)
        || not (is_set inputs.cic_score && is_set inputs.kyc_aml_passed)
      then ok none
      else enough_months inputs (all_months inputs.monthly_revenue)

  -- The body of `grade` for sufficient data.
  unfoldable pub grade_months : GradingInput F D → ParamSet F → List D → Result (GradingResult F D)
  unfolding compute_derived score_all_factors compute_rollup price evaluate_gates gate_fires
  grade_months inputs params monthly = do
    derived ← compute_derived n inputs monthly
    factor_scores ← score_all_factors n params inputs derived
    rolled ← compute_rollup n params factor_scores
    pending ← any_missing factor_scores ai_score_keys
    pricing ←
        price n rolled.1 inputs.bank_rate_pct inputs.loan_size_vnd inputs.duration_months
          (revenue_y1_decimal n monthly) params
    fired_gates ←
        evaluate_gates
          (λ gate.
            gate_fires n gate inputs factor_scores (some pricing.daily_repayment_rate)
              params.excluded_industries)
          params.gates
    ok (graded params derived factor_scores rolled.0 rolled.1 pricing fired_gates pending)

  abbrev pub grade_if : GradingInput F D → ParamSet F → Option (List D) → Result (GradingResult F D)
  grade_if inputs params none = ok (insufficient_data_result params)
  grade_if inputs params (some monthly) = grade_months inputs params monthly

  unfoldable pub grade : GradingInput F D → ParamSet F → Result (GradingResult F D)
  unfolding validate_inputs sufficient_months insufficient_data_result grade_months
  grade inputs params = do
    validate_inputs inputs params
    months ← sufficient_months inputs
    grade_if inputs params months
