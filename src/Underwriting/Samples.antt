-- ===== src/Underwriting/Samples.antt =====
-- A sample application over whole numbers, and its parameters.
use fund_lok.Prelude.{
  ℕ, ◌+◌, ◌-◌, ◌*◌, ◌/◌, ◌^◌, String, true, false, Option, none, some, List, [], ◌∷◌, ◌++◌, ltb,
  leb, ◌==◌, if◌then◌else◌, length, sum_by, pos_part,
}
use fund_lok.Db.{Result, ok, err, zero_division}
use fund_lok.Underwriting.Numbers.{Numbers}
use fund_lok.Underwriting.Types.{
  no_scores, GradingInput, ai_pending, GradingResult, FactorParam, ParamSet,
}

abbrev pub quotient : ℕ → ℕ → Result ℕ
quotient x y = if y == 0 then err zero_division else ok (x / y)

-- Whole numbers in place of floats and decimals.
abbrev pub whole : Numbers ℕ ℕ
whole = record {
  literal = λ m k. m / 10 ^ k;
  minus = λ x. 0;
  add = λ x y. x + y;
  sub = λ x y. x - y;
  mul = λ x y. x * y;
  div = quotient;
  lt = ltb;
  le = leb;
  same = λ x y. x == y;
  exp = λ x. ok x;
  pow = λ x k. ok (x ^ k);
  infinity = 0;
  is_inf = λ x. false;
  total = λ xs. sum_by (λ x. x) xs;
  mean = λ xs. sum_by (λ x. x) xs / length xs;
  pstdev = λ xs. 0;
  of_int = pos_part;
  decimal = pos_part;
  decimal_of = λ x. x;
  to_float = λ x. x;
  add_dec = λ x y. x + y;
  mul_dec = λ x y. x * y;
  div_dec = quotient;
  le_dec = leb;
  lt_dec = ltb;
  same_dec = λ x y. x == y;
}

abbrev supplied : String → FactorParam ℕ
supplied key = record {
  key = key;
  kind = "supplied";
  input = none;
  upper = none;
  steepness = none;
  intercept = none;
  decreasing = none;
  formula = none;
  scale_input_by = none;
  a = none;
  b = none;
  c = none;
  d = none;
}

abbrev pub sample_params : ParamSet ℕ
sample_params = record {
  engine_version = "1.0.0";
  params_version = "v1";
  factors =
      record (supplied "conc_top1") { kind = "linear"; input = some "conc_top1_pct" }
      ∷ supplied "regulatory"
      ∷ supplied "input_cost_vol"
      ∷ supplied "cyclicality"
      ∷ supplied "competitor"
      ∷ supplied "macro"
      ∷ supplied "uncontrollable"
      ∷ supplied "founder"
      ∷ [];
  rollup =
      (
        "sector",
        record { core = ("regulatory", 1) ∷ ("macro", 1) ∷ []; bonus = ("conc_top1", 1) ∷ [] },
      )
      ∷ [];
  final_grade = ("sector", 1) ∷ [];
  rate_cap_pct = 20;
  working_days_per_month = 22;
  working_days_per_year = 252;
  gates =
      record {
        id = 1;
        key = "operating_history";
        severity = "soft";
        enabled = true;
        threshold = none;
      }
      ∷ record { id = 6; key = "kyc_aml"; severity = "hard"; enabled = true; threshold = none }
      ∷ [];
  excluded_industries = "alcohol" ∷ [];
  supported_industries = "Retail Trade" ∷ [];
  company_sizes = ("micro", 1, 10) ∷ ("small", 11, 50) ∷ [];
  min_vnd = 200;
  max_vnd = 5000;
  allowed_durations_months = 3 ∷ 6 ∷ [];
}

abbrev pub twelve : Option ℕ → List (Option ℕ)
twelve v = v ∷ v ∷ v ∷ v ∷ v ∷ v ∷ v ∷ v ∷ v ∷ v ∷ v ∷ v ∷ []

abbrev pub sample_input : GradingInput ℕ ℕ
sample_input = record {
  company_code = "shop";
  industry = "Retail Trade";
  company_size = "small";
  loan_size_vnd = 600;
  duration_months = 6;
  operating_months = 36;
  monthly_revenue = twelve (some 50) ++ twelve (some 60);
  cogs_y1 = 100;
  fixed_cost_y1 = 80;
  variable_cost_excl_cogs_y1 = 60;
  conc_top1_pct = some 90;
  conc_top3_pct = none;
  crr = none;
  rri = none;
  tcp = none;
  sector_cagr_pct = 5;
  ai_scores = record no_scores { regulatory = some 40; macro = some 30 };
  owner_withdrawal = none;
  cic_score = some 600;
  kyc_aml_passed = some true;
  fraud_flags = [];
  bank_rate_pct = 12;
}

abbrev pub sample_result : GradingResult ℕ ℕ
sample_result = record {
  engine_version = "1.0.0";
  params_version = "v1";
  derived =
      ("revenue_y1", some 720)
      ∷ ("avg_monthly_revenue", some 60)
      ∷ ("total_cost", some 240)
      ∷ ("avg_monthly_cost", some 20)
      ∷ ("profit", some 480)
      ∷ ("gross_margin_pct", some 0)
      ∷ ("contribution_margin_pct", some 0)
      ∷ ("operating_margin_pct", some 0)
      ∷ ("cost_flexibility_pct", some 0)
      ∷ ("loan_revenue_ratio", some 1)
      ∷ ("scsr_ratio", some 2)
      ∷ ("revenue_volatility_cv", some 0)
      ∷ ("revenue_trend_decimal", some 0)
      ∷ ("seasonality_ratio", some 1)
      ∷ ("rti", none)
      ∷ [];
  factor_scores =
      ("conc_top1", some 10)
      ∷ ("regulatory", some 40)
      ∷ ("input_cost_vol", none)
      ∷ ("cyclicality", none)
      ∷ ("competitor", none)
      ∷ ("macro", some 30)
      ∷ ("uncontrollable", none)
      ∷ ("founder", none)
      ∷ [];
  premiums = ("sector", 80) ∷ [];
  final_grade = some 80;
  interest_rate_pct = some 13;
  target_payment_vnd = some 600;
  target_daily_vnd = some 4;
  avg_daily_revenue_vnd = some 2;
  daily_repayment_rate = some 2;
  fired_gates = [];
  decision = ai_pending;
}
