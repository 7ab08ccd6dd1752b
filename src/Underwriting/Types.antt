-- ===== src/Underwriting/Types.antt =====
-- app/underwriting/grading/types.py and the parameters of app/underwriting/grading/params.py.
use fund_lok.Prelude.{ℕ, String, Bool, Option, List, text_eq, none, if◌then◌else◌}

-- The dict of the AI's scores: its keys are among these seven.
pub record AiScores (F : Type 0) : Type 0 where
  pub regulatory : Option F
  pub input_cost_vol : Option F
  pub cyclicality : Option F
  pub competitor : Option F
  pub macro : Option F
  pub uncontrollable : Option F
  pub founder : Option F

abbrev pub no_scores : {F : Type 0} → AiScores F
no_scores = record {
  regulatory = none;
  input_cost_vol = none;
  cyclicality = none;
  competitor = none;
  macro = none;
  uncontrollable = none;
  founder = none;
}

-- `ai_scores.get(key)`
abbrev pub score_of : {F : Type 0} → String → AiScores F → Option F
score_of key s =
    if text_eq key "regulatory"
    then s.regulatory
    else if text_eq key "input_cost_vol"
    then s.input_cost_vol
    else if text_eq key "cyclicality"
    then s.cyclicality
    else if text_eq key "competitor"
    then s.competitor
    else if text_eq key "macro"
    then s.macro
    else if text_eq key "uncontrollable"
    then s.uncontrollable
    else if text_eq key "founder"
    then s.founder
    else none

pub record GradingInput (F D : Type 0) : Type 0 where
  pub company_code : String
  pub industry : String
  pub company_size : String
  pub loan_size_vnd : D
  pub duration_months : ℕ
  pub operating_months : ℕ
  pub monthly_revenue : List (Option D)
  pub cogs_y1 : D
  pub fixed_cost_y1 : D
  pub variable_cost_excl_cogs_y1 : D
  pub conc_top1_pct : Option F
  pub conc_top3_pct : Option F
  pub crr : Option F
  pub rri : Option F
  pub tcp : Option F
  pub sector_cagr_pct : F
  pub ai_scores : AiScores F
  pub owner_withdrawal : Option F
  pub cic_score : Option ℕ
  pub kyc_aml_passed : Option Bool
  pub fraud_flags : List String
  pub bank_rate_pct : F

pub record GateResult : Type 0 where
  pub id : ℕ
  pub key : String
  pub severity : String

pub data Decision : Type 0 where
  approved review reject insufficient_data ai_pending : Decision

pub record GradingResult (F D : Type 0) : Type 0 where
  pub engine_version : String
  pub params_version : String
  pub derived : List (String × Option F)
  pub factor_scores : List (String × Option F)
  pub premiums : List (String × F)
  pub final_grade : Option F
  pub interest_rate_pct : Option F
  pub target_payment_vnd : Option D
  pub target_daily_vnd : Option D
  pub avg_daily_revenue_vnd : Option D
  pub daily_repayment_rate : Option F
  pub fired_gates : List GateResult
  pub decision : Decision

pub record FactorParam (F : Type 0) : Type 0 where
  pub key : String
  pub kind : String
  pub input : Option String
  pub upper : Option F
  pub steepness : Option F
  pub intercept : Option F
  pub decreasing : Option Bool
  pub formula : Option String
  pub scale_input_by : Option F
  pub a : Option F
  pub b : Option F
  pub c : Option F
  pub d : Option F

pub record GateParam (F : Type 0) : Type 0 where
  pub id : ℕ
  pub key : String
  pub severity : String
  pub enabled : Bool
  pub threshold : Option F

-- `{"core": {key: weight}, "bonus": {key: weight}}`
pub record GroupWeights (F : Type 0) : Type 0 where
  pub core : List (String × F)
  pub bonus : List (String × F)

-- What the code reads of a ParamSet; a band of `company_sizes` is its `min` and its `max`.
pub record ParamSet (F : Type 0) : Type 0 where
  pub engine_version : String
  pub params_version : String
  pub factors : List (FactorParam F)
  pub rollup : List (String × GroupWeights F)
  pub final_grade : List (String × F)
  pub rate_cap_pct : F
  pub working_days_per_month : F
  pub working_days_per_year : F
  pub gates : List (GateParam F)
  pub excluded_industries : List String
  pub supported_industries : List String
  pub company_sizes : List (String × ℕ × ℕ)
  pub min_vnd : F
  pub max_vnd : F
  pub allowed_durations_months : List ℕ
