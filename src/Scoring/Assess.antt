-- ===== src/Scoring/Assess.antt =====
-- What a score run is made of (app/underwriting/service.py). The parameters and the sector table
-- are those that load_params and load_sector_reference make of their files.
use fund_lok.Prelude.{ℕ, ◌+◌, ◌/◌, String, Option, none, some, List, [], ◌∷◌, ◌==◌, select}
use fund_lok.Db.{http, Result, ok, err, value_error, scalar_one_or_none, LoanApplication}
use fund_lok.Underwriting.Numbers.{Numbers, ◌>>=◌}
use fund_lok.Underwriting.Types.{
  Decision, approved, review, reject, insufficient_data, ai_pending, GradingResult, ParamSet,
}
use fund_lok.Underwriting.Engine.{insufficient_data_result, grade}
use fund_lok.Scoring.Desk.{
  BankRateConfig, Financials, LoanApplicationFinancials, ScoreRunInput, Outcome, Desk,
}
use fund_lok.Scoring.Sector.{SectorReference, ResolvedSector, resolve_sector}
use fund_lok.Scoring.Rates.{get_current_bank_rate}
use fund_lok.Scoring.Inputs.{rate_float, build_grading_input, stored_input}

unfoldable pub find_financials :
    {F : Type 0}
    → ℕ
    → List (LoanApplicationFinancials F)
    → Result (Option (LoanApplicationFinancials F))
find_financials {F} application_id rows =
    scalar_one_or_none
      (select (λ (r : LoanApplicationFinancials F). r.application_id == application_id) rows)

unfoldable pub find_input :
    {F : Type 0} → ℕ → List (ScoreRunInput F) → Result (Option (ScoreRunInput F))
find_input {F} score_run_id rows =
    scalar_one_or_none (select (λ (r : ScoreRunInput F). r.score_run_id == score_run_id) rows)

-- Days since 0001-01-01 of a time in microseconds since 1970.
abbrev pub date_of : ℕ → ℕ
date_of clock = 719163 + clock / 86400000000

abbrev pub decision_text : Decision → String
decision_text approved = "APPROVED"
decision_text review = "REVIEW"
decision_text reject = "REJECT"
decision_text insufficient_data = "INSUFFICIENT_DATA"
decision_text ai_pending = "AI_PENDING"

-- What a run is made of: the grade, and what it was made from, if there was anything.
pub record Assessment (F D : Type 0) : Type 0 where
  pub result : GradingResult F D
  pub bank_rate : BankRateConfig
  pub source : Option (Financials F × ResolvedSector F)

-- `except ValueError`; the detail is the text of the error.
abbrev pub as_422 : {A : Type 0} → Result A → Result A
as_422 (ok a) = ok a
as_422 (err value_error) = err (http 422 "")
as_422 (err e) = err e

abbrev pub version_of : {F : Type 0} → Option (Financials F × ResolvedSector F) → Option String
version_of none = none
version_of (some (columns, sector)) = sector.sector_reference_version

module _ {F D : Type 0} where
  abbrev pub outcome_of : ℕ → Assessment F D → Outcome F
  outcome_of score_run_id a = record {
    score_run_id = score_run_id;
    engine_version = a.result.engine_version;
    params_version = a.result.params_version;
    sector_reference_version = version_of a.source;
    final_grade_precise = a.result.final_grade;
    interest_rate_pct = a.result.interest_rate_pct;
    bank_rate_pct = a.bank_rate.rate_pct;
    bank_rate_effective_from = a.bank_rate.effective_from;
    factor_results = a.result.factor_scores;
  }

module _ {F D : Type 0} (n : Numbers F D) where
  unfoldable pub input_rows :
      ℕ
      → ℕ
      → LoanApplication
      → BankRateConfig
      → Option (Financials F × ResolvedSector F)
      → List (ScoreRunInput F)
  unfolding stored_input
  input_rows score_run_id application_id app bank none = []
  input_rows score_run_id application_id app bank (some (columns, sector)) =
      stored_input n score_run_id application_id columns app.requested_amount bank sector ∷ []

module _ {F D : Type 0} (n : Numbers F D) (params : ParamSet F)
    (reference : Result (SectorReference F)) where
  -- The grade of the financials, or of none.
  unfoldable pub grade_financials :
      LoanApplication
      → BankRateConfig
      → Option (LoanApplicationFinancials F)
      → Result (Assessment F D)
  unfolding grade build_grading_input resolve_sector insufficient_data_result
  grade_financials app bank none =
      ok (record { result = insufficient_data_result params; bank_rate = bank; source = none })
  grade_financials app bank (some row) = do
    sector ← resolve_sector n reference row.columns params
    result ← as_422 (
        grade n (build_grading_input n row app.requested_amount (rate_float n bank.rate_pct) sector)
          params)
    ok (record { result = result; bank_rate = bank; source = some (row.columns, sector) })

  unfoldable pub assess : ℕ → Desk F → LoanApplication → Result (Assessment F D)
  unfolding get_current_bank_rate find_financials grade_financials
  assess application_id desk app = do
    bank ← get_current_bank_rate desk.bank_rates (date_of desk.db.clock)
    row ← find_financials application_id desk.financials
    grade_financials app bank row
