-- ===== src/Scoring/Desk.antt =====
-- The tables of app/underwriting/models.py and the LoanApplicationFinancials of
-- app/lending/models.py, beside the other rows. Columns of floats are of a type `F`; Numeric(20, 0)
-- is an integer, and a rate, Numeric(6, 4), its number of ten-thousandths.
use fund_lok.Prelude.{ℕ, String, Bool, Option, List, ℤ}
use fund_lok.Db.{Result, ok, err, Db, Exec}
use fund_lok.Underwriting.Types.{AiScores}

pub record BankRateConfig : Type 0 where
  pub id : ℕ
  pub rate_pct : ℕ
  pub effective_from : ℕ
  pub created_by_actor_id : ℕ

-- The columns that ApplicationFinancialsCreate has too.
pub record Financials (F : Type 0) : Type 0 where
  pub industry : String
  pub company_size : String
  pub duration_months : ℕ
  pub operating_months : ℕ
  pub monthly_revenue_vnd : Option (List (Option ℤ))
  pub cogs_y1_vnd : Option ℤ
  pub fixed_cost_y1_vnd : Option ℤ
  pub variable_cost_excl_cogs_y1_vnd : Option ℤ
  pub conc_top1_pct : Option F
  pub conc_top3_pct : Option F
  pub crr : Option F
  pub rri : Option F
  pub tcp : Option F
  pub sector_cagr_pct_override : Option F
  pub ai_score_overrides : AiScores F
  pub owner_withdrawal : Option F
  pub cic_score : Option ℕ
  pub kyc_aml_passed : Option Bool
  pub fraud_flags : List String

pub record LoanApplicationFinancials (F : Type 0) : Type 0 where
  pub application_id : ℕ
  pub columns : Financials F

pub record ScoreRunInput (F : Type 0) : Type 0 where
  pub score_run_id : ℕ
  pub company_code : String
  pub industry : String
  pub company_size : String
  pub loan_size_vnd : ℤ
  pub duration_months : ℕ
  pub operating_months : ℕ
  pub monthly_revenue_vnd : List (Option ℤ)
  pub cogs_y1_vnd : ℤ
  pub fixed_cost_y1_vnd : ℤ
  pub variable_cost_excl_cogs_y1_vnd : ℤ
  pub conc_top1_pct : Option F
  pub conc_top3_pct : Option F
  pub crr : Option F
  pub rri : Option F
  pub tcp : Option F
  pub sector_cagr_pct : F
  pub sector_reference_version : Option String
  pub ai_scores : AiScores F
  pub owner_withdrawal : Option F
  pub cic_score : Option ℕ
  pub kyc_aml_passed : Option Bool
  pub fraud_flags : List String
  pub bank_rate_pct : ℕ
  pub bank_rate_effective_from : ℕ

-- The columns of a row of `score_runs` that hold what the engine said.
pub record Outcome (F : Type 0) : Type 0 where
  pub score_run_id : ℕ
  pub engine_version : String
  pub params_version : String
  pub sector_reference_version : Option String
  pub final_grade_precise : Option F
  pub interest_rate_pct : Option F
  pub bank_rate_pct : ℕ
  pub bank_rate_effective_from : ℕ
  pub factor_results : List (String × Option F)

pub record Desk (F : Type 0) : Type 0 where
  pub db : Db
  pub bank_rates : List BankRateConfig
  pub financials : List (LoanApplicationFinancials F)
  pub inputs : List (ScoreRunInput F)
  pub outcomes : List (Outcome F)

-- A method on these tables.
abbrev pub Work : Type 0 → Type 0 → Type 0
Work F A = Desk F → Result A × Desk F

module _ {F : Type 0} where
  abbrev pub next : {A B : Type 0} → Result A → (A → Work F B) → Work F B
  next (ok a) f desk = f a desk
  next (err e) f desk = (err e, desk)

  -- A method on the other rows alone.
  abbrev pub on_db : {A : Type 0} → Exec A → Work F A
  on_db m desk = ((m desk.db).0, record desk { db = (m desk.db).1 })

  abbrev pub reads : {A : Type 0} → (Desk F → Result A) → Work F A
  reads f desk = (f desk, desk)

  abbrev pub change : (Desk F → Desk F) → Work F (Unit {0})
  change f desk = (ok tt, f desk)

infixl 5 ◌>>=◌ ◌>>◌
abbrev pub ◌>>=◌ : {F A B : Type 0} → Work F A → (A → Work F B) → Work F B
◌>>=◌ m f desk = next (m desk).0 f (m desk).1

abbrev pub ◌>>◌ : {F A B : Type 0} → Work F A → Work F B → Work F B
m >> k = m >>= λ _. k
