-- ===== src/Scoring/Inputs.antt =====
-- The GradingInput of an application, its stored copy, and the one rebuilt from that copy
-- (app/underwriting/service.py).
use fund_lok.Prelude.{ℕ, zero, suc, Option, none, some, List, [], ◌∷◌, uuid_text, ℤ, pos}
use fund_lok.Underwriting.Numbers.{Numbers}
use fund_lok.Underwriting.Types.{GradingInput}
use fund_lok.Scoring.Desk.{BankRateConfig, Financials, LoanApplicationFinancials, ScoreRunInput}
use fund_lok.Scoring.Sector.{ResolvedSector}

abbrev pub or_zero : Option ℤ → ℤ
or_zero none = pos 0
or_zero (some v) = v

abbrev no_months : ℕ → List (Option ℤ)
no_months zero = []
no_months (suc count) = none ∷ no_months count

-- `monthly_revenue_vnd or [None] * 24`
abbrev pub months_of : Option (List (Option ℤ)) → List (Option ℤ)
months_of none = no_months 24
months_of (some []) = no_months 24
months_of (some (v ∷ vs)) = v ∷ vs

module _ {F D : Type 0} (n : Numbers F D) where
  abbrev month : Option ℤ → Option D
  month none = none
  month (some v) = some (n.decimal v)

  abbrev pub decimals_of : List (Option ℤ) → List (Option D)
  decimals_of [] = []
  decimals_of (v ∷ vs) = month v ∷ decimals_of vs

  -- `float(rate)` of a Numeric(6, 4)
  abbrev pub rate_float : ℕ → F
  rate_float rate_pct = n.literal rate_pct 4

  unfoldable pub build_grading_input :
      LoanApplicationFinancials F → ℤ → F → ResolvedSector F → GradingInput F D
  build_grading_input row loan_size_vnd bank_rate_pct sector =
      let c = row.columns in
      record {
        company_code = uuid_text row.application_id;
        industry = c.industry;
        company_size = c.company_size;
        loan_size_vnd = n.decimal loan_size_vnd;
        duration_months = c.duration_months;
        operating_months = c.operating_months;
        monthly_revenue = decimals_of (months_of c.monthly_revenue_vnd);
        cogs_y1 = n.decimal (or_zero c.cogs_y1_vnd);
        fixed_cost_y1 = n.decimal (or_zero c.fixed_cost_y1_vnd);
        variable_cost_excl_cogs_y1 = n.decimal (or_zero c.variable_cost_excl_cogs_y1_vnd);
        conc_top1_pct = c.conc_top1_pct;
        conc_top3_pct = c.conc_top3_pct;
        crr = c.crr;
        rri = c.rri;
        tcp = c.tcp;
        sector_cagr_pct = sector.sector_cagr_pct;
        ai_scores = sector.ai_scores;
        owner_withdrawal = c.owner_withdrawal;
        cic_score = c.cic_score;
        kyc_aml_passed = c.kyc_aml_passed;
        fraud_flags = c.fraud_flags;
        bank_rate_pct = bank_rate_pct;
      }

  -- The row that `start_score_run` adds beside the run.
  unfoldable pub stored_input :
      ℕ → ℕ → Financials F → ℤ → BankRateConfig → ResolvedSector F → ScoreRunInput F
  stored_input score_run_id application_id c loan_size_vnd bank sector = record {
    score_run_id = score_run_id;
    company_code = uuid_text application_id;
    industry = c.industry;
    company_size = c.company_size;
    loan_size_vnd = loan_size_vnd;
    duration_months = c.duration_months;
    operating_months = c.operating_months;
    monthly_revenue_vnd = months_of c.monthly_revenue_vnd;
    cogs_y1_vnd = or_zero c.cogs_y1_vnd;
    fixed_cost_y1_vnd = or_zero c.fixed_cost_y1_vnd;
    variable_cost_excl_cogs_y1_vnd = or_zero c.variable_cost_excl_cogs_y1_vnd;
    conc_top1_pct = c.conc_top1_pct;
    conc_top3_pct = c.conc_top3_pct;
    crr = c.crr;
    rri = c.rri;
    tcp = c.tcp;
    sector_cagr_pct = sector.sector_cagr_pct;
    sector_reference_version = sector.sector_reference_version;
    ai_scores = sector.ai_scores;
    owner_withdrawal = c.owner_withdrawal;
    cic_score = c.cic_score;
    kyc_aml_passed = c.kyc_aml_passed;
    fraud_flags = c.fraud_flags;
    bank_rate_pct = bank.rate_pct;
    bank_rate_effective_from = bank.effective_from;
  }

  -- What `replay_score_run` makes of the row.
  unfoldable pub replayed_input : ScoreRunInput F → GradingInput F D
  replayed_input stored = record {
    company_code = stored.company_code;
    industry = stored.industry;
    company_size = stored.company_size;
    loan_size_vnd = n.decimal stored.loan_size_vnd;
    duration_months = stored.duration_months;
    operating_months = stored.operating_months;
    monthly_revenue = decimals_of stored.monthly_revenue_vnd;
    cogs_y1 = n.decimal stored.cogs_y1_vnd;
    fixed_cost_y1 = n.decimal stored.fixed_cost_y1_vnd;
    variable_cost_excl_cogs_y1 = n.decimal stored.variable_cost_excl_cogs_y1_vnd;
    conc_top1_pct = stored.conc_top1_pct;
    conc_top3_pct = stored.conc_top3_pct;
    crr = stored.crr;
    rri = stored.rri;
    tcp = stored.tcp;
    sector_cagr_pct = stored.sector_cagr_pct;
    ai_scores = stored.ai_scores;
    owner_withdrawal = stored.owner_withdrawal;
    cic_score = stored.cic_score;
    kyc_aml_passed = stored.kyc_aml_passed;
    fraud_flags = stored.fraud_flags;
    bank_rate_pct = rate_float stored.bank_rate_pct;
  }
