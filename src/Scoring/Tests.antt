-- ===== src/Scoring/Tests.antt =====
-- A desk with one submitted application (app/underwriting/service.py), and the theorems applied to
-- it.
use fund_lok.Prelude.{
  ℕ, zero, suc, ◌+◌, ◌-◌, ◌*◌, ◌/◌, ◌%◌, ◌^◌, ◌≤◌, ◌<◌, String, text_eq, ◌≡◌, refl, sym, ap, ◌∙◌,
  subst, ◌≢◌, ◌↔◌, ◌⊎◌, inl, inr, Bool, true, false, not, ◌&&◌, ◌||◌, Option, none, some, List, [],
  ◌∷◌, ◌++◌, arith, ltb, leb, ◌==◌, if◌then◌else◌, opt_eq, truthy, length, select, find_first,
  update, any_of, any_of-more, any_of-update, all_of, All, All-map, All-append, strip, remove_char,
  rstrip_char, take_text, all_chars, text_length, char_at, search_text, after_prefix, contains,
  take_while, append_text, map_text, sum_by, sorted, uuid_text, uuid_text_not_empty, ℤ, pos, negsuc,
  ◌+ℤ◌, ◌-ℤ◌, ◌≤ℤ◌, ltb_ℤ, leb_ℤ, eq_ℤ, int_laws, Bool-cases, Option-cases, ==_self,
}
use fund_lok.Db.{Result, ok, err, value_error, LoanApplication, ScoreRun, empty_db}
use fund_lok.Scoring.Desk.{BankRateConfig, Financials, Desk}
use fund_lok.Scoring.Sector.{SectorRow, SectorReference}
use fund_lok.Scoring.Rates.{get_current_bank_rate, set_bank_rate}
use fund_lok.Scoring.InForce.{set_bank_rate-in_force}
use fund_lok.Scoring.Assess.{find_financials, Assessment}
use fund_lok.Scoring.Runs.{start_score_run, replay_score_run}
use fund_lok.Scoring.Stored.{IsRunOf}
use fund_lok.Scoring.Started.{started, run_of}
use fund_lok.Scoring.Calls.{upserts, sets_rate, scores, approves, run}
use fund_lok.Scoring.Replay.{IsFresh, replay_score_run-start}
use fund_lok.Underwriting.Samples.{whole, sample_params, sample_result}
use fund_lok.Underwriting.Types.{no_scores, approved}

abbrev sector_row : SectorRow ℕ
sector_row = record {
  regulatory = 40;
  input_cost_vol = 40;
  cyclicality = 40;
  competitor = 40;
  macro = 40;
  uncontrollable = 40;
  cagr_pct = 5;
}

abbrev table : Result (SectorReference ℕ)
table = ok (record {
  sector_reference_version = "s1";
  status = "DRAFT_UNREVIEWED";
  industries = ("Retail Trade", sector_row) ∷ [];
  founder_constant = 60;
})

abbrev figures : Financials ℕ
figures = record {
  industry = "Retail Trade";
  company_size = "small";
  duration_months = 6;
  operating_months = 36;
  monthly_revenue_vnd = some (months 50 ++ months 60);
  cogs_y1_vnd = some (pos 100);
  fixed_cost_y1_vnd = some (pos 80);
  variable_cost_excl_cogs_y1_vnd = none;
  conc_top1_pct = some 90;
  conc_top3_pct = none;
  crr = none;
  rri = none;
  tcp = none;
  sector_cagr_pct_override = none;
  ai_score_overrides = record no_scores { macro = some 30 };
  owner_withdrawal = none;
  cic_score = some 600;
  kyc_aml_passed = some true;
  fraud_flags = [];
}
  where
    months : ℕ → List (Option ℤ)
    months v = let m = some (pos v) in m ∷ m ∷ m ∷ m ∷ m ∷ m ∷ m ∷ m ∷ m ∷ m ∷ m ∷ m ∷ []

abbrev rate : ℕ → ℕ → BankRateConfig
rate rate_pct effective_from = record {
  id = effective_from;
  rate_pct = rate_pct;
  effective_from = effective_from;
  created_by_actor_id = 1;
}

abbrev waiting : LoanApplication
waiting = record {
  id = 5;
  project_id = 2;
  requested_amount = pos 600;
  purpose = none;
  repayment_preference = none;
  status = "SUBMITTED";
  self_reported_figures = none;
  figures_updated_at = none;
  submitted_at = some 0;
}

abbrev desk : Desk ℕ
desk = record {
  db = record empty_db { loan_applications = waiting ∷ [] };
  bank_rates = rate 110000 700000 ∷ rate 120000 719000 ∷ rate 130000 730000 ∷ [];
  financials = record { application_id = 5; columns = figures } ∷ [];
  inputs = [];
  outcomes = [];
}

abbrev assessment : Assessment ℕ ℕ
assessment = record {
  result = record sample_result {
    derived =
        ("revenue_y1", some 720)
        ∷ ("avg_monthly_revenue", some 60)
        ∷ ("total_cost", some 180)
        ∷ ("avg_monthly_cost", some 15)
        ∷ ("profit", some 540)
        ∷ ("gross_margin_pct", some 0)
        ∷ ("contribution_margin_pct", some 0)
        ∷ ("operating_margin_pct", some 0)
        ∷ ("cost_flexibility_pct", some 0)
        ∷ ("loan_revenue_ratio", some 1)
        ∷ ("scsr_ratio", some 2)
        ∷ ("revenue_volatility_cv", some 0)
        ∷ ("revenue_trend_decimal", some 0)
        ∷ ("seasonality_ratio", some 1)
        ∷ ("rti", none)
        ∷ [];
    factor_scores =
        ("conc_top1", some 10)
        ∷ ("regulatory", some 40)
        ∷ ("input_cost_vol", some 40)
        ∷ ("cyclicality", some 40)
        ∷ ("competitor", some 40)
        ∷ ("macro", some 30)
        ∷ ("uncontrollable", some 40)
        ∷ ("founder", some 60)
        ∷ [];
    decision = approved;
  };
  bank_rate = rate 120000 719000;
  source = some (
    figures,
    record {
      ai_scores = record {
        regulatory = some 40;
        input_cost_vol = some 40;
        cyclicality = some 40;
        competitor = some 40;
        macro = some 30;
        uncontrollable = some 40;
        founder = some 60;
      };
      sector_cagr_pct = 5;
      sector_reference_version = some "s1";
    },
  );
}

abbrev after_run : Desk ℕ
after_run = started whole sample_params table 5 waiting assessment desk

abbrev first_run : ScoreRun
first_run = (run_of whole sample_params table 5 assessment desk).0

started_sample :
    start_score_run whole sample_params table 5 desk
    ≡ (ok (first_run, assessment.result), after_run)
unfolding start_score_run fund_lok.Prelude.Sort.sorted fund_lok.Underwriting.Gates.decide
started_sample = refl

desk-IsFresh : IsFresh desk
desk-IsFresh = record { no_input = refl; no_run = refl; unused = λ i le. ground arith }

replay_score_run-start_example :
    (later : ScoreRun) × IsRunOf first_run later
    × ((replay_score_run whole sample_params first_run.id (
          run whole sample_params
            (upserts 5 (record figures { cic_score = none })
              ∷ sets_rate 140000 719100 1
              ∷ approves first_run.id
              ∷ scores (err value_error) 5
              ∷ [])
            after_run)).0
        ≡ ok (later, assessment.result))
unfolding find_financials
replay_score_run-start_example =
    replay_score_run-start whole sample_params table 5
      (record { application_id = 5; columns = figures }) first_run assessment.result desk after_run
      (upserts 5 (record figures { cic_score = none })
        ∷ sets_rate 140000 719100 1
        ∷ approves first_run.id
        ∷ scores (err value_error) 5
        ∷ [])
      desk-IsFresh refl started_sample

set_bank_rate-in_force_example :
    get_current_bank_rate (set_bank_rate 140000 719100 1 desk).1.bank_rates 719163
    ≡ ok (record { id = 100; rate_pct = 140000; effective_from = 719100; created_by_actor_id = 1 })
unfolding set_bank_rate
set_bank_rate-in_force_example =
    set_bank_rate-in_force 140000 719100 1 719163
      (record { id = 100; rate_pct = 140000; effective_from = 719100; created_by_actor_id = 1 })
      desk (set_bank_rate 140000 719100 1 desk).1 refl
