-- ===== src/Scoring/Runs.antt =====
-- Score runs, their replay and their data (app/underwriting/service.py).
use fund_lok.Prelude.{ℕ, text_eq, not, Option, none, some, [], ◌∷◌, ◌++◌, ◌==◌, update}
use fund_lok.Db.{http, Result, ok, new_id, require, ScoreRun, raise_if, modify}
use fund_lok.Underwriting.Numbers.{Numbers}
use fund_lok.Underwriting.Types.{GradingResult, ParamSet}
use fund_lok.Underwriting.Engine.{grade}
use fund_lok.Scoring.Desk.{
  Financials, LoanApplicationFinancials, Desk, Work, on_db, reads, change, ◌>>=◌, ◌>>◌,
}
use fund_lok.Scoring.Sector.{SectorReference}
use fund_lok.Scoring.Inputs.{replayed_input}
use fund_lok.Scoring.Assess.{
  find_financials, find_input, decision_text, assess, outcome_of, input_rows,
}
use fund_lok.Lending.Applications.{find_application, update_application}
use fund_lok.Lending.Contracts.{find_score_run, under_review, new_score_run}

module _ {F : Type 0} where
  -- The row of the application gets the columns, and is made if there is none.
  abbrev pub replaced : ℕ → Financials F → Option (LoanApplicationFinancials F) → Desk F → Desk F
  replaced application_id body none desk = record desk {
    financials =
        desk.financials ++ ((record { application_id = application_id; columns = body }) ∷ []);
  }
  replaced application_id body (some row) desk = record desk {
    financials =
        update (λ (r : LoanApplicationFinancials F). r.application_id == application_id)
          (λ r. record r { columns = body }) desk.financials;
  }

  unfoldable pub upsert_application_financials : ℕ → Financials F → Work F (Unit {0})
  unfolding find_application find_financials
  upsert_application_financials application_id body = do
    found ← reads (λ desk. find_application application_id desk.db.loan_applications)
    reads (λ desk. require found (http 404 "Application not found"))
    row ← reads (λ desk. find_financials application_id desk.financials)
    change (replaced application_id body row)

  unfoldable pub find_run : ℕ → Work F ScoreRun
  unfolding find_score_run
  find_run score_run_id = do
    found ← reads (λ desk. find_score_run score_run_id desk.db.score_runs)
    reads (λ desk. require found (http 404 "Score run not found"))

module _ {F D : Type 0} (n : Numbers F D) (params : ParamSet F)
    (reference : Result (SectorReference F)) where
  unfoldable pub start_score_run : ℕ → Work F (ScoreRun × GradingResult F D)
  unfolding find_application assess update_application input_rows
  start_score_run application_id = do
    found ← reads (λ desk. find_application application_id desk.db.loan_applications)
    app ← reads (λ desk. require found (http 404 "Application not found"))
    on_db (
        raise_if (not (text_eq app.status "SUBMITTED"))
          (http 400 "Application must be in SUBMITTED status before scoring"))
    a ← reads (λ desk. assess n params reference application_id desk app)
    id ← on_db new_id
    on_db (update_application app.id under_review)
    let run = new_score_run id application_id (some (decision_text a.result.decision))
    on_db (modify (λ db. record db { score_runs = db.score_runs ++ (run ∷ []) }))
    change (λ desk. record desk {
      outcomes = desk.outcomes ++ (outcome_of id a ∷ []);
      inputs = desk.inputs ++ input_rows n id application_id app a.bank_rate a.source;
    })
    λ desk. (ok (run, a.result), desk)

module _ {F D : Type 0} (n : Numbers F D) (params : ParamSet F) where
  unfoldable pub replay_score_run : ℕ → Work F (ScoreRun × GradingResult F D)
  unfolding find_run find_input replayed_input grade
  replay_score_run score_run_id = do
    sr ← find_run score_run_id
    found ← reads (λ desk. find_input score_run_id desk.inputs)
    stored ← reads (λ desk. require found (http 404 "Score run has no stored inputs to replay"))
    result ← reads (λ desk. grade n (replayed_input n stored) params)
    λ desk. (ok (sr, result), desk)
