-- ===== src/Scoring/Started.antt =====
-- How a score run changes the rows (app/underwriting/service.py).
use fund_lok.Prelude.{
  ℕ, suc, text_eq, ◌≡◌, refl, ◌⊎◌, inl, inr, none, some, [], ◌∷◌, ◌++◌, ◌==◌, update, Bool-cases,
}
use fund_lok.Db.{Error, http, Result, ok, err, Result-cases, LoanApplication, ScoreRun}
use fund_lok.Underwriting.Numbers.{Numbers}
use fund_lok.Underwriting.Types.{GradingResult, ParamSet}
use fund_lok.Scoring.Desk.{Desk}
use fund_lok.Scoring.Sector.{SectorReference}
use fund_lok.Scoring.Assess.{decision_text, Assessment, outcome_of, input_rows, assess}
use fund_lok.Scoring.Runs.{start_score_run}
use fund_lok.Lending.Applications.{find_application, update_application, submitted}
use fund_lok.Lending.Contracts.{under_review, new_score_run}

module _ {F D : Type 0} (n : Numbers F D) (params : ParamSet F)
    (reference : Result (SectorReference F)) (application_id : ℕ) where
  -- The desk after a run.
  abbrev pub started : LoanApplication → Assessment F D → Desk F → Desk F
  started app a desk =
      let id = desk.db.uuid4 desk.db.draws in
      record desk {
        db = record desk.db {
          draws = suc desk.db.draws;
          loan_applications =
              update (λ (r : LoanApplication). r.id == app.id) (under_review desk.db.clock)
                desk.db.loan_applications;
          score_runs =
              desk.db.score_runs
              ++ (new_score_run id application_id (some (decision_text a.result.decision)) ∷ []);
        };
        outcomes = desk.outcomes ++ (outcome_of id a ∷ []);
        inputs = desk.inputs ++ input_rows n id application_id app a.bank_rate a.source;
      }

  abbrev pub run_of : Assessment F D → Desk F → ScoreRun × GradingResult F D
  run_of a desk = (
    new_score_run (desk.db.uuid4 desk.db.draws) application_id
        (some (decision_text a.result.decision)),
    a.result,
  )

  -- A score run raises and leaves all as it was, or it has found its application and assessed it.
  pub start_score_run-cases :
      (desk : Desk F)
      → ((e : Error) × (start_score_run n params reference application_id desk ≡ (err e, desk)))
        ⊎ ((app : LoanApplication) × (a : Assessment F D) × (assess n params reference
                application_id desk app
              ≡ ok a)
            × (start_score_run n params reference application_id desk
                ≡ (ok (run_of a desk), started app a desk)))
  unfolding start_score_run update_application
  start_score_run-cases desk =
      elim (Result-cases (find_application application_id desk.db.loan_applications)) [
        | inr (e, failed) ↦ inl (e, rw failed refl)
        | inl (none, found) ↦ inl (http 404 "Application not found", rw found refl)
        | inl (some app, found) ↦ elim (Bool-cases (text_eq app.status "SUBMITTED")) [
          | inr other ↦ inl (
            http 400 "Application must be in SUBMITTED status before scoring",
            rw (found, other) refl,
          )
          | inl submitted ↦
              elim (Result-cases (assess n params reference application_id desk app)) [
                | inr (e, failed) ↦ inl (e, rw (found, submitted, failed) refl)
                | inl (a, assessed) ↦ inr (app, a, assessed, rw (found, submitted, assessed) refl)
              ]
        ]
      ]
