-- ===== src/Lending/Calls.antt =====
-- The calls between a project and a contract, in any order (app/projects/, app/loans/,
-- app/contracts/, app/lending/ and app/underwriting/service.py).
use fund_lok.Prelude.{ℕ, ◌+◌, String, Option, List, [], ◌∷◌}
use fund_lok.Db.{Db, User}
use fund_lok.Lending.Applications.{
  LoanRequest, ProjectRequest, create_project, create_application, save_figures, submit_application,
}
use fund_lok.Lending.Contracts.{
  Grading, start_score_run, approve_score_run, create_contract, approve_document,
}

pub data Call : Type 0 where
  creates_project : ProjectRequest → User → Call
  creates_application : ℕ → LoanRequest → User → Call
  saves_figures : ℕ → String → User → Call
  submits : ℕ → User → Call
  scores : ℕ → Call
  approves_run : ℕ → Call
  creates_contract : ℕ → ℕ → Call
  approves_document : ℕ → ℕ → Option String → Call
  waits : ℕ → Call

module _ (grading : Grading) where
  unfoldable pub step : Call → Db → Db
  unfolding create_project create_application save_figures submit_application start_score_run
      approve_score_run create_contract approve_document
  step (creates_project body user) db = (create_project body user db).1
  step (creates_application project_id body user) db =
      (create_application project_id body user db).1
  step (saves_figures application_id figures user) db =
      (save_figures application_id figures user db).1
  step (submits application_id user) db = (submit_application application_id user db).1
  step (scores application_id) db = (start_score_run grading application_id db).1
  step (approves_run score_run_id) db = (approve_score_run score_run_id db).1
  step (creates_contract score_run_id application_id) db =
      (create_contract score_run_id application_id db).1
  step (approves_document document_id actor_id ip) db =
      (approve_document document_id actor_id ip db).1
  step (waits t) db = record db { clock = db.clock + t }

  unfoldable pub run : List Call → Db → Db
  unfolding step
  run [] db = db
  run (c ∷ calls) db = run calls (step c db)
