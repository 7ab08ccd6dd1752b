-- ===== src/Lending/Contracts.antt =====
-- Score runs, contracts and the approval of documents (app/underwriting/service.py,
-- app/contracts/service.py, app/lending/service.py). What the engine decides about an application
-- is a parameter.
use fund_lok.Prelude.{
  ℕ, String, text_eq, Bool, true, false, not, Option, none, some, List, [], ◌∷◌, ◌++◌, ◌==◌,
  if◌then◌else◌, select, update, pos,
}
use fund_lok.Db.{
  Document, LoanApplication, Contract, ScoreRun, Error, http, Result, Exec, pure, lift, require,
  ◌>>=◌, ◌>>◌, raise_if, modify, scalar_one_or_none, new_id,
}
use fund_lok.Lending.Applications.{find_application, update_application}

unfoldable pub find_score_run : ℕ → List ScoreRun → Result (Option ScoreRun)
find_score_run score_run_id rows =
    scalar_one_or_none (select (λ (r : ScoreRun). r.id == score_run_id) rows)

-- What grading makes of an application: its decision, or the error it raises.
abbrev pub Grading : Type 0
Grading = LoanApplication → Result (Option String)

abbrev pub under_review : ℕ → LoanApplication → LoanApplication
under_review now row = record row { status = "UNDER_REVIEW" }

abbrev pub new_score_run : ℕ → ℕ → Option String → ScoreRun
new_score_run id application_id decision = record {
  id = id;
  application_id = application_id;
  status = "READY";
  decision = decision;
  locked_at = none;
}

unfoldable pub start_score_run : Grading → ℕ → Exec ScoreRun
unfolding find_application update_application
start_score_run grading application_id = do
  found ← λ db. (find_application application_id db.loan_applications, db)
  app ← lift (require found (http 404 "Application not found"))
  raise_if (not (text_eq app.status "SUBMITTED"))
      (http 400 "Application must be in SUBMITTED status before scoring")
  decision ← lift (grading app)
  id ← new_id
  update_application app.id under_review
  modify (λ db. record db {
    score_runs = db.score_runs ++ (new_score_run id application_id decision ∷ []);
  })
  pure (new_score_run id application_id decision)

abbrev pub locked : ℕ → ScoreRun → ScoreRun
locked now run = record run { status = "LOCKED"; locked_at = some now }

unfoldable pub update_run : ℕ → (ℕ → ScoreRun → ScoreRun) → Exec (Unit {0})
update_run score_run_id f = modify (λ db. record db {
  score_runs = update (λ (r : ScoreRun). r.id == score_run_id) (f db.clock) db.score_runs;
})

-- Whether the run was not locked before.
unfoldable pub approve_score_run : ℕ → Exec Bool
unfolding find_score_run update_run
approve_score_run score_run_id = do
  found ← λ db. (find_score_run score_run_id db.score_runs, db)
  sr ← lift (require found (http 404 "Score run not found"))
  if text_eq sr.status "LOCKED" then pure false else do
    raise_if (not (text_eq sr.status "READY")) (http 400 "Score run must be READY to approve")
    update_run sr.id locked
    pure true

abbrev pub new_contract : ℕ → LoanApplication → ScoreRun → Contract
new_contract id app sr = record {
  id = id;
  application_id = some app.id;
  score_run_id = some sr.id;
  status = "ACTIVE_PENDING_FUNDING";
  target_amount = app.requested_amount;
  funded_amount = pos 0;
}

unfoldable pub insert_contract : LoanApplication → ScoreRun → Exec Contract
insert_contract app sr = do
  id ← new_id
  modify (λ db. record db { contracts = db.contracts ++ (new_contract id app sr ∷ []) })
  pure (new_contract id app sr)

unfoldable pub create_contract : ℕ → ℕ → Exec Contract
unfolding find_score_run find_application insert_contract
create_contract score_run_id application_id = do
  found ← λ db. (find_score_run score_run_id db.score_runs, db)
  sr ← lift (require found unlocked)
  raise_if (not (text_eq sr.status "LOCKED")) unlocked
  app_found ← λ db. (find_application application_id db.loan_applications, db)
  app ← lift (require app_found (http 404 "Application not found"))
  raise_if (not (sr.application_id == app.id)) (http 400 "Score run does not match application")
  insert_contract app sr
  where
    unlocked : Error
    unlocked = http 400 "Score run must exist and be LOCKED"

unfoldable pub find_document : ℕ → List Document → Result (Option Document)
find_document document_id rows =
    scalar_one_or_none (select (λ (d : Document). d.id == document_id) rows)

unfoldable pub approve_document : ℕ → ℕ → Option String → Exec (Unit {0})
unfolding find_document
approve_document document_id actor_id ip_address = do
  found ← λ db. (find_document document_id db.documents, db)
  document ← lift (require found (http 404 "Document not found"))
  raise_if (text_eq document.status "APPROVED") (http 400 "Document is already APPROVED")
  modify (λ db. record db {
    documents =
        update (λ (d : Document). d.id == document.id)
          (λ d. record d { status = "APPROVED"; verified_at = some db.clock }) db.documents;
    audit_logs =
        db.audit_logs
        ++ ((record {
          entity_type = "DOCUMENT";
          entity_id = some document.id;
          action = "APPROVE";
          actor_id = some actor_id;
          ip_address = ip_address;
        })
            ∷ []);
  })
