-- ===== src/Lending/Submitted.antt =====
-- What becomes of an application after it is submitted (app/loans/service.py,
-- app/underwriting/service.py).
use fund_lok.Prelude.{
  ℕ, ◌+◌, String, text_eq, ◌≡◌, inl, inr, Bool, true, false, Option, none, some, List, [], ◌∷◌,
  ◌++◌, any_of, any_of-more, any_of-update, Bool-cases,
}
use fund_lok.Db.{
  Db, LoanApplication, ScoreRun, User, integrity, Result, ok, err, Exec, modify, new_id,
  Result-cases,
}
use fund_lok.Lending.Applications.{
  find_application, user_owns_project, is_sme, LoanRequest, ProjectRequest, insert_application,
  update_application, insert_project, insert_ownership, insert_requested, rolled_back_400, or_400,
  insert_all, create_project, create_application, owned_application, with_figures, save_figures,
  submitted, submit_application,
}
use fund_lok.Lending.Contracts.{
  Grading, under_review, start_score_run, update_run, approve_score_run, insert_contract,
  create_contract, approve_document,
}
use fund_lok.Lending.Calls.{
  Call, creates_project, creates_application, saves_figures, submits, scores, approves_run,
  creates_contract, approves_document, waits, step, run,
}
use fund_lok.Db.Frames.{Preserves, frames}
use fund_lok.Lending.Rows.{found_id, any_of-found}

-- A test that a draft fails, and that the start of a score run keeps.
module _ (test : LoanApplication → Bool)
    (draft_fails : (a : LoanApplication) → text_eq a.status "DRAFT" ≡ true → test a ≡ false)
    (review_keeps : (now : ℕ) (a : LoanApplication)
      → test a ≡ true
      → test (under_review now a) ≡ true) where
  unfoldable pub Holds : Db → Type 0
  Holds db = any_of test db.loan_applications ≡ true

  insert_application-keeps :
      (project_id : ℕ) (body : LoanRequest) → Preserves Holds (insert_application project_id body)
  unfolding insert_application Holds
  insert_application-keeps project_id body = record {
    at = λ db h. any_of-more test db.loan_applications _ h;
  }

  insert_project-keeps : (body : ProjectRequest) → Preserves Holds (insert_project body)
  unfolding insert_project Holds
  insert_project-keeps body = search frames depth 16

  insert_ownership-keeps :
      (project_id user_id : ℕ) → Preserves Holds (insert_ownership project_id user_id)
  unfolding insert_ownership Holds
  insert_ownership-keeps project_id user_id = search frames depth 16

  insert_requested-keeps :
      (project_id : ℕ) (body : Option LoanRequest)
      → Preserves Holds (insert_requested project_id body)
  unfolding insert_requested
  insert_requested-keeps project_id none = search frames
  insert_requested-keeps project_id (some body) = search (frames, insert_application-keeps)

  rolled_back-keeps :
      {A : Type 0} (detail : String) (r : Result A) (after before : Db)
      → Holds after
      → Holds before
      → Holds (rolled_back_400 detail r after before).1
  unfolding rolled_back_400
  rolled_back-keeps detail (ok a) after before new old = new
  rolled_back-keeps detail (err integrity) after before new old = old
  rolled_back-keeps detail (err e) after before new old = new

  or_400-keeps :
      {A : Type 0} (detail : String) (m : Exec A)
      → Preserves Holds m
      → Preserves Holds (or_400 detail m)
  unfolding or_400
  or_400-keeps detail m same = record {
    at = λ db h. rolled_back-keeps detail (m db).0 (m db).1 db (same.at db h) h;
  }

  insert_all-keeps : (body : ProjectRequest) (user : User) → Preserves Holds (insert_all body user)
  unfolding insert_all
  insert_all-keeps body user =
      search
        (frames, or_400-keeps, insert_project-keeps, insert_ownership-keeps, insert_requested-keeps)
        depth 12

  create_project-keeps :
      (body : ProjectRequest) (user : User) → Preserves Holds (create_project body user)
  unfolding create_project
  create_project-keeps body user = search (frames, or_400-keeps, insert_all-keeps)

  create_application-keeps :
      (business_id : ℕ) (body : LoanRequest) (user : User)
      → Preserves Holds (create_application business_id body user)
  unfolding create_application
  create_application-keeps business_id body user =
      search (frames, insert_application-keeps) depth 12

  -- A draft that is found may change in any way.
  draft-keeps :
      (id : ℕ) (f : ℕ → LoanApplication → LoanApplication) (db : Db) (row : LoanApplication)
      → find_application id db.loan_applications ≡ ok (some row)
      → text_eq row.status "DRAFT" ≡ true
      → Holds db
      → Holds (update_application row.id f db).1
  unfolding update_application Holds
  draft-keeps id f db row found draft h =
      rw (found_id id db.loan_applications row found)
        (any_of-found test id (f db.clock) db.loan_applications row found (draft_fails row draft) h)

  save_figures-keeps :
      (id : ℕ) (figures : String) (user : User) (db : Db)
      → Holds db
      → Holds (save_figures id figures user db).1
  unfolding save_figures owned_application
  save_figures-keeps id figures user db h = elim (Bool-cases (is_sme user)) [
    | inr stranger ↦ rw stranger h
    | inl sme ↦ elim (Result-cases (find_application id db.loan_applications)) [
      | inr (e, refused) ↦ rw (sme, refused) h
      | inl (none, found) ↦ rw (sme, found) h
      | inl (some row, found) ↦
          elim (Result-cases (user_owns_project user.id row.project_id db.project_ownerships)) [
            | inr (e, refused) ↦ rw (sme, found, refused) h
            | inl (false, other) ↦ rw (sme, found, other) h
            | inl (true, own) ↦ elim (Bool-cases (text_eq row.status "DRAFT")) [
              | inr frozen ↦ rw (sme, found, own, frozen) h
              | inl draft ↦
                  rw (sme, found, own, draft)
                    (draft-keeps id (with_figures (some figures)) db row found draft h)
            ]
          ]
    ]
  ]

  submit_application-keeps :
      (id : ℕ) (user : User) (db : Db) → Holds db → Holds (submit_application id user db).1
  unfolding submit_application
  submit_application-keeps id user db h = elim (Bool-cases (is_sme user)) [
    | inr stranger ↦ rw stranger h
    | inl sme ↦ elim (Result-cases (find_application id db.loan_applications)) [
      | inr (e, refused) ↦ rw (sme, refused) h
      | inl (none, found) ↦ rw (sme, found) h
      | inl (some row, found) ↦
          elim (Result-cases (user_owns_project user.id row.project_id db.project_ownerships)) [
            | inr (e, refused) ↦ rw (sme, found, refused) h
            | inl (false, other) ↦ rw (sme, found, other) h
            | inl (true, own) ↦ elim (Bool-cases (text_eq row.status "DRAFT")) [
              | inr frozen ↦ rw (sme, found, own, frozen) h
              | inl draft ↦
                  rw (sme, found, own, draft) (draft-keeps id submitted db row found draft h)
            ]
          ]
    ]
  ]

  review-keeps : (id : ℕ) → Preserves Holds (update_application id under_review)
  unfolding update_application Holds
  review-keeps id = record {
    at = λ db h.
        any_of-update test _ (under_review db.clock) db.loan_applications (review_keeps db.clock) h;
  }

  new_run-keeps :
      (sr : ScoreRun)
      → Preserves Holds (modify (λ db. record db { score_runs = db.score_runs ++ (sr ∷ []) }))
  unfolding Holds
  new_run-keeps sr = record { at = λ db h. h }

  new_id-keeps : Preserves Holds new_id
  unfolding Holds
  new_id-keeps = record { at = λ db h. h }

  start_score_run-keeps :
      (grading : Grading) (id : ℕ) → Preserves Holds (start_score_run grading id)
  unfolding start_score_run
  start_score_run-keeps grading id =
      search (frames, review-keeps, new_run-keeps, new_id-keeps) depth 16

  approve_score_run-keeps : (id : ℕ) → Preserves Holds (approve_score_run id)
  unfolding approve_score_run update_run Holds
  approve_score_run-keeps id = search frames depth 16

  create_contract-keeps : (run_id id : ℕ) → Preserves Holds (create_contract run_id id)
  unfolding create_contract insert_contract Holds
  create_contract-keeps run_id id = search frames depth 16

  approve_document-keeps :
      (id actor_id : ℕ) (ip : Option String) → Preserves Holds (approve_document id actor_id ip)
  unfolding approve_document Holds
  approve_document-keeps id actor_id ip = search frames depth 16

  waits-keeps : (t : ℕ) (db : Db) → Holds db → Holds (record db { clock = db.clock + t })
  unfolding Holds
  waits-keeps t db h = h

  step-keeps : (grading : Grading) (c : Call) (db : Db) → Holds db → Holds (step grading c db)
  unfolding step
  step-keeps grading (creates_project body user) = (create_project-keeps body user).at
  step-keeps grading (creates_application id body user) = (create_application-keeps id body user).at
  step-keeps grading (saves_figures id figures user) = save_figures-keeps id figures user
  step-keeps grading (submits id user) = submit_application-keeps id user
  step-keeps grading (scores id) = (start_score_run-keeps grading id).at
  step-keeps grading (approves_run id) = (approve_score_run-keeps id).at
  step-keeps grading (creates_contract run_id id) = (create_contract-keeps run_id id).at
  step-keeps grading (approves_document id actor_id ip) = (approve_document-keeps id actor_id ip).at
  step-keeps grading (waits t) = waits-keeps t

  pub run-keeps :
      (grading : Grading) (calls : List Call) (db : Db) → Holds db → Holds (run grading calls db)
  unfolding run
  run-keeps grading [] db h = h
  run-keeps grading (c ∷ calls) db h =
      run-keeps grading calls (step grading c db) (step-keeps grading c db h)
