-- ===== src/Lending/Tests.antt =====
-- A sample application from draft to contract (app/loans/, app/underwriting/service.py,
-- app/contracts/service.py), and the theorems applied to it.
use fund_lok.Prelude.{◌≡◌, refl, true, false, none, some, List, [], ◌∷◌, any_of, pos}
use fund_lok.Db.{Db, LoanApplication, User, empty_db, Error, ok, err}
use fund_lok.Lending.Applications.{find_application, save_figures, submit_application}
use fund_lok.Lending.Contracts.{Grading}
use fund_lok.Lending.Calls.{Call, submits, scores, approves_run, creates_contract, run}
use fund_lok.Lending.Frozen.{is_frozen, submit_frozen}
use fund_lok.Lending.Grounded.{IsGrounded, run-IsGrounded}

abbrev owner : User
owner = record {
  id = 1;
  email = "a@b.vn";
  phone = none;
  password_hash = none;
  full_name = none;
  bio = none;
  avatar_key = none;
  role = some "SME";
  email_verified = true;
  status = "ACTIVE";
  signin_alerts_enabled = false;
  onboarding_tour_completed_at = none;
  totp_secret = none;
  totp_enabled = false;
  totp_confirmed_at = none;
}

abbrev draft : LoanApplication
draft = record {
  id = 3;
  project_id = 2;
  requested_amount = pos 500;
  purpose = none;
  repayment_preference = none;
  status = "DRAFT";
  self_reported_figures = some "revenue 7";
  figures_updated_at = none;
  submitted_at = none;
}

abbrev desk : Db
desk = record empty_db {
  project_ownerships = record { id = 4; project_id = 2; user_id = 1; role = "OWNER" } ∷ [];
  loan_applications = draft ∷ [];
}

abbrev grading : Grading
grading a = ok (some "APPROVE")

-- Submitted, scored, approved and put into a contract.
abbrev calls : List Call
calls = scores 3 ∷ approves_run 100 ∷ creates_contract 100 3 ∷ []

contracted :
    (run grading (submits 3 owner ∷ calls) desk).contracts
    ≡ record {
      id = 101;
      application_id = some 3;
      score_run_id = some 100;
      status = "ACTIVE_PENDING_FUNDING";
      target_amount = pos 500;
      funded_amount = pos 0;
    }
      ∷ []
unfolding run
contracted = refl

submit_frozen_example :
    (any_of
        (is_frozen 3 (some "revenue 7"))
        (run grading calls (submit_application 3 owner desk).1).loan_applications
      ≡ true)
    × (e : Error) × (save_figures 3 "revenue 9" owner
          (run grading calls (submit_application 3 owner desk).1)
        ≡ (err e, run grading calls (submit_application 3 owner desk).1))
unfolding submit_application find_application
submit_frozen_example = submit_frozen grading 3 owner owner "revenue 9" desk draft calls refl refl

desk-IsGrounded : IsGrounded desk
unfolding IsGrounded
desk-IsGrounded = tt

run-IsGrounded_example : IsGrounded (run grading (submits 3 owner ∷ calls) desk)
run-IsGrounded_example = run-IsGrounded grading (submits 3 owner ∷ calls) desk desk-IsGrounded
