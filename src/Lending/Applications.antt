-- ===== src/Lending/Applications.antt =====
-- Projects and applications for loans (app/projects/service.py, app/loans/service.py).
use fund_lok.Prelude.{
  ℕ, String, text_eq, Bool, false, not, ◌&&◌, Option, none, some, List, [], ◌∷◌, ◌++◌, ◌==◌, select,
  update, any_of, ℤ,
}
use fund_lok.Db.{
  Db, ProjectOwnership, LoanApplication, Project, User, integrity, http, Result, ok, err, Exec,
  pure, lift, gets, require, ◌>>=◌, ◌>>◌, raise_if, modify, scalar_one_or_none, new_id,
}
use fund_lok.Auth.Tokens.{is_text, is_set}

unfoldable pub find_application : ℕ → List LoanApplication → Result (Option LoanApplication)
find_application application_id rows =
    scalar_one_or_none (select (λ (a : LoanApplication). a.id == application_id) rows)

unfoldable pub user_owns_project : ℕ → ℕ → List ProjectOwnership → Result Bool
user_owns_project user_id project_id rows =
    elim (scalar_one_or_none (
      select (λ (o : ProjectOwnership). o.user_id == user_id && o.project_id == project_id) rows)) [
        | ok found ↦ ok (is_set found)
        | err e ↦ err e
      ]

-- `current_user.role != Role.SME.value`
abbrev pub is_sme : User → Bool
is_sme user = is_text "SME" user.role

-- The body of a request for a loan.
pub record LoanRequest : Type 0 where
  pub requested_amount : ℤ
  pub purpose : Option String
  pub repayment_preference : Option String

-- The body of a request for a project.
pub record ProjectRequest : Type 0 where
  pub legal_name : String
  pub tax_id : Option String
  pub industry : Option String
  pub loan_application : Option LoanRequest

unfoldable pub insert_application : ℕ → LoanRequest → Exec LoanApplication
insert_application project_id body = do
  id ← new_id
  let row : LoanApplication = record {
    id = id;
    project_id = project_id;
    requested_amount = body.requested_amount;
    purpose = body.purpose;
    repayment_preference = body.repayment_preference;
    status = "DRAFT";
    self_reported_figures = none;
    figures_updated_at = none;
    submitted_at = none;
  }
  modify (λ db. record db { loan_applications = db.loan_applications ++ (row ∷ []) })
  pure row

unfoldable pub update_application : ℕ → (ℕ → LoanApplication → LoanApplication) → Exec (Unit {0})
update_application application_id f = modify (λ db. record db {
  loan_applications =
      update (λ (a : LoanApplication). a.id == application_id) (f db.clock) db.loan_applications;
})

-- `tax_id` is unique.
unfoldable pub insert_project : ProjectRequest → Exec ℕ
insert_project body = do
  id ← new_id
  rows ← gets (λ db. db.projects)
  raise_if
      (any_of (λ (p : Project). elim body.tax_id [ none ↦ false | some t ↦ is_text t p.tax_id ])
        rows)
      integrity
  modify (λ db. record db {
    projects =
        db.projects
        ++ ((record {
          id = id;
          legal_name = body.legal_name;
          tax_id = body.tax_id;
          industry = body.industry;
          status = "DRAFT";
        })
            ∷ []);
  })
  pure id

-- The pair of a project and a user is unique.
unfoldable pub insert_ownership : ℕ → ℕ → Exec (Unit {0})
insert_ownership project_id user_id = do
  id ← new_id
  rows ← gets (λ db. db.project_ownerships)
  raise_if
      (any_of (λ (o : ProjectOwnership). o.project_id == project_id && o.user_id == user_id) rows)
      integrity
  modify (λ db. record db {
    project_ownerships =
        db.project_ownerships
        ++ ((record { id = id; project_id = project_id; user_id = user_id; role = "OWNER" }) ∷ []);
  })

unfoldable pub insert_requested : ℕ → Option LoanRequest → Exec (Option LoanApplication)
unfolding insert_application
insert_requested project_id none = pure none
insert_requested project_id (some body) = do
  row ← insert_application project_id body
  pure (some row)

-- An IntegrityError is turned into a 400 with a text, after a rollback.
unfoldable pub rolled_back_400 : {A : Type 0} → String → Result A → Db → Db → Result A × Db
rolled_back_400 detail (ok a) after before = (ok a, after)
rolled_back_400 detail (err integrity) after before = (err (http 400 detail), before)
rolled_back_400 detail (err e) after before = (err e, after)

unfoldable pub or_400 : {A : Type 0} → String → Exec A → Exec A
unfolding rolled_back_400
or_400 detail m db = rolled_back_400 detail (m db).0 (m db).1 db

-- The text of the error about a tax id names the column.
abbrev taken_tax_id : String
taken_tax_id =
    "Your bussiness tax ID is already associated with another project. Please contact support if you believe this is an error."

unfoldable pub insert_all : ProjectRequest → User → Exec (ℕ × Option LoanApplication)
unfolding insert_project insert_ownership insert_requested or_400
insert_all body current_user = do
  project_id ← or_400 taken_tax_id (insert_project body)
  insert_ownership project_id current_user.id
  loan_app ← insert_requested project_id body.loan_application
  pure (project_id, loan_app)

unfoldable pub create_project : ProjectRequest → User → Exec (ℕ × Option LoanApplication)
unfolding insert_all or_400
create_project body current_user = do
  raise_if (not (is_sme current_user)) (http 403 "Only SMEs can create projects")
  or_400 "Database integrity error: check unique fields or constraints."
      (insert_all body current_user)

unfoldable pub create_application : ℕ → LoanRequest → User → Exec LoanApplication
unfolding user_owns_project insert_application
create_application business_id body current_user = do
  raise_if (not (is_sme current_user)) (http 403 "Only SMEs can create applications")
  owns ← λ db. (user_owns_project current_user.id business_id db.project_ownerships, db)
  raise_if (not owns) (http 403 "Business does not belong to this user")
  insert_application business_id body

-- The application, if the caller may touch it; ownership is asked only of one that exists.
unfoldable pub owned_application : ℕ → User → Exec LoanApplication
unfolding find_application user_owns_project
owned_application application_id current_user = do
  found ← λ db. (find_application application_id db.loan_applications, db)
  row ← lift (require found (http 404 "Application not found"))
  owns ← λ db. (user_owns_project current_user.id row.project_id db.project_ownerships, db)
  raise_if (not owns) (http 404 "Application not found")
  pure row

abbrev pub with_figures : Option String → ℕ → LoanApplication → LoanApplication
with_figures figures now row = record row {
  self_reported_figures = figures;
  figures_updated_at = some now;
}

-- `figures` is the text of the JSON that the body dumps to.
unfoldable pub save_figures : ℕ → String → User → Exec (Unit {0})
unfolding owned_application update_application
save_figures application_id figures current_user = do
  raise_if (not (is_sme current_user)) (http 403 "Only SMEs can save figures")
  row ← owned_application application_id current_user
  raise_if (not (text_eq row.status "DRAFT")) (http 400 "Application is not in DRAFT status")
  update_application row.id (with_figures (some figures))

abbrev pub submitted : ℕ → LoanApplication → LoanApplication
submitted now row = record row { status = "SUBMITTED"; submitted_at = some now }

unfoldable pub submit_application : ℕ → User → Exec (Unit {0})
unfolding find_application user_owns_project update_application
submit_application application_id current_user = do
  raise_if (not (is_sme current_user)) (http 403 "Only SMEs can submit")
  found ← λ db. (find_application application_id db.loan_applications, db)
  row ← lift (require found (http 404 "Application not found"))
  owns ← λ db. (user_owns_project current_user.id row.project_id db.project_ownerships, db)
  raise_if (not owns) (http 403 "Not authorized")
  raise_if (not (text_eq row.status "DRAFT")) (http 400 "Application is not in DRAFT status")
  update_application row.id submitted
