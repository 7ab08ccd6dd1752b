-- ===== src/Lending/Grounded.antt =====
-- What a contract rests on (app/contracts/service.py, app/underwriting/service.py).
use fund_lok.Prelude.{
  ℕ, ◌+◌, String, text_eq, ◌≡◌, ap, inl, inr, Bool, true, ◌&&◌, Option, none, some, List, [], ◌∷◌,
  ◌++◌, arith, ◌==◌, opt_eq, select, any_of, any_of-more, any_of-update, All, All-map, All-append,
  Bool-cases,
}
use fund_lok.Lending.Rows.{scalar_one}
use fund_lok.Db.{
  Db, LoanApplication, Contract, ScoreRun, User, integrity, Result, ok, err, Exec, modify, new_id,
  Result-cases,
}
use fund_lok.Lending.Contracts.{
  find_score_run, Grading, start_score_run, locked, update_run, approve_score_run, new_contract,
  insert_contract, create_contract, approve_document,
}
use fund_lok.Lending.Applications.{
  find_application, LoanRequest, ProjectRequest, insert_application, update_application,
  insert_project, insert_ownership, insert_requested, rolled_back_400, or_400, insert_all,
  create_project, create_application, owned_application, save_figures, submit_application,
}
use fund_lok.Lending.Calls.{
  Call, creates_project, creates_application, saves_figures, submits, scores, approves_run,
  creates_contract, approves_document, waits, step, run,
}
use fund_lok.Db.Frames.{Preserves, frames}

-- A locked score run of the contract's application.
abbrev pub is_basis : Contract → ScoreRun → Bool
is_basis c r =
    opt_eq c.score_run_id (some r.id)
    && opt_eq c.application_id (some r.application_id)
    && text_eq r.status "LOCKED"

abbrev pub HasBasis : List ScoreRun → Contract → Type 0
HasBasis runs c = any_of (is_basis c) runs ≡ true

unfoldable pub IsGrounded : Db → Type 0
IsGrounded db = All (HasBasis db.score_runs) db.contracts

locked-is_basis :
    (c : Contract) (now : ℕ) (r : ScoreRun) → is_basis c r ≡ true → is_basis c (locked now r) ≡ true
locked-is_basis c now r h = ground arith

found-HasBasis :
    (id : ℕ) (runs : List ScoreRun) (r : ScoreRun) (c : Contract)
    → find_score_run id runs ≡ ok (some r)
    → is_basis c r ≡ true
    → HasBasis runs c
unfolding find_score_run
found-HasBasis id [] r c found basis = absurd (ground arith)
found-HasBasis id (x ∷ runs) r c found basis = elim (Bool-cases (x.id == id)) [
  | inr other ↦ ground (arith, found-HasBasis id runs r c (ground arith) basis)
  | inl same ↦
      let (head, tail) =
        scalar_one x r (select (λ (s : ScoreRun). s.id == id) runs) (ground arith) in
      ground (arith, ap (is_basis c) head)
]

new_id-keeps : Preserves IsGrounded new_id
unfolding IsGrounded
new_id-keeps = record { at = λ db h. h }

update_application-keeps :
    (id : ℕ) (f : ℕ → LoanApplication → LoanApplication)
    → Preserves IsGrounded (update_application id f)
unfolding update_application IsGrounded
update_application-keeps id f = record { at = λ db h. h }

insert_application-keeps :
    (project_id : ℕ) (body : LoanRequest)
    → Preserves IsGrounded (insert_application project_id body)
unfolding insert_application IsGrounded
insert_application-keeps project_id body = record { at = λ db h. h }

insert_project-keeps : (body : ProjectRequest) → Preserves IsGrounded (insert_project body)
unfolding insert_project IsGrounded
insert_project-keeps body = search frames depth 16

insert_ownership-keeps :
    (project_id user_id : ℕ) → Preserves IsGrounded (insert_ownership project_id user_id)
unfolding insert_ownership IsGrounded
insert_ownership-keeps project_id user_id = search frames depth 16

insert_requested-keeps :
    (project_id : ℕ) (body : Option LoanRequest)
    → Preserves IsGrounded (insert_requested project_id body)
unfolding insert_requested
insert_requested-keeps project_id none = search frames
insert_requested-keeps project_id (some body) = search (frames, insert_application-keeps)

or_400-keeps :
    {A : Type 0} (detail : String) (m : Exec A)
    → Preserves IsGrounded m
    → Preserves IsGrounded (or_400 detail m)
unfolding or_400
or_400-keeps detail m same = record {
  at = λ db h. rolled_back detail (m db).0 (m db).1 db (same.at db h) h;
}
  where
    rolled_back :
        {A : Type 0} (detail : String) (r : Result A) (after before : Db)
        → IsGrounded after
        → IsGrounded before
        → IsGrounded (rolled_back_400 detail r after before).1
    rolled_back detail (ok a) after before new old = new
    rolled_back detail (err integrity) after before new old = old
    rolled_back detail (err e) after before new old = new

insert_all-keeps :
    (body : ProjectRequest) (user : User) → Preserves IsGrounded (insert_all body user)
unfolding insert_all
insert_all-keeps body user =
    search
      (frames, or_400-keeps, insert_project-keeps, insert_ownership-keeps, insert_requested-keeps)
      depth 12

ruleset grounds = (
  frames, new_id-keeps, update_application-keeps, insert_application-keeps, insert_all-keeps,
  or_400-keeps,
)

create_project-keeps :
    (body : ProjectRequest) (user : User) → Preserves IsGrounded (create_project body user)
unfolding create_project
create_project-keeps body user = search grounds

create_application-keeps :
    (business_id : ℕ) (body : LoanRequest) (user : User)
    → Preserves IsGrounded (create_application business_id body user)
unfolding create_application
create_application-keeps business_id body user = search grounds depth 12

save_figures-keeps :
    (id : ℕ) (figures : String) (user : User) → Preserves IsGrounded (save_figures id figures user)
unfolding save_figures owned_application
save_figures-keeps id figures user = search grounds depth 16

submit_application-keeps :
    (id : ℕ) (user : User) → Preserves IsGrounded (submit_application id user)
unfolding submit_application
submit_application-keeps id user = search grounds depth 16

new_run-keeps :
    (sr : ScoreRun)
    → Preserves IsGrounded (modify (λ db. record db { score_runs = db.score_runs ++ (sr ∷ []) }))
unfolding IsGrounded
new_run-keeps sr = record {
  at = λ db h.
      All-map (λ c basis. any_of-more (is_basis c) db.score_runs (sr ∷ []) basis) db.contracts h;
}

start_score_run-keeps :
    (grading : Grading) (id : ℕ) → Preserves IsGrounded (start_score_run grading id)
unfolding start_score_run
start_score_run-keeps grading id = search (grounds, new_run-keeps) depth 16

update_run-keeps : (id : ℕ) → Preserves IsGrounded (update_run id locked)
unfolding update_run IsGrounded
update_run-keeps id = record {
  at = λ db h.
      All-map
        (λ c basis.
          any_of-update (is_basis c) _ (locked db.clock) db.score_runs (locked-is_basis c db.clock)
            basis)
        db.contracts h;
}

approve_score_run-keeps : (id : ℕ) → Preserves IsGrounded (approve_score_run id)
unfolding approve_score_run
approve_score_run-keeps id = search (grounds, update_run-keeps) depth 16

approve_document-keeps :
    (id actor_id : ℕ) (ip : Option String) → Preserves IsGrounded (approve_document id actor_id ip)
unfolding approve_document IsGrounded
approve_document-keeps id actor_id ip = search frames depth 16

insert_contract-keeps :
    (app : LoanApplication) (sr : ScoreRun) (id : ℕ) (db : Db)
    → find_score_run id db.score_runs ≡ ok (some sr)
    → text_eq sr.status "LOCKED" ≡ true
    → (sr.application_id == app.id) ≡ true
    → IsGrounded db
    → IsGrounded (insert_contract app sr db).1
unfolding insert_contract IsGrounded
insert_contract-keeps app sr id db found is_locked same h =
    All-append (HasBasis db.score_runs) db.contracts _ h (
      found-HasBasis id db.score_runs sr (new_contract (db.uuid4 db.draws) app sr) found
          (ground arith),
      tt,
    )

create_contract-keeps :
    (run_id id : ℕ) (db : Db) → IsGrounded db → IsGrounded (create_contract run_id id db).1
unfolding create_contract
create_contract-keeps run_id id db h = elim (Result-cases (find_score_run run_id db.score_runs)) [
  | inr (e, refused) ↦ rw refused h
  | inl (none, found) ↦ rw found h
  | inl (some sr, found) ↦ elim (Bool-cases (text_eq sr.status "LOCKED")) [
    | inr unlocked ↦ rw (found, unlocked) h
    | inl is_locked ↦ elim (Result-cases (find_application id db.loan_applications)) [
      | inr (e, refused) ↦ rw (found, is_locked, refused) h
      | inl (none, missing) ↦ rw (found, is_locked, missing) h
      | inl (some app, present) ↦ elim (Bool-cases (sr.application_id == app.id)) [
        | inr other ↦ rw (found, is_locked, present, other) h
        | inl same ↦
            rw (found, is_locked, present, same)
              (insert_contract-keeps app sr run_id db found is_locked same h)
      ]
    ]
  ]
]

waits-keeps : (t : ℕ) (db : Db) → IsGrounded db → IsGrounded (record db { clock = db.clock + t })
unfolding IsGrounded
waits-keeps t db h = h

module _ (grading : Grading) where
  step-IsGrounded : (c : Call) (db : Db) → IsGrounded db → IsGrounded (step grading c db)
  unfolding step
  step-IsGrounded (creates_project body user) = (create_project-keeps body user).at
  step-IsGrounded (creates_application id body user) = (create_application-keeps id body user).at
  step-IsGrounded (saves_figures id figures user) = (save_figures-keeps id figures user).at
  step-IsGrounded (submits id user) = (submit_application-keeps id user).at
  step-IsGrounded (scores id) = (start_score_run-keeps grading id).at
  step-IsGrounded (approves_run id) = (approve_score_run-keeps id).at
  step-IsGrounded (creates_contract run_id id) = create_contract-keeps run_id id
  step-IsGrounded (approves_document id actor_id ip) = (approve_document-keeps id actor_id ip).at
  step-IsGrounded (waits t) = waits-keeps t

  -- If every contract rests on a locked score run of its own application, that is still so after any
  -- calls of Lending.Calls, whether they return or raise.
  pub run-IsGrounded :
      (calls : List Call) (db : Db) → IsGrounded db → IsGrounded (run grading calls db)
  unfolding run
  run-IsGrounded [] db h = h
  run-IsGrounded (c ∷ calls) db h =
      run-IsGrounded calls (step grading c db) (step-IsGrounded c db h)
