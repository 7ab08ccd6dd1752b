-- ===== src/Lending/Frozen.antt =====
-- The figures of an application after it is submitted (app/loans/service.py).
use fund_lok.Prelude.{
  ℕ, String, text_eq, ◌≡◌, refl, sym, ap, subst, inl, inr, Bool, true, false, not, ◌&&◌, Option,
  none, some, List, [], ◌∷◌, arith, ◌==◌, if◌then◌else◌, select, update, any_of, Bool-cases,
  ==_self,
}
use fund_lok.Lending.Rows.{scalar_one}
use fund_lok.Db.{Db, LoanApplication, User, Error, http, ok, err, Result-cases}
use fund_lok.Lending.Applications.{
  find_application, user_owns_project, is_sme, update_application, owned_application, save_figures,
  submitted, submit_application,
}
use fund_lok.Lending.Contracts.{Grading, under_review}
use fund_lok.Lending.Calls.{Call, run}
use fund_lok.Lending.Submitted.{Holds, run-keeps}
use text.Mathlib.TextEquality.{eq_iff}

abbrev pub same_text : Option String → Option String → Bool
same_text none none = true
same_text none (some b) = false
same_text (some a) none = false
same_text (some a) (some b) = text_eq a b

-- The application has left the state of a draft, with these figures.
abbrev pub is_frozen : ℕ → Option String → LoanApplication → Bool
is_frozen id figures a =
    a.id == id && not (text_eq a.status "DRAFT") && same_text a.self_reported_figures figures

same_text_self : (a : Option String) → same_text a a ≡ true
same_text_self none = refl
same_text_self (some a) = (eq_iff a a).1 refl

draft_fails :
    (id : ℕ) (figures : Option String) (a : LoanApplication)
    → text_eq a.status "DRAFT" ≡ true
    → is_frozen id figures a ≡ false
draft_fails id figures a draft = ground arith

review_keeps :
    (id : ℕ) (figures : Option String) (now : ℕ) (a : LoanApplication)
    → is_frozen id figures a ≡ true
    → is_frozen id figures (under_review now a) ≡ true
review_keeps id figures now a frozen = ground arith

none_frozen :
    (id : ℕ) (figures : Option String) (rows : List LoanApplication)
    → select (λ (a : LoanApplication). a.id == id) rows ≡ []
    → any_of (is_frozen id figures) rows ≡ false
none_frozen id figures [] absent = refl
none_frozen id figures (x ∷ rows) absent = ground (arith, none_frozen id figures rows)

found_frozen :
    (id : ℕ) (figures : Option String) (rows : List LoanApplication) (row : LoanApplication)
    → any_of (is_frozen id figures) rows ≡ true
    → find_application id rows ≡ ok (some row)
    → text_eq row.status "DRAFT" ≡ false
unfolding find_application
found_frozen id figures [] row frozen found = absurd (ground arith)
found_frozen id figures (x ∷ rows) row frozen found = elim (Bool-cases (x.id == id)) [
  | inr other ↦ found_frozen id figures rows row (ground arith) (ground arith)
  | inl same ↦
      let (head, tail) =
        scalar_one x row (select (λ (a : LoanApplication). a.id == id) rows) (ground arith) in
      subst (λ (a : LoanApplication). text_eq a.status "DRAFT" ≡ false) head
        (ground (arith, none_frozen id figures rows tail))
]

changed_head :
    (x row : LoanApplication) (id now : ℕ)
    → (x.id == id) ≡ true
    → x ≡ row
    → is_frozen id row.self_reported_figures (if x.id == row.id then submitted now x else x) ≡ true
changed_head x row id now same head =
    rw (sym (ap (λ (a : LoanApplication). a.id) head), ==_self x.id)
      (ground (
        arith,
        ap (λ (a : LoanApplication). same_text a.self_reported_figures row.self_reported_figures)
            head,
        same_text_self row.self_reported_figures,
      ))

submitted-is_frozen :
    (id now : ℕ) (rows : List LoanApplication) (row : LoanApplication)
    → find_application id rows ≡ ok (some row)
    → any_of
        (is_frozen id row.self_reported_figures)
        (update (λ (a : LoanApplication). a.id == row.id) (submitted now) rows)
      ≡ true
unfolding find_application
submitted-is_frozen id now [] row found = absurd (ground arith)
submitted-is_frozen id now (x ∷ rows) row found = elim (Bool-cases (x.id == id)) [
  | inr other ↦ ground (arith, submitted-is_frozen id now rows row (ground arith))
  | inl same ↦
      let (head, tail) =
        scalar_one x row (select (λ (a : LoanApplication). a.id == id) rows) (ground arith) in
      ground (arith, changed_head x row id now same head)
]

module _ (id : ℕ) (figures : Option String) where
  abbrev Frozen : Db → Type 0
  Frozen db = any_of (is_frozen id figures) db.loan_applications ≡ true

  run-Frozen :
      (grading : Grading) (calls : List Call) (db : Db) → Frozen db → Frozen (run grading calls db)
  unfolding Holds
  run-Frozen = run-keeps (is_frozen id figures) (draft_fails id figures) (review_keeps id figures)

  refused :
      (body : String) (user : User) (db : Db)
      → Frozen db
      → (e : Error) × (save_figures id body user db ≡ (err e, db))
  unfolding save_figures owned_application
  refused body user db frozen = elim (Bool-cases (is_sme user)) [
    | inr stranger ↦ (http 403 "Only SMEs can save figures", rw stranger refl)
    | inl sme ↦ elim (Result-cases (find_application id db.loan_applications)) [
      | inr (e, failed) ↦ (e, rw (sme, failed) refl)
      | inl (none, found) ↦ (http 404 "Application not found", rw (sme, found) refl)
      | inl (some row, found) ↦
          elim (Result-cases (user_owns_project user.id row.project_id db.project_ownerships)) [
            | inr (e, failed) ↦ (e, rw (sme, found, failed) refl)
            | inl (false, other) ↦ (http 404 "Application not found", rw (sme, found, other) refl)
            | inl (true, own) ↦ (
              http 400 "Application is not in DRAFT status",
              rw (sme, found, own, found_frozen id figures db.loan_applications row frozen found)
                  refl,
            )
          ]
    ]
  ]

submit-Frozen :
    (id : ℕ) (user : User) (db : Db) (row : LoanApplication)
    → find_application id db.loan_applications ≡ ok (some row)
    → (submit_application id user db).0 ≡ ok tt
    → Frozen id row.self_reported_figures (submit_application id user db).1
unfolding submit_application update_application
submit-Frozen id user db row found = elim (Bool-cases (is_sme user)) [
  | inr stranger ↦ rw stranger λ done. absurd (ground arith)
  | inl sme ↦ elim (Result-cases (user_owns_project user.id row.project_id db.project_ownerships)) [
    | inr (e, failed) ↦ rw (sme, found, failed) λ done. absurd (ground arith)
    | inl (false, other) ↦ rw (sme, found, other) λ done. absurd (ground arith)
    | inl (true, own) ↦ elim (Bool-cases (text_eq row.status "DRAFT")) [
      | inr late ↦ rw (sme, found, own, late) λ done. absurd (ground arith)
      | inl draft ↦
          rw (sme, found, own, draft)
            λ done. submitted-is_frozen id db.clock db.loan_applications row found
    ]
  ]
]

-- After an application is submitted, whatever calls of Lending.Calls follow, a row of it that is no draft and has
-- the figures of that moment is in the table, and every attempt to save other figures is refused
-- and writes nothing.
pub submit_frozen :
    (grading : Grading) (id : ℕ) (user editor : User) (figures : String) (db : Db)
    (row : LoanApplication) (calls : List Call)
    → find_application id db.loan_applications ≡ ok (some row)
    → (submit_application id user db).0 ≡ ok tt
    → (any_of
          (is_frozen id row.self_reported_figures)
          (run grading calls (submit_application id user db).1).loan_applications
        ≡ true)
      × (e : Error) × (save_figures id figures editor
            (run grading calls (submit_application id user db).1)
          ≡ (err e, run grading calls (submit_application id user db).1))
submit_frozen grading id user editor figures db row calls found done =
    let still =
      run-Frozen id row.self_reported_figures grading calls _
        (submit-Frozen id user db row found done) in
    let (e, nothing) = refused id row.self_reported_figures figures editor _ still in
    (still, e, nothing)
