-- ===== src/Lending/Rows.antt =====
-- The one row that a query finds by its id, and a change of it.
use fund_lok.Prelude.{
  ℕ, ◌≡◌, refl, ap, inl, inr, Bool, true, false, some, List, [], ◌∷◌, arith, ◌==◌, select, update,
  any_of, Bool-cases,
}
use fund_lok.Db.{LoanApplication, ok, scalar_one_or_none}
use fund_lok.Lending.Applications.{find_application}

pub scalar_one :
    {A : Type 0} (a b : A) (rows : List A)
    → scalar_one_or_none (a ∷ rows) ≡ ok (some b)
    → (a ≡ b) × (rows ≡ [])
scalar_one a b [] h = ground arith
scalar_one a b (c ∷ rows) h = absurd (ground arith)

pub update_absent :
    (id : ℕ) (f : LoanApplication → LoanApplication) (rows : List LoanApplication)
    → select (λ (a : LoanApplication). a.id == id) rows ≡ []
    → update (λ (a : LoanApplication). a.id == id) f rows ≡ rows
update_absent id f [] absent = refl
update_absent id f (x ∷ rows) absent = ground (arith, update_absent id f rows)

pub found_id :
    (id : ℕ) (rows : List LoanApplication) (row : LoanApplication)
    → find_application id rows ≡ ok (some row)
    → row.id ≡ id
unfolding find_application
found_id id [] row found = absurd (ground arith)
found_id id (x ∷ rows) row found = elim (Bool-cases (x.id == id)) [
  | inr other ↦ found_id id rows row (ground arith)
  | inl same ↦
      let (head, tail) =
        scalar_one x row (select (λ (a : LoanApplication). a.id == id) rows) (ground arith) in
      ground (arith, ap (λ (a : LoanApplication). a.id) head)
]

module _ (test : LoanApplication → Bool) where
  -- A change of the one row that is found, where the test fails, leaves the others as they are.
  pub any_of-found :
      (id : ℕ) (f : LoanApplication → LoanApplication) (rows : List LoanApplication)
      (row : LoanApplication)
      → find_application id rows ≡ ok (some row)
      → test row ≡ false
      → any_of test rows ≡ true
      → any_of test (update (λ (a : LoanApplication). a.id == id) f rows) ≡ true
  unfolding find_application
  any_of-found id f [] row found fails some_row = some_row
  any_of-found id f (x ∷ rows) row found fails some_row = elim (Bool-cases (x.id == id)) [
    | inr other ↦ ground (arith, any_of-found id f rows row (ground arith) fails)
    | inl same ↦
        let (head, tail) =
          scalar_one x row (select (λ (a : LoanApplication). a.id == id) rows) (ground arith) in
        ground (arith, ap test head, update_absent id f rows tail)
  ]
