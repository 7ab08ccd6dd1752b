-- ===== src/Ledger/Posting.antt =====
-- `post_transaction` (app/ledger/service.py): when it posts, what it writes, and what it refuses.
use fund_lok.Prelude.{
  ℕ, suc, ◌+◌, ◌≡◌, ◌≢◌, refl, ◌↔◌, String, Bool, true, false, ◌&&◌, Option, some, List, [], ◌∷◌,
  ◌++◌, arith, All, ◌==◌, pos, ◌≤ℤ◌, any_of, all_of, length, inl, inr, text_eq,
}
use fund_lok.Db.{Db, ok, LedgerTransaction, Result-cases, LedgerAccount}
use fund_lok.Ledger.Chart.{LedgerLeg, valid_ledger_entry_types}
use fund_lok.Ledger.Checks.{check_leg, check_legs, same_key, ring_fence, check_pass_through}
use fund_lok.Ledger.Post.{
  entries_of, has_accounts, flush_transaction, flush_entries, post_new, write_transaction,
}

-- A leg that moves a positive amount between two accounts under a known label.
pub record IsValidLeg (leg : LedgerLeg) : Type 0 where
  pub positive : pos 1 ≤ℤ leg.amount
  pub distinct : leg.debit_account_id ≢ leg.credit_account_id
  pub labelled : any_of (text_eq leg.type) valid_ledger_entry_types ≡ true

pub check_leg_iff : (leg : LedgerLeg) → (check_leg leg ≡ ok tt) ↔ IsValidLeg leg
unfolding check_leg
check_leg_iff leg = (λ h. ground arith, λ h. ground arith)

pub check_legs_iff : (legs : List LedgerLeg) → (check_legs legs ≡ ok tt) ↔ All IsValidLeg legs
unfolding check_legs
check_legs_iff [] = (λ h. tt, λ h. refl)
check_legs_iff (leg ∷ legs) =
    let (valid, accepted) = check_leg_iff leg in
    let (all_valid, all_accepted) = check_legs_iff legs in
    (
      λ h. (valid (ground arith), all_valid (ground arith)),
      λ h. ground (arith, accepted h.0, all_accepted h.1),
    )

-- Both accounts of the leg are rows of the chart of accounts.
abbrev pub has_leg_accounts : List LedgerAccount → LedgerLeg → Bool
has_leg_accounts accounts leg =
    any_of (λ (a : LedgerAccount). a.id == leg.debit_account_id) accounts
    && any_of (λ (a : LedgerAccount). a.id == leg.credit_account_id) accounts

abbrev pub key_taken : Db → Option String → Bool
key_taken db key =
    any_of (λ (u : LedgerTransaction). same_key u.idempotency_key key) db.ledger_transactions

-- The conditions under which a new transaction is written for contract `c`.
pub record Accepts (db : Db) (legs : List LedgerLeg) (key : Option String) (c : ℕ) : Type 0 where
  pub fenced : ring_fence db legs ≡ ok c
  pub balanced : check_pass_through legs ≡ ok tt
  pub contract_known : any_of (λ r. r.id == c) db.contracts ≡ true
  pub key_new : key_taken db key ≡ false
  pub accounts_known : all_of (has_leg_accounts db.ledger_accounts) legs ≡ true

module _ (event_type : String) (legs : List LedgerLeg) (key reference : Option String)
    (created_by : Option ℕ) (db : Db) where
  -- The header row for contract `c`.
  abbrev pub header : ℕ → LedgerTransaction
  header c = record {
    id = db.uuid4 db.draws;
    event_type = event_type;
    contract_id = some c;
    idempotency_key = key;
    reference = reference;
    created_by = created_by;
  }

  -- The database with the header and one posting for each leg added, and nothing else changed.
  abbrev pub posted : ℕ → Db
  posted c = record db {
    ledger_transactions = db.ledger_transactions ++ header c ∷ [];
    ledger_entries = db.ledger_entries ++ entries_of db.uuid4 (suc db.draws) (header c) legs;
    draws = suc db.draws + length legs;
  }

all_of-entries_of :
    (db : Db) (n : ℕ) (t : LedgerTransaction) (legs : List LedgerLeg)
    → all_of (has_accounts db.ledger_accounts) (entries_of db.uuid4 n t legs)
      ≡ all_of (has_leg_accounts db.ledger_accounts) legs
all_of-entries_of db n t [] = refl
all_of-entries_of db n t (leg ∷ legs) = rw (all_of-entries_of db (suc n) t legs)

module _ (event_type : String) (legs : List LedgerLeg) (key reference : Option String)
    (created_by : Option ℕ) (db : Db) where
  pub post_new-Accepts :
      (c : ℕ)
      → Accepts db legs key c
      → post_new event_type legs key reference created_by db ≡ (
        ok (header event_type legs key reference created_by db c),
        posted event_type legs key reference created_by db c,
      )
  unfolding post_new write_transaction flush_transaction flush_entries
  post_new-Accepts c h = ground (
    arith,
    all_of-entries_of db (suc db.draws) (header event_type legs key reference created_by db c) legs,
  )

  write_transaction_ok :
      (c : ℕ) (t : LedgerTransaction)
      → ring_fence db legs ≡ ok c
      → (write_transaction event_type legs key reference created_by c db).0 ≡ ok t
      → Accepts db legs key c
        × (write_transaction event_type legs key reference created_by c db ≡ (
          ok (header event_type legs key reference created_by db c),
          posted event_type legs key reference created_by db c,
        ))
  unfolding write_transaction flush_transaction flush_entries
  write_transaction_ok c t fenced h =
      let entries =
        all_of-entries_of db (suc db.draws) (header event_type legs key reference created_by db c)
          legs in
      (ground (arith, entries), ground (arith, entries))

  pub post_new_ok :
      (t : LedgerTransaction)
      → (post_new event_type legs key reference created_by db).0 ≡ ok t
      → (c : ℕ) × Accepts db legs key c
        × (post_new event_type legs key reference created_by db ≡ (
          ok (header event_type legs key reference created_by db c),
          posted event_type legs key reference created_by db c,
        ))
  unfolding post_new
  post_new_ok t h = elim (Result-cases (ring_fence db legs)) [
    | inl (c, fenced) ↦
        let (accepts, written) = write_transaction_ok c t fenced (rw fenced at h) in
        (c, accepts, rw fenced written)
    | inr (e, refused) ↦ let h' = rw refused at h in absurd (ground arith)
  ]
