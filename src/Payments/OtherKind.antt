-- ===== src/Payments/OtherKind.antt =====
-- A key that a disbursement was made under, in a repayment (app/payments/service.py,
-- app/payments/router.py).
use fund_lok.Prelude.{ℕ, ◌≤◌, String, ◌≡◌, false, Option, none, some, ◌==◌, All}
use fund_lok.Db.{Db, LedgerTransaction, LedgerEntry, ok}
use fund_lok.Ledger.Checks.{find_replay}
use fund_lok.Payments.Disburse.{first_entry_of_type, other_contract}

-- No posting belongs to a transaction whose identifier is still to be drawn.
abbrev pub IsFresh : Db → Type 0
IsFresh db =
    (i : ℕ)
    → db.draws ≤ i
    → All (λ (e : LedgerEntry). (e.ledger_transaction_id == db.uuid4 i) ≡ false) db.ledger_entries

module _ (key : Option String) (contract_id : ℕ) where
  -- The key is new.
  Before : Db → Type 0
  Before db = (find_replay key db ≡ ok none) × IsFresh db

  -- The key stands on a transaction of the contract without a REPAYMENT posting.
  Disbursed : Db → Type 0
  Disbursed db =
      (t : LedgerTransaction) × (find_replay key db ≡ ok (some t))
      × (other_contract t contract_id ≡ false)
      × (first_entry_of_type db t.id "REPAYMENT" ≡ none)
