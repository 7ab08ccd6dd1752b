-- ===== src/Payments/Disburse.antt =====
-- Disbursements, and what the two payments share (app/payments/service.py).
use fund_lok.Prelude.{
  ℕ, String, text_eq, Bool, true, false, not, ◌&&◌, Option, none, some, List, [], ◌∷◌, ◌==◌, opt_eq,
  select, ℤ, pos, ltb_ℤ, leb_ℤ,
}
use fund_lok.Db.{
  Db, LedgerTransaction, LedgerEntry, ProjectOwnership, LoanApplication, Contract, Listing, Error,
  imbalance, cross_contract, http, Result, ok, err, Exec, pure, lift, gets, require, ◌>>=◌, ◌>>◌,
  raise_if, scalar_one_or_none, scalars_first,
}
use fund_lok.Ledger.Chart.{LedgerLeg, resolve_custodial_account, get_or_create_account}
use fund_lok.Ledger.Post.{post_transaction}
use fund_lok.Ledger.Checks.{find_replay}

-- `_resolve_borrower_user_id`
unfoldable pub resolve_borrower_user_id : Contract → Exec ℕ
resolve_borrower_user_id contract = do
  found ← λ db. (
    scalar_one_or_none (
        select (λ (a : LoanApplication). opt_eq (some a.id) contract.application_id)
          db.loan_applications),
    db,
  )
  application ← lift (require found (http 400 "Contract has no associated loan application"))
  owners ← gets (λ db.
      select (λ (o : ProjectOwnership). o.project_id == application.project_id)
        db.project_ownerships)
  ownership ← lift (require (scalars_first owners) (http 400 "Project has no registered owner"))
  pure ownership.user_id

-- `except (LedgerImbalanceError, CrossContractTransactionError)`: the two become a 422. Its text is
-- the exception's, of which the name stands here.
abbrev pub as_http : Error → Error
as_http imbalance = http 422 "LedgerImbalanceError"
as_http cross_contract = http 422 "CrossContractTransactionError"
as_http e = e

abbrev pub map_error : {A : Type 0} → (Error → Error) → Result A → Result A
map_error f (ok a) = ok a
map_error f (err e) = err (f e)

-- `_post_transaction_with_service`
unfoldable pub post_transaction_with_service :
    String → List LedgerLeg → Option String → Option String → Option ℕ → Exec LedgerTransaction
post_transaction_with_service event_type legs idempotency_key reference created_by db =
    let (r, db') = post_transaction event_type legs idempotency_key reference created_by db in
    (map_error as_http r, db')

-- `_entries_of_type`
abbrev pub entries_of_type : Db → ℕ → String → List LedgerEntry
entries_of_type db ledger_transaction_id type =
    select
      (λ (e : LedgerEntry). e.ledger_transaction_id == ledger_transaction_id && text_eq e.type type)
      db.ledger_entries

-- `_first_entry_of_type`
abbrev pub first_entry_of_type : Db → ℕ → String → Option LedgerEntry
first_entry_of_type db ledger_transaction_id type =
    scalars_first (entries_of_type db ledger_transaction_id type)

abbrev pub conflict : Error
conflict = http 409 "Idempotency-Key already used for a different contract"

unfoldable pub get_contract : ℕ → Exec Contract
get_contract contract_id = do
  found ←
      λ db. (scalar_one_or_none (select (λ (c : Contract). c.id == contract_id) db.contracts), db)
  lift (require found (http 404 "Contract not found"))

abbrev pub is_fundable : Option Listing → Bool
is_fundable none = false
is_fundable (some lst) = text_eq lst.status "FUNDED"

abbrev pub below_target : Option Listing → Bool
below_target none = false
below_target (some lst) = ltb_ℤ lst.funded_amount lst.target_amount

-- The part of `record_disbursement` behind the idempotency check.
unfoldable pub disburse_new : ℕ → String → ℤ → Option String → ℕ → Exec (Option LedgerEntry × Bool)
unfolding get_contract
disburse_new contract_id bank_account amount idempotency_key created_by = do
  contract ← get_contract contract_id
  lst ← λ db.
      (scalar_one_or_none (select (λ (l : Listing). l.contract_id == contract_id) db.listings), db)
  raise_if (not (is_fundable lst)) (http 400 "Listing must be FUNDED before disbursement")
  raise_if (below_target lst) (http 400 "Listing funding threshold not met")
  custodial_account ← resolve_custodial_account contract_id
  omnibus_cash ← get_or_create_account "OMNIBUS_CASH" custodial_account.id none none
  borrower_user_id ← resolve_borrower_user_id contract
  borrower_account ←
      get_or_create_account "BORROWER" custodial_account.id (some borrower_user_id)
        (some contract_id)
  let leg : LedgerLeg = record {
    debit_account_id = omnibus_cash.id;
    credit_account_id = borrower_account.id;
    amount = amount;
    type = "DISBURSEMENT";
    contract_id = contract_id;
    reference = some bank_account;
  }
  transaction ←
      post_transaction_with_service "DISBURSEMENT" (leg ∷ []) idempotency_key (some bank_account)
        (some created_by)
  gets (λ db. (first_entry_of_type db transaction.id "DISBURSEMENT", true))

-- `existing_txn.contract_id != contract_id`
abbrev pub other_contract : LedgerTransaction → ℕ → Bool
other_contract t contract_id = not (opt_eq t.contract_id (some contract_id))

unfoldable pub or_disburse :
    Option LedgerTransaction
    → ℕ
    → Exec (Option LedgerEntry × Bool)
    → Exec (Option LedgerEntry × Bool)
or_disburse none contract_id new = new
or_disburse (some existing) contract_id new = do
  raise_if (other_contract existing contract_id) conflict
  gets (λ db. (first_entry_of_type db existing.id "DISBURSEMENT", false))

unfoldable pub record_disbursement :
    ℕ → String → ℤ → Option String → ℕ → Exec (Option LedgerEntry × Bool)
unfolding or_disburse
record_disbursement contract_id bank_account amount idempotency_key created_by = do
  raise_if (leb_ℤ amount (pos 0)) (http 400 "Amount must be positive")
  existing ← λ db. (find_replay idempotency_key db, db)
  or_disburse existing contract_id
      (disburse_new contract_id bank_account amount idempotency_key created_by)
