-- ===== src/Payments/Repay.antt =====
-- Repayments, split among the lenders by the largest remainder (app/payments/service.py).
use Prim.Native.String.{◌++◌ as text_append}
use fund_lok.Prelude.{
  ℕ, String, text_eq, Bool, true, false, not, ◌&&◌, Option, none, some, List, [], ◌∷◌, ltb, ◌==◌,
  if◌then◌else◌, length, select, ℤ, pos, ltb_ℤ, Dict, get_or, pos_part, uuid_text,
}
use fund_lok.Db.{
  Db, LedgerTransaction, LedgerEntry, Holding, http, Exec, pure, gets, ◌>>=◌, ◌>>◌, raise_if,
}
use fund_lok.Ledger.Chart.{LedgerLeg, resolve_custodial_account, get_or_create_account}
use fund_lok.Ledger.Checks.{find_replay}
use fund_lok.Apportion.{total_principal, final_shares, ordered}
use fund_lok.Payments.Disburse.{
  resolve_borrower_user_id, post_transaction_with_service, entries_of_type, first_entry_of_type,
  conflict, get_contract, other_contract,
}

unfoldable pub holdings_of : Db → ℕ → List Holding
holdings_of db contract_id = select (λ (h : Holding). h.contract_id == contract_id) db.holdings

-- `f"repayment:investor:{holding.investor_id}"`
unfoldable pub distribution_reference : ℕ → Option String
distribution_reference investor_id =
    some (text_append "repayment:investor:" (uuid_text investor_id))

-- The loop that adds a DISTRIBUTION leg for each positive share; the dict `shares` is keyed by the
-- holding's id.
unfoldable pub distribution_legs : ℕ → ℕ → ℕ → Dict ℕ → List Holding → Exec (List LedgerLeg)
distribution_legs contract_id custodial_account_id omnibus_cash_id shares [] = pure []
distribution_legs contract_id custodial_account_id omnibus_cash_id shares (holding ∷ holdings) =
    let rest = distribution_legs contract_id custodial_account_id omnibus_cash_id shares holdings in
    let share = get_or shares holding.id 0 in
    if share == 0 then rest else do
      lender_account ←
          get_or_create_account "LENDER" custodial_account_id (some holding.investor_id)
            (some contract_id)
      let leg : LedgerLeg = record {
        debit_account_id = omnibus_cash_id;
        credit_account_id = lender_account.id;
        amount = pos share;
        type = "DISTRIBUTION";
        contract_id = contract_id;
        reference = distribution_reference holding.investor_id;
      }
      legs ← rest
      pure (leg ∷ legs)

-- `if total_principal > 0 and amount > 0`
unfoldable pub split_legs : ℕ → ℕ → ℕ → ℤ → List Holding → Exec (List LedgerLeg)
unfolding distribution_legs
split_legs contract_id custodial_account_id omnibus_cash_id amount holdings =
    if ltb 0 (total_principal holdings) && ltb_ℤ (pos 0) amount
    then distribution_legs contract_id custodial_account_id omnibus_cash_id
        (final_shares (pos_part amount) holdings) (ordered holdings)
    else pure []

abbrev pub event_type_of : List LedgerLeg → String
event_type_of legs = if ltb 1 (length legs) then "REPAYMENT_SPLIT" else "REPAYMENT"

abbrev pub RepaymentOut : Type 0
RepaymentOut = Option LedgerEntry × List LedgerEntry × Bool

unfoldable pub repayment_entries : Bool → LedgerTransaction → Exec RepaymentOut
repayment_entries is_new t = gets (λ db.
    (first_entry_of_type db t.id "REPAYMENT", entries_of_type db t.id "DISTRIBUTION", is_new))

-- The part of `record_repayment` behind the idempotency check. `paid_at` is not used by the code.
unfoldable pub repay_new : ℕ → ℤ → Option String → Option String → ℕ → Exec RepaymentOut
unfolding get_contract holdings_of split_legs repayment_entries
repay_new contract_id amount reference idempotency_key created_by = do
  contract ← get_contract contract_id
  raise_if (not (text_eq contract.status "ACTIVE_FUNDED"))
      (http 400 "Contract must be ACTIVE_FUNDED to record repayment")
  holdings ← gets (λ db. holdings_of db contract_id)
  custodial_account ← resolve_custodial_account contract_id
  omnibus_cash ← get_or_create_account "OMNIBUS_CASH" custodial_account.id none none
  borrower_user_id ← resolve_borrower_user_id contract
  borrower_account ←
      get_or_create_account "BORROWER" custodial_account.id (some borrower_user_id)
        (some contract_id)
  let leg : LedgerLeg = record {
    debit_account_id = borrower_account.id;
    credit_account_id = omnibus_cash.id;
    amount = amount;
    type = "REPAYMENT";
    contract_id = contract_id;
    reference = reference;
  }
  distributions ← split_legs contract_id custodial_account.id omnibus_cash.id amount holdings
  let legs = leg ∷ distributions
  transaction ←
      post_transaction_with_service (event_type_of legs) legs idempotency_key reference
        (some created_by)
  repayment_entries true transaction

unfoldable pub or_repay : Option LedgerTransaction → ℕ → Exec RepaymentOut → Exec RepaymentOut
unfolding repayment_entries
or_repay none contract_id new = new
or_repay (some existing) contract_id new = do
  raise_if (other_contract existing contract_id) conflict
  repayment_entries false existing

unfoldable pub record_repayment : ℕ → ℤ → Option String → Option String → ℕ → Exec RepaymentOut
unfolding or_repay
record_repayment contract_id amount reference idempotency_key created_by = do
  raise_if (ltb_ℤ amount (pos 0)) (http 400 "Amount must be non-negative")
  existing ← λ db. (find_replay idempotency_key db, db)
  or_repay existing contract_id (repay_new contract_id amount reference idempotency_key created_by)
