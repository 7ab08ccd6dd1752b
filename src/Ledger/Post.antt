-- ===== src/Ledger/Post.antt =====
-- `post_transaction` and its writes (app/ledger/service.py).
use fund_lok.Prelude.{
  ℕ, suc, ◌+◌, String, Bool, true, false, not, ◌&&◌, Option, none, some, List, [], ◌∷◌, ◌++◌, ◌==◌,
  if◌then◌else◌, opt_eq, truthy, length, any_of, all_of,
}
use fund_lok.Db.{
  LedgerAccount, LedgerTransaction, LedgerEntry, ok, err, imbalance, integrity, Exec, pure, lift,
  gets, ◌>>=◌, ◌>>◌, raise_if, modify, new_id,
}
use fund_lok.Ledger.Chart.{LedgerLeg}
use fund_lok.Ledger.Checks.{check_legs, same_key, find_replay, ring_fence, check_pass_through}

-- `leg.reference or reference`
abbrev pub or_reference : Option String → Option String → Option String
or_reference own shared = if truthy own then own else shared

abbrev pub entry_of : LedgerTransaction → ℕ → LedgerLeg → LedgerEntry
entry_of t id leg = record {
  id = id;
  contract_id = leg.contract_id;
  ledger_transaction_id = t.id;
  debit_account_id = leg.debit_account_id;
  credit_account_id = leg.credit_account_id;
  type = leg.type;
  amount = leg.amount;
  reference = or_reference leg.reference t.reference;
  created_by = t.created_by;
}

abbrev pub entries_of : (ℕ → ℕ) → ℕ → LedgerTransaction → List LedgerLeg → List LedgerEntry
entries_of uuid4 n t [] = []
entries_of uuid4 n t (leg ∷ legs) = entry_of t (uuid4 n) leg ∷ entries_of uuid4 (suc n) t legs

-- The foreign keys of a posting's accounts.
abbrev pub has_accounts : List LedgerAccount → LedgerEntry → Bool
has_accounts accounts e =
    any_of (λ (a : LedgerAccount). a.id == e.debit_account_id) accounts
    && any_of (λ (a : LedgerAccount). a.id == e.credit_account_id) accounts

-- `db.add(transaction)` and the flush: the contract must exist, and the key must be new.
unfoldable pub flush_transaction : LedgerTransaction → Exec (Unit {0})
flush_transaction t = do
  known ← gets (λ db. any_of (λ c. opt_eq (some c.id) t.contract_id) db.contracts)
  raise_if (not known) integrity
  taken ← gets (λ db.
      any_of (λ (u : LedgerTransaction). same_key u.idempotency_key t.idempotency_key)
        db.ledger_transactions)
  raise_if taken integrity
  modify (λ db. record db { ledger_transactions = db.ledger_transactions ++ t ∷ [] })

-- The loop that adds the postings, and the flush.
unfoldable pub flush_entries : LedgerTransaction → List LedgerLeg → Exec (Unit {0})
flush_entries t legs db =
    let entries = entries_of db.uuid4 db.draws t legs in
    if all_of (has_accounts db.ledger_accounts) entries
    then (
      ok tt,
      record db { ledger_entries = db.ledger_entries ++ entries; draws = db.draws + length legs },
    )
    else (err integrity, db)

-- From the pass-through check on, for the contract that the legs belong to.
unfoldable pub write_transaction :
    String → List LedgerLeg → Option String → Option String → Option ℕ → ℕ → Exec LedgerTransaction
write_transaction event_type legs idempotency_key reference created_by contract_id = do
  lift (check_pass_through legs)
  id ← new_id
  let t : LedgerTransaction = record {
    id = id;
    event_type = event_type;
    contract_id = some contract_id;
    idempotency_key = idempotency_key;
    reference = reference;
    created_by = created_by;
  }
  flush_transaction t
  flush_entries t legs
  pure t

-- What `post_transaction` does once no earlier transaction was found.
unfoldable pub post_new :
    String → List LedgerLeg → Option String → Option String → Option ℕ → Exec LedgerTransaction
post_new event_type legs idempotency_key reference created_by = do
  contract_id ← λ db. (ring_fence db legs, db)
  write_transaction event_type legs idempotency_key reference created_by contract_id

unfoldable pub or_post : Option LedgerTransaction → Exec LedgerTransaction → Exec LedgerTransaction
or_post (some existing) post = pure existing
or_post none post = post

abbrev pub is_empty : List LedgerLeg → Bool
is_empty [] = true
is_empty (leg ∷ legs) = false

unfoldable pub post_transaction :
    String → List LedgerLeg → Option String → Option String → Option ℕ → Exec LedgerTransaction
unfolding or_post
post_transaction event_type legs idempotency_key reference created_by = do
  raise_if (is_empty legs) imbalance
  lift (check_legs legs)
  existing ← λ db. (find_replay idempotency_key db, db)
  or_post existing (post_new event_type legs idempotency_key reference created_by)
