-- ===== src/Payments/Replay.antt =====
-- Replays of a payment (app/payments/service.py, app/payments/router.py).
use fund_lok.Prelude.{ℕ, String, ◌≡◌, refl, ap, false, Option, none, some, List, arith, pos, ltb_ℤ}
use fund_lok.Db.{Db, LedgerTransaction, LedgerEntry, attribute_error, Result, ok, err}
use fund_lok.Ledger.Checks.{find_replay}
use fund_lok.Payments.Routes.{commit_or_close, post_repayment, repayment_request, id_of}
use fund_lok.Payments.Repay.{record_repayment, or_repay, repayment_entries}
use fund_lok.Payments.Disburse.{first_entry_of_type, entries_of_type, other_contract}

not_negative : (amount : ℕ) → ltb_ℤ (pos amount) (pos 0) ≡ false
not_negative amount = ground arith

-- A repayment whose key stands on a transaction of the same contract returns that transaction's
-- postings, marked as not new, and writes nothing, whatever amount and reference it names.
pub record_repayment_replayed :
    (contract_id amount : ℕ) (reference key : Option String) (user_id : ℕ) (db : Db)
    (t : LedgerTransaction)
    → find_replay key db ≡ ok (some t)
    → other_contract t contract_id ≡ false
    → record_repayment contract_id (pos amount) reference key user_id db ≡ (
      ok (first_entry_of_type db t.id "REPAYMENT", entries_of_type db t.id "DISTRIBUTION", false),
      db,
    )
unfolding record_repayment or_repay repayment_entries
record_repayment_replayed contract_id amount reference key user_id db t found same =
    rw (not_negative amount, found, same) refl

request_failed :
    (contract_id amount : ℕ) (reference key : Option String) (user_id : ℕ)
    (ip_address : Option String) (db : Db) (t : LedgerTransaction)
    → find_replay key db ≡ ok (some t)
    → other_contract t contract_id ≡ false
    → first_entry_of_type db t.id "REPAYMENT" ≡ none
    → repayment_request contract_id (pos amount) reference key user_id ip_address db
      ≡ (err attribute_error, db)
unfolding repayment_request id_of
request_failed contract_id amount reference key user_id ip_address db t found same missing =
    rw (record_repayment_replayed contract_id amount reference key user_id db t found same)
      (rw (missing) refl)

-- A repayment whose key stands on a transaction of the same contract that has no REPAYMENT posting,
-- as one that a disbursement made, ends in an AttributeError, and nothing is written.
pub post_repayment_other_kind :
    (contract_id amount : ℕ) (reference key : Option String) (user_id : ℕ)
    (ip_address : Option String) (db : Db) (t : LedgerTransaction)
    → find_replay key db ≡ ok (some t)
    → other_contract t contract_id ≡ false
    → first_entry_of_type db t.id "REPAYMENT" ≡ none
    → post_repayment contract_id (pos amount) reference key user_id ip_address db
      ≡ (err attribute_error, db)
unfolding post_repayment
post_repayment_other_kind contract_id amount reference key user_id ip_address db t found same
      missing =
    ap (λ (r : Result (ℕ × List LedgerEntry) × Db). commit_or_close r db)
      (request_failed contract_id amount reference key user_id ip_address db t found same missing)
