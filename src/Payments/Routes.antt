-- ===== src/Payments/Routes.antt =====
-- The two routes with their audit rows (app/payments/router.py, app/utils/audit.py).
use fund_lok.Prelude.{ℕ, String, Bool, true, false, Option, none, some, List, [], ◌∷◌, ◌++◌, ℤ}
use fund_lok.Db.{
  Db, LedgerEntry, attribute_error, Result, ok, err, Exec, pure, lift, ◌>>=◌, ◌>>◌, modify,
}
use fund_lok.Payments.Disburse.{record_disbursement}
use fund_lok.Payments.Repay.{record_repayment}

-- `append_audit` of app/utils/audit.py; the two JSON columns are left out.
unfoldable pub append_audit :
    String → Option ℕ → String → Option ℕ → Option String → Exec (Unit {0})
append_audit entity_type entity_id action actor_id ip_address = modify (λ db. record db {
  audit_logs =
      db.audit_logs
      ++ record {
        entity_type = entity_type;
        entity_id = entity_id;
        action = action;
        actor_id = actor_id;
        ip_address = ip_address;
      }
        ∷ [];
})

-- `entry.id`, where the entry may be None.
unfoldable pub id_of : Option LedgerEntry → Result ℕ
id_of none = err attribute_error
id_of (some e) = ok e.id

unfoldable pub audit_if : Bool → Exec (Unit {0}) → Exec (Unit {0})
audit_if true audit = audit
audit_if false audit = pure tt

-- A request ends by `db.commit()`; if it raises before, the session is closed without one.
abbrev pub commit_or_close : {A : Type 0} → Result A × Db → Db → Result A × Db
commit_or_close (ok a, db') db = (ok a, db')
commit_or_close (err e, db') db = (err e, db)

abbrev pub committed : {A : Type 0} → Exec A → Exec A
committed m db = commit_or_close (m db) db

-- `post_disbursement` of the router: the id of the posting.
unfoldable pub post_disbursement : ℕ → String → ℤ → Option String → ℕ → Option String → Exec ℕ
unfolding append_audit id_of audit_if
post_disbursement contract_id bank_account amount idempotency_key user_id ip_address = committed (do
  (entry, is_new) ← record_disbursement contract_id bank_account amount idempotency_key user_id
  entry_id ← lift (id_of entry)
  audit_if is_new (append_audit "LEDGER" (some entry_id) "DISBURSEMENT" (some user_id) ip_address)
  pure entry_id)

-- What the route `post_repayment` does before the commit.
unfoldable pub repayment_request :
    ℕ → ℤ → Option String → Option String → ℕ → Option String → Exec (ℕ × List LedgerEntry)
unfolding append_audit id_of audit_if
repayment_request contract_id amount reference idempotency_key user_id ip_address = do
  (rep, dists, is_new) ← record_repayment contract_id amount reference idempotency_key user_id
  rep_id ← lift (id_of rep)
  audit_if is_new (append_audit "LEDGER" (some rep_id) "REPAYMENT" (some user_id) ip_address)
  pure (rep_id, dists)

-- `post_repayment` of the router: the id of the REPAYMENT posting and the distributions.
unfoldable pub post_repayment :
    ℕ → ℤ → Option String → Option String → ℕ → Option String → Exec (ℕ × List LedgerEntry)
post_repayment contract_id amount reference idempotency_key user_id ip_address =
    committed (repayment_request contract_id amount reference idempotency_key user_id ip_address)
