-- ===== src/Ledger/Balance.antt =====
-- `get_account_balance` (app/ledger/service.py) before and after a posting.
use fund_lok.Prelude.{
  ℕ, suc, ◌<◌, String, ◌≡◌, ap, ◌∙◌, inl, inr, Option, none, List, [], ◌∷◌, ◌++◌, ◌==◌,
  if◌then◌else◌, select, ℤ, pos, ◌+ℤ◌, ◌-ℤ◌, int_laws, select-append,
}
use fund_lok.Db.{Db, LedgerEntry, LedgerTransaction, ok}
use fund_lok.Ledger.Chart.{get_account_balance, sum_amounts, LedgerLeg}
use fund_lok.Ledger.Post.{entries_of, post_transaction, entry_of}
use fund_lok.Ledger.Checks.{find_replay}
use fund_lok.Ledger.PassThrough.{net_of, touches_of}
use fund_lok.Ledger.Outcome.{post_transaction_ok}

sum_amounts-append :
    (xs ys : List LedgerEntry) → sum_amounts (xs ++ ys) ≡ sum_amounts xs +ℤ sum_amounts ys
sum_amounts-append [] ys = omega int_laws
sum_amounts-append (x ∷ xs) ys = rw (sum_amounts-append xs ys) (omega int_laws)

-- Credits minus debits of a list of postings.
abbrev moved : ℕ → List LedgerEntry → ℤ
moved a es =
    sum_amounts (select (λ (e : LedgerEntry). e.credit_account_id == a) es)
    -ℤ sum_amounts (select (λ (e : LedgerEntry). e.debit_account_id == a) es)

moved-append : (a : ℕ) (xs ys : List LedgerEntry) → moved a (xs ++ ys) ≡ moved a xs +ℤ moved a ys
moved-append a xs ys = simp (select-append, sum_amounts-append) (omega int_laws)

-- One posting moves what its leg would.
abbrev entry_moves : ℕ → LedgerEntry → ℤ
entry_moves a e =
    (if e.credit_account_id == a then e.amount else pos 0)
    -ℤ (if e.debit_account_id == a then e.amount else pos 0)

moved-cons :
    (a : ℕ) (e : LedgerEntry) (es : List LedgerEntry)
    → moved a (e ∷ es) ≡ entry_moves a e +ℤ moved a es
moved-cons a e es = grind int_laws

moved-entries_of :
    (a : ℕ) (uuid4 : ℕ → ℕ) (n : ℕ) (t : LedgerTransaction) (legs : List LedgerLeg)
    → moved a (entries_of uuid4 n t legs) ≡ net_of a legs
moved-entries_of a uuid4 n t [] = omega int_laws
moved-entries_of a uuid4 n t (leg ∷ legs) = rw (
  moved-cons a (entry_of t (uuid4 n) leg) (entries_of uuid4 (suc n) t legs),
  moved-entries_of a uuid4 (suc n) t legs,
)

module _ (event_type : String) (legs : List LedgerLeg) (key reference : Option String)
    (created_by : Option ℕ) (db : Db) (t : LedgerTransaction)
    (returned : (post_transaction event_type legs key reference created_by db).0 ≡ ok t)
    (new : find_replay key db ≡ ok none) where
  -- A call that returned a transaction, and found none under its key, has changed the balance
  -- of every account by the net of the legs in it.
  pub balance-post_transaction :
      (a : ℕ)
      → get_account_balance (post_transaction event_type legs key reference created_by db).1 a
        ≡ get_account_balance db a +ℤ net_of a legs
  unfolding get_account_balance
  balance-post_transaction a =
      elim (post_transaction_ok event_type legs key reference created_by db t returned) [
        | inl (has_key, found, same) ↦ absurd (cc)
        | inr (c, postable, written) ↦ rw written (
            moved-append a db.ledger_entries _
            ∙ ap (λ (m : ℤ). moved a db.ledger_entries +ℤ m) (moved-entries_of a db.uuid4 _ _ legs))
      ]

  -- An account that such a call's legs touch more than once, as those of a split repayment do
  -- the omnibus account, keeps its balance: this is for a call that returned a transaction and
  -- found none under its key.
  pub balance_pass_through :
      (a : ℕ)
      → 1 < touches_of a legs
      → get_account_balance (post_transaction event_type legs key reference created_by db).1 a
        ≡ get_account_balance db a
  balance_pass_through a several =
      elim (post_transaction_ok event_type legs key reference created_by db t returned) [
        | inl (has_key, found, same) ↦ absurd (cc)
        | inr (c, postable, written) ↦
            balance-post_transaction a ∙ rw (postable.balanced a several) (omega int_laws)
      ]
