-- ===== src/Ledger/Accounts.antt =====
-- `resolve_custodial_account` and `get_or_create_account` (app/ledger/service.py).
use fund_lok.Prelude.{
  ℕ, suc, ◌≤◌, String, ◌≡◌, refl, ap, inl, inr, true, Option, List, [], ◌∷◌, ◌++◌, arith, length,
  select, Bool-cases, select-append, ==_self, opt_eq_self, opt_eq_iff,
}
use text.Mathlib.TextPositions.{eq_refl}
use mathlib.Core.List.{append-nil}
use text.Mathlib.TextEquality.{eq_iff}
use fund_lok.Db.{Db, LedgerAccount, ok, err, Result, multiple_rows}
use fund_lok.Ledger.Chart.{get_or_create_account, has_account_key}

module _ (account_type : String) (custodial_account_id : ℕ)
    (owner_user_id contract_id : Option ℕ) where
  -- The row that the call adds.
  abbrev pub new_account : Db → LedgerAccount
  new_account db = record {
    id = db.uuid4 db.draws;
    account_type = account_type;
    custodial_account_id = custodial_account_id;
    owner_user_id = owner_user_id;
    contract_id = contract_id;
  }

  abbrev pub with_account : Db → Db
  with_account db = record db {
    ledger_accounts = db.ledger_accounts ++ new_account db ∷ [];
    draws = suc db.draws;
  }

  abbrev pub matching : Db → List LedgerAccount
  matching db =
      select (has_account_key account_type custodial_account_id owner_user_id contract_id)
        db.ledger_accounts

  has_account_key_self :
      (db : Db)
      → has_account_key account_type custodial_account_id owner_user_id contract_id (new_account db)
        ≡ true
  has_account_key_self db = rw (
    eq_refl account_type,
    ==_self custodial_account_id,
    opt_eq_self owner_user_id,
    opt_eq_self contract_id,
  )

  pub get_or_create_account_found :
      (db : Db) (a : LedgerAccount)
      → matching db ≡ a ∷ []
      → get_or_create_account account_type custodial_account_id owner_user_id contract_id db
        ≡ (ok a, db)
  unfolding get_or_create_account
  get_or_create_account_found db a h = rw h

  pub get_or_create_account_new :
      (db : Db)
      → matching db ≡ []
      → get_or_create_account account_type custodial_account_id owner_user_id contract_id db
        ≡ (ok (new_account db), with_account db)
  unfolding get_or_create_account
  get_or_create_account_new db h = rw h

  matching-with_account :
      (db : Db) → matching db ≡ [] → matching (with_account db) ≡ new_account db ∷ []
  matching-with_account db h = rw (
    select-append (has_account_key account_type custodial_account_id owner_user_id contract_id)
        db.ledger_accounts (new_account db ∷ []),
    h,
    has_account_key_self db,
  )

  get_or_create_account_ambiguous :
      (db : Db) (a b : LedgerAccount) (rest : List LedgerAccount)
      → matching db ≡ a ∷ b ∷ rest
      → get_or_create_account account_type custodial_account_id owner_user_id contract_id db
        ≡ (err multiple_rows, db)
  unfolding get_or_create_account
  get_or_create_account_ambiguous db a b rest h = rw h

  idempotent_by :
      (db : Db) (a : LedgerAccount) (found : List LedgerAccount)
      → matching db ≡ found
      → (get_or_create_account account_type custodial_account_id owner_user_id contract_id db).0
        ≡ ok a
      → let db' =
          (get_or_create_account account_type custodial_account_id owner_user_id contract_id
            db).1 in
        get_or_create_account account_type custodial_account_id owner_user_id contract_id db'
        ≡ (ok a, db')
  idempotent_by db a [] e h =
      let created = get_or_create_account_new db e in
      let same : new_account db ≡ a = cc (ap (λ (r : Result LedgerAccount × Db). r.0) created) in
      rw created (
        rw (← same) (
          get_or_create_account_found (with_account db) (new_account db)
            (matching-with_account db e)))
  idempotent_by db a (b ∷ []) e h =
      let found = get_or_create_account_found db b e in
      let same : b ≡ a = cc (ap (λ (r : Result LedgerAccount × Db). r.0) found) in
      rw found (rw (← same) found)
  idempotent_by db a (b ∷ c ∷ rest) e h = absurd (
      cc (
        ap (λ (r : Result LedgerAccount × Db). r.0)
          (get_or_create_account_ambiguous db b c rest e)))

  -- A call that returned a row can be repeated: it returns the same row and writes nothing more.
  pub get_or_create_account_idempotent :
      (db : Db) (a : LedgerAccount)
      → (get_or_create_account account_type custodial_account_id owner_user_id contract_id db).0
        ≡ ok a
      → let db' =
          (get_or_create_account account_type custodial_account_id owner_user_id contract_id
            db).1 in
        get_or_create_account account_type custodial_account_id owner_user_id contract_id db'
        ≡ (ok a, db')
  get_or_create_account_idempotent db a h = idempotent_by db a (matching db) refl h

-- No two rows have the same type, custodial account, owner and contract.
abbrev pub HasUniqueAccounts : Db → Type 0
HasUniqueAccounts db =
    (account_type : String) (custodial_account_id : ℕ) (owner_user_id contract_id : Option ℕ)
    → length (matching account_type custodial_account_id owner_user_id contract_id db) ≤ 1

-- A key that fits the added row is the key that it was added for.
has_account_key_new :
    (ty ty' : String) (custodial custodial' : ℕ) (owner owner' contract contract' : Option ℕ)
    (db : Db)
    → has_account_key ty' custodial' owner' contract' (new_account ty custodial owner contract db)
      ≡ true
    → matching ty' custodial' owner' contract' db ≡ matching ty custodial owner contract db
has_account_key_new ty ty' custodial custodial' owner owner' contract contract' db h =
    let same_type : ty ≡ ty' = (eq_iff ty ty').0 (ground arith) in
    let same_custodial : custodial ≡ custodial' = ground arith in
    let same_owner : owner ≡ owner' = (opt_eq_iff owner owner').0 (ground arith) in
    let same_contract : contract ≡ contract' = (opt_eq_iff contract contract').0 (ground arith) in
    rw (same_type, same_custodial, same_owner, same_contract)

with_account-HasUniqueAccounts :
    (ty : String) (custodial : ℕ) (owner contract : Option ℕ) (db : Db)
    → HasUniqueAccounts db
    → matching ty custodial owner contract db ≡ []
    → HasUniqueAccounts (with_account ty custodial owner contract db)
with_account-HasUniqueAccounts ty custodial owner contract db h none_yet ty' custodial' owner'
      contract' =
    rw
      (select-append (has_account_key ty' custodial' owner' contract') db.ledger_accounts
        (new_account ty custodial owner contract db ∷ []))
      (elim (Bool-cases (
        has_account_key ty' custodial' owner' contract'
          (new_account ty custodial owner contract db))) [
            | inl same ↦
                rw
                  (
                    same,
                    has_account_key_new ty ty' custodial custodial' owner owner' contract contract'
                        db same,
                    none_yet,
                  )
                  (omega arith)
            | inr other ↦
                rw (other, append-nil (matching ty' custodial' owner' contract' db))
                  (h ty' custodial' owner' contract')
          ])

unique_by :
    (ty : String) (custodial : ℕ) (owner contract : Option ℕ) (db : Db) (found : List LedgerAccount)
    → matching ty custodial owner contract db ≡ found
    → HasUniqueAccounts db
    → ((a : LedgerAccount) × ((get_or_create_account ty custodial owner contract db).0 ≡ ok a))
      × HasUniqueAccounts (get_or_create_account ty custodial owner contract db).1
unique_by ty custodial owner contract db [] e h =
    rw (get_or_create_account_new ty custodial owner contract db e)
      ((_, refl), with_account-HasUniqueAccounts ty custodial owner contract db h e)
unique_by ty custodial owner contract db (a ∷ []) e h =
    rw (get_or_create_account_found ty custodial owner contract db a e) ((a, refl), h)
unique_by ty custodial owner contract db (a ∷ b ∷ rest) e h =
    absurd
      (omega (arith, h ty custodial owner contract, ap (λ (l : List LedgerAccount). length l) e))

-- Where no account row is doubled, a call returns a row and doubles none.
pub get_or_create_account-HasUniqueAccounts :
    (ty : String) (custodial : ℕ) (owner contract : Option ℕ) (db : Db)
    → HasUniqueAccounts db
    → ((a : LedgerAccount) × ((get_or_create_account ty custodial owner contract db).0 ≡ ok a))
      × HasUniqueAccounts (get_or_create_account ty custodial owner contract db).1
get_or_create_account-HasUniqueAccounts ty custodial owner contract db h =
    unique_by ty custodial owner contract db (matching ty custodial owner contract db) refl h
