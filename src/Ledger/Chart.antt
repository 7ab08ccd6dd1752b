-- ===== src/Ledger/Chart.antt =====
-- Legs, accounts and balances (app/ledger/service.py).
use fund_lok.Prelude.{
  ℕ, suc, String, text_eq, Bool, ◌&&◌, Option, none, some, List, [], ◌∷◌, ◌++◌, ◌==◌, opt_eq,
  select, ℤ, pos, ◌+ℤ◌, ◌-ℤ◌,
}
use fund_lok.Db.{
  CustodialAccount, LedgerAccount, LedgerEntry, Db, ok, not_provisioned, Exec, pure, lift, require,
  ◌>>=◌, scalar_one_or_none,
}

pub record LedgerLeg : Type 0 where
  pub debit_account_id : ℕ
  pub credit_account_id : ℕ
  pub amount : ℤ
  pub type : String
  pub contract_id : ℕ
  pub reference : Option String

abbrev pub valid_ledger_entry_types : List String
valid_ledger_entry_types =
    "FUNDING" ∷ "DISBURSEMENT" ∷ "REPAYMENT" ∷ "DISTRIBUTION" ∷ "FEE" ∷ "PENALTY" ∷ "REFUND" ∷ []

unfoldable pub or_platform : Option CustodialAccount → Exec CustodialAccount
or_platform (some account) = pure account
or_platform none = do
  platform ← λ db.
      (scalar_one_or_none (select (λ a. text_eq a.scope "PLATFORM") db.custodial_accounts), db)
  lift (require platform not_provisioned)

unfoldable pub resolve_custodial_account : ℕ → Exec CustodialAccount
unfolding or_platform
resolve_custodial_account contract_id = do
  own ← λ db. (
    scalar_one_or_none (
        select (λ a. text_eq a.scope "CONTRACT" && opt_eq a.contract_id (some contract_id))
          db.custodial_accounts),
    db,
  )
  or_platform own

abbrev pub has_account_key : String → ℕ → Option ℕ → Option ℕ → LedgerAccount → Bool
has_account_key account_type custodial_account_id owner_user_id contract_id a =
    text_eq a.account_type account_type
    && (a.custodial_account_id == custodial_account_id
        && (opt_eq a.owner_user_id owner_user_id && opt_eq a.contract_id contract_id))

-- Its keys hold where it is called: the search before it found no such account, and the callers
-- have just read the custodial account, the contract and the owner.
unfoldable pub add_account : String → ℕ → Option ℕ → Option ℕ → Exec LedgerAccount
add_account account_type custodial_account_id owner_user_id contract_id db =
    let account : LedgerAccount = record {
      id = db.uuid4 db.draws;
      account_type = account_type;
      custodial_account_id = custodial_account_id;
      owner_user_id = owner_user_id;
      contract_id = contract_id;
    } in
    (
      ok account,
      record db { ledger_accounts = db.ledger_accounts ++ account ∷ []; draws = suc db.draws },
    )

unfoldable pub or_create : Option LedgerAccount → Exec LedgerAccount → Exec LedgerAccount
or_create (some account) create = pure account
or_create none create = create

unfoldable pub get_or_create_account : String → ℕ → Option ℕ → Option ℕ → Exec LedgerAccount
unfolding or_create add_account
get_or_create_account account_type custodial_account_id owner_user_id contract_id = do
  account ← λ db. (
    scalar_one_or_none (
        select (has_account_key account_type custodial_account_id owner_user_id contract_id)
          db.ledger_accounts),
    db,
  )
  or_create account (add_account account_type custodial_account_id owner_user_id contract_id)

-- `COALESCE(SUM(amount), 0)`
abbrev pub sum_amounts : List LedgerEntry → ℤ
sum_amounts [] = pos 0
sum_amounts (e ∷ es) = e.amount +ℤ sum_amounts es

unfoldable pub get_account_balance : Db → ℕ → ℤ
get_account_balance db account_id =
    sum_amounts (select (λ e. e.credit_account_id == account_id) db.ledger_entries)
    -ℤ sum_amounts (select (λ e. e.debit_account_id == account_id) db.ledger_entries)
