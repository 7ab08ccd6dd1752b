-- ===== src/Db/LedgerTables.antt =====
-- app/ledger/models.py: the four tables of the double-entry ledger. Identifiers (UUID) are numbers;
-- the columns that the database fills with a time of its own are left out.
use fund_lok.Prelude.{ℕ, ℤ, String, Option}

pub record CustodialAccount : Type 0 where
  pub id : ℕ
  pub scope : String
  pub contract_id : Option ℕ
  pub bank_account_ref : Option String
  pub status : String

pub record LedgerAccount : Type 0 where
  pub id : ℕ
  pub account_type : String
  pub custodial_account_id : ℕ
  pub owner_user_id : Option ℕ
  pub contract_id : Option ℕ

pub record LedgerTransaction : Type 0 where
  pub id : ℕ
  pub event_type : String
  pub contract_id : Option ℕ
  pub idempotency_key : Option String
  pub reference : Option String
  pub created_by : Option ℕ

-- A posting: `amount` moves from the debit account to the credit account.
pub record LedgerEntry : Type 0 where
  pub id : ℕ
  pub contract_id : ℕ
  pub ledger_transaction_id : ℕ
  pub debit_account_id : ℕ
  pub credit_account_id : ℕ
  pub type : String
  pub amount : ℤ
  pub reference : Option String
  pub created_by : Option ℕ
