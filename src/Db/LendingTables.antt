-- ===== src/Db/LendingTables.antt =====
-- app/lending/models.py: the tables that the market and the payments read and write. JSON columns
-- and the times that the database fills by itself are left out.
use fund_lok.Prelude.{ℕ, ℤ, String, Option}

pub record ProjectOwnership : Type 0 where
  pub id : ℕ
  pub project_id : ℕ
  pub user_id : ℕ
  pub role : String

pub record Document : Type 0 where
  pub id : ℕ
  pub entity_type : String
  pub entity_id : ℕ
  pub purpose : String
  pub status : String
  pub verified_at : Option ℕ

pub record LoanApplication : Type 0 where
  pub id : ℕ
  pub project_id : ℕ
  pub requested_amount : ℤ
  pub purpose : Option String
  pub repayment_preference : Option String
  pub status : String
  pub self_reported_figures : Option String
  pub figures_updated_at : Option ℕ
  pub submitted_at : Option ℕ

pub record Contract : Type 0 where
  pub id : ℕ
  pub application_id : Option ℕ
  pub score_run_id : Option ℕ
  pub status : String
  pub target_amount : ℤ
  pub funded_amount : ℤ

pub record Listing : Type 0 where
  pub id : ℕ
  pub contract_id : ℕ
  pub target_amount : ℤ
  pub min_ticket : Option ℤ
  pub status : String
  pub funded_amount : ℤ
  pub open_at : Option ℕ
  pub close_at : Option ℕ

pub record Order : Type 0 where
  pub id : ℕ
  pub listing_id : ℕ
  pub investor_id : ℕ
  pub amount : ℤ
  pub status : String
  pub payment_confirmed_at : Option ℕ
  pub idempotency_key : Option String

-- `share_ratio` is Numeric(10, 8), in units of 0.00000001.
pub record Holding : Type 0 where
  pub id : ℕ
  pub contract_id : ℕ
  pub investor_id : ℕ
  pub order_id : Option ℕ
  pub principal : ℕ
  pub share_ratio : Option ℕ

pub record AuditLog : Type 0 where
  pub entity_type : String
  pub entity_id : Option ℕ
  pub action : String
  pub actor_id : Option ℕ
  pub ip_address : Option String

pub record Project : Type 0 where
  pub id : ℕ
  pub legal_name : String
  pub tax_id : Option String
  pub industry : Option String
  pub status : String

-- `factor_results` and the figures of the engine are left out.
pub record ScoreRun : Type 0 where
  pub id : ℕ
  pub application_id : ℕ
  pub status : String
  pub decision : Option String
  pub locked_at : Option ℕ
