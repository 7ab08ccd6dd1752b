-- ===== src/Payments/Tests.antt =====
-- Sample payments (app/payments/service.py), and the theorems on splits and replays applied to them.
use fund_lok.Prelude.{ℕ, ◌+◌, ◌≡◌, refl, false, none, some, List, [], ◌∷◌, arith, All, pos}
use fund_lok.Db.{Db, Holding, ok, empty_db, Result}
use fund_lok.Ledger.Chart.{LedgerLeg}
use fund_lok.Apportion.Rounding.{HasUniqueIds}
use fund_lok.Payments.Repay.{split_legs, distribution_reference}
use fund_lok.Payments.Routes.{post_disbursement}
use fund_lok.Payments.Split.{IsPayout, leg_total, split_legs_total}

abbrev holding : ℕ → ℕ → Holding
holding id principal = record {
  id = id;
  contract_id = 7;
  investor_id = 20 + id;
  order_id = none;
  principal = principal;
  share_ratio = none;
}

abbrev three : List Holding
three = holding 3 100 ∷ holding 1 100 ∷ holding 2 200 ∷ []

three-HasUniqueIds : HasUniqueIds three
three-HasUniqueIds = (refl, (refl, (refl, tt)))

abbrev payout : ℕ → ℕ → ℕ → LedgerLeg
payout account amount investor = record {
  debit_account_id = 11;
  credit_account_id = account;
  amount = pos amount;
  type = "DISTRIBUTION";
  contract_id = 7;
  reference = distribution_reference investor;
}

-- 101 among the three, whose accounts are opened on the way.
abbrev payouts : List LedgerLeg
payouts = payout 100 25 21 ∷ payout 101 51 22 ∷ payout 102 25 23 ∷ []

split_101 : (split_legs 7 1 11 (pos 101) three empty_db).0 ≡ ok payouts
unfolding split_legs fund_lok.Apportion.ordered fund_lok.Prelude.Sort.sorted
    fund_lok.Apportion.final_shares fund_lok.Ledger.Chart.get_or_create_account
split_101 = refl

split_legs_total_example : (leg_total payouts ≡ 101) × All (IsPayout 7 11) payouts
split_legs_total_example =
    split_legs_total 7 1 11 101 three empty_db payouts three-HasUniqueIds (omega arith)
      (omega arith) split_101

-- A funded listing of contract 7, whose borrower is user 9.
abbrev lender_books : Db
lender_books = record empty_db {
  custodial_accounts =
      record {
        id = 1;
        scope = "PLATFORM";
        contract_id = none;
        bank_account_ref = none;
        status = "ACTIVE";
      }
      ∷ [];
  contracts =
      record {
        id = 7;
        application_id = some 5;
        score_run_id = none;
        status = "ACTIVE_FUNDED";
        target_amount = pos 500;
        funded_amount = pos 500;
      }
      ∷ [];
  loan_applications =
      record {
        id = 5;
        project_id = 4;
        requested_amount = pos 500;
        purpose = none;
        repayment_preference = none;
        status = "UNDER_REVIEW";
        self_reported_figures = none;
        figures_updated_at = none;
        submitted_at = none;
      }
      ∷ [];
  project_ownerships = record { id = 6; project_id = 4; user_id = 9; role = "OWNER" } ∷ [];
  listings =
      record {
        id = 8;
        contract_id = 7;
        target_amount = pos 500;
        min_ticket = none;
        status = "FUNDED";
        funded_amount = pos 500;
        open_at = none;
        close_at = none;
      }
      ∷ [];
}

abbrev disbursement : Result ℕ × Db
disbursement = post_disbursement 7 "VCB-1" (pos 500) (some "k-2") 3 none lender_books
