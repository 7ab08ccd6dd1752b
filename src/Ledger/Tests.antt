-- ===== src/Ledger/Tests.antt =====
-- Sample data for the ledger (app/ledger/service.py), and its theorems applied to them.
use fund_lok.Prelude.{
  ℕ, String, ◌≡◌, refl, ap, ◌≢◌, ◌↔◌, ◌⊎◌, true, Option, none, some, List, [], ◌∷◌, truthy, All,
  pos, ◌+ℤ◌, ◌-ℤ◌,
}
use fund_lok.Db.{
  Db, CustodialAccount, LedgerAccount, LedgerTransaction, Contract, imbalance, integrity, Result,
  ok, err, empty_db,
}
use fund_lok.Ledger.Chart.{LedgerLeg, get_account_balance}
use fund_lok.Ledger.Checks.{check_leg, check_legs, find_replay, ring_fence, check_pass_through}
use fund_lok.Ledger.Post.{post_transaction, post_new, write_transaction}
use fund_lok.Ledger.PassThrough.{check_pass_through_iff, NetsToZero, net_of}
use fund_lok.Ledger.RingFence.{ring_fence_iff, IsFenced}
use fund_lok.Ledger.Posting.{check_legs_iff, IsValidLeg, header, posted}
use fund_lok.Ledger.Outcome.{
  IsPostable, post_transaction_accepts, post_transaction_ok, post_transaction_err,
}
use fund_lok.Ledger.Keys.{PostCall, post_each}
use fund_lok.Ledger.Replay.{post_transaction_idempotent}
use fund_lok.Ledger.Balance.{balance-post_transaction}

abbrev account : ℕ → String → Option ℕ → Option ℕ → LedgerAccount
account id account_type owner_user_id contract_id = record {
  id = id;
  account_type = account_type;
  custodial_account_id = 1;
  owner_user_id = owner_user_id;
  contract_id = contract_id;
}

abbrev platform : CustodialAccount
platform = record {
  id = 1;
  scope = "PLATFORM";
  contract_id = none;
  bank_account_ref = none;
  status = "ACTIVE";
}

abbrev contract : ℕ → Contract
contract id = record {
  id = id;
  application_id = none;
  score_run_id = none;
  status = "ACTIVE";
  target_amount = pos 100;
  funded_amount = pos 100;
}

-- An omnibus account, and the borrower's and two investors' accounts of contract 7.
abbrev bank : Db
bank = record empty_db {
  custodial_accounts = platform ∷ [];
  ledger_accounts =
      account 11 "OMNIBUS" none none
      ∷ account 12 "BORROWER" (some 21) (some 7)
      ∷ account 13 "INVESTOR" (some 22) (some 7)
      ∷ account 14 "INVESTOR" (some 23) (some 7)
      ∷ [];
  contracts = contract 7 ∷ [];
}

abbrev leg : ℕ → ℕ → ℕ → String → LedgerLeg
leg debit credit amount type = record {
  debit_account_id = debit;
  credit_account_id = credit;
  amount = pos amount;
  type = type;
  contract_id = 7;
  reference = none;
}

-- The borrower pays 100, which goes through the omnibus account to the investors.
abbrev payouts : List LedgerLeg
payouts = leg 11 13 60 "DISTRIBUTION" ∷ leg 11 14 40 "DISTRIBUTION" ∷ []

abbrev split : List LedgerLeg
split = leg 12 11 100 "REPAYMENT" ∷ payouts

split_valid : All IsValidLeg split
unfolding check_legs check_leg
split_valid = (check_legs_iff split).0 refl

-- What the call below returns and leaves behind.
abbrev first_header : LedgerTransaction
first_header = header "REPAYMENT" split (some "repay-1") none none bank 7

abbrev after : Db
after = posted "REPAYMENT" split (some "repay-1") none none bank 7

check_pass_through_iff_example : (check_pass_through split ≡ ok tt) ↔ NetsToZero split
check_pass_through_iff_example = check_pass_through_iff split

ring_fence_iff_example : (ring_fence bank split ≡ ok 7) ↔ All (IsFenced bank 7) split
ring_fence_iff_example = ring_fence_iff bank 7 (leg 12 11 100 "REPAYMENT") payouts

split-IsFenced : All (IsFenced bank 7) split
unfolding ring_fence
split-IsFenced = (ring_fence_iff bank 7 (leg 12 11 100 "REPAYMENT") payouts).0 refl

split_balanced : NetsToZero split
unfolding check_pass_through ◌+ℤ◌ ◌-ℤ◌
split_balanced = (check_pass_through_iff split).0 refl

split-IsPostable : IsPostable bank split (some "repay-1") 7
split-IsPostable = record {
  not_empty = λ e. absurd (cc);
  valid = split_valid;
  fenced = split-IsFenced;
  balanced = split_balanced;
  contract_known = refl;
  key_new = refl;
  accounts_known = refl;
}

post_transaction_accepts_example :
    post_transaction "REPAYMENT" split (some "repay-1") none none bank ≡ (ok first_header, after)
post_transaction_accepts_example =
    post_transaction_accepts "REPAYMENT" split (some "repay-1") none none bank 7 split-IsPostable

split_returned :
    (post_transaction "REPAYMENT" split (some "repay-1") none none bank).0 ≡ ok first_header
split_returned = ap (λ (r : Result LedgerTransaction × Db). r.0) post_transaction_accepts_example

post_transaction_ok_example :
    ((truthy (some "repay-1") ≡ true)
      × (find_replay (some "repay-1") bank ≡ ok (some first_header))
      × (post_transaction "REPAYMENT" split (some "repay-1") none none bank
          ≡ (ok first_header, bank)))
    ⊎ ((c : ℕ) × IsPostable bank split (some "repay-1") c
        × (post_transaction "REPAYMENT" split (some "repay-1") none none bank ≡ (
          ok (header "REPAYMENT" split (some "repay-1") none none bank c),
          posted "REPAYMENT" split (some "repay-1") none none bank c,
        )))
post_transaction_ok_example =
    post_transaction_ok "REPAYMENT" split (some "repay-1") none none bank first_header
      split_returned

-- Without the payouts to account 14 the omnibus account would keep 40.
abbrev lopsided : List LedgerLeg
lopsided = leg 12 11 100 "REPAYMENT" ∷ leg 11 13 60 "DISTRIBUTION" ∷ []

lopsided_refused :
    (post_transaction "REPAYMENT" lopsided (some "repay-1") none none bank).0 ≡ err imbalance
unfolding post_transaction check_legs check_leg find_replay post_new ring_fence write_transaction
    check_pass_through ◌+ℤ◌ ◌-ℤ◌
lopsided_refused = refl

post_transaction_err_example :
    ((post_transaction "REPAYMENT" lopsided (some "repay-1") none none bank).1.ledger_entries ≡ [])
    × (imbalance ≢ integrity
        → (post_transaction "REPAYMENT" lopsided (some "repay-1") none none bank).1 ≡ bank)
post_transaction_err_example =
    post_transaction_err "REPAYMENT" lopsided (some "repay-1") none none bank imbalance
      lopsided_refused

-- A repayment under another key, and one that raises.
abbrev between : List PostCall
between =
    record {
      event_type = "REPAYMENT";
      legs = split;
      key = some "repay-2";
      reference = none;
      created_by = none;
    }
    ∷ record {
      event_type = "REPAYMENT";
      legs = lopsided;
      key = some "repay-3";
      reference = none;
      created_by = none;
    }
    ∷ []

post_transaction_idempotent_example :
    let db =
      post_each between (post_transaction "REPAYMENT" split (some "repay-1") none none bank).1 in
    post_transaction "REPAYMENT" payouts (some "repay-1") none none db ≡ (ok first_header, db)
post_transaction_idempotent_example =
    post_transaction_idempotent "REPAYMENT" split (some "repay-1") none none bank first_header refl
      split_returned between "REPAYMENT" payouts none none (λ e. absurd (cc)) split_valid.1

split_new : find_replay (some "repay-1") bank ≡ ok none
unfolding find_replay
split_new = refl

balance-post_transaction_example :
    get_account_balance (post_transaction "REPAYMENT" split (some "repay-1") none none bank).1 13
    ≡ get_account_balance bank 13 +ℤ net_of 13 split
balance-post_transaction_example =
    balance-post_transaction "REPAYMENT" split (some "repay-1") none none bank first_header
      split_returned split_new 13
