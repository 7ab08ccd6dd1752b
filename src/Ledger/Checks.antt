-- ===== src/Ledger/Checks.antt =====
-- What `post_transaction` checks before it writes (app/ledger/service.py).
use fund_lok.Prelude.{
  ℕ, ◌+◌, String, text_eq, Bool, false, not, ◌&&◌, Option, none, some, List, [], ◌∷◌, ltb, ◌==◌,
  if◌then◌else◌, truthy, select, find_first, any_of, ℤ, pos, ◌+ℤ◌, ◌-ℤ◌, leb_ℤ, eq_ℤ, Dict, insert,
  get_or,
}
use fund_lok.Db.{
  LedgerAccount, LedgerTransaction, Db, Result, ok, err, imbalance, cross_contract, stop_iteration,
  scalar_one_or_none,
}
use fund_lok.Ledger.Chart.{LedgerLeg, valid_ledger_entry_types}

-- One round of the validation loop of `post_transaction`.
unfoldable pub check_leg : LedgerLeg → Result (Unit {0})
check_leg leg =
    if leb_ℤ leg.amount (pos 0)
    then err imbalance
    else if leg.debit_account_id == leg.credit_account_id
    then err imbalance
    else if any_of (text_eq leg.type) valid_ledger_entry_types
    then ok tt
    else err imbalance

unfoldable pub check_legs : List LedgerLeg → Result (Unit {0})
check_legs [] = ok tt
check_legs (leg ∷ legs) = elim (check_leg leg) [ ok done ↦ check_legs legs | err e ↦ err e ]

-- `idempotency_key == key` in SQL: NULL equals nothing.
abbrev pub same_key : Option String → Option String → Bool
same_key (some a) (some b) = text_eq a b
same_key _ _ = false

-- The lookup of an earlier transaction, made only where the key is truthy.
unfoldable pub find_replay : Option String → Db → Result (Option LedgerTransaction)
find_replay key db =
    if truthy key
    then scalar_one_or_none
        (select (λ (t : LedgerTransaction). same_key t.idempotency_key key) db.ledger_transactions)
    else ok none

-- `set.add`
abbrev pub add_once : ℕ → List ℕ → List ℕ
add_once c s = if any_of (λ x. x == c) s then s else c ∷ s

abbrev pub find_account : Db → ℕ → Option LedgerAccount
find_account db account_id = find_first (λ a. a.id == account_id) db.ledger_accounts

abbrev pub account_contract : Option LedgerAccount → Option ℕ
account_contract none = none
account_contract (some account) = account.contract_id

unfoldable pub add_if_set : Option ℕ → List ℕ → List ℕ
add_if_set none s = s
add_if_set (some c) s = add_once c s

unfoldable pub add_account_contract : Db → ℕ → List ℕ → List ℕ
unfolding add_if_set
add_account_contract db account_id s = add_if_set (account_contract (find_account db account_id)) s

-- The contracts that the legs and their accounts name.
unfoldable pub contract_ids_from : Db → List ℕ → List LedgerLeg → List ℕ
unfolding add_account_contract
contract_ids_from db s [] = s
contract_ids_from db s (leg ∷ legs) =
    contract_ids_from db
      (add_account_contract db leg.credit_account_id
        (add_account_contract db leg.debit_account_id (add_once leg.contract_id s)))
      legs

unfoldable pub only_contract : List ℕ → Result ℕ
only_contract [] = err stop_iteration
only_contract (c ∷ []) = ok c
only_contract (c ∷ d ∷ rest) = err cross_contract

unfoldable pub ring_fence : Db → List LedgerLeg → Result ℕ
unfolding contract_ids_from only_contract
ring_fence db legs = only_contract (contract_ids_from db [] legs)

-- The dicts `net` and `touches` of the pass-through check.
pub record Tally : Type 0 where
  pub net : Dict ℤ
  pub touches : Dict ℕ

unfoldable pub tally_leg : Tally → LedgerLeg → Tally
tally_leg t leg =
    let net' =
      insert leg.debit_account_id (get_or t.net leg.debit_account_id (pos 0) -ℤ leg.amount) t.net in
    let touches' =
      insert leg.debit_account_id (get_or t.touches leg.debit_account_id 0 + 1) t.touches in
    record {
      net =
          insert leg.credit_account_id (get_or net' leg.credit_account_id (pos 0) +ℤ leg.amount)
            net';
      touches = insert leg.credit_account_id (get_or touches' leg.credit_account_id 0 + 1) touches';
    }

unfoldable pub tally_from : Tally → List LedgerLeg → Tally
unfolding tally_leg
tally_from t [] = t
tally_from t (leg ∷ legs) = tally_from (tally_leg t leg) legs

unfoldable pub check_touches : Dict ℤ → Dict ℕ → Result (Unit {0})
check_touches net [] = ok tt
check_touches net ((account_id, count) ∷ items) =
    let rest = check_touches net items in
    if ltb 1 count && not (eq_ℤ (get_or net account_id (pos 0)) (pos 0))
    then err imbalance
    else rest

unfoldable pub check_pass_through : List LedgerLeg → Result (Unit {0})
unfolding tally_from check_touches
check_pass_through legs =
    let t = tally_from (record { net = []; touches = [] }) legs in check_touches t.net t.touches
