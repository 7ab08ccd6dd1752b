-- ===== src/Ledger/RingFence.antt =====
-- The ring-fencing check of `post_transaction` (ADR-003): one transaction, one contract.
use fund_lok.Prelude.{
  ℕ, ◌≡◌, refl, ◌↔◌, ◌⊎◌, inl, inr, Option, none, some, List, [], ◌∷◌, arith, All,
}
use fund_lok.Db.{Db, ok}
use fund_lok.Ledger.Chart.{LedgerLeg}
use fund_lok.Ledger.Checks.{
  find_account, account_contract, add_once, add_if_set, contract_ids_from, only_contract,
  ring_fence,
}

-- An account without a contract, or of this contract.
abbrev pub Within : ℕ → Option ℕ → Type 0
Within c owner = (owner ≡ none) ⊎ (owner ≡ some c)

-- The leg and both its accounts belong to the contract, or to the platform as a whole.
abbrev pub IsFenced : Db → ℕ → LedgerLeg → Type 0
IsFenced db c leg =
    (leg.contract_id ≡ c)
    × Within c (account_contract (find_account db leg.debit_account_id))
    × Within c (account_contract (find_account db leg.credit_account_id))

abbrev AtMost : ℕ → List ℕ → Type 0
AtMost c s = (s ≡ []) ⊎ (s ≡ c ∷ [])

add_once-AtMost : (c x : ℕ) (s : List ℕ) → AtMost c (add_once x s) → (x ≡ c) × AtMost c s
add_once-AtMost c x [] h = ground arith
add_once-AtMost c x (y ∷ []) h = ground arith
add_once-AtMost c x (y ∷ z ∷ s) h = ground arith

add_once_in : (c : ℕ) (s : List ℕ) → AtMost c s → add_once c s ≡ c ∷ []
add_once_in c s h = ground arith

add_if_set-AtMost :
    (c : ℕ) (o : Option ℕ) (s : List ℕ) → AtMost c (add_if_set o s) → Within c o × AtMost c s
unfolding add_if_set
add_if_set-AtMost c none s h = (inl refl, h)
add_if_set-AtMost c (some x) s h = ground (arith, add_once-AtMost c x s h)

add_if_set_in : (c : ℕ) (o : Option ℕ) → Within c o → add_if_set o (c ∷ []) ≡ c ∷ []
unfolding add_if_set
add_if_set_in c none h = refl
add_if_set_in c (some x) h = ground arith

contract_ids_from_sound :
    (db : Db) (c : ℕ) (legs : List LedgerLeg) (s : List ℕ)
    → AtMost c (contract_ids_from db s legs)
    → AtMost c s × All (IsFenced db c) legs
unfolding contract_ids_from
contract_ids_from_sound db c [] s h = (h, tt)
contract_ids_from_sound db c (leg ∷ legs) s h =
    let (at_leg, fenced) = contract_ids_from_sound db c legs _ h in
    let (credit, at_debit) = add_if_set-AtMost c _ _ at_leg in
    let (debit, at_contract) = add_if_set-AtMost c _ _ at_debit in
    let (own, at_start) = add_once-AtMost c leg.contract_id s at_contract in
    (at_start, ((own, debit, credit), fenced))

contract_ids_from_complete :
    (db : Db) (c : ℕ) (legs : List LedgerLeg)
    → All (IsFenced db c) legs
    → contract_ids_from db (c ∷ []) legs ≡ c ∷ []
unfolding contract_ids_from
contract_ids_from_complete db c [] h = refl
contract_ids_from_complete db c (leg ∷ legs) h =
    rw (h.0.0, add_once_in c (c ∷ []) (inr refl), add_if_set_in c _ h.0.1, add_if_set_in c _ h.0.2)
      (contract_ids_from_complete db c legs h.1)

only_contract_ok : (s : List ℕ) (c : ℕ) → only_contract s ≡ ok c → s ≡ c ∷ []
unfolding only_contract
only_contract_ok s c h = ground arith

-- The check accepts a non-empty list of legs for contract `c` exactly if each leg, and each of its
-- accounts that has a contract, belongs to `c`.
pub ring_fence_iff :
    (db : Db) (c : ℕ) (leg : LedgerLeg) (legs : List LedgerLeg)
    → (ring_fence db (leg ∷ legs) ≡ ok c) ↔ All (IsFenced db c) (leg ∷ legs)
unfolding ring_fence
ring_fence_iff db c leg legs =
    (λ h. (contract_ids_from_sound db c (leg ∷ legs) [] (inr (only_contract_ok _ c h))).1, complete)
  where
    complete :
        All (IsFenced db c) (leg ∷ legs)
        → only_contract (contract_ids_from db [] (leg ∷ legs)) ≡ ok c
    complete h =
        rw (h.0.0, add_if_set_in c _ h.0.1, add_if_set_in c _ h.0.2)
          (rw (contract_ids_from_complete db c legs h.1))
