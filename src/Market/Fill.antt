-- ===== src/Market/Fill.antt =====
-- What an order changes (app/market/service.py).
use fund_lok.Prelude.{
  ℕ, ◌+◌, String, text_eq, Bool, true, false, ◌&&◌, Option, none, some, List, [], ◌∷◌, ◌++◌, ◌==◌,
  if◌then◌else◌, select, any_of, ℤ, ◌+ℤ◌, leb_ℤ, sum_by, pos_part,
}
use fund_lok.Db.{
  Db, Contract, Listing, Order, Holding, integrity, Result, Exec, pure, gets, ◌>>=◌, ◌>>◌, raise_if,
  modify, scalar_one_or_none, new_id,
}
use fund_lok.Decimals.{of_int, div, quantize_8}

-- The flush of a changed row: it takes the place of the row with its id.
abbrev pub save : {A : Type 0} → (A → ℕ) → A → List A → List A
save id_of a [] = []
save id_of a (b ∷ rows) = (if id_of b == id_of a then a else b) ∷ save id_of a rows

unfoldable pub save_listing : Listing → Exec (Unit {0})
save_listing lst =
    modify (λ db. record db { listings = save (λ (l : Listing). l.id) lst db.listings })

unfoldable pub save_contract : Contract → Exec (Unit {0})
save_contract c =
    modify (λ db. record db { contracts = save (λ (d : Contract). d.id) c db.contracts })

unfoldable pub save_holding : Holding → Exec (Unit {0})
save_holding h = modify (λ db. record db { holdings = save (λ (g : Holding). g.id) h db.holdings })

-- The key that an order was placed under, in SQL's equality.
abbrev pub same_key : Option String → Option String → Bool
same_key (some a) (some b) = text_eq a b
same_key _ _ = false

unfoldable pub order_key_taken : Option String → List Order → Bool
order_key_taken key orders = any_of (λ (o : Order). same_key o.idempotency_key key) orders

-- `db.add(order)` and the flush: the key must be new.
unfoldable pub insert_order : Order → Exec (Unit {0})
unfolding order_key_taken
insert_order order = do
  taken ← gets (λ db. order_key_taken order.idempotency_key db.orders)
  raise_if taken integrity
  modify (λ db. record db { orders = db.orders ++ order ∷ [] })

-- `_recompute_holding_shares`
unfoldable pub share_of : ℕ → Holding → Holding
share_of total h = record h {
  share_ratio = some (quantize_8 (div (of_int h.principal) (of_int total)));
}

unfoldable pub share_all : ℕ → ℕ → List Holding → List Holding
unfolding share_of
share_all contract_id total [] = []
share_all contract_id total (h ∷ hs) =
    (if h.contract_id == contract_id then share_of total h else h) ∷ share_all contract_id total hs

abbrev pub contract_principal : ℕ → Db → ℕ
contract_principal contract_id db =
    sum_by (λ (h : Holding). h.principal)
      (select (λ (h : Holding). h.contract_id == contract_id) db.holdings)

unfoldable pub recompute_holding_shares : ℕ → Exec (Unit {0})
unfolding share_all
recompute_holding_shares contract_id = modify (λ db.
    let total = contract_principal contract_id db in
    record db {
      holdings = if total == 0 then db.holdings else share_all contract_id total db.holdings;
    })

-- The changes of the contract's row, where there is one; the status is set only by the second call.
unfoldable pub fund_contract : Option Contract → ℤ → Bool → Exec (Unit {0})
unfolding save_contract
fund_contract none amount complete = pure tt
fund_contract (some c) amount complete = save_contract (record c {
  funded_amount = c.funded_amount +ℤ amount;
  status = if complete then "ACTIVE_FUNDED" else c.status;
})

-- The investor's holding grows, or is opened.
unfoldable pub grow_holding : Option Holding → ℕ → ℕ → ℕ → ℕ → Exec (Unit {0})
unfolding save_holding
grow_holding (some h) contract_id investor_id order_id amount =
    save_holding (record h { principal = h.principal + amount; order_id = some order_id })
grow_holding none contract_id investor_id order_id amount = do
  id ← new_id
  modify (λ db. record db {
    holdings =
        db.holdings
        ++ record {
          id = id;
          contract_id = contract_id;
          investor_id = investor_id;
          order_id = some order_id;
          principal = amount;
          share_ratio = none;
        }
          ∷ [];
  })

unfoldable pub find_contract : ℕ → List Contract → Result (Option Contract)
find_contract contract_id contracts =
    scalar_one_or_none (select (λ (d : Contract). d.id == contract_id) contracts)

unfoldable pub find_holding : ℕ → ℕ → List Holding → Result (Option Holding)
find_holding contract_id investor_id holdings = scalar_one_or_none (
    select (λ (h : Holding). h.contract_id == contract_id && h.investor_id == investor_id) holdings)

-- From the creation of the order on, for a listing that admits it.
unfoldable pub fill_order : Listing → ℕ → ℤ → Option String → Exec (Order × Bool)
unfolding insert_order save_listing fund_contract grow_holding find_contract find_holding
fill_order lst investor_id amount idempotency_key = do
  now ← gets (λ db. db.clock)
  id ← new_id
  let order : Order = record {
    id = id;
    listing_id = lst.id;
    investor_id = investor_id;
    amount = amount;
    status = "FILLED";
    payment_confirmed_at = some now;
    idempotency_key = idempotency_key;
  }
  insert_order order
  let funded = lst.funded_amount +ℤ amount
  let complete = leb_ℤ lst.target_amount funded
  save_listing (record lst { funded_amount = funded })
  c ← λ db. (find_contract lst.contract_id db.contracts, db)
  fund_contract c amount false
  holding ← λ db. (find_holding lst.contract_id investor_id db.holdings, db)
  grow_holding holding lst.contract_id investor_id id (pos_part amount)
  save_listing (record lst {
    funded_amount = funded;
    status = if complete then "FUNDED" else lst.status;
    close_at = if complete then some now else lst.close_at;
  })
  fund_contract c amount complete
  recompute_holding_shares lst.contract_id
  pure (order, true)
