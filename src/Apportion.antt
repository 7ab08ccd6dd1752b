-- ===== src/Apportion.antt =====
-- The split of a repayment among the holdings of a contract, from `record_repayment` of
-- app/payments/service.py: Hamilton's largest-remainder apportionment over whole VND.
pub mod Rounding
pub mod Exact
pub mod Fair
mod Tests
use fund_lok.Prelude.{
  ℕ, ◌+◌, ◌-◌, ◌*◌, ◌/◌, ◌%◌, Bool, ◌&&◌, ◌||◌, List, [], ◌∷◌, ltb, leb, ◌==◌, sorted, sum_by, Dict,
  insert, get_or, take,
}
use fund_lok.Db.{Holding}

-- `sorted(holdings, key=lambda h: h.id)`; an identifier and its text are ordered alike.
abbrev pub by_id : Holding → Holding → Bool
by_id g h = leb g.id h.id

unfoldable pub ordered : List Holding → List Holding
ordered holdings = sorted by_id holdings

abbrev pub total_principal : List Holding → ℕ
total_principal holdings = sum_by (λ (h : Holding). h.principal) holdings

-- `divmod(principal_int * amount_int, total_principal_int)`
abbrev pub base_share : ℕ → ℕ → Holding → ℕ
base_share total amount h = h.principal * amount / total

abbrev pub remainder : ℕ → ℕ → Holding → ℕ
remainder total amount h = h.principal * amount % total

-- What the loop over the holdings fills.
pub record Floors : Type 0 where
  pub shares : Dict ℕ
  pub remainders : Dict ℕ
  pub floor_sum : ℕ

pub floor_round : ℕ → ℕ → Floors → Holding → Floors
floor_round total amount f h = record {
  shares = insert h.id (base_share total amount h) f.shares;
  remainders = insert h.id (remainder total amount h) f.remainders;
  floor_sum = f.floor_sum + base_share total amount h;
}

pub floors_from : ℕ → ℕ → Floors → List Holding → Floors
unfolding floor_round
floors_from total amount f [] = f
floors_from total amount f (h ∷ hs) = floors_from total amount (floor_round total amount f h) hs

abbrev pub no_floors : Floors
no_floors = record { shares = []; remainders = []; floor_sum = 0 }

-- `key=lambda h: (-remainders[h.id], str(h.id))`
abbrev pub by_remainder : Dict ℕ → Holding → Holding → Bool
by_remainder remainders g h =
    ltb (get_or remainders h.id 0) (get_or remainders g.id 0)
    || (get_or remainders g.id 0 == get_or remainders h.id 0 && leb g.id h.id)

-- `shares[holding.id] += 1` for each holding of the slice.
pub add_leftover : Dict ℕ → List Holding → Dict ℕ
add_leftover shares [] = shares
add_leftover shares (h ∷ hs) = add_leftover (insert h.id (get_or shares h.id 0 + 1) shares) hs

-- The dict `shares` at the end.
unfoldable pub final_shares : ℕ → List Holding → Dict ℕ
unfolding ordered floors_from add_leftover
final_shares amount holdings =
    let f = floors_from (total_principal holdings) amount no_floors (ordered holdings) in
    add_leftover f.shares
      (take (amount - f.floor_sum) (sorted (by_remainder f.remainders) (ordered holdings)))
