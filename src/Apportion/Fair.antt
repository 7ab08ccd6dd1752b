-- ===== src/Apportion/Fair.antt =====
-- Who gets the units that the floors leave: the holdings with the largest remainders.
use fund_lok.Prelude.{
  ℕ, ◌≤◌, ◌≡◌, true, false, List, arith, All, Dict, drop, sorted-All, All-map, All-zip, All-drop,
  All-take, take-IsSorted-drop, sorted-IsSorted,
}
use fund_lok.Db.{Holding}
use fund_lok.Apportion.Rounding.{
  HasUniqueIds, HasRemainder, remainders-floors_from, HasUniqueIds-HasNoRepeat,
}
use fund_lok.Apportion.{by_remainder, remainder, total_principal, ordered, no_floors}
use fund_lok.Apportion.Exact.{floors, leftover, by_largest_remainder, rewarded, ordered_unique}

by_remainder_total :
    (r : Dict ℕ) (g h : Holding) → by_remainder r g h ≡ false → by_remainder r h g ≡ true
by_remainder_total r g h e = ground arith

by_remainder_trans :
    (r : Dict ℕ) (f g h : Holding)
    → by_remainder r f g ≡ true
    → by_remainder r g h ≡ true
    → by_remainder r f h ≡ true
by_remainder_trans r f g h p q = ground arith

module _ (amount : ℕ) (holdings : List Holding) (unique : HasUniqueIds holdings) where
  known :
      All
        (HasRemainder (total_principal holdings) amount (floors amount holdings).remainders)
        (by_largest_remainder amount holdings)
  known = sorted-All (by_remainder (floors amount holdings).remainders) _ (ordered holdings) (
      remainders-floors_from (total_principal holdings) amount no_floors (ordered holdings)
        (HasUniqueIds-HasNoRepeat (ordered holdings) (ordered_unique amount holdings unique)))

  -- With holdings of distinct ids, no holding that gets a unit of the leftover has a smaller
  -- remainder than one that gets none.
  pub rewarded_largest :
      All
        (λ (g : Holding).
          All
            (λ (h : Holding).
              remainder (total_principal holdings) amount h
              ≤ remainder (total_principal holdings) amount g)
            (drop (leftover amount holdings) (by_largest_remainder amount holdings)))
        (rewarded amount holdings)
  rewarded_largest =
      All-map
        (λ (g : Holding)
            (p : HasRemainder (total_principal holdings) amount r g
              × All (λ (h : Holding). by_remainder r g h ≡ true) unrewarded).
          All-map
            (λ (h : Holding)
                (q : HasRemainder (total_principal holdings) amount r h
                  × (by_remainder r g h ≡ true)).
              ground arith)
            unrewarded
            (All-zip _ _ unrewarded
              (All-drop _ (leftover amount holdings) (by_largest_remainder amount holdings) known)
              p.1))
        (rewarded amount holdings)
        (All-zip _ _ (rewarded amount holdings)
          (All-take _ (leftover amount holdings) (by_largest_remainder amount holdings) known)
          (take-IsSorted-drop (by_remainder r) (leftover amount holdings)
            (by_largest_remainder amount holdings)
            (sorted-IsSorted (by_remainder r) (by_remainder_total r) (by_remainder_trans r)
              (ordered holdings))))
    where
      r : Dict ℕ
      r = (floors amount holdings).remainders

      unrewarded : List Holding
      unrewarded = drop (leftover amount holdings) (by_largest_remainder amount holdings)
