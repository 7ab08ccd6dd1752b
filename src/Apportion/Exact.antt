-- ===== src/Apportion/Exact.antt =====
-- The shares of `final_shares` add up to the repayment, and each is a floor or one more.
use fund_lok.Prelude.{
  ℕ, ◌+◌, ◌-◌, ◌*◌, ◌≤◌, ◌<◌, ◌≡◌, ◌∙◌, List, arith, ◌==◌, if◌then◌else◌, length, All,
  sum_by-sorted, length-sorted, All-map, All-take, sorted-All, All-zip, length-take,
}
use fund_lok.Db.{Holding}
use fund_lok.Apportion.{
  Floors, floors_from, no_floors, ordered, by_id, by_remainder, final_shares, base_share, remainder,
  total_principal, sorted, take, get_or, sum_by,
}
use fund_lok.Apportion.Rounding.{
  HasUniqueIds, HasUniqueIds-sorted, occurrences, floor_sum-floors_from, HasFloor, occurrences-take,
  floors_and_remainders, get_or-add_leftover, remainders-lt, shares-floors_from, sum_by-congr,
  floor_le, HasUniqueIds-HasNoRepeat, sum_by-add, left_lt, count_pairs, some_holding, sum_by-one,
}

module _ (amount : ℕ) (holdings : List Holding) where
  abbrev pub floors : Floors
  floors = floors_from (total_principal holdings) amount no_floors (ordered holdings)

  -- What the floors leave, and the holdings that get one unit of it each.
  abbrev pub leftover : ℕ
  leftover = amount - floors.floor_sum

  abbrev pub by_largest_remainder : List Holding
  by_largest_remainder = sorted (by_remainder floors.remainders) (ordered holdings)

  abbrev pub rewarded : List Holding
  rewarded = take leftover by_largest_remainder

  abbrev pub final_share : Holding → ℕ
  final_share h = get_or (final_shares amount holdings) h.id 0

  -- The floors do not pass the amount, and leave less than one unit per holding.
  leftover_bounds :
      0 < total_principal holdings → (floors.floor_sum ≤ amount) × (leftover < length holdings)
  unfolding ordered
  leftover_bounds positive =
      let total = total_principal holdings in
      let same_total : total_principal (ordered holdings) ≡ total =
        sum_by-sorted by_id (λ (h : Holding). h.principal) holdings in
      let same_length : length (ordered holdings) ≡ length holdings =
        length-sorted by_id holdings in
      let floor_sum : floors.floor_sum ≡ 0 + sum_by (base_share total amount) (ordered holdings) =
        floor_sum-floors_from total amount no_floors (ordered holdings) in
      let parts : total * sum_by (base_share total amount) (ordered holdings)
            + sum_by (remainder total amount) (ordered holdings)
          ≡ total * amount =
        floors_and_remainders total amount (ordered holdings) ∙ grind (arith, same_total) in
      let small = remainders-lt total amount (ordered holdings) positive in
      (
        omega (arith, floor_sum, floor_le total _ _ amount positive parts),
        omega (
          arith,
          floor_sum,
          same_length,
          left_lt total _ _ amount (length (ordered holdings)) positive
              (omega (arith, same_length, some_holding holdings positive)) parts small,
        ),
      )

  module _ (unique : HasUniqueIds holdings) where
    pub ordered_unique : HasUniqueIds (ordered holdings)
    unfolding ordered
    ordered_unique = HasUniqueIds-sorted by_id holdings unique

    -- Each holding gets the floor of its exact entitlement, and one unit more if it is rewarded.
    pub final_shares_lem :
        All
          (λ (h : Holding).
            final_share h
            ≡ base_share (total_principal holdings) amount h + occurrences h.id rewarded)
          (ordered holdings)
    unfolding final_shares
    final_shares_lem =
        All-map
          (λ (h : Holding) (p : HasFloor (total_principal holdings) amount floors.shares h).
            get_or-add_leftover floors.shares rewarded h.id ∙ rw p)
          (ordered holdings)
          (shares-floors_from (total_principal holdings) amount no_floors (ordered holdings)
            (HasUniqueIds-HasNoRepeat (ordered holdings) ordered_unique))

    pub length-by_largest_remainder : length by_largest_remainder ≡ length holdings
    unfolding ordered
    length-by_largest_remainder =
        length-sorted (by_remainder floors.remainders) (ordered holdings)
        ∙ length-sorted by_id holdings

    -- With holdings of distinct ids and a positive total principal the shares add up to the
    -- whole amount.
    pub final_shares_exact :
        0 < total_principal holdings → sum_by final_share (ordered holdings) ≡ amount
    final_shares_exact positive =
        let total = total_principal holdings in
        let (fits, few) = leftover_bounds positive in
        let shares =
          sum_by-congr final_share _ (ordered holdings) final_shares_lem
          ∙ sum_by-add (base_share total amount) (λ (h : Holding). occurrences h.id rewarded)
              (ordered holdings) in
        let pairs = count_pairs (ordered holdings) rewarded in
        let once =
          sum_by-one (λ (t : Holding). occurrences t.id (ordered holdings)) rewarded
            rewarded_once in
        let taken = length-take leftover by_largest_remainder enough in
        omega (
          arith,
          shares,
          pairs,
          once,
          taken,
          fits,
          floor_sum-floors_from total amount no_floors (ordered holdings),
        )
      where
        rewarded_once : All (λ (t : Holding). occurrences t.id (ordered holdings) ≡ 1) rewarded
        rewarded_once =
            All-take _ leftover by_largest_remainder
              (sorted-All (by_remainder floors.remainders) _ (ordered holdings) ordered_unique)

        enough : leftover ≤ length by_largest_remainder
        enough = omega (arith, (leftover_bounds positive).1, length-by_largest_remainder)

    -- With holdings of distinct ids no share is more than one unit above the floor of the
    -- exact entitlement, and none below it.
    pub final_shares_quota :
        All
          (λ (h : Holding).
            (base_share (total_principal holdings) amount h ≤ final_share h)
            × (final_share h ≤ base_share (total_principal holdings) amount h + 1))
          (ordered holdings)
    final_shares_quota =
        All-map
          (λ (h : Holding)
              (p : (final_share h
                  ≡ base_share (total_principal holdings) amount h + occurrences h.id rewarded)
                × (occurrences h.id (ordered holdings) ≡ 1)).
            let once : occurrences h.id rewarded ≤ 1 = omega (
              arith,
              p,
              occurrences-take h.id leftover by_largest_remainder,
              sum_by-sorted (by_remainder floors.remainders)
                  (λ (t : Holding). if t.id == h.id then 1 else 0) (ordered holdings),
            ) in
            (omega arith, omega arith))
          (ordered holdings) (All-zip _ _ (ordered holdings) final_shares_lem ordered_unique)
