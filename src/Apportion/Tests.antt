-- ===== src/Apportion/Tests.antt =====
-- Sample holdings (app/payments/service.py), and the theorems on their split applied to them.
use fund_lok.Prelude.{
  ℕ, zero, suc, ◌+◌, ◌-◌, ◌*◌, ◌/◌, ◌%◌, ◌^◌, ◌≤◌, ◌<◌, String, text_eq, ◌≡◌, refl, sym, ap, ◌∙◌,
  subst, ◌≢◌, ◌↔◌, ◌⊎◌, inl, inr, Bool, true, false, not, ◌&&◌, ◌||◌, Option, none, some, List, [],
  ◌∷◌, ◌++◌, arith, ltb, leb, ◌==◌, if◌then◌else◌, opt_eq, truthy, length, select, find_first,
  any_of, all_of, All, ℤ, pos, negsuc, ◌+ℤ◌, ◌-ℤ◌, ◌≤ℤ◌, ltb_ℤ, leb_ℤ, eq_ℤ, int_laws, Bool-cases,
  Option-cases, drop,
}
use fund_lok.Db.{Holding}
use fund_lok.Apportion.{ordered, final_shares, sum_by}
use fund_lok.Apportion.Rounding.{HasUniqueIds}
use fund_lok.Apportion.Exact.{final_share, final_shares_exact}

abbrev holding : ℕ → ℕ → Holding
holding id principal = record {
  id = id;
  contract_id = 7;
  investor_id = 20 + id;
  order_id = none;
  principal = principal;
  share_ratio = none;
}

abbrev three : List Holding
three = holding 3 100 ∷ holding 1 100 ∷ holding 2 200 ∷ []

three_unique : HasUniqueIds three
three_unique = (refl, (refl, (refl, tt)))

-- 101 over 100, 100 and 200 leaves one unit after the floors, which holding 2 gets.
split_101 : final_shares 101 three ≡ (1, 25) ∷ (2, 51) ∷ (3, 25) ∷ []
unfolding final_shares fund_lok.Prelude.Sort.sorted
split_101 = refl

final_shares_exact_example : sum_by (final_share 101 three) (ordered three) ≡ 101
final_shares_exact_example = final_shares_exact 101 three three_unique (omega arith)
