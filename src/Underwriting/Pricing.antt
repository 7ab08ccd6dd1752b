-- ===== src/Underwriting/Pricing.antt =====
-- app/underwriting/grading/rollup.py and app/underwriting/grading/pricing.py.
use fund_lok.Prelude.{ℕ, String, Option, none, some, List, [], ◌∷◌, if◌then◌else◌, pos}
use fund_lok.Db.{Result, ok, value_error, key_error}
use fund_lok.Underwriting.Numbers.{
  Numbers, ◌>>=◌, ◌>>◌, refuse_if, get_text, put_text, or_raise, get_value,
}
use fund_lok.Underwriting.Types.{GroupWeights, ParamSet}

pub record PricingResult (F D : Type 0) : Type 0 where
  pub interest_rate_pct : F
  pub target_payment_vnd : D
  pub target_daily_vnd : D
  pub avg_daily_revenue_vnd : D
  pub daily_repayment_rate : F

-- The two sums over the factors that are there.
pub record Weighted (F : Type 0) : Type 0 where
  pub weighted_sum : F
  pub weight_present : F

module _ {F : Type 0} where
  abbrev weights_of : List (String × F) → List F
  weights_of [] = []
  weights_of ((key, weight) ∷ core) = weight ∷ weights_of core

module _ {F D : Type 0} (n : Numbers F D) where
  abbrev pub weigh_one : F → Option F → Weighted F → Weighted F
  weigh_one weight none w = w
  weigh_one weight (some score) w = record {
    weighted_sum = n.add w.weighted_sum (n.mul weight score);
    weight_present = n.add w.weight_present weight;
  }

  unfoldable pub weigh : List (String × F) → List (String × Option F) → Weighted F → Weighted F
  weigh [] scores w = w
  weigh ((key, weight) ∷ core) scores w =
      weigh core scores (weigh_one weight (get_value key scores) w)

  abbrev pub add_one : F → F → Option F → F
  add_one premium weight none = premium
  add_one premium weight (some score) = n.add premium (n.mul weight score)

  unfoldable pub add_bonus : List (String × F) → List (String × Option F) → F → F
  add_bonus [] scores premium = premium
  add_bonus ((key, weight) ∷ bonus) scores premium =
      add_bonus bonus scores (add_one premium weight (get_value key scores))

  unfoldable pub core_premium : Weighted F → F → Result F
  core_premium w total_core_weight =
      if n.same w.weight_present (n.literal 0 0)
      then ok (n.literal 0 0)
      else if n.same w.weight_present total_core_weight
      then ok w.weighted_sum
      else do q ← n.div w.weighted_sum w.weight_present; ok (n.mul q total_core_weight)

  unfoldable pub compute_group_premium : GroupWeights F → List (String × Option F) → Result F
  unfolding weigh core_premium add_bonus
  compute_group_premium group scores = do
    premium ←
        core_premium
          (weigh group.core scores
            (record { weighted_sum = n.literal 0 0; weight_present = n.literal 0 0 }))
          (n.total (weights_of group.core))
    ok (add_bonus group.bonus scores premium)

  unfoldable pub premiums_of :
      List (String × GroupWeights F)
      → List (String × Option F)
      → List (String × F)
      → Result (List (String × F))
  unfolding compute_group_premium
  premiums_of [] scores premiums = ok premiums
  premiums_of ((name, group) ∷ groups) scores premiums = do
    premium ← compute_group_premium group scores
    refuse_if (n.lt (n.literal 100 0) premium) value_error
    premiums_of groups scores (put_text name premium premiums)

  unfoldable pub grade_terms : List (String × F) → List (String × F) → Result (List F)
  grade_terms [] premiums = ok []
  grade_terms ((name, weight) ∷ weights) premiums = do
    premium ← or_raise key_error (get_text name premiums)
    rest ← grade_terms weights premiums
    ok (n.mul weight premium ∷ rest)

  unfoldable pub compute_rollup :
      ParamSet F → List (String × Option F) → Result (List (String × F) × F)
  unfolding premiums_of grade_terms
  compute_rollup params scores = do
    premiums ← premiums_of params.rollup scores []
    terms ← grade_terms params.final_grade premiums
    ok (premiums, n.total terms)

  -- `min(cap, bank + (cap - bank) * (100.0 - grade) / 100.0)`
  unfoldable pub interest_rate : F → F → F → Result F
  interest_rate cap bank grade = do
    spread ← n.div (n.mul (n.sub cap bank) (n.sub (n.literal 100 0) grade)) (n.literal 100 0)
    ok (if n.lt (n.add bank spread) cap then n.add bank spread else cap)

  unfoldable pub price : F → F → D → ℕ → D → ParamSet F → Result (PricingResult F D)
  unfolding interest_rate
  price final_grade bank_rate_pct loan_size_vnd duration_months revenue_y1_vnd params = do
    refuse_if (n.le params.rate_cap_pct bank_rate_pct) value_error
    rate ← interest_rate params.rate_cap_pct bank_rate_pct final_grade
    rate_fraction ← n.div_dec (n.decimal_of rate) (n.decimal (pos 100))
    let duration = n.decimal (pos duration_months)
    years ← n.div_dec (n.mul_dec rate_fraction duration) (n.decimal (pos 12))
    let target_payment = n.mul_dec loan_size_vnd (n.add_dec (n.decimal (pos 1)) years)
    target_daily ←
        n.div_dec target_payment (n.mul_dec duration (n.decimal_of params.working_days_per_month))
    avg_daily ← n.div_dec revenue_y1_vnd (n.decimal_of params.working_days_per_year)
    daily_rate ← n.div_dec target_daily avg_daily
    ok (record {
      interest_rate_pct = rate;
      target_payment_vnd = target_payment;
      target_daily_vnd = target_daily;
      avg_daily_revenue_vnd = avg_daily;
      daily_repayment_rate = n.to_float daily_rate;
    })
