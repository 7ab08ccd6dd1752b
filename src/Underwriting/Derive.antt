-- ===== src/Underwriting/Derive.antt =====
-- app/underwriting/grading/derive.py. The months are those of an application that misses none.
use fund_lok.Prelude.{ℕ, zero, suc, String, Option, none, some, List, [], ◌∷◌, pos, take, drop}
use fund_lok.Db.{Result, ok, value_error}
use fund_lok.Underwriting.Numbers.{Numbers, ◌>>=◌, ◌>>◌, refuse_if, best}
use fund_lok.Underwriting.Types.{GradingInput}

-- `monthly_revenue[12:24]`
abbrev pub trailing_of : {A : Type 0} → List A → List A
trailing_of monthly = take 12 (drop 12 monthly)

module _ {F D : Type 0} (n : Numbers F D) where
  abbrev pub sum_dec : D → List D → D
  sum_dec acc [] = acc
  sum_dec acc (x ∷ xs) = sum_dec (n.add_dec acc x) xs

  unfoldable pub revenue_y1_decimal : List D → D
  revenue_y1_decimal monthly = sum_dec (n.decimal (pos 0)) (trailing_of monthly)

  unfoldable pub total_cost_decimal : GradingInput F D → D
  total_cost_decimal inputs =
      n.add_dec (n.add_dec inputs.cogs_y1 inputs.fixed_cost_y1) inputs.variable_cost_excl_cogs_y1

  unfoldable pub min_trailing_twelve_decimal : List D → Result D
  min_trailing_twelve_decimal monthly = best n.lt_dec (trailing_of monthly)

  abbrev pub floats_of : List D → List F
  floats_of [] = []
  floats_of (x ∷ xs) = n.to_float x ∷ floats_of xs

  -- The growth of a window of three months over the same one a year before.
  abbrev pub growth : List F → List F → Result F
  growth recent prior = n.div (n.sub (n.total recent) (n.total prior)) (n.total prior)

  -- The growths of the `count` windows from the heads of the two years.
  unfoldable pub windows : ℕ → List F → List F → Result (List F)
  windows zero trailing leading = ok []
  windows (suc count) trailing leading = do
    g ← growth (take 3 trailing) (take 3 leading)
    rest ← windows count (drop 1 trailing) (drop 1 leading)
    ok (g ∷ rest)

  unfoldable pub revenue_to_industry : Option F → Option F → Option F → Option F
  revenue_to_industry (some crr) (some rri) (some tcp) = some (
      n.add (n.add (n.mul (n.literal 5 1) crr) (n.mul (n.literal 3 1) rri))
        (n.mul (n.literal 2 1) tcp))
  revenue_to_industry none rri tcp = none
  revenue_to_industry (some crr) none tcp = none
  revenue_to_industry (some crr) (some rri) none = none

  -- `a / b * 100.0`
  abbrev pub percent_of : F → F → Result F
  percent_of a b = do q ← n.div a b; ok (n.mul q (n.literal 100 0))

  unfoldable pub compute_derived : GradingInput F D → List D → Result (List (String × Option F))
  unfolding revenue_y1_decimal total_cost_decimal windows revenue_to_industry
  compute_derived inputs monthly = do
    let trailing = floats_of (trailing_of monthly)
    let leading = floats_of (take 12 monthly)
    let revenue_y1 = n.to_float (revenue_y1_decimal monthly)
    avg_monthly_revenue ← n.div revenue_y1 (n.literal 12 0)
    let total_cost = n.to_float (total_cost_decimal inputs)
    avg_monthly_cost ← n.div total_cost (n.literal 12 0)
    let profit = n.sub revenue_y1 total_cost
    let cogs = n.to_float inputs.cogs_y1
    let variable_excl_cogs = n.to_float inputs.variable_cost_excl_cogs_y1
    gross_margin_pct ← percent_of (n.sub revenue_y1 cogs) revenue_y1
    contribution_margin_pct ←
        percent_of (n.sub (n.sub revenue_y1 variable_excl_cogs) cogs) revenue_y1
    operating_margin_pct ← percent_of (n.sub revenue_y1 total_cost) revenue_y1
    cost_flexibility_pct ← percent_of (n.add cogs variable_excl_cogs) total_cost
    let duration_months = n.of_int (pos inputs.duration_months)
    let loan_size = n.to_float inputs.loan_size_vnd
    loan_revenue_ratio ← n.div loan_size (n.mul avg_monthly_revenue duration_months)
    refuse_if (n.le profit (n.literal 0 0)) value_error
    scsr_ratio ←
        n.div loan_size (n.mul (n.sub avg_monthly_revenue avg_monthly_cost) duration_months)
    revenue_volatility_cv ← n.div (n.pstdev trailing) (n.mean trailing)
    growths ← windows 10 trailing leading
    most ← best (λ y x. n.lt x y) trailing
    least ← best n.lt trailing
    seasonality_ratio ← n.div most least
    ok (
        ("revenue_y1", some revenue_y1)
        ∷ ("avg_monthly_revenue", some avg_monthly_revenue)
        ∷ ("total_cost", some total_cost)
        ∷ ("avg_monthly_cost", some avg_monthly_cost)
        ∷ ("profit", some profit)
        ∷ ("gross_margin_pct", some gross_margin_pct)
        ∷ ("contribution_margin_pct", some contribution_margin_pct)
        ∷ ("operating_margin_pct", some operating_margin_pct)
        ∷ ("cost_flexibility_pct", some cost_flexibility_pct)
        ∷ ("loan_revenue_ratio", some loan_revenue_ratio)
        ∷ ("scsr_ratio", some scsr_ratio)
        ∷ ("revenue_volatility_cv", some revenue_volatility_cv)
        ∷ ("revenue_trend_decimal", some (n.mean growths))
        ∷ ("seasonality_ratio", some seasonality_ratio)
        ∷ ("rti", revenue_to_industry inputs.crr inputs.rri inputs.tcp)
        ∷ [])
