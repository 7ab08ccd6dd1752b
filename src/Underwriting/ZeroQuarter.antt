-- ===== src/Underwriting/ZeroQuarter.antt =====
-- A prior year with three months of no revenue (app/underwriting/grading/derive.py).
use fund_lok.Prelude.{
  ℕ, zero, suc, ◌<◌, ◌≡◌, refl, sym, ap, ◌∙◌, subst, ◌⊎◌, inl, inr, false, some, List, [], ◌∷◌,
  arith, pos, take, drop,
}
use fund_lok.Db.{Result, ok, err, zero_division}
use fund_lok.Underwriting.Numbers.{Numbers, ◌>>=◌}
use fund_lok.Underwriting.Types.{GradingInput, ParamSet}
use fund_lok.Underwriting.Derive.{
  revenue_y1_decimal, total_cost_decimal, floats_of, growth, windows, percent_of, compute_derived,
}
use fund_lok.Underwriting.Engine.{validate_inputs, sufficient_months, grade_months, grade}

-- A division returns or raises ZeroDivisionError, as it does by zero; zeros add up to zero.
pub record IsDividing {F D : Type 0} (n : Numbers F D) : Type 0 where
  pub divides : (a b : F) → ((q : F) × (n.div a b ≡ ok q)) ⊎ (n.div a b ≡ err zero_division)
  pub by_zero : (a : F) → n.div a (n.literal 0 0) ≡ err zero_division
  pub total_zero : n.total (n.literal 0 0 ∷ n.literal 0 0 ∷ n.literal 0 0 ∷ []) ≡ n.literal 0 0
  pub zero_float : n.to_float (n.decimal (pos 0)) ≡ n.literal 0 0

-- Nothing but a return or a ZeroDivisionError.
abbrev Divides : {A : Type 0} → Result A → Type 0
Divides {A} m = ((a : A) × (m ≡ ok a)) ⊎ (m ≡ err zero_division)

fails_after :
    {A B : Type 0} (m : Result A) (f : A → Result B)
    → Divides m
    → ((a : A) → f a ≡ err zero_division)
    → (m >>= f) ≡ err zero_division
fails_after m f (inl (a, done)) later = rw done (later a)
fails_after m f (inr failed) later = rw failed refl

fails_at :
    {A B : Type 0} (m : Result A) (f : A → Result B)
    → m ≡ err zero_division
    → (m >>= f) ≡ err zero_division
fails_at m f failed = rw failed refl

take_three :
    {F D : Type 0} (n : Numbers F D) (c : ℕ) (xs : List D)
    → take c (floats_of n xs) ≡ floats_of n (take c xs)
take_three n zero xs = refl
take_three n (suc c) [] = refl
take_three n (suc c) (x ∷ xs) = rw (take_three n c xs) refl

drop-floats_of :
    {F D : Type 0} (n : Numbers F D) (k : ℕ) (xs : List D)
    → drop k (floats_of n xs) ≡ floats_of n (drop k xs)
drop-floats_of n zero xs = refl
drop-floats_of n (suc k) [] = refl
drop-floats_of n (suc k) (x ∷ xs) = drop-floats_of n k xs

module _ {F D : Type 0} (n : Numbers F D) where
  -- `profit`
  abbrev pub profit_of : GradingInput F D → List D → F
  profit_of inputs monthly =
      n.sub (n.to_float (revenue_y1_decimal n monthly)) (n.to_float (total_cost_decimal n inputs))

module _ {F D : Type 0} (n : Numbers F D) (laws : IsDividing n) where
  abbrev zeros : List F
  zeros = n.literal 0 0 ∷ n.literal 0 0 ∷ n.literal 0 0 ∷ []

  growth_zero :
      (recent prior : List F)
      → n.total prior ≡ n.literal 0 0
      → growth n recent prior ≡ err zero_division
  growth_zero recent prior h =
      subst (λ x. n.div (n.sub (n.total recent) x) x ≡ err zero_division) (sym h)
        (laws.by_zero (n.sub (n.total recent) (n.literal 0 0)))

  windows_zero :
      (count k : ℕ) (trailing leading : List F)
      → k < count
      → take 3 (drop k leading) ≡ zeros
      → windows n count trailing leading ≡ err zero_division
  unfolding windows
  windows_zero zero k trailing leading le h = absurd (omega arith)
  windows_zero (suc count) zero trailing leading le h =
      rw (growth_zero (take 3 trailing) (take 3 leading) (ap n.total h ∙ laws.total_zero)) refl
  windows_zero (suc count) (suc k) trailing [] le h = absurd (ground arith)
  windows_zero (suc count) (suc k) trailing (x ∷ leading) le h =
      fails_after (growth n (take 3 trailing) (take 3 (x ∷ leading))) _ (laws.divides _ _)
        λ g. rw (windows_zero count k (drop 1 trailing) leading (omega arith) h) refl

  percent-Divides : (a b : F) → Divides (percent_of n a b)
  percent-Divides a b = elim (laws.divides a b) [
    | inl (q, done) ↦ inl (n.mul q (n.literal 100 0), rw done refl)
    | inr failed ↦ inr (rw failed refl)
  ]

  compute_derived_zero :
      (inputs : GradingInput F D) (monthly : List D) (k : ℕ)
      → n.le (profit_of n inputs monthly) (n.literal 0 0) ≡ false
      → take 3 (drop k (floats_of n (take 12 monthly))) ≡ zeros
      → k < 10
      → compute_derived n inputs monthly ≡ err zero_division
  unfolding compute_derived
  compute_derived_zero inputs monthly k gain h le =
      fails_after _ _ (laws.divides _ _) λ avg_monthly_revenue.
        fails_after _ _ (laws.divides _ _) λ avg_monthly_cost.
          fails_after _ _ (percent-Divides _ _) λ gross_margin_pct.
            fails_after _ _ (percent-Divides _ _) λ contribution_margin_pct.
              fails_after _ _ (percent-Divides _ _) λ operating_margin_pct.
                fails_after _ _ (percent-Divides _ _) λ cost_flexibility_pct.
                  fails_after _ _ (laws.divides _ _) λ loan_revenue_ratio.
                    fails_after _ _ (inl (tt, rw gain refl)) λ passed.
                      fails_after _ _ (laws.divides _ _) λ scsr_ratio.
                        fails_after _ _ (laws.divides _ _)
                          λ revenue_volatility_cv. fails_at _ _ (windows_zero 10 k _ _ le h)

  zero_window :
      (k : ℕ) (monthly : List D)
      → take 3 (drop k (take 12 monthly))
        ≡ n.decimal (pos 0) ∷ n.decimal (pos 0) ∷ n.decimal (pos 0) ∷ []
      → take 3 (drop k (floats_of n (take 12 monthly))) ≡ zeros
  zero_window k monthly h =
      rw (drop-floats_of n k (take 12 monthly), take_three n 3 (drop k (take 12 monthly)), h)
        (ap (λ (z : F). z ∷ z ∷ z ∷ []) laws.zero_float)

-- An application with sufficient data and a profit, whose prior year has three months in a row
-- without revenue, is not graded: `grade` raises ZeroDivisionError, which is no ValueError.
pub grade_zero_quarter :
    {F D : Type 0} (n : Numbers F D) (inputs : GradingInput F D) (params : ParamSet F)
    (monthly : List D) (k : ℕ)
    → IsDividing n
    → validate_inputs n inputs params ≡ ok tt
    → sufficient_months n inputs ≡ ok (some monthly)
    → n.le (profit_of n inputs monthly) (n.literal 0 0) ≡ false
    → take 3 (drop k (take 12 monthly))
      ≡ n.decimal (pos 0) ∷ n.decimal (pos 0) ∷ n.decimal (pos 0) ∷ []
    → k < 10
    → grade n inputs params ≡ err zero_division
unfolding grade grade_months
grade_zero_quarter n inputs params monthly k laws valid enough gain h le =
    rw
      (
        valid,
        enough,
        compute_derived_zero n laws inputs monthly k gain (zero_window n laws k monthly h) le,
      )
      refl
