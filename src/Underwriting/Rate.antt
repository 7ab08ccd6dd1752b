-- ===== src/Underwriting/Rate.antt =====
-- The interest rate of a price (app/underwriting/grading/pricing.py).
use fund_lok.Prelude.{
  ℕ, ◌≡◌, refl, sym, ap, ◌∙◌, subst, inl, inr, Bool, true, false, arith, if◌then◌else◌, pos,
  Bool-cases,
}
use fund_lok.Db.{ok, value_error}
use fund_lok.Underwriting.Numbers.{Numbers, refuse_if, bind_ok, ok_injective, refuse_ok}
use fund_lok.Underwriting.Types.{ParamSet}
use fund_lok.Underwriting.Pricing.{PricingResult, interest_rate, price}

module _ {F D : Type 0} (n : Numbers F D) where
  abbrev pub IsPercent : F → Type 0
  IsPercent x = (n.le (n.literal 0 0) x ≡ true) × (n.le x (n.literal 100 0) ≡ true)

-- How floats between 0 and 100 are computed with: each operation rounds, and keeps the order.
pub record IsMonotone {F D : Type 0} (n : Numbers F D) : Type 0 where
  pub hundred : IsPercent n (n.literal 100 0)
  pub not_le : (a b : F) → IsPercent n a → IsPercent n b → n.le a b ≡ false → n.le b a ≡ true
  pub le_of_lt : (a b : F) → n.lt a b ≡ true → n.le a b ≡ true
  pub refl_of_le : (a b : F) → n.le a b ≡ true → n.le b b ≡ true
  pub lt_of_le : (a b c : F) → n.le a b ≡ true → n.lt b c ≡ true → n.lt a c ≡ true
  pub sub_percent :
      (a b : F) → IsPercent n a → IsPercent n b → n.le a b ≡ true → IsPercent n (n.sub b a)
  pub sub_anti :
      (a b c : F)
      → IsPercent n a
      → IsPercent n b
      → IsPercent n c
      → n.le a b ≡ true
      → n.le (n.sub c b) (n.sub c a) ≡ true
  pub share :
      (a b : F)
      → IsPercent n a
      → IsPercent n b
      → (q : F) × (n.div (n.mul a b) (n.literal 100 0) ≡ ok q) × (IsPercent n q)
  pub share_mono :
      (a b c q r : F)
      → IsPercent n a
      → IsPercent n b
      → IsPercent n c
      → n.le b c ≡ true
      → n.div (n.mul a b) (n.literal 100 0) ≡ ok q
      → n.div (n.mul a c) (n.literal 100 0) ≡ ok r
      → n.le q r ≡ true
  pub add_percent : (a b : F) → IsPercent n a → IsPercent n b → n.le a (n.add a b) ≡ true
  pub add_mono :
      (a b c : F)
      → IsPercent n a
      → IsPercent n b
      → IsPercent n c
      → n.le b c ≡ true
      → n.le (n.add a b) (n.add a c) ≡ true

module _ {F D : Type 0} (n : Numbers F D) (laws : IsMonotone n) (cap bank : F)
    (is_cap : IsPercent n cap) (is_bank : IsPercent n bank) (below : n.le bank cap ≡ true) where
  abbrev capped : F → F
  capped x = if n.lt x cap then x else cap

  capped_le : (x : F) → n.le (capped x) cap ≡ true
  capped_le x = elim (Bool-cases (n.lt x cap)) [
    | inl less ↦ rw less (laws.le_of_lt x cap less)
    | inr more ↦ rw more (laws.refl_of_le bank cap below)
  ]

  capped_ge : (x : F) → n.le bank x ≡ true → n.le bank (capped x) ≡ true
  capped_ge x h = elim (Bool-cases (n.lt x cap)) [ inl less ↦ rw less h | inr more ↦ rw more below ]

  capped_mono : (x y : F) → n.le x y ≡ true → n.le (capped x) (capped y) ≡ true
  capped_mono x y h = elim (Bool-cases (n.lt x cap)) [
    | inl less ↦ elim (Bool-cases (n.lt y cap)) [
      | inl less' ↦ rw (less, less') h
      | inr more' ↦ rw (less, more') (laws.le_of_lt x cap less)
    ]
    | inr more ↦ elim (Bool-cases (n.lt y cap)) [
      | inl less' ↦ absurd (true-ne-false (sym (laws.lt_of_le x y cap h less') ∙ more))
      | inr more' ↦ rw (more, more') (laws.refl_of_le bank cap below)
    ]
  ]
    where
      true-ne-false : ◌≡◌ {A = Bool} true false → ⊥
      true-ne-false h = ground arith

  -- The rate of a grade, as the bank's rate and a share of the rest.
  interest_rate_lem :
      (grade : F)
      → IsPercent n grade
      → (spread : F) × (n.div
            (n.mul (n.sub cap bank) (n.sub (n.literal 100 0) grade))
            (n.literal 100 0)
          ≡ ok spread)
        × (IsPercent n spread)
        × (interest_rate n cap bank grade ≡ ok (capped (n.add bank spread)))
  unfolding interest_rate
  interest_rate_lem grade is_grade =
      let rest = laws.sub_percent bank cap is_bank is_cap below in
      let missing = laws.sub_percent grade (n.literal 100 0) is_grade laws.hundred is_grade.1 in
      let (spread, made, small) =
        laws.share (n.sub cap bank) (n.sub (n.literal 100 0) grade) rest missing in
      (spread, made, small, rw made refl)

  interest_rate_mono :
      (grade better rate lower : F)
      → IsPercent n grade
      → IsPercent n better
      → n.le grade better ≡ true
      → interest_rate n cap bank grade ≡ ok rate
      → interest_rate n cap bank better ≡ ok lower
      → (n.le bank lower ≡ true) × (n.le lower rate ≡ true) × (n.le rate cap ≡ true)
  interest_rate_mono grade better rate lower is_grade is_better le made made' =
      let (spread, d, p, e) = interest_rate_lem grade is_grade in
      let (spread', d', p', e') = interest_rate_lem better is_better in
      let same = ok_injective (capped (n.add bank spread)) rate (sym e ∙ made) in
      let same' = ok_injective (capped (n.add bank spread')) lower (sym e' ∙ made') in
      let rest = laws.sub_percent bank cap is_bank is_cap below in
      let falls =
        laws.share_mono (n.sub cap bank) (n.sub (n.literal 100 0) better)
          (n.sub (n.literal 100 0) grade) spread' spread rest
          (laws.sub_percent better (n.literal 100 0) is_better laws.hundred is_better.1)
          (laws.sub_percent grade (n.literal 100 0) is_grade laws.hundred is_grade.1)
          (laws.sub_anti grade better (n.literal 100 0) is_grade is_better laws.hundred le) d' d in
      (
        subst (λ x. n.le bank x ≡ true) same'
            (capped_ge (n.add bank spread') (laws.add_percent bank spread' is_bank p')),
        subst (λ x. n.le x rate ≡ true) same'
            (subst (λ x. n.le (capped (n.add bank spread')) x ≡ true) same
              (capped_mono (n.add bank spread') (n.add bank spread)
                (laws.add_mono bank spread' spread is_bank p' p falls))),
        subst (λ x. n.le x cap ≡ true) same (capped_le (n.add bank spread)),
      )

price_rate :
    {F D : Type 0} (n : Numbers F D) (grade bank : F) (loan : D) (months : ℕ) (revenue : D)
    (params : ParamSet F) (r : PricingResult F D)
    → price n grade bank loan months revenue params ≡ ok r
    → (n.le params.rate_cap_pct bank ≡ false)
      × (interest_rate n params.rate_cap_pct bank grade ≡ ok r.interest_rate_pct)
unfolding price
price_rate n grade bank loan months revenue params r done =
    let (_, passed, rest1) =
      bind_ok (refuse_if (n.le params.rate_cap_pct bank) value_error) _ r done in
    let (rate, made, rest2) = bind_ok (interest_rate n params.rate_cap_pct bank grade) _ r rest1 in
    let (fraction, d1, rest3) =
      bind_ok (n.div_dec (n.decimal_of rate) (n.decimal (pos 100))) _ r rest2 in
    let (years, d2, rest4) = bind_ok (n.div_dec _ _) _ r rest3 in
    let (daily, d3, rest5) = bind_ok (n.div_dec _ _) _ r rest4 in
    let (average, d4, rest6) = bind_ok (n.div_dec _ _) _ r rest5 in
    let (share, d5, rest7) = bind_ok (n.div_dec _ _) _ r rest6 in
    (
      refuse_ok (n.le params.rate_cap_pct bank) value_error passed,
      made ∙ ap (λ (x : PricingResult _ _). ok x.interest_rate_pct) (ok_injective _ r rest7),
    )

-- Two prices at the same bank rate: that of the better grade has the lower rate or the same, and
-- both rates lie between the bank's and the cap, for grades, a bank rate and a cap between 0 and
-- 100 and floats that keep the order there.
pub price_monotone :
    {F D : Type 0} (n : Numbers F D) (params : ParamSet F) (bank grade better : F) (loan loan' : D)
    (months months' : ℕ) (revenue revenue' : D) (r r' : PricingResult F D)
    → IsMonotone n
    → IsPercent n params.rate_cap_pct
    → IsPercent n bank
    → IsPercent n grade
    → IsPercent n better
    → n.le grade better ≡ true
    → price n grade bank loan months revenue params ≡ ok r
    → price n better bank loan' months' revenue' params ≡ ok r'
    → (n.le bank r'.interest_rate_pct ≡ true)
      × (n.le r'.interest_rate_pct r.interest_rate_pct ≡ true)
      × (n.le r.interest_rate_pct params.rate_cap_pct ≡ true)
price_monotone n params bank grade better loan loan' months months' revenue revenue' r r' laws
      is_cap is_bank is_grade is_better le done done' =
    let (open_cap, made) = price_rate n grade bank loan months revenue params r done in
    let (_, made') = price_rate n better bank loan' months' revenue' params r' done' in
    interest_rate_mono n laws params.rate_cap_pct bank is_cap is_bank
      (laws.not_le params.rate_cap_pct bank is_cap is_bank open_cap) grade better
      r.interest_rate_pct r'.interest_rate_pct is_grade is_better le made made'
