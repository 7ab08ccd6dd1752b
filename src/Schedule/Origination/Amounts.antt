-- ===== src/Schedule/Origination/Amounts.antt =====
-- What `compute_origination` and `originate_facility` (app/repayment_schedule/origination.py)
-- promise on amounts and days.
use fund_lok.Prelude.{
  ℕ, zero, suc, ◌+◌, ◌-◌, ◌*◌, ◌/◌, ◌%◌, ◌≤◌, ◌<◌, ◌≡◌, refl, ap, ◌∙◌, Bool, true, false, not, List,
  [], ◌∷◌, arith, ◌==◌, if◌then◌else◌, length, ℤ, pos, leb_ℤ, pos_part, sum_by,
}
use native.Mathlib.Nat.{div-add-mod', mod-lt}
use fund_lok.Decimals.{Decimal, is_negative, is_above, fits_context}
use fund_lok.Schedule.Facility.{ScheduledPayment}
use fund_lok.Schedule.Calendar.{Checked, good, bad, ◌>>=◌, ◌>>◌, reject_if, ScheduleError}
use fund_lok.Schedule.Origination.{
  compute_backstop_day_index, OriginationResult, interest_of, day_count, result_of,
  compute_origination, payments_from,
}

module _ {A B : Type 0} where
  pub bind_good :
      (m : Checked A) (f : A → Checked B) (b : B)
      → (m >>= f) ≡ good b
      → (a : A) × (m ≡ good a) × (f a ≡ good b)
  bind_good (good a) f b h = (a, refl, h)
  bind_good (bad e) f b h = absurd (cc)

pub reject_good :
    {B : Type 0} (c : Bool) (e : ScheduleError) (k : Checked B) (b : B)
    → (reject_if c e >> k) ≡ good b
    → (c ≡ false) × (k ≡ good b)
reject_good true e k b h = absurd (cc)
reject_good false e k b h = (refl, h)

pub good_injective : {B : Type 0} (a b : B) → good a ≡ good b → a ≡ b
good_injective a b h = cc

-- The arguments that `compute_origination` accepts.
pub record IsAccepted (principal : ℤ) (rate : Decimal) (term working_days : ℤ) : Type 0 where
  pub principal_positive : leb_ℤ principal (pos 0) ≡ false
  pub term_positive : leb_ℤ term (pos 0) ≡ false
  pub rate_not_negative : is_negative rate ≡ false
  pub rate_in_cap : is_above rate 20 ≡ false
  pub interest_fits :
      not (fits_context (interest_of (pos_part principal) rate (pos_part term))) ≡ false
  pub days_positive : leb_ℤ (day_count (pos_part term) working_days) (pos 0) ≡ false

-- The call's result.
abbrev pub computed : ℤ → Decimal → ℤ → ℤ → OriginationResult
computed principal rate term working_days =
    result_of (pos_part principal) rate (pos_part term) (pos_part working_days)
      (interest_of (pos_part principal) rate (pos_part term))
      (pos_part (day_count (pos_part term) working_days))

pub compute_origination_inv :
    (principal : ℤ) (rate : Decimal) (term working_days : ℤ) (r : OriginationResult)
    → compute_origination principal rate term working_days ≡ good r
    → IsAccepted principal rate term working_days × (computed principal rate term working_days ≡ r)
unfolding compute_origination
compute_origination_inv principal rate term working_days r h =
    let (h1, k1) = reject_good _ _ _ r h in
    let (h2, k2) = reject_good _ _ _ r k1 in
    let (h3, k3) = reject_good _ _ _ r k2 in
    let (h4, k4) = reject_good _ _ _ r k3 in
    let (h5, k5) = reject_good _ _ _ r k4 in
    let (h6, k6) = reject_good _ _ _ r k5 in
    (
      record {
        principal_positive = h1;
        term_positive = h2;
        rate_not_negative = h3;
        rate_in_cap = h4;
        interest_fits = h5;
        days_positive = h6;
      },
      good_injective _ r k6,
    )

positive_part : (z : ℤ) → leb_ℤ z (pos 0) ≡ false → (0 < pos_part z) × (pos (pos_part z) ≡ z)
positive_part z h = (ground arith, ground arith)

last_apart : (q m r total : ℕ) → q * suc m + r ≡ total → q * (suc m - 1) + (q + r) ≡ total
last_apart q m r total h = ground arith

-- What holds of the amounts of a result.
pub record IsExact (r : OriginationResult) : Type 0 where
  pub count_positive : 0 < r.business_day_count
  pub obligation : r.total_obligation_vnd ≡ r.principal_vnd + r.interest_vnd
  pub instalments :
      r.daily_amount_vnd * (r.business_day_count - 1) + r.final_instalment_vnd
      ≡ r.total_obligation_vnd
  pub final : r.final_instalment_vnd ≡ r.daily_amount_vnd + r.remainder_vnd
  pub remainder_small : r.remainder_vnd < r.business_day_count

instalments_exact : (total n : ℕ) → 0 < n → total / n * (n - 1) + (total / n + total % n) ≡ total
instalments_exact total zero h = absurd (omega arith)
instalments_exact total (suc m) h =
    last_apart (total / suc m) m _ total (div-add-mod' total (suc m))

-- A result of `compute_origination` is for the given principal, rate and term, its total is the
-- principal and the interest, and the daily amounts and the final instalment add up to the total
-- exactly, with a remainder below the number of days, of which there is at least one.
pub compute_origination-IsExact :
    (principal : ℤ) (rate : Decimal) (term working_days : ℤ) (r : OriginationResult)
    → compute_origination principal rate term working_days ≡ good r
    → (pos r.principal_vnd ≡ principal)
      × (r.annual_rate_pct ≡ rate)
      × (pos r.contractual_term_months ≡ term)
      × IsExact r
unfolding result_of
compute_origination-IsExact principal rate term working_days r h =
    let (ok, same) = compute_origination_inv principal rate term working_days r h in
    let positive : 0 < pos_part (day_count (pos_part term) working_days) =
      (positive_part (day_count (pos_part term) working_days) ok.days_positive).0 in
    rw (← same) (
      (positive_part principal ok.principal_positive).1,
      refl,
      (positive_part term ok.term_positive).1,
      record {
        count_positive = positive;
        obligation = refl;
        instalments = instalments_exact _ _ positive;
        final = refl;
        remainder_small = mod-lt _ positive;
      },
    )

abbrev pub expected : List ScheduledPayment → ℕ
expected payments = sum_by (λ (p : ScheduledPayment). p.expected_amount_vnd) payments

amount_last : (i n a b : ℕ) → i ≡ n → (if i == n then a else b) ≡ a
amount_last i n a b h = ground arith

amount_other : (i n a b : ℕ) → i < n → (if i == n then a else b) ≡ b
amount_other i n a b h = ground arith

one_more : (a k f rest : ℕ) → rest ≡ a * k + f → a + rest ≡ a * suc k + f
one_more a k f rest h = ground arith

-- From day `i` on, with `k + 1` days left, the last of them being the final one.
expected-payments_from :
    (r : OriginationResult) (i k d : ℕ) (dates : List ℕ)
    → length dates ≡ k
    → i + k ≡ r.business_day_count
    → expected (payments_from r i (d ∷ dates)) ≡ r.daily_amount_vnd * k + r.final_instalment_vnd
unfolding payments_from
expected-payments_from r i zero d [] h e =
    rw (amount_last i r.business_day_count r.final_instalment_vnd r.daily_amount_vnd (omega arith))
      (omega arith)
expected-payments_from r i (suc k) d [] h e = absurd (omega arith)
expected-payments_from r i zero d (d' ∷ dates) h e = absurd (omega arith)
expected-payments_from r i (suc k) d (d' ∷ dates) h e =
    rw (amount_other i r.business_day_count r.final_instalment_vnd r.daily_amount_vnd (omega arith))
      (one_more r.daily_amount_vnd k r.final_instalment_vnd _
        (expected-payments_from r (suc i) k d' dates (omega arith) (omega arith)))

pub payments_total :
    (r : OriginationResult) (dates : List ℕ)
    → IsExact r
    → length dates ≡ r.business_day_count
    → expected (payments_from r 1 dates) ≡ r.total_obligation_vnd
payments_total r [] exact h = absurd (let positive = exact.count_positive in omega arith)
payments_total r (d ∷ dates) exact h =
    expected-payments_from r 1 (r.business_day_count - 1) d dates (omega arith)
      (let positive = exact.count_positive in omega arith)
    ∙ exact.instalments

-- The days that the payments fall on.
abbrev pub dates_of : List ScheduledPayment → List ℕ
dates_of [] = []
dates_of (p ∷ payments) = p.scheduled_date ∷ dates_of payments

-- The payments are numbered from `i` on.
abbrev pub IsNumbered : ℕ → List ScheduledPayment → Type 0
IsNumbered i [] = Unit
IsNumbered i (p ∷ payments) = (p.day_index ≡ i) × IsNumbered (suc i) payments

pub payments-IsNumbered :
    (r : OriginationResult) (i : ℕ) (dates : List ℕ)
    → (dates_of (payments_from r i dates) ≡ dates) × IsNumbered i (payments_from r i dates)
unfolding payments_from
payments-IsNumbered r i [] = (refl, tt)
payments-IsNumbered r i (d ∷ dates) =
    let (same, numbered) = payments-IsNumbered r (suc i) dates in
    (ap (λ ds. d ∷ ds) same, (refl, numbered))

-- The backstop is never past 24 months of working days nor past the proportional bound, which is
-- four thirds of the term rounded up, and for a term of at most 18 months it is not below it.
pub backstop_bounds :
    (count working_days : ℕ)
    → (compute_backstop_day_index count working_days ≤ 24 * working_days)
      × (3 * compute_backstop_day_index count working_days < 4 * count + 3)
      × (count ≤ 18 * working_days → 4 * count ≤ 3 * compute_backstop_day_index count working_days)
unfolding compute_backstop_day_index
backstop_bounds count working_days = (ground arith, ground arith, λ h. ground arith)
