-- ===== src/Schedule/Calendar/Scan.antt =====
-- What `generate_business_days` (app/repayment_schedule/calendar.py) returns: the business days of an
-- initial stretch of the calendar, as many as were asked for.
use fund_lok.Prelude.{
  ℕ, zero, suc, ◌+◌, ◌*◌, ◌≤◌, ◌<◌, ◌≡◌, refl, sym, ap, ◌∙◌, subst, ◌≢◌, inl, inr, Bool, true,
  false, List, [], ◌∷◌, ◌++◌, arith, ltb, if◌then◌else◌, length, ℤ, pos, leb_ℤ, Bool-cases, ltb→lt,
  length-append, pos_part,
}
use mathlib.Core.List.{append-nil, append_assoc}
use fund_lok.Schedule.Calendar.{
  BusinessDayCalendar, ScheduleError, missing_year, runaway_scan, add_if, good, bad, scan,
  is_business_day, is_open, year_is_known, year_of, generate_business_days, value_error, max_days,
}

-- The business days among the `k` days from `d` on.
abbrev pub days_in : BusinessDayCalendar → ℕ → ℕ → List ℕ
days_in cal d zero = []
days_in cal d (suc k) = let rest = days_in cal (suc d) k in if is_open cal d then d ∷ rest else rest

-- Every one of the `k` days from `d` on lies in a year that the holiday table has.
abbrev pub YearsKnown : BusinessDayCalendar → ℕ → ℕ → Type 0
YearsKnown cal d zero = Unit
YearsKnown cal d (suc k) = (year_is_known cal (year_of d) ≡ true) × YearsKnown cal (suc d) k

take_day-length :
    (b : Bool) (d : ℕ) (dates : List ℕ) (count : ℕ)
    → ltb (length dates) count ≡ true
    → length (add_if b d dates) ≤ count
take_day-length true d dates count h =
    let lt = ltb→lt (length dates) count h in omega (arith, length-append dates (d ∷ []))
take_day-length false d dates count h = let lt = ltb→lt (length dates) count h in omega arith

take_day-append :
    (b : Bool) (d : ℕ) (dates rest : List ℕ)
    → add_if b d dates ++ rest ≡ dates ++ (if b then d ∷ rest else rest)
take_day-append true d dates rest = append_assoc dates (d ∷ []) rest
take_day-append false d dates rest = refl

module _ (cal : BusinessDayCalendar) (count max fuel d scanned : ℕ) (dates : List ℕ) where
  scan-enough :
      ltb (length dates) count ≡ false → scan cal count max (suc fuel) d scanned dates ≡ good dates
  unfolding scan
  scan-enough h = rw (scan, h) refl

  scan-over :
      ltb (length dates) count ≡ true
      → ltb max scanned ≡ true
      → scan cal count max (suc fuel) d scanned dates ≡ bad runaway_scan
  unfolding scan
  scan-over h h' = rw (scan, h, h') refl

  scan-unknown :
      ltb (length dates) count ≡ true
      → ltb max scanned ≡ false
      → year_is_known cal (year_of d) ≡ false
      → scan cal count max (suc fuel) d scanned dates ≡ bad missing_year
  unfolding scan is_business_day
  scan-unknown h h' unknown = rw (scan, h, h', unknown) refl

  scan-next :
      ltb (length dates) count ≡ true
      → ltb max scanned ≡ false
      → year_is_known cal (year_of d) ≡ true
      → scan cal count max (suc fuel) d scanned dates
        ≡ scan cal count max fuel (suc d) (suc scanned) (add_if (is_open cal d) d dates)
  unfolding scan is_business_day
  scan-next h h' known = rw (scan, h, h', known) refl

good_injective : (r s : List ℕ) → good r ≡ good s → r ≡ s
good_injective r s h = cc

take_day-count :
    (cal : BusinessDayCalendar) (d k count : ℕ) (dates : List ℕ)
    → count ≤ length dates + length (days_in cal d (suc k))
    → count ≤ length (add_if (is_open cal d) d dates) + length (days_in cal (suc d) k)
take_day-count cal d k count dates h =
    subst (λ n. count ≤ n) (length-append (add_if (is_open cal d) d dates) (days_in cal (suc d) k))
      (subst (λ xs. count ≤ length xs)
        (sym (take_day-append (is_open cal d) d dates (days_in cal (suc d) k)))
        (subst (λ n. count ≤ n) (sym (length-append dates (days_in cal d (suc k)))) h))

bad≢good : (e : ScheduleError) (r : List ℕ) → bad e ≢ good r
bad≢good e r h = absurd (cc)

reached : (n count : ℕ) → n ≤ count → ltb n count ≡ false → n ≡ count
reached n count h h' = ground arith

-- The loop's result: all the business days from `d` to the last one taken.
scan_good :
    (cal : BusinessDayCalendar) (count max fuel d scanned : ℕ) (dates result : List ℕ)
    → length dates ≤ count
    → scan cal count max fuel d scanned dates ≡ good result
    → (k : ℕ) × (result ≡ dates ++ days_in cal d k) × (length result ≡ count) × YearsKnown cal d k
unfolding scan
scan_good cal count max zero d scanned dates result h e = absurd (bad≢good _ _ e)
scan_good cal count max (suc fuel) d scanned dates result h e =
    elim (Bool-cases (ltb (length dates) count)) [
      | inl more ↦ elim (Bool-cases (ltb max scanned)) [
        | inl over ↦
            absurd (bad≢good _ _ (sym (scan-over cal count max fuel d scanned dates more over) ∙ e))
        | inr within ↦ elim (Bool-cases (year_is_known cal (year_of d))) [
          | inl known ↦
              let (k, same, full, years) =
                scan_good cal count max fuel (suc d) (suc scanned) (add_if (is_open cal d) d dates)
                  result (take_day-length (is_open cal d) d dates count more)
                  (sym (scan-next cal count max fuel d scanned dates more within known) ∙ e) in
              (
                suc k,
                same ∙ take_day-append (is_open cal d) d dates (days_in cal (suc d) k),
                full,
                (known, years),
              )
          | inr unknown ↦ absurd (
              bad≢good _ _
                (sym (scan-unknown cal count max fuel d scanned dates more within unknown) ∙ e))
        ]
      ]
      | inr enough ↦
          let same : dates ≡ result =
            good_injective dates result
              (sym (scan-enough cal count max fuel d scanned dates enough) ∙ e) in
          (
            0,
            sym same ∙ sym (append-nil dates),
            subst (λ xs. length xs ≡ count) same (reached (length dates) count h enough),
            tt,
          )
    ]

-- If the next `k` days are in known years and hold the missing business days, the loop returns.
scan_total :
    (cal : BusinessDayCalendar) (count max k fuel d scanned : ℕ) (dates : List ℕ)
    → YearsKnown cal d k
    → count ≤ length dates + length (days_in cal d k)
    → scanned + k ≤ suc max
    → k < fuel
    → (result : List ℕ) × (scan cal count max fuel d scanned dates ≡ good result)
scan_total cal count max zero zero d scanned dates years enough room fuelled = absurd (omega arith)
scan_total cal count max (suc k) zero d scanned dates years enough room fuelled =
    absurd (omega arith)
scan_total cal count max zero (suc fuel) d scanned dates years enough room fuelled =
    (dates, scan-enough cal count max fuel d scanned dates (ground arith))
scan_total cal count max (suc k) (suc fuel) d scanned dates (known, years) enough room fuelled =
    elim (Bool-cases (ltb (length dates) count)) [
      | inl more ↦
          let (result, e) =
            scan_total cal count max k fuel (suc d) (suc scanned) (add_if (is_open cal d) d dates)
              years (take_day-count cal d k count dates enough) (omega arith) (omega arith) in
          (result, scan-next cal count max fuel d scanned dates more (ground arith) known ∙ e)
      | inr done ↦ (dates, scan-enough cal count max fuel d scanned dates done)
    ]

generate-positive :
    (cal : BusinessDayCalendar) (start : ℕ) (count : ℤ)
    → leb_ℤ count (pos 0) ≡ false
    → generate_business_days cal start count
      ≡ scan cal
          (pos_part count)
          (max_days (pos_part count))
          (max_days (pos_part count) + 2)
          start
          0
          []
unfolding generate_business_days
generate-positive cal start count h = rw h refl

generate-refused :
    (cal : BusinessDayCalendar) (start : ℕ) (count : ℤ)
    → leb_ℤ count (pos 0) ≡ true
    → generate_business_days cal start count ≡ bad value_error
unfolding generate_business_days
generate-refused cal start count h = rw h refl

positive_part : (count : ℤ) → leb_ℤ count (pos 0) ≡ false → pos (pos_part count) ≡ count
positive_part count h = ground arith

-- `generate_business_days` returns only a full answer: exactly `count` dates, which are all the
-- business days of a stretch that begins at the start date and lies in years the table has.
pub generate_business_days_sound :
    (cal : BusinessDayCalendar) (start : ℕ) (count : ℤ) (dates : List ℕ)
    → generate_business_days cal start count ≡ good dates
    → (k : ℕ) × (dates ≡ days_in cal start k)
      × (pos (length dates) ≡ count)
      × YearsKnown cal start k
unfolding generate_business_days
generate_business_days_sound cal start count dates e = elim (Bool-cases (leb_ℤ count (pos 0))) [
  | inl refused ↦ absurd (bad≢good _ _ (sym (generate-refused cal start count refused) ∙ e))
  | inr positive ↦
      let n = pos_part count in
      let (k, same, full, years) =
        scan_good cal n (max_days n) (max_days n + 2) start 0 [] dates (omega arith)
          (sym (generate-positive cal start count positive) ∙ e) in
      (k, same, ap pos full ∙ positive_part count positive, years)
]

-- For a positive count `n`, if some stretch of at most `10 n + 367` days from the start lies in
-- known years and has `n` business days, the search returns `n` dates: it neither runs out of
-- rounds nor gives up as runaway.
pub generate_business_days_total :
    (cal : BusinessDayCalendar) (start n k : ℕ)
    → 0 < n
    → YearsKnown cal start k
    → n ≤ length (days_in cal start k)
    → k ≤ n * 10 + 367
    → (dates : List ℕ) × (generate_business_days cal start (pos n) ≡ good dates)
unfolding generate_business_days
generate_business_days_total cal start n k h years enough room =
    let (dates, e) =
      scan_total cal n (max_days n) k (max_days n + 2) start 0 [] years (omega arith) (omega arith)
        (omega arith) in
    (dates, generate-positive cal start (pos n) (ground arith) ∙ e)
