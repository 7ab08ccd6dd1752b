-- ===== src/Schedule/Calendar.antt =====
-- app/repayment_schedule/calendar.py: the Vietnamese business-day calendar. A date is its ordinal, as
-- `date.toordinal()` counts: day 1 is the first of January of year 1, a Monday.
pub mod Scan
use fund_lok.Prelude.{
  ℕ, zero, suc, ◌+◌, ◌-◌, ◌*◌, ◌/◌, ◌%◌, ◌^◌, ◌≤◌, ◌<◌, String, text_eq, ◌≡◌, refl, sym, ap, ◌∙◌,
  subst, ◌≢◌, ◌↔◌, ◌⊎◌, inl, inr, Bool, true, false, not, ◌&&◌, ◌||◌, Option, none, some, List, [],
  ◌∷◌, ◌++◌, arith, ltb, leb, ◌==◌, if◌then◌else◌, opt_eq, truthy, length, select, find_first,
  any_of, all_of, All, ℤ, pos, negsuc, ◌+ℤ◌, ◌-ℤ◌, ◌≤ℤ◌, ltb_ℤ, leb_ℤ, eq_ℤ, int_laws, Bool-cases,
  Option-cases, Dict, lookup, pos_part, insert,
}

-- ValueError, MissingHolidayCalendarYearError, RuntimeError of the scan, OriginationInvariantError,
-- the InvalidOperation of `Decimal.quantize`;
-- `out_of_fuel` is the model's own.
pub data ScheduleError : Type 0 where
  value_error missing_year runaway_scan invariant_violated invalid_operation out_of_fuel :
      ScheduleError

pub data Checked {ℓ} (A : Type ℓ) : Type ℓ where
  good : A → Checked A
  bad : ScheduleError → Checked A

infixl 5 ◌>>=◌ ◌>>◌
abbrev pub ◌>>=◌ {ℓ κ} : {A : Type ℓ} {B : Type κ} → Checked A → (A → Checked B) → Checked B
good a >>= f = f a
bad e >>= f = bad e

abbrev pub ◌>>◌ {ℓ} : {B : Type ℓ} → Checked (Unit {0}) → Checked B → Checked B
m >> k = m >>= λ _. k

-- `if c: raise e`
abbrev pub reject_if : Bool → ScheduleError → Checked (Unit {0})
reject_if true e = bad e
reject_if false e = good tt

-- `date.weekday()`: Monday is 0.
unfoldable pub weekday : ℕ → ℕ
weekday d = (d + 6) % 7

-- `date.year`, from 400-, 100-, 4- and 1-year cycles.
unfoldable pub year_of : ℕ → ℕ
year_of d =
    let n = d - 1 in
    let n100 = n % 146097 / 36524 in
    let n1 = n % 146097 % 36524 % 1461 / 365 in
    let y = n / 146097 * 400 + n100 * 100 + n % 146097 % 36524 / 1461 * 4 + n1 in
    if n1 == 4 || n100 == 4 then y else y + 1

-- A year of vn_public_holidays.yaml as it was read: its status and its dates.
pub record YearEntry : Type 0 where
  pub status : String
  pub dates : List ℕ

-- A year as the YAML file may have it, with either key left out.
pub record RawYear : Type 0 where
  pub status : Option String
  pub holidays : Option (List ℕ)

abbrev default_to {ℓ} : {A : Type ℓ} → A → Option A → A
default_to d none = d
default_to d (some a) = a

-- `_load_holiday_calendar`, from what `yaml.safe_load` returned
load_from : Dict YearEntry → List (ℕ × RawYear) → Dict YearEntry
load_from years [] = years
load_from years ((year, raw) ∷ rest) =
    load_from
      (insert year
        (record { status = default_to "confirmed" raw.status; dates = default_to [] raw.holidays })
        years)
      rest

unfoldable pub load_holiday_calendar : List (ℕ × RawYear) → Dict YearEntry
unfolding load_from
load_holiday_calendar raw = load_from [] raw

-- The loaded table, and the extra holidays of `BusinessDayCalendar.__init__`.
pub record BusinessDayCalendar : Type 0 where
  pub years : Dict YearEntry
  pub extra_holidays : List ℕ

unfoldable pub calendar_year_status : Dict YearEntry → ℕ → Option String
calendar_year_status years year = elim (lookup year years) [
  | none ↦ none
  | some entry ↦ some entry.status
]

-- `_year_is_known`
abbrev pub year_is_known : BusinessDayCalendar → ℕ → Bool
year_is_known cal year = elim (lookup year cal.years) [ none ↦ false | some entry ↦ true ]

abbrev in_dates : ℕ → List ℕ → Bool
in_dates d dates = any_of (λ x. x == d) dates

abbrev in_entry : ℕ → Option YearEntry → Bool
in_entry d none = false
in_entry d (some entry) = in_dates d entry.dates

-- `_is_holiday`
unfoldable pub is_holiday : BusinessDayCalendar → ℕ → Bool
unfolding year_of
is_holiday cal d = in_dates d cal.extra_holidays || in_entry d (lookup (year_of d) cal.years)

-- `d.weekday() < 5 and not self._is_holiday(d)`
unfoldable pub is_open : BusinessDayCalendar → ℕ → Bool
unfolding is_holiday weekday
is_open cal d = ltb (weekday d) 5 && not (is_holiday cal d)

unfoldable pub is_business_day : BusinessDayCalendar → ℕ → Checked Bool
unfolding is_open
is_business_day cal d =
    if year_is_known cal (year_of d) then good (is_open cal d) else bad missing_year

abbrev pub add_if : Bool → ℕ → List ℕ → List ℕ
add_if true d dates = dates ++ d ∷ []
add_if false d dates = dates

-- The `while` loop; the fuel counts its rounds.
pub scan : BusinessDayCalendar → ℕ → ℕ → ℕ → ℕ → ℕ → List ℕ → Checked (List ℕ)
scan cal count max_calendar_days zero d scanned dates = bad out_of_fuel
scan cal count max_calendar_days (suc fuel) d scanned dates = elim (ltb (length dates) count) [
  | false ↦ good dates
  | true ↦ elim (ltb max_calendar_days scanned) [
    | true ↦ bad runaway_scan
    | false ↦ elim (is_business_day cal d) [
      | bad e ↦ bad e
      | good b ↦ scan cal count max_calendar_days fuel (suc d) (suc scanned) (add_if b d dates)
    ]
  ]
]

abbrev pub max_days : ℕ → ℕ
max_days count = count * 10 + 366

-- A round is entered for `scanned` from 0 up to `max_calendar_days + 1`.
unfoldable pub generate_business_days : BusinessDayCalendar → ℕ → ℤ → Checked (List ℕ)
unfolding scan
generate_business_days cal start_date count = do
  reject_if (leb_ℤ count (pos 0)) value_error
  scan cal (pos_part count) (max_days (pos_part count)) (max_days (pos_part count) + 2) start_date 0
      []

-- `[-1]` of a list
abbrev pub last_of : List ℕ → Checked ℕ
last_of [] = bad value_error
last_of (d ∷ []) = good d
last_of (d ∷ e ∷ rest) = last_of (e ∷ rest)

unfoldable pub nth_business_day : BusinessDayCalendar → ℕ → ℤ → Checked ℕ
nth_business_day cal start_date n = do
  dates ← generate_business_days cal start_date n
  last_of dates

unfoldable pub recompute_backstop_date : BusinessDayCalendar → ℕ → ℤ → Checked ℕ
recompute_backstop_date cal start_date backstop_day_index =
    nth_business_day cal start_date backstop_day_index
