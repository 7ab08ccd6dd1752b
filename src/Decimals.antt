-- ===== src/Decimals.antt =====
-- What app/repayment_schedule/origination.py and app/market/service.py use of Python's `decimal`: numbers in the default
-- context, whose results keep 28 digits and round half to even. Only values are modelled: 1.0 and 1
-- are not told apart.
use fund_lok.Prelude.{
  ℕ, zero, suc, ◌+◌, ◌-◌, ◌*◌, ◌/◌, ◌%◌, ◌^◌, Bool, true, false, ltb, if◌then◌else◌, ℤ, pos, ltb_ℤ,
  pos_part,
}

-- `coefficient / 10 ^ places`
pub record Decimal : Type 0 where
  pub coefficient : ℤ
  pub places : ℕ

-- A number that is not negative, `digits / 10 ^ places`.
pub record Magnitude : Type 0 where
  pub digits : ℕ
  pub places : ℕ

abbrev pub of_int : ℕ → Magnitude
of_int n = record { digits = n; places = 0 }

abbrev limit : ℕ
limit = 10 ^ 28

-- `n / d` rounded to a whole number, a half going to the even neighbour.
half_even : ℕ → ℕ → ℕ
half_even n d =
    let q = n / d in
    let twice = 2 * (n % d) in if ltb twice d then q else if ltb d twice then q + 1 else q + q % 2

-- How often `n` can be taken times 10 with a quotient by `d` of at most 28 digits, up to `most`.
more_places : ℕ → ℕ → ℕ → ℕ
more_places zero n d = 0
more_places (suc most) n d = elim (ltb (n * 10 / d) limit) [
  | true ↦ suc (more_places most (n * 10) d)
  | false ↦ 0
]

-- How often `d` must be taken times 10 for a quotient of at most 28 digits.
fewer_places : ℕ → ℕ → ℕ → ℕ
fewer_places zero n d = 0
fewer_places (suc most) n d = elim (ltb (n / d) limit) [
  | true ↦ 0
  | false ↦ suc (fewer_places most n (d * 10))
]

-- The result of an operation whose exact value is `n / d`. A quotient below 10 ^ -28, as of a rate
-- below 10 ^ -26 percent, keeps fewer digits.
unfoldable pub context_round : ℕ → ℕ → Magnitude
unfolding half_even more_places fewer_places
context_round n d = elim (ltb (n / d) limit) [
  | true ↦
      let places = more_places 56 n d in
      record { digits = half_even (n * 10 ^ places) d; places = places }
  | false ↦
      let k = fewer_places n n d in
      record { digits = half_even n (d * 10 ^ k) * 10 ^ k; places = 0 }
]

unfoldable pub mul : Magnitude → Magnitude → Magnitude
unfolding context_round
mul a b = context_round (a.digits * b.digits) (10 ^ (a.places + b.places))

-- For a positive `b`.
unfoldable pub div : Magnitude → Magnitude → Magnitude
unfolding context_round
div a b = context_round (a.digits * 10 ^ b.places) (b.digits * 10 ^ a.places)

-- `a - 1` for `a` of at least 1.
unfoldable pub minus_one : Magnitude → Magnitude
unfolding context_round
minus_one a = context_round (a.digits - 10 ^ a.places) (10 ^ a.places)

-- A Decimal that is not negative.
abbrev pub magnitude : Decimal → Magnitude
magnitude a = record { digits = pos_part a.coefficient; places = a.places }

-- `a < 0` and `a > n`
abbrev pub is_negative : Decimal → Bool
is_negative a = ltb_ℤ a.coefficient (pos 0)

abbrev pub is_above : Decimal → ℕ → Bool
is_above a n = ltb_ℤ (pos (n * 10 ^ a.places)) a.coefficient

-- `quantize(Decimal("1"), rounding=ROUND_HALF_UP)`, before its check of the number of digits
unfoldable pub half_up : Magnitude → ℕ
half_up a = (2 * a.digits + 10 ^ a.places) / (2 * 10 ^ a.places)

-- `quantize` refuses a result of more than 28 digits.
abbrev pub fits_context : ℕ → Bool
fits_context n = ltb n (10 ^ 28)

-- `quantize(Decimal("0.00000001"))` in units of 0.00000001; a half goes to the even neighbour.
unfoldable pub quantize_8 : Magnitude → ℕ
unfolding half_even
quantize_8 a = half_even (a.digits * 10 ^ 8) (10 ^ a.places)
