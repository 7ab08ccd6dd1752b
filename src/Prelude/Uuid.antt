-- ===== src/Prelude/Uuid.antt =====
-- The text of a UUID, which is a number below 16 ^ 32: five groups of hexadecimal digits.
use Prim.Native.Nat.{ℕ, zero, suc, ◌/◌, ◌%◌, ◌^◌}
use Prim.Native.Char.{Char}
use Prim.Native.String.{String, [], ◌∷◌}
use mathlib.Core.Path.{◌≡◌, ap}
use mathlib.Core.Bool.{Bool, true, false, false≢true}
use mathlib.Core.Logic.{inl, inr}
use text.Mathlib.Text.{◌==◌ as text_eq}
use text.Mathlib.TextEquality.{eq_iff}
use fund_lok.Prelude.Tests.{◌==◌, if◌then◌else◌, Bool-cases}

abbrev hex_high : ℕ → Char
hex_high d =
    if d == 10
    then "a"
    else if d == 11
    then "b"
    else if d == 12
    then "c"
    else if d == 13
    then "d"
    else if d == 14
    then "e"
    else "f"

abbrev hex_digit : ℕ → Char
hex_digit d =
    if d == 0
    then "0"
    else if d == 1
    then "1"
    else if d == 2
    then "2"
    else if d == 3
    then "3"
    else if d == 4
    then "4"
    else if d == 5
    then "5"
    else if d == 6
    then "6"
    else if d == 7
    then "7"
    else if d == 8
    then "8"
    else if d == 9
    then "9"
    else hex_high d

-- The last `k` digits of `n`, before a text.
hex_text : ℕ → ℕ → String → String
hex_text zero n rest = rest
hex_text (suc k) n rest = hex_text k (n / 16) (hex_digit (n % 16) ∷ rest)

unfoldable pub uuid_text : ℕ → String
unfolding hex_text
uuid_text n = hex_text 8 (n / 16 ^ 24) (
    "-"
    ∷ hex_text 4 (n / 16 ^ 20)
        ("-" ∷ hex_text 4 (n / 16 ^ 16) ("-" ∷ hex_text 4 (n / 16 ^ 12) ("-" ∷ hex_text 12 n ""))))

is_empty : String → Bool
is_empty [] = true
is_empty (c ∷ s) = false

hex_text_not_empty :
    (k n : ℕ) (c : Char) (rest : String) → text_eq (hex_text k n (c ∷ rest)) "" ≡ false
unfolding hex_text is_empty
hex_text_not_empty zero n c rest = elim (Bool-cases (text_eq (c ∷ rest) "")) [
  | inl same ↦ absurd (false≢true (ap is_empty ((eq_iff (c ∷ rest) "").0 same)))
  | inr other ↦ other
]
hex_text_not_empty (suc k) n c rest = hex_text_not_empty k (n / 16) (hex_digit (n % 16)) (c ∷ rest)

pub uuid_text_not_empty : (n : ℕ) → text_eq (uuid_text n) "" ≡ false
unfolding uuid_text
uuid_text_not_empty n = hex_text_not_empty 8 (n / 16 ^ 24) "-" _
