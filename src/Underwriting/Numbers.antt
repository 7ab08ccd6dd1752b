-- ===== src/Underwriting/Numbers.antt =====
-- The numbers of app/underwriting/grading/ and app/loans/lite_grading.py: Python's floats `F` and
-- decimals `D`, with what the code does with them.
use fund_lok.Prelude.{
  ◌≢◌, true, false, refl, ℕ, String, text_eq, Bool, Option, none, some, List, [], ◌∷◌, ℤ,
  if◌then◌else◌, ◌≡◌, All, arith, false, Bool-cases, inl, inr,
}
use fund_lok.Db.{Error, Result, ok, err, value_error}

-- `literal m k` is the float that Python reads from `m` with a point before its last `k` digits.
-- Two numbers divide or raise ZeroDivisionError; `exp` and `pow` may raise OverflowError. `sum`,
-- `mean` and `pstdev` are of lists that are not empty.
pub record Numbers (F D : Type 0) : Type 0 where
  pub literal : ℕ → ℕ → F
  pub minus : F → F
  pub add : F → F → F
  pub sub : F → F → F
  pub mul : F → F → F
  pub div : F → F → Result F
  pub lt : F → F → Bool
  pub le : F → F → Bool
  pub same : F → F → Bool
  pub exp : F → Result F
  pub pow : F → ℕ → Result F
  pub infinity : F
  pub is_inf : F → Bool
  pub total : List F → F
  pub mean : List F → F
  pub pstdev : List F → F
  pub of_int : ℤ → F
  -- `Decimal(n)`, and `Decimal(str(x))`
  pub decimal : ℤ → D
  pub decimal_of : F → D
  pub to_float : D → F
  pub add_dec : D → D → D
  pub mul_dec : D → D → D
  pub div_dec : D → D → Result D
  pub le_dec : D → D → Bool
  pub lt_dec : D → D → Bool
  pub same_dec : D → D → Bool

infixl 5 ◌>>=◌ ◌>>◌
abbrev pub ◌>>=◌ : {A B : Type 0} → Result A → (A → Result B) → Result B
ok a >>= f = f a
err e >>= f = err e

abbrev pub ◌>>◌ : {B : Type 0} → Result (Unit {0}) → Result B → Result B
m >> k = m >>= λ _. k

abbrev pub refuse_if : Bool → Error → Result (Unit {0})
refuse_if c e = if c then err e else ok tt

module _ {A : Type 0} where
  abbrev better : (A → A → Bool) → A → List A → A
  better before x [] = x
  better before x (y ∷ ys) = better before (if before y x then y else x) ys

  -- `min` and `max`, by what goes before.
  abbrev pub best : (A → A → Bool) → List A → Result A
  best before [] = err value_error
  best before (x ∷ xs) = ok (better before x xs)

  -- `d[key]` of a dict with texts as keys, `d.get(key)`, and `d[key] = a`
  abbrev pub get_text : String → List (String × A) → Option A
  get_text key [] = none
  get_text key ((k, a) ∷ rest) = if text_eq k key then some a else get_text key rest

  abbrev pub put_text : String → A → List (String × A) → List (String × A)
  put_text key a [] = (key, a) ∷ []
  put_text key a ((k, b) ∷ rest) =
      if text_eq k key then (k, a) ∷ rest else (k, b) ∷ put_text key a rest

  abbrev pub or_raise : Error → Option A → Result A
  or_raise e none = err e
  or_raise e (some a) = ok a

-- `.get` of a dict whose values may be None
abbrev pub get_value : {A : Type 0} → String → List (String × Option A) → Option A
get_value key [] = none
get_value key ((k, a) ∷ rest) = if text_eq k key then a else get_value key rest

-- Inversion of a chain that has returned.
pub bind_ok :
    {A B : Type 0} (m : Result A) (f : A → Result B) (b : B)
    → (m >>= f) ≡ ok b
    → (a : A) × (m ≡ ok a) × (f a ≡ ok b)
bind_ok (ok a) f b h = (a, refl, h)
bind_ok (err e) f b h = absurd (ground arith)

pub ok_injective : {A : Type 0} (a b : A) → ok a ≡ ok b → a ≡ b
ok_injective a b h = ground arith

pub err-ne-ok : {A : Type 0} {e : Error} {a : A} → err e ≢ ok a
err-ne-ok h = ground arith

pub refuse_ok : (c : Bool) (e : Error) → refuse_if c e ≡ ok tt → c ≡ false
refuse_ok true e h = absurd (ground arith)
refuse_ok false e h = refl

pub put_text-All :
    {A : Type 0} (P : A → Type 0) (key : String) (a : A) (d : List (String × A))
    → P a
    → All (λ (x : String × A). P x.1) d
    → All (λ (x : String × A). P x.1) (put_text key a d)
put_text-All P key a [] h all = (h, tt)
put_text-All P key a ((k, b) ∷ rest) h all = elim (Bool-cases (text_eq k key)) [
  | inl same ↦ rw same (h, all.1)
  | inr other ↦ rw other (all.0, put_text-All P key a rest h all.1)
]
