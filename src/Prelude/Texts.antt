-- ===== src/Prelude/Texts.antt =====
-- Python's operations on texts, over the tests of characters that they are given.
use Prim.Native.Nat.{ℕ, zero, suc}
use Prim.Native.Char.{Char}
use Prim.Native.String.{String, [], ◌∷◌}
use mathlib.Core.Option.{Option, none, some}
use mathlib.Core.Bool.{Bool, true, ◌&&◌, ◌||◌}
use text.Mathlib.Text.{◌==◌ as text_eq}
use fund_lok.Prelude.Tests.{if◌then◌else◌}

module _ (is_space : Char → Bool) where
  lstrip : String → String
  lstrip [] = []
  lstrip (c ∷ s) = let rest = lstrip s in if is_space c then rest else c ∷ s

  rstrip : String → String
  rstrip [] = []
  rstrip (c ∷ s) = let rest = rstrip s in if text_eq rest "" && is_space c then [] else c ∷ rest

  -- `s.strip()`
  unfoldable pub strip : String → String
  unfolding lstrip rstrip
  strip s = rstrip (lstrip s)

-- `s.rstrip(c)` for one character
abbrev pub rstrip_char : String → String → String
rstrip_char c [] = []
rstrip_char c (d ∷ s) =
    let rest = rstrip_char c s in if text_eq rest "" && text_eq (d ∷ []) c then [] else d ∷ rest

abbrev pub take_text : ℕ → String → String
take_text n [] = []
take_text zero (c ∷ s) = []
take_text (suc n) (c ∷ s) = c ∷ take_text n s

-- `s.replace(c, "")` for one character
abbrev pub remove_char : String → String → String
remove_char c [] = []
remove_char c (d ∷ s) = let rest = remove_char c s in if text_eq (d ∷ []) c then rest else d ∷ rest

abbrev pub all_chars : (Char → Bool) → String → Bool
all_chars p [] = true
all_chars p (c ∷ s) = p c && all_chars p s

abbrev pub text_length : String → ℕ
text_length [] = 0
text_length (c ∷ s) = suc (text_length s)

-- What follows a prefix.
abbrev pub after_prefix : String → String → Option String
after_prefix [] s = some s
after_prefix (c ∷ p) [] = none
after_prefix (c ∷ p) (d ∷ s) =
    let rest = after_prefix p s in if text_eq (c ∷ []) (d ∷ []) then rest else none

-- `s.endswith(p)`
abbrev pub ends_with : String → String → Bool
ends_with p [] = text_eq "" p
ends_with p (c ∷ s) = text_eq (c ∷ s) p || ends_with p s

-- `p in s`
abbrev pub contains : String → String → Bool
contains p [] = text_eq p ""
contains p (c ∷ s) =
    let later = contains p s in elim (after_prefix p (c ∷ s)) [ none ↦ later | some rest ↦ true ]

-- The longest prefix whose characters satisfy the test.
abbrev pub take_while : (Char → Bool) → String → String
take_while t [] = []
take_while t (c ∷ s) = let rest = take_while t s in if t c then c ∷ rest else []

abbrev pub append_text : String → String → String
append_text [] t = t
append_text (c ∷ s) t = c ∷ append_text s t

-- `s.upper()`
abbrev pub map_text : (Char → String) → String → String
map_text f [] = []
map_text f (c ∷ s) = append_text (f c) (map_text f s)

-- The character at an index, as a text.
abbrev pub char_at : ℕ → String → String
char_at n [] = []
char_at zero (c ∷ s) = c ∷ []
char_at (suc n) (c ∷ s) = char_at n s

-- The leftmost match of a pattern in a text that is not empty.
abbrev pub search_text : (String → Option String) → String → Option String
search_text m [] = none
search_text m (c ∷ s) =
    let later = search_text m s in elim (m (c ∷ s)) [ none ↦ later | some t ↦ some t ]
