-- ===== src/Underwriting/Factors.antt =====
-- app/underwriting/grading/curves.py and app/underwriting/grading/factors.py.
use fund_lok.Prelude.{
  ℕ, String, text_eq, Bool, true, false, not, ◌&&◌, Option, none, some, List, [], ◌∷◌,
  if◌then◌else◌, pos,
}
use fund_lok.Db.{Result, ok, err, value_error, overflow_error, type_error}
use fund_lok.Underwriting.Numbers.{Numbers, ◌>>=◌, ◌>>◌, refuse_if, put_text, or_raise, get_value}
use fund_lok.Underwriting.Types.{score_of, GradingInput, FactorParam, ParamSet}

module _ {F D : Type 0} (n : Numbers F D) where
  -- `min(high, max(low, value))`, for 0 and 100
  unfoldable pub clamp : F → F
  clamp value =
      let raised = if n.lt (n.literal 0 0) value then value else n.literal 0 0 in
      if n.lt raised (n.literal 100 0) then raised else n.literal 100 0

  abbrev or_infinite : Result F → Result F
  or_infinite (err overflow_error) = ok n.infinity
  or_infinite (err e) = err e
  or_infinite (ok x) = ok (n.add (n.literal 1 0) x)

  unfoldable pub sigmoid : F → F → F → F → Bool → Result F
  unfolding clamp
  sigmoid x upper steepness intercept decreasing = do
    let sign = if decreasing then n.literal 1 0 else n.minus (n.literal 1 0)
    denominator ← or_infinite (n.exp (n.mul sign (n.sub (n.mul steepness x) intercept)))
    raw ← if n.is_inf denominator then ok (n.literal 0 0) else n.div upper denominator
    ok (clamp raw)

  unfoldable pub linear : F → String → Result F
  unfolding clamp
  linear x formula = do
    refuse_if (not (text_eq formula "100 - x")) value_error
    ok (clamp (n.sub (n.literal 100 0) x))

  unfoldable pub cubic : F → F → F → F → F → Result F
  unfolding clamp
  cubic x a b c d = do
    x3 ← n.pow x 3
    x2 ← n.pow x 2
    ok (clamp (n.add (n.add (n.add (n.mul a x3) (n.mul b x2)) (n.mul c x)) d))

  abbrev cic_float : Option ℕ → Option F
  cic_float none = none
  cic_float (some score) = some (n.of_int (pos score))

  -- `direct_inputs`, and `derived` where the input is none of them
  unfoldable pub input_value :
      Option String → GradingInput F D → List (String × Option F) → Option F
  input_value none inputs derived = none
  input_value (some input) inputs derived =
      if text_eq input "conc_top1_pct"
      then inputs.conc_top1_pct
      else if text_eq input "conc_top3_pct"
      then inputs.conc_top3_pct
      else if text_eq input "sector_cagr_pct"
      then some inputs.sector_cagr_pct
      else if text_eq input "cic_score"
      then cic_float inputs.cic_score
      else get_value input derived

  unfoldable pub raw_value : FactorParam F → GradingInput F D → List (String × Option F) → Option F
  unfolding input_value
  raw_value factor inputs derived =
      if text_eq factor.kind "supplied"
      then score_of factor.key inputs.ai_scores
      else if text_eq factor.key "owner_withdrawal"
      then inputs.owner_withdrawal
      else input_value factor.input inputs derived

  abbrev scaled : F → Option F → F
  scaled x none = x
  scaled x (some s) = n.mul x s

  abbrev is_decreasing : Option Bool → Bool
  is_decreasing none = false
  is_decreasing (some b) = b

  -- `factor.formula or "100 - x"`
  abbrev formula_of : Option String → String
  formula_of none = "100 - x"
  formula_of (some t) = if text_eq t "" then "100 - x" else t

  -- The curve of a factor at its raw value. A parameter that is None raises TypeError.
  unfoldable pub curve : FactorParam F → F → Result F
  unfolding sigmoid linear cubic
  curve factor raw =
      if text_eq factor.key "owner_withdrawal"
      then ok raw
      else if text_eq factor.kind "sigmoid"
      then (do
        upper ← or_raise type_error factor.upper
        steepness ← or_raise type_error factor.steepness
        intercept ← or_raise type_error factor.intercept
        sigmoid (scaled raw factor.scale_input_by) upper steepness intercept
            (is_decreasing factor.decreasing))
      else if text_eq factor.kind "linear"
      then linear raw (formula_of factor.formula)
      else if text_eq factor.kind "cubic"
      then (do
        a ← or_raise type_error factor.a
        b ← or_raise type_error factor.b
        c ← or_raise type_error factor.c
        d ← or_raise type_error factor.d
        cubic raw a b c d)
      else if text_eq factor.kind "supplied"
      then ok raw
      else err value_error

  abbrev curve_if : FactorParam F → Option F → Result (Option F)
  curve_if factor none = ok none
  curve_if factor (some raw) = do score ← curve factor raw; ok (some score)

  unfoldable pub score_factor :
      FactorParam F → GradingInput F D → List (String × Option F) → Result (Option F)
  unfolding raw_value curve
  score_factor factor inputs derived = curve_if factor (raw_value factor inputs derived)

  -- `0.0 <= score <= 100.0`, where there is a score
  abbrev pub in_range : Option F → Bool
  in_range none = true
  in_range (some score) = n.le (n.literal 0 0) score && n.le score (n.literal 100 0)

  unfoldable pub score_factors :
      List (FactorParam F)
      → GradingInput F D
      → List (String × Option F)
      → List (String × Option F)
      → Result (List (String × Option F))
  unfolding score_factor
  score_factors [] inputs derived scores = ok scores
  score_factors (factor ∷ factors) inputs derived scores = do
    score ← score_factor factor inputs derived
    refuse_if (not (in_range score)) value_error
    score_factors factors inputs derived (put_text factor.key score scores)

  unfoldable pub score_all_factors :
      ParamSet F → GradingInput F D → List (String × Option F) → Result (List (String × Option F))
  unfolding score_factors
  score_all_factors params inputs derived = score_factors params.factors inputs derived []
