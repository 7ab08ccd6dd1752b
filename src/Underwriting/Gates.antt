-- ===== src/Underwriting/Gates.antt =====
-- app/underwriting/grading/gates.py, and the resolution of a decision in
-- app/underwriting/grading/engine.py.
use fund_lok.Prelude.{
  ℕ, ◌*◌, String, text_eq, Bool, true, false, not, ◌||◌, Option, none, some, List, [], ◌∷◌, ltb,
  leb, if◌then◌else◌, length, select, any_of, pos,
}
use fund_lok.Db.{Result, ok, err, value_error, key_error}
use fund_lok.Underwriting.Numbers.{Numbers}
use fund_lok.Underwriting.Types.{
  GradingInput, GateResult, Decision, approved, review, reject, ai_pending, GateParam,
}

abbrev pub text_in : String → List String → Bool
text_in t [] = false
text_in t (s ∷ ss) = text_eq s t || text_in t ss

abbrev pub ai_score_keys : List String
ai_score_keys =
    "regulatory" ∷ "input_cost_vol" ∷ "cyclicality" ∷ "competitor" ∷ "macro" ∷ "uncontrollable"
    ∷ "founder" ∷ []

abbrev pub is_true : Option Bool → Bool
is_true none = false
is_true (some b) = b

abbrev pub at_floor : Option ℕ → Bool
at_floor none = false
at_floor (some score) = leb score 500

module _ {F D : Type 0} (n : Numbers F D) where
  abbrev pub is_below_50 : Option F → Bool
  is_below_50 none = false
  is_below_50 (some score) = n.lt score (n.literal 50 0)

  unfoldable pub count_below_50 : List (String × Option F) → ℕ
  count_below_50 scores = length (select (λ s. is_below_50 s.1) scores)

  abbrev pub is_high : Option F → Bool
  is_high none = false
  is_high (some rate) = n.le (n.literal 30 2) rate

  abbrev pub reaches : Option F → ℕ → Bool
  reaches none count = false
  reaches (some threshold) count = n.le threshold (n.of_int (pos count))

  -- `_gate_fires`; `0.25 * operating_months` is exact.
  unfoldable pub gate_fires :
      GateParam F
      → GradingInput F D
      → List (String × Option F)
      → Option F
      → List String
      → Result Bool
  unfolding count_below_50
  gate_fires gate inputs factor_scores daily_repayment_rate excluded_industries =
      if text_eq gate.key "operating_history"
      then ok (ltb inputs.operating_months 24)
      else if text_eq gate.key "history_vs_term"
      then ok (ltb inputs.operating_months (4 * inputs.duration_months))
      else if text_eq gate.key "low_factor_count"
      then ok (reaches gate.threshold (count_below_50 factor_scores))
      else if text_eq gate.key "first_loan_tenor"
      then ok false
      else if text_eq gate.key "excluded_industry"
      then ok (text_in inputs.industry excluded_industries)
      else if text_eq gate.key "kyc_aml"
      then ok (not (is_true inputs.kyc_aml_passed) || ltb 0 (length inputs.fraud_flags))
      else if text_eq gate.key "cic_floor"
      then ok (at_floor inputs.cic_score)
      else if text_eq gate.key "daily_repayment_rate"
      then ok (is_high daily_repayment_rate)
      else err value_error

module _ {F : Type 0} where
  -- `not gate.enabled or gate.severity == "none"`
  abbrev pub is_skipped : GateParam F → Bool
  is_skipped gate = not gate.enabled || text_eq gate.severity "none"

  abbrev pub fired : GateParam F → GateResult
  fired gate = record { id = gate.id; key = gate.key; severity = gate.severity }

  -- A gate before the results of the later ones.
  abbrev pub cons_if :
      Result Bool → GateParam F → Result (List GateResult) → Result (List GateResult)
  cons_if (err e) gate rest = err e
  cons_if (ok c) gate (err e) = err e
  cons_if (ok true) gate (ok results) = ok (fired gate ∷ results)
  cons_if (ok false) gate (ok results) = ok results

  -- The loop of `evaluate_gates`, over what each gate says.
  unfoldable pub evaluate_gates :
      (GateParam F → Result Bool) → List (GateParam F) → Result (List GateResult)
  evaluate_gates fires [] = ok []
  evaluate_gates fires (gate ∷ gates) =
      let rest = evaluate_gates fires gates in
      if is_skipped gate then rest else cons_if (fires gate) gate rest

abbrev pub has_severity : String → GateResult → Bool
has_severity severity g = text_eq g.severity severity

-- The order of the resolution in `grade`.
unfoldable pub decide : Bool → List GateResult → Decision
decide pending fired_gates =
    if any_of (has_severity "hard") fired_gates
    then reject
    else if pending
    then ai_pending
    else if any_of (has_severity "soft") fired_gates
    then review
    else approved

module _ {F : Type 0} where
  abbrev is_given : Option F → Bool
  is_given none = false
  is_given (some score) = true

  -- `factor_scores[key] is None`
  abbrev pub is_missing : List (String × Option F) → String → Result Bool
  is_missing [] key = err key_error
  is_missing ((k, score) ∷ rest) key =
      let later = is_missing rest key in if text_eq k key then ok (not (is_given score)) else later

  -- `any` over the keys, which stops at the first true; the keys are a set, taken in the order of
  -- the source
  abbrev pub any_missing : List (String × Option F) → List String → Result Bool
  any_missing factor_scores [] = ok false
  any_missing factor_scores (key ∷ keys) =
      let later = any_missing factor_scores keys in
      elim (is_missing factor_scores key) [
        | err e ↦ err e
        | ok missing ↦ if missing then ok true else later
      ]
