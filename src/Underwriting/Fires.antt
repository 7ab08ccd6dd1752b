-- ===== src/Underwriting/Fires.antt =====
-- When a gate fires (app/underwriting/grading/gates.py), gate by gate.
use fund_lok.Prelude.{
  ℕ, ◌*◌, ◌≤◌, ◌<◌, String, text_eq, ◌≡◌, refl, ap, ◌≢◌, ◌↔◌, ◌⊎◌, inl, inr, Bool, true, false, not,
  ◌||◌, Option, none, some, List, [], ◌∷◌, arith, ltb, length, select, pos, Bool-cases,
}
use fund_lok.Db.{Result, ok, err}
use fund_lok.Underwriting.Numbers.{Numbers}
use fund_lok.Underwriting.Types.{GradingInput, GateParam}
use fund_lok.Underwriting.Gates.{
  text_in, is_true, at_floor, is_below_50, count_below_50, reaches, gate_fires,
}
use fund_lok.Underwriting.Decision.{says_yes}
use text.Mathlib.TextEquality.{eq_iff}

-- The conditions of the eight keys; the gate of the first loan's tenor fires never.
pub data IsFiring {F D : Type 0} (n : Numbers F D) (gate : GateParam F) (inputs : GradingInput F D)
    (scores : List (String × Option F)) (rate : F) (excluded : List String) : Type 0 where
  short_history :
      gate.key ≡ "operating_history"
      → inputs.operating_months < 24
      → IsFiring n gate inputs scores rate excluded
  long_term :
      gate.key ≡ "history_vs_term"
      → inputs.operating_months < 4 * inputs.duration_months
      → IsFiring n gate inputs scores rate excluded
  many_low :
      gate.key ≡ "low_factor_count"
      → (threshold : F) → gate.threshold ≡ some threshold
      → n.le threshold
          (n.of_int (pos (length (select (λ (s : String × Option F). is_below_50 n s.1) scores))))
        ≡ true
      → IsFiring n gate inputs scores rate excluded
  bad_industry :
      gate.key ≡ "excluded_industry"
      → text_in inputs.industry excluded ≡ true
      → IsFiring n gate inputs scores rate excluded
  not_passed :
      gate.key ≡ "kyc_aml"
      → inputs.kyc_aml_passed ≢ some true
      → IsFiring n gate inputs scores rate excluded
  has_fraud :
      gate.key ≡ "kyc_aml" → inputs.fraud_flags ≢ [] → IsFiring n gate inputs scores rate excluded
  low_credit :
      gate.key ≡ "cic_floor"
      → (score : ℕ) → inputs.cic_score ≡ some score
      → score ≤ 500
      → IsFiring n gate inputs scores rate excluded
  high_rate :
      gate.key ≡ "daily_repayment_rate"
      → n.le (n.literal 30 2) rate ≡ true
      → IsFiring n gate inputs scores rate excluded

ok_bool : (a : Bool) → ok a ≡ ok true → a ≡ true
ok_bool a h = ground arith

kyc_cases :
    (passed : Option Bool) (flags : List String)
    → (not (is_true passed) || ltb 0 (length flags)) ≡ true
    → (passed ≢ some true) ⊎ (flags ≢ [])
kyc_cases none flags h = inl (λ e. absurd (cc))
kyc_cases (some false) flags h = inl (λ e. absurd (cc))
kyc_cases (some true) [] h = absurd (ground arith)
kyc_cases (some true) (f ∷ flags) h = inr (λ e. absurd (cc))

not_passed_ok :
    (passed : Option Bool) (flags : List String)
    → passed ≢ some true
    → (not (is_true passed) || ltb 0 (length flags)) ≡ true
not_passed_ok none flags h = refl
not_passed_ok (some false) flags h = refl
not_passed_ok (some true) flags h = absurd (h refl)

has_fraud_ok :
    (passed : Option Bool) (flags : List String)
    → flags ≢ []
    → (not (is_true passed) || ltb 0 (length flags)) ≡ true
has_fraud_ok passed [] h = absurd (h refl)
has_fraud_ok passed (f ∷ flags) h = ground arith

module _ {F D : Type 0} (n : Numbers F D) (gate : GateParam F) (inputs : GradingInput F D)
    (scores : List (String × Option F)) (rate : F) (excluded : List String) where
  abbrev says : Result Bool
  says = gate_fires n gate inputs scores (some rate) excluded

  is_key : (key : String) → text_eq gate.key key ≡ true → gate.key ≡ key
  is_key key h = (eq_iff gate.key key).0 h

  low_count :
      gate.key ≡ "low_factor_count"
      → (threshold : Option F) → gate.threshold ≡ threshold
      → reaches n threshold (count_below_50 n scores) ≡ true
      → IsFiring n gate inputs scores rate excluded
  unfolding count_below_50
  low_count named none given h = absurd (ground arith)
  low_count named (some t) given h = many_low named t given h

  low_score :
      gate.key ≡ "cic_floor"
      → (score : Option ℕ) → inputs.cic_score ≡ score
      → at_floor score ≡ true
      → IsFiring n gate inputs scores rate excluded
  low_score named none given h = absurd (ground arith)
  low_score named (some s) given h = low_credit named s given (ground arith)

  gate_fires_sound : says ≡ ok true → IsFiring n gate inputs scores rate excluded
  unfolding gate_fires
  gate_fires_sound = elim (Bool-cases (text_eq gate.key "operating_history")) [
    | inl k1 ↦ rw k1 λ h. short_history (is_key _ k1) (ground (arith, ok_bool _ h))
    | inr n1 ↦ elim (Bool-cases (text_eq gate.key "history_vs_term")) [
      | inl k2 ↦ rw (n1, k2) λ h. long_term (is_key _ k2) (ground (arith, ok_bool _ h))
      | inr n2 ↦ elim (Bool-cases (text_eq gate.key "low_factor_count")) [
        | inl k3 ↦ rw (n1, n2, k3) λ h. low_count (is_key _ k3) gate.threshold refl (ok_bool _ h)
        | inr n3 ↦ elim (Bool-cases (text_eq gate.key "first_loan_tenor")) [
          | inl k4 ↦ rw (n1, n2, n3, k4) λ h. absurd (ground arith)
          | inr n4 ↦ elim (Bool-cases (text_eq gate.key "excluded_industry")) [
            | inl k5 ↦ rw (n1, n2, n3, n4, k5) λ h. bad_industry (is_key _ k5) (ok_bool _ h)
            | inr n5 ↦ elim (Bool-cases (text_eq gate.key "kyc_aml")) [
              | inl k6 ↦
                  rw (n1, n2, n3, n4, n5, k6)
                    λ h. elim (kyc_cases inputs.kyc_aml_passed inputs.fraud_flags (ok_bool _ h)) [
                      | inl refused ↦ not_passed (is_key _ k6) refused
                      | inr fraud ↦ has_fraud (is_key _ k6) fraud
                    ]
              | inr n6 ↦ elim (Bool-cases (text_eq gate.key "cic_floor")) [
                | inl k7 ↦
                    rw (n1, n2, n3, n4, n5, n6, k7)
                      λ h. low_score (is_key _ k7) inputs.cic_score refl (ok_bool _ h)
                | inr n7 ↦ elim (Bool-cases (text_eq gate.key "daily_repayment_rate")) [
                  | inl k8 ↦
                      rw (n1, n2, n3, n4, n5, n6, n7, k8) λ h. high_rate (is_key _ k8) (ok_bool _ h)
                  | inr n8 ↦ rw (n1, n2, n3, n4, n5, n6, n7, n8) λ h. absurd (ground arith)
                ]
              ]
            ]
          ]
        ]
      ]
    ]
  ]

  gate_fires_complete : IsFiring n gate inputs scores rate excluded → says ≡ ok true
  unfolding gate_fires count_below_50
  gate_fires_complete (short_history named h) = rw named (ap ok (ground arith))
  gate_fires_complete (long_term named h) = rw named (ap ok (ground arith))
  gate_fires_complete (many_low named t given h) = rw (named, given) (ap ok h)
  gate_fires_complete (bad_industry named h) = rw named (ap ok h)
  gate_fires_complete (not_passed named h) =
      rw named (ap ok (not_passed_ok inputs.kyc_aml_passed inputs.fraud_flags h))
  gate_fires_complete (has_fraud named h) =
      rw named (ap ok (has_fraud_ok inputs.kyc_aml_passed inputs.fraud_flags h))
  gate_fires_complete (low_credit named s given h) = rw (named, given) (ap ok (ground arith))
  gate_fires_complete (high_rate named h) = rw named (ap ok h)

  yes_ok : (r : Result Bool) → says_yes r ≡ true → r ≡ ok true
  yes_ok (ok a) h = ap ok h
  yes_ok (err e) h = absurd (ground arith)

  pub gate_fires_iff : (says_yes says ≡ true) ↔ IsFiring n gate inputs scores rate excluded
  gate_fires_iff = (λ h. gate_fires_sound (yes_ok says h), λ f. ap says_yes (gate_fires_complete f))
