-- ===== src/Underwriting/Decision.antt =====
-- The decision of `grade` (app/underwriting/grading/engine.py), read off the configured gates.
use fund_lok.Prelude.{
  String, text_eq, ◌≡◌, refl, ap, ◌∙◌, subst, ◌↔◌, inl, inr, Bool, true, false, ◌&&◌, ◌||◌, List,
  [], ◌∷◌, arith, if◌then◌else◌, any_of, Bool-cases,
}
use fund_lok.Db.{Result, ok, err, Result-cases}
use fund_lok.Underwriting.Gates.{is_skipped, fired, cons_if, evaluate_gates, has_severity, decide}
use fund_lok.Underwriting.Types.{GateResult, approved, reject, GateParam}
use text.Mathlib.TextEquality.{eq_iff}

abbrev pub says_yes : Result Bool → Bool
says_yes (err e) = false
says_yes (ok c) = c

-- An enabled gate of the severity fires.
abbrev pub fires_as : {F : Type 0} → String → (GateParam F → Result Bool) → GateParam F → Bool
fires_as severity fires gate =
    gate.enabled && text_eq gate.severity severity && says_yes (fires gate)

not_none :
    {F : Type 0} (severity : String) (gate : GateParam F)
    → text_eq severity "none" ≡ false
    → text_eq gate.severity severity ≡ true
    → text_eq gate.severity "none" ≡ false
not_none severity gate other same =
    ap (λ t. text_eq t "none") ((eq_iff gate.severity severity).0 same) ∙ other

cons_if_ok :
    {F : Type 0} (c : Bool) (gate : GateParam F) (rest : List GateResult)
    → cons_if (ok c) gate (ok rest) ≡ ok (if c then fired gate ∷ rest else rest)
cons_if_ok true gate rest = refl
cons_if_ok false gate rest = refl

results_injective : (a b : List GateResult) → ok a ≡ ok b → a ≡ b
results_injective a b h = ground arith

asked_severity :
    {F : Type 0} (severity : String) (gate : GateParam F) (c b : Bool) (rest : List GateResult)
    → is_skipped gate ≡ false
    → any_of (has_severity severity) rest ≡ b
    → any_of (has_severity severity) (if c then fired gate ∷ rest else rest)
      ≡ (gate.enabled && text_eq gate.severity severity && c || b)
asked_severity severity gate true b rest asked same = ground arith
asked_severity severity gate false b rest asked same = ground arith

module _ {F : Type 0} (fires : GateParam F → Result Bool) (severity : String)
    (other : text_eq severity "none" ≡ false) where
  skipped_quiet :
      (gate : GateParam F) → is_skipped gate ≡ true → fires_as severity fires gate ≡ false
  skipped_quiet gate skipped = ground (arith, not_none severity gate other)

  pub fired_severity :
      (gates : List (GateParam F)) (results : List GateResult)
      → evaluate_gates fires gates ≡ ok results
      → any_of (has_severity severity) results ≡ any_of (fires_as severity fires) gates
  unfolding evaluate_gates
  fired_severity [] results = λ done. ground arith
  fired_severity (gate ∷ gates) results = elim (Result-cases (evaluate_gates fires gates)) [
    | inr (e, failed) ↦ elim (Result-cases (fires gate)) [
      | inr (e', refused) ↦ elim (Bool-cases (is_skipped gate)) [
        | inl skipped ↦ rw (failed, skipped) λ done. absurd (ground arith)
        | inr asked ↦ rw (failed, asked, refused) λ done. absurd (ground arith)
      ]
      | inl (c, said) ↦ elim (Bool-cases (is_skipped gate)) [
        | inl skipped ↦ rw (failed, skipped) λ done. absurd (ground arith)
        | inr asked ↦ rw (failed, asked, said) λ done. absurd (ground arith)
      ]
    ]
    | inl (rest, passed) ↦ elim (Bool-cases (is_skipped gate)) [
      | inl skipped ↦
          rw (passed, skipped)
            λ done.
              subst
                (λ r.
                  any_of (has_severity severity) r
                  ≡ any_of (fires_as severity fires) (gate ∷ gates))
                (results_injective rest results done)
                (rw (skipped_quiet gate skipped) (fired_severity gates rest passed))
      | inr asked ↦ elim (Result-cases (fires gate)) [
        | inr (e, refused) ↦ rw (passed, asked, refused) λ done. absurd (ground arith)
        | inl (c, said) ↦
            rw (passed, asked, said, cons_if_ok c gate rest)
              λ done.
                subst
                  (λ r. any_of (has_severity severity) r ≡ (
                    gate.enabled && text_eq gate.severity severity && c
                    || any_of (fires_as severity fires) gates))
                  (results_injective _ results done)
                  (asked_severity severity gate c _ rest asked (fired_severity gates rest passed))
      ]
    ]
  ]

decided :
    (pending hard soft : Bool) (results : List GateResult)
    → any_of (has_severity "hard") results ≡ hard
    → any_of (has_severity "soft") results ≡ soft
    → ((decide pending results ≡ reject) ↔ (hard ≡ true))
      × ((decide pending results ≡ approved)
          ↔ ((hard ≡ false) × (pending ≡ false) × (soft ≡ false)))
unfolding decide
decided pending hard soft results h s = ground arith

-- If no gate raises, an application is rejected exactly where an enabled hard gate fires, whether or
-- not a score of the AI is pending, and approved exactly where no enabled hard or soft gate fires
-- and none is pending.
pub decide_iff :
    {F : Type 0} (fires : GateParam F → Result Bool) (gates : List (GateParam F)) (pending : Bool)
    (results : List GateResult)
    → evaluate_gates fires gates ≡ ok results
    → ((decide pending results ≡ reject) ↔ (any_of (fires_as "hard" fires) gates ≡ true))
      × ((decide pending results ≡ approved) ↔ (
          (any_of (fires_as "hard" fires) gates ≡ false)
          × (pending ≡ false)
          × (any_of (fires_as "soft" fires) gates ≡ false)))
decide_iff fires gates pending results done =
    decided pending _ _ results (fired_severity fires "hard" refl gates results done)
      (fired_severity fires "soft" refl gates results done)
