-- ===== src/Underwriting/Tests.antt =====
-- The configured gates on a sample application (app/underwriting/grading/gates.py).
use fund_lok.Prelude.{
  ℕ, ◌+◌, ◌-◌, ◌*◌, ◌/◌, ◌^◌, ◌≡◌, refl, ◌↔◌, Bool, true, false, none, some, List, [], ◌∷◌, ltb,
  leb, ◌==◌, if◌then◌else◌, length, any_of, sum_by, pos_part,
}
use fund_lok.Db.{Result, ok, err, key_error, zero_division}
use fund_lok.Underwriting.Gates.{ai_score_keys, gate_fires, evaluate_gates, decide, any_missing}
use fund_lok.Underwriting.Decision.{fires_as, decide_iff}
use fund_lok.Underwriting.Numbers.{Numbers}
use fund_lok.Underwriting.Types.{no_scores, GradingInput, GateResult, approved, reject, GateParam}

-- Whole numbers in place of floats and decimals.
abbrev whole : Numbers ℕ ℕ
whole = record {
  literal = λ m k. m / 10 ^ k;
  minus = λ x. 0;
  add = λ x y. x + y;
  sub = λ x y. x - y;
  mul = λ x y. x * y;
  div = λ x y. quotient x y;
  lt = ltb;
  le = leb;
  same = λ x y. x == y;
  exp = λ x. ok x;
  pow = λ x k. ok (x ^ k);
  infinity = 0;
  is_inf = λ x. false;
  total = λ xs. sum_by (λ x. x) xs;
  mean = λ xs. sum_by (λ x. x) xs / length xs;
  pstdev = λ xs. 0;
  of_int = pos_part;
  decimal = pos_part;
  decimal_of = λ x. x;
  to_float = λ x. x;
  add_dec = λ x y. x + y;
  mul_dec = λ x y. x * y;
  div_dec = λ x y. quotient x y;
  le_dec = leb;
  lt_dec = ltb;
  same_dec = λ x y. x == y;
}
  where
    quotient : ℕ → ℕ → Result ℕ
    quotient x y = if y == 0 then err zero_division else ok (x / y)

abbrev gates : List (GateParam ℕ)
gates =
    record {
      id = 1;
      key = "operating_history";
      severity = "soft";
      enabled = true;
      threshold = none;
    }
    ∷ record {
      id = 3;
      key = "low_factor_count";
      severity = "soft";
      enabled = false;
      threshold = some 2;
    }
    ∷ record {
      id = 5;
      key = "excluded_industry";
      severity = "hard";
      enabled = true;
      threshold = none;
    }
    ∷ record { id = 6; key = "kyc_aml"; severity = "hard"; enabled = true; threshold = none }
    ∷ []

abbrev brewer : GradingInput ℕ ℕ
brewer = record {
  company_code = "";
  industry = "alcohol";
  company_size = "small";
  loan_size_vnd = 600;
  duration_months = 6;
  operating_months = 12;
  monthly_revenue = [];
  cogs_y1 = 0;
  fixed_cost_y1 = 0;
  variable_cost_excl_cogs_y1 = 0;
  conc_top1_pct = none;
  conc_top3_pct = none;
  crr = none;
  rri = none;
  tcp = none;
  sector_cagr_pct = 0;
  ai_scores = no_scores;
  owner_withdrawal = none;
  cic_score = some 600;
  kyc_aml_passed = some true;
  fraud_flags = [];
  bank_rate_pct = 12;
}

abbrev fires : GateParam ℕ → Result Bool
fires gate = gate_fires whole gate brewer (("macro", some 70) ∷ []) none ("alcohol" ∷ [])

abbrev found : List GateResult
found =
    record { id = 1; key = "operating_history"; severity = "soft" }
    ∷ record { id = 5; key = "excluded_industry"; severity = "hard" }
    ∷ []

decide_iff_example :
    ((decide true found ≡ reject) ↔ (any_of (fires_as "hard" fires) gates ≡ true))
    × ((decide true found ≡ approved) ↔ (
        (any_of (fires_as "hard" fires) gates ≡ false)
        × (true ≡ false)
        × (any_of (fires_as "soft" fires) gates ≡ false)))
unfolding evaluate_gates gate_fires
decide_iff_example = decide_iff fires gates true found refl

-- A score that is not there is pending, one whose key is unknown raises.
pending :
    any_missing {F = ℕ} (("regulatory", some 3) ∷ ("input_cost_vol", none) ∷ []) ai_score_keys
    ≡ ok true
pending = refl

unknown_key : any_missing {F = ℕ} (("regulatory", some 3) ∷ []) ai_score_keys ≡ err key_error
unknown_key = refl
