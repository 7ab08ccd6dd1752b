-- ===== src/Underwriting/Graded.antt =====
-- What a grade says (app/underwriting/grading/engine.py).
use fund_lok.Prelude.{
  String, text_eq, ◌≡◌, refl, sym, ap, ◌∙◌, subst, ◌↔◌, ◌⊎◌, inl, inr, true, false, not, Option,
  none, some, List, [], ◌∷◌, arith, any_of, All, Option-cases,
}
use fund_lok.Db.{ok, value_error}
use fund_lok.Underwriting.Numbers.{
  Numbers, refuse_if, put_text, bind_ok, ok_injective, refuse_ok, put_text-All,
}
use fund_lok.Underwriting.Types.{
  GradingInput, approved, review, reject, ai_pending, GradingResult, FactorParam, GateParam,
  GroupWeights, ParamSet,
}
use fund_lok.Underwriting.Factors.{score_factor, in_range, score_factors, score_all_factors}
use fund_lok.Underwriting.Pricing.{
  compute_group_premium, premiums_of, grade_terms, compute_rollup, price,
}
use fund_lok.Underwriting.Gates.{ai_score_keys, gate_fires, evaluate_gates, decide, any_missing}
use fund_lok.Underwriting.Engine.{
  insufficient_data_result, graded, validate_inputs, sufficient_months, grade_months, grade_if,
  grade,
}
use fund_lok.Underwriting.Derive.{revenue_y1_decimal, compute_derived}
use fund_lok.Underwriting.Decision.{fires_as, fired_severity}
use fund_lok.Underwriting.Fires.{IsFiring, gate_fires_iff}
use fund_lok.Underwriting.Resolved.{
  AnyOf, any_of-AnyOf, decided, decided_as, all_three, from_three, some_injective, ok_iff,
}
use text.Mathlib.TextEquality.{eq_iff}

module _ {F D : Type 0} (n : Numbers F D) where
  abbrev Scored : List (String × Option F) → Type 0
  Scored = All λ (s : String × Option F). in_range n s.1 ≡ true

  abbrev IsBelow100 : F → Type 0
  IsBelow100 p = n.lt (n.literal 100 0) p ≡ false

  score_factors-Scored :
      (factors : List (FactorParam F)) (inputs : GradingInput F D)
      (derived scores result : List (String × Option F))
      → Scored scores
      → score_factors n factors inputs derived scores ≡ ok result
      → Scored result
  unfolding score_factors
  score_factors-Scored [] inputs derived scores result h done =
      subst Scored (ok_injective scores result done) h
  score_factors-Scored (factor ∷ factors) inputs derived scores result h done =
      let (score, made, rest) = bind_ok (score_factor n factor inputs derived) _ result done in
      let (_, passed, more) =
        bind_ok (refuse_if (not (in_range n score)) value_error) _ result rest in
      score_factors-Scored factors inputs derived (put_text factor.key score scores) result
        (put_text-All (λ s. in_range n s ≡ true) factor.key score scores
          (ground (arith, refuse_ok (not (in_range n score)) value_error)) h)
        more

  premiums_of-below :
      (groups : List (String × GroupWeights F)) (scores : List (String × Option F))
      (premiums result : List (String × F))
      → All (λ (p : String × F). IsBelow100 p.1) premiums
      → premiums_of n groups scores premiums ≡ ok result
      → All (λ (p : String × F). IsBelow100 p.1) result
  unfolding premiums_of
  premiums_of-below [] scores premiums result h done =
      subst (All (λ (p : String × F). IsBelow100 p.1)) (ok_injective premiums result done) h
  premiums_of-below ((name, group) ∷ groups) scores premiums result h done =
      let (premium, made, rest) = bind_ok (compute_group_premium n group scores) _ result done in
      let (_, passed, more) =
        bind_ok (refuse_if (n.lt (n.literal 100 0) premium) value_error) _ result rest in
      premiums_of-below groups scores (put_text name premium premiums) result
        (put_text-All IsBelow100 name premium premiums
          (refuse_ok (n.lt (n.literal 100 0) premium) value_error passed) h)
        more

  -- An enabled gate of the severity fires at the result's own scores and daily repayment rate.
  abbrev pub Applies :
      String → GradingInput F D → ParamSet F → GradingResult F D → GateParam F → Type 0
  Applies severity inputs params r gate =
      (rate : F) × (r.daily_repayment_rate ≡ some rate)
      × (gate.enabled ≡ true)
      × (gate.severity ≡ severity)
      × IsFiring n gate inputs r.factor_scores rate params.excluded_industries

  -- One of the seven scores of the AI is None.
  abbrev pub LacksAiScore : GradingResult F D → Type 0
  LacksAiScore r = any_missing r.factor_scores ai_score_keys ≡ ok true

  -- What holds of the result of an application that was scored.
  pub record IsGraded (inputs : GradingInput F D) (params : ParamSet F) (r : GradingResult F D)
      : Type 0 where
    pub scored : Scored r.factor_scores
    pub below : All (λ (p : String × F). IsBelow100 p.1) r.premiums
    pub has_grade : (g : F) × (r.final_grade ≡ some g)
    pub has_rate : (x : F) × (r.interest_rate_pct ≡ some x)
    pub rejects : (r.decision ≡ reject) ↔ AnyOf (Applies "hard" inputs params r) params.gates
    pub pends :
        (r.decision ≡ ai_pending)
        ↔ ((¬ AnyOf (Applies "hard" inputs params r) params.gates) × LacksAiScore r)
    pub reviews : (r.decision ≡ review) ↔ (
        (¬ AnyOf (Applies "hard" inputs params r) params.gates)
        × (¬ LacksAiScore r)
        × AnyOf (Applies "soft" inputs params r) params.gates)
    pub approves : (r.decision ≡ approved) ↔ (
        (¬ AnyOf (Applies "hard" inputs params r) params.gates)
        × (¬ LacksAiScore r)
        × (¬ AnyOf (Applies "soft" inputs params r) params.gates))

  -- The Boolean test over the configured gates, and what it says of a result.
  applies :
      (severity : String) (inputs : GradingInput F D) (params : ParamSet F) (rate : F)
      (r : GradingResult F D)
      → r.daily_repayment_rate ≡ some rate
      → (any_of
            (fires_as severity (λ gate.
              gate_fires n gate inputs r.factor_scores (some rate) params.excluded_industries))
            params.gates
          ≡ true)
        ↔ AnyOf (Applies severity inputs params r) params.gates
  applies severity inputs params rate r given =
      any_of-AnyOf _ _
        (λ gate. (
          λ h.
              let (enabled, same, said) =
                all_three gate.enabled (text_eq gate.severity severity) _ h in
              (
                rate,
                given,
                enabled,
                (eq_iff gate.severity severity).0 same,
                (gate_fires_iff n gate inputs r.factor_scores rate params.excluded_industries).0
                    said,
              ),
          λ (x, at_x, enabled, same, f).
              from_three gate.enabled (text_eq gate.severity severity) _ enabled
                ((eq_iff gate.severity severity).1 same)
                ((gate_fires_iff n gate inputs r.factor_scores rate params.excluded_industries).1 (
                  subst (λ y. IsFiring n gate inputs r.factor_scores y params.excluded_industries)
                    (some_injective x rate (sym at_x ∙ given)) f)),
        ))
        params.gates

  compute_rollup-below :
      (params : ParamSet F) (scores : List (String × Option F)) (rolled : List (String × F) × F)
      → compute_rollup n params scores ≡ ok rolled
      → All (λ (p : String × F). IsBelow100 p.1) rolled.0
  unfolding compute_rollup
  compute_rollup-below params scores rolled done =
      let (premiums, made, rest) = bind_ok (premiums_of n params.rollup scores []) _ rolled done in
      let (terms, summed, more) =
        bind_ok (grade_terms n params.final_grade premiums) _ rolled rest in
      subst (λ (x : List (String × F) × F). All (λ (p : String × F). IsBelow100 p.1) x.0)
        (ok_injective (premiums, n.total terms) rolled more)
        (premiums_of-below params.rollup scores [] premiums tt made)

  grade_months-IsGraded :
      (inputs : GradingInput F D) (params : ParamSet F) (monthly : List D) (r : GradingResult F D)
      → grade_months n inputs params monthly ≡ ok r
      → IsGraded inputs params r
  unfolding grade_months score_all_factors
  grade_months-IsGraded inputs params monthly r done =
      let (derived, d, rest1) = bind_ok (compute_derived n inputs monthly) _ r done in
      let (scores, s, rest2) = bind_ok (score_all_factors n params inputs derived) _ r rest1 in
      let (rolled, u, rest3) = bind_ok (compute_rollup n params scores) _ r rest2 in
      let (pending, m, rest4) = bind_ok (any_missing scores ai_score_keys) _ r rest3 in
      let (pricing, p, rest5) =
        bind_ok
          (price n rolled.1 inputs.bank_rate_pct inputs.loan_size_vnd inputs.duration_months
            (revenue_y1_decimal n monthly) params)
          _ r rest4 in
      let (fired_gates, g, rest6) =
        bind_ok
          (evaluate_gates
            (λ gate.
              gate_fires n gate inputs scores (some pricing.daily_repayment_rate)
                params.excluded_industries)
            params.gates)
          _ r rest5 in
      let g_r = graded params derived scores rolled.0 rolled.1 pricing fired_gates pending in
      let fires = λ (gate : GateParam F).
        gate_fires n gate inputs scores (some pricing.daily_repayment_rate)
          params.excluded_industries in
      let (rejected, pended, reviewed, accepted) =
        decided_as (decide pending fired_gates) _ pending _ _ (LacksAiScore g_r) _
          (applies "hard" inputs params pricing.daily_repayment_rate g_r refl)
          (ok_iff pending (any_missing scores ai_score_keys) m)
          (applies "soft" inputs params pricing.daily_repayment_rate g_r refl)
          (decided pending _ _ fired_gates
            (fired_severity fires "hard" refl params.gates fired_gates g)
            (fired_severity fires "soft" refl params.gates fired_gates g)) in
      subst (IsGraded inputs params) (ok_injective g_r r rest6) (record {
        scored = score_factors-Scored params.factors inputs derived [] scores tt s;
        below = compute_rollup-below params scores rolled u;
        has_grade = (rolled.1, refl);
        has_rate = (pricing.interest_rate_pct, refl);
        rejects = rejected;
        pends = pended;
        reviews = reviewed;
        approves = accepted;
      })

-- A grade that returns is either the empty result, where the data is insufficient, or comes of the
-- months. Then every factor score lies between 0 and 100 and no premium is above 100, and there is a
-- final grade and an interest rate, also for AI_PENDING. The decision is REJECT exactly if an enabled
-- hard gate applies, whatever the AI's scores; else AI_PENDING exactly if one of these is missing;
-- else REVIEW exactly if an enabled soft gate applies, and APPROVED exactly if none does. `IsFiring`
-- says when a gate applies, key by key, at the result's own scores and daily repayment rate.
pub grade_cases :
    {F D : Type 0} (n : Numbers F D) (inputs : GradingInput F D) (params : ParamSet F)
    (r : GradingResult F D)
    → grade n inputs params ≡ ok r
    → ((sufficient_months n inputs ≡ ok none) × (r ≡ insufficient_data_result params))
      ⊎ ((monthly : List D) × (sufficient_months n inputs ≡ ok (some monthly))
          × IsGraded n inputs params r)
unfolding grade
grade_cases n inputs params r done =
    let (_, valid, rest) = bind_ok (validate_inputs n inputs params) _ r done in
    let (months, found, more) = bind_ok (sufficient_months n inputs) _ r rest in
    elim (Option-cases months) [
      | inl absent ↦ inl (
        found ∙ ap ok absent,
        sym (ok_injective _ r (ap (grade_if n inputs params) (sym absent) ∙ more)),
      )
      | inr (monthly, given) ↦ inr (
        monthly,
        found ∙ ap ok given,
        grade_months-IsGraded n inputs params monthly r
            (ap (grade_if n inputs params) (sym given) ∙ more),
      )
    ]
