-- ===== src/Scoring/Stored.antt =====
-- The stored inputs of a run stay what they were (app/underwriting/service.py).
use fund_lok.Prelude.{
  ℕ, suc, ◌≤◌, text_eq, ◌≡◌, refl, ap, ◌∙◌, inl, inr, Bool, false, Option, none, some, List, [],
  ◌∷◌, ◌++◌, arith, ◌==◌, if◌then◌else◌, select, update, any_of, Bool-cases, Option-cases, ◌⊎◌,
}
use fund_lok.Db.{Result, Result-cases, LoanApplication, ScoreRun}
use fund_lok.Underwriting.Numbers.{Numbers}
use fund_lok.Underwriting.Types.{ParamSet}
use fund_lok.Scoring.Desk.{Financials, LoanApplicationFinancials, ScoreRunInput, Desk, on_db}
use fund_lok.Scoring.Sector.{SectorReference}
use fund_lok.Scoring.Rates.{takes_effect, set_bank_rate}
use fund_lok.Scoring.Assess.{find_financials, Assessment, input_rows}
use fund_lok.Scoring.Runs.{replaced, upsert_application_financials, start_score_run}
use fund_lok.Scoring.Started.{started, run_of, start_score_run-cases}
use fund_lok.Scoring.Calls.{Call, upserts, sets_rate, scores, approves, waits, step, run}
use fund_lok.Lending.Applications.{find_application}
use fund_lok.Lending.Contracts.{find_score_run, locked, update_run, approve_score_run}
use mathlib.Core.List.{append-nil}

abbrev pub is_run : ℕ → ScoreRun → Bool
is_run h r = r.id == h

abbrev pub is_input : {F : Type 0} → ℕ → ScoreRunInput F → Bool
is_input h r = r.score_run_id == h

abbrev locked_if : ℕ → ℕ → ScoreRun → ScoreRun
locked_if k now r = if is_run k r then locked now r else r

-- A run as it was made, or as an approval left it.
abbrev pub IsRunOf : ScoreRun → ScoreRun → Type 0
IsRunOf origin later = (later ≡ origin) ⊎ ((now : ℕ) × (later ≡ locked now origin))

locked_if-IsRunOf :
    (k now : ℕ) (origin r : ScoreRun) → IsRunOf origin r → IsRunOf origin (locked_if k now r)
locked_if-IsRunOf k now origin r h = elim (Bool-cases (is_run k r)) [
  | inr other ↦ rw other h
  | inl chosen ↦ rw chosen (elim h [
    | inl same ↦ inr (now, ap (locked now) same)
    | inr (earlier, same) ↦ inr (now, ap (locked now) same)
  ])
]

-- The run `h` is there once and has the one row of inputs, and no later id is `h`.
pub record IsStored {F : Type 0} (h : ℕ) (origin : ScoreRun) (row : ScoreRunInput F) (desk : Desk F)
    : Type 0 where
  pub one_input : select (is_input h) desk.inputs ≡ row ∷ []
  pub one_run : (r : ScoreRun) × (select (is_run h) desk.db.score_runs ≡ r ∷ [])
  pub same_run : IsRunOf origin one_run.0
  pub unused : (i : ℕ) → desk.db.draws ≤ i → (desk.db.uuid4 i == h) ≡ false

select-update :
    (h k : ℕ) (f : ScoreRun → ScoreRun) (rows : List ScoreRun)
    → ((x : ScoreRun) → (f x).id ≡ x.id)
    → select (is_run h) (update (is_run k) f rows) ≡ update (is_run k) f (select (is_run h) rows)
select-update h k f [] same = refl
select-update h k f (x ∷ rows) same = ground (arith, same x, select-update h k f rows same)

select-append_other :
    {A : Type 0} (p : A → Bool) (rows : List A) (x : A)
    → p x ≡ false
    → select p (rows ++ (x ∷ [])) ≡ select p rows
select-append_other p [] x other = rw other refl
select-append_other p (y ∷ rows) x other = ground (arith, select-append_other p rows x other)

module _ {F D : Type 0} (n : Numbers F D) (params : ParamSet F) (h : ℕ) (origin : ScoreRun)
    (row : ScoreRunInput F) where
  approve_score_run-IsStored :
      (id : ℕ) (desk : Desk F)
      → IsStored h origin row desk
      → IsStored h origin row (on_db (approve_score_run id) desk).1
  unfolding approve_score_run update_run
  approve_score_run-IsStored id desk s =
      elim (Result-cases (find_score_run id desk.db.score_runs)) [
        | inr (e, failed) ↦ rw failed s
        | inl (none, found) ↦ rw found s
        | inl (some sr, found) ↦ elim (Bool-cases (text_eq sr.status "LOCKED")) [
          | inl done ↦ rw (found, done) s
          | inr open_run ↦ elim (Bool-cases (text_eq sr.status "READY")) [
            | inr other ↦ rw (found, open_run, other) s
            | inl ready ↦
                rw (found, open_run, ready)
                  (record {
                    one_input = s.one_input;
                    one_run = (
                      locked_if sr.id desk.db.clock s.one_run.0,
                      select-update h sr.id (locked desk.db.clock) desk.db.score_runs (λ x. refl)
                          ∙ ap (update (is_run sr.id) (locked desk.db.clock)) s.one_run.1,
                    );
                    same_run = locked_if-IsRunOf sr.id desk.db.clock origin s.one_run.0 s.same_run;
                    unused = s.unused;
                  })
          ]
        ]
      ]

  -- A run that is added has another id.
  add_run-IsStored :
      (run : ScoreRun) (desk after : Desk F)
      → IsStored h origin row desk
      → run.id ≡ desk.db.uuid4 desk.db.draws
      → after.db.score_runs ≡ desk.db.score_runs ++ (run ∷ [])
      → after.db.draws ≡ suc desk.db.draws
      → after.db.uuid4 ≡ desk.db.uuid4
      → select (is_input h) after.inputs ≡ select (is_input h) desk.inputs
      → IsStored h origin row after
  add_run-IsStored run desk after s drawn runs draws uuids inputs = record {
    one_input = inputs ∙ s.one_input;
    one_run = (
      s.one_run.0,
      ap (select (is_run h)) runs
          ∙ select-append_other (is_run h) desk.db.score_runs run
              (rw drawn (s.unused desk.db.draws (omega arith)))
          ∙ s.one_run.1,
    );
    same_run = s.same_run;
    unused = λ i le. rw uuids (s.unused i (omega (arith, draws)));
  }

  other_inputs :
      (id application_id : ℕ) (app : LoanApplication) (a : Assessment F D)
      (rows : List (ScoreRunInput F))
      → (id == h) ≡ false
      → select (is_input h) (rows ++ input_rows n id application_id app a.bank_rate a.source)
        ≡ select (is_input h) rows
  unfolding input_rows
  other_inputs id application_id app a rows other = elim (Option-cases a.source) [
    | inl absent ↦ rw absent (ap (select (is_input h)) (append-nil rows))
    | inr (source, given) ↦ rw given (select-append_other (is_input h) rows _ other)
  ]

  start_score_run-IsStored :
      (reference : Result (SectorReference F)) (application_id : ℕ) (desk : Desk F)
      → IsStored h origin row desk
      → IsStored h origin row (start_score_run n params reference application_id desk).1
  start_score_run-IsStored reference application_id desk s =
      elim (start_score_run-cases n params reference application_id desk) [
        | inl (e, failed) ↦ rw failed s
        | inr (app, a, assessed, done) ↦ rw done (
            add_run-IsStored (run_of n params reference application_id a desk).0 desk
              (started n params reference application_id app a desk) s refl refl refl refl
              (other_inputs (desk.db.uuid4 desk.db.draws) application_id app a desk.inputs
                (s.unused desk.db.draws (omega arith))))
      ]

  replaced-IsStored :
      (application_id : ℕ) (body : Financials F) (found : Option (LoanApplicationFinancials F))
      (desk : Desk F)
      → IsStored h origin row desk
      → IsStored h origin row (replaced application_id body found desk)
  replaced-IsStored application_id body none desk s = record {
    one_input = s.one_input;
    one_run = s.one_run;
    same_run = s.same_run;
    unused = s.unused;
  }
  replaced-IsStored application_id body (some r) desk s = record {
    one_input = s.one_input;
    one_run = s.one_run;
    same_run = s.same_run;
    unused = s.unused;
  }

  upsert-IsStored :
      (application_id : ℕ) (body : Financials F) (desk : Desk F)
      → IsStored h origin row desk
      → IsStored h origin row (upsert_application_financials application_id body desk).1
  unfolding upsert_application_financials
  upsert-IsStored application_id body desk s =
      elim (Result-cases (find_application application_id desk.db.loan_applications)) [
        | inr (e, failed) ↦ rw failed s
        | inl (none, missing) ↦ rw missing s
        | inl (some app, found) ↦
            elim (Result-cases (find_financials application_id desk.financials)) [
              | inr (e, failed) ↦ rw (found, failed) s
              | inl (r, given) ↦ rw (found, given) (replaced-IsStored application_id body r desk s)
            ]
      ]

  set_bank_rate-IsStored :
      (rate_pct effective_from actor_id : ℕ) (desk : Desk F)
      → IsStored h origin row desk
      → IsStored h origin row (set_bank_rate rate_pct effective_from actor_id desk).1
  unfolding set_bank_rate
  set_bank_rate-IsStored rate_pct effective_from actor_id desk s =
      elim (Bool-cases (any_of (takes_effect effective_from) desk.bank_rates)) [
        | inl taken ↦ rw taken (record {
          one_input = s.one_input;
          one_run = s.one_run;
          same_run = s.same_run;
          unused = λ i le. s.unused i (omega arith);
        })
        | inr free ↦ rw free (record {
          one_input = s.one_input;
          one_run = s.one_run;
          same_run = s.same_run;
          unused = λ i le. s.unused i (omega arith);
        })
      ]

  step-IsStored :
      (c : Call F) (desk : Desk F)
      → IsStored h origin row desk
      → IsStored h origin row (step n params c desk)
  unfolding step upsert_application_financials set_bank_rate
  step-IsStored (upserts application_id body) desk s = upsert-IsStored application_id body desk s
  step-IsStored (sets_rate rate_pct effective_from actor_id) desk s =
      set_bank_rate-IsStored rate_pct effective_from actor_id desk s
  step-IsStored (scores reference application_id) desk s =
      start_score_run-IsStored reference application_id desk s
  step-IsStored (approves score_run_id) desk s = approve_score_run-IsStored score_run_id desk s
  step-IsStored (waits t) desk s = record {
    one_input = s.one_input;
    one_run = s.one_run;
    same_run = s.same_run;
    unused = s.unused;
  }

  pub run-IsStored :
      (calls : List (Call F)) (desk : Desk F)
      → IsStored h origin row desk
      → IsStored h origin row (run n params calls desk)
  unfolding run
  run-IsStored [] desk s = s
  run-IsStored (c ∷ calls) desk s =
      run-IsStored calls (step n params c desk) (step-IsStored c desk s)
