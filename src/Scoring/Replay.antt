-- ===== src/Scoring/Replay.antt =====
-- A replay of a stored score run (app/underwriting/service.py).
use fund_lok.Prelude.{
  ℕ, ◌<◌, ◌≡◌, refl, sym, ap, ◌∙◌, subst, inl, inr, Bool, true, false, some, List, [], ◌∷◌, ◌++◌,
  arith, ◌==◌, select, ℤ, Bool-cases, ==_self, select-append,
}
use fund_lok.Db.{Result, ok, err, value_error, Result-cases, LoanApplication, ScoreRun}
use fund_lok.Underwriting.Numbers.{Numbers, ok_injective, err-ne-ok}
use fund_lok.Underwriting.Types.{GradingResult, ParamSet}
use fund_lok.Underwriting.Engine.{graded, grade}
use fund_lok.Scoring.Desk.{BankRateConfig, LoanApplicationFinancials, ScoreRunInput, Desk}
use fund_lok.Scoring.Sector.{SectorReference, ResolvedSector, resolve_sector}
use fund_lok.Scoring.Rates.{get_current_bank_rate}
use fund_lok.Scoring.Inputs.{rate_float, build_grading_input, stored_input, replayed_input}
use fund_lok.Scoring.Assess.{
  find_financials, find_input, date_of, Assessment, as_422, input_rows, grade_financials, assess,
}
use fund_lok.Scoring.Runs.{find_run, start_score_run, replay_score_run}
use fund_lok.Scoring.Started.{started, run_of, start_score_run-cases}
use fund_lok.Scoring.Calls.{Call, run}
use fund_lok.Scoring.Stored.{IsRunOf, is_run, is_input, IsStored, run-IsStored}
use fund_lok.Lending.Contracts.{find_score_run}
use fund_lok.Lending.Rows.{scalar_one}

as_422_ok : {A : Type 0} (r : Result A) (a : A) → as_422 r ≡ ok a → r ≡ ok a
as_422_ok (ok b) a h = h
as_422_ok (err value_error) a h = absurd (ground arith)
as_422_ok (err e) a h = h

found_application :
    {F : Type 0} (application_id : ℕ) (rows : List (LoanApplicationFinancials F))
    (row : LoanApplicationFinancials F)
    → find_financials application_id rows ≡ ok (some row)
    → row.application_id ≡ application_id
unfolding find_financials
found_application application_id [] row found = absurd (ground arith)
found_application {F} application_id (x ∷ rows) row found =
    elim (Bool-cases (x.application_id == application_id)) [
      | inr other ↦ found_application application_id rows row (ground arith)
      | inl same ↦
          let (head, tail) =
            scalar_one x row
              (select (λ (r : LoanApplicationFinancials F). r.application_id == application_id)
                rows)
              (ground arith) in
          ground (arith, ap (λ (r : LoanApplicationFinancials F). r.application_id) head)
    ]

last_one :
    {A : Type 0} (p : A → Bool) (rows : List A) (x : A)
    → select p rows ≡ []
    → p x ≡ true
    → select p (rows ++ (x ∷ [])) ≡ x ∷ []
last_one p rows x absent holds = select-append p rows (x ∷ []) ∙ rw (absent, holds) refl

-- No run and no inputs have the next id, which is not drawn again.
pub record IsFresh {F : Type 0} (desk : Desk F) : Type 0 where
  pub no_input : select (is_input (desk.db.uuid4 desk.db.draws)) desk.inputs ≡ []
  pub no_run : select (is_run (desk.db.uuid4 desk.db.draws)) desk.db.score_runs ≡ []
  pub unused :
      (i : ℕ) → desk.db.draws < i → (desk.db.uuid4 i == desk.db.uuid4 desk.db.draws) ≡ false

module _ {F D : Type 0} (n : Numbers F D) (params : ParamSet F) where
  replay_stored :
      (h : ℕ) (origin : ScoreRun) (row : ScoreRunInput F) (desk : Desk F)
      (result : GradingResult F D) (s : IsStored h origin row desk)
      → grade n (replayed_input n row) params ≡ ok result
      → (replay_score_run n params h desk).0 ≡ ok (s.one_run.0, result)
  unfolding replay_score_run find_run find_score_run find_input
  replay_stored h origin row desk result s graded = rw (s.one_run.1, s.one_input, graded) refl

  -- The row that is stored gives back the input that was graded.
  replayed-stored :
      (h application_id : ℕ) (row : LoanApplicationFinancials F) (amount : ℤ)
      (bank : BankRateConfig) (sector : ResolvedSector F)
      → row.application_id ≡ application_id
      → replayed_input n (stored_input n h application_id row.columns amount bank sector)
        ≡ build_grading_input n row amount (rate_float n bank.rate_pct) sector
  unfolding replayed_input stored_input build_grading_input
  replayed-stored h application_id row amount bank sector same =
      subst
        (λ (k : ℕ).
          replayed_input n (stored_input n h k row.columns amount bank sector)
          ≡ build_grading_input n row amount (rate_float n bank.rate_pct) sector)
        same refl

  module _ (reference : Result (SectorReference F)) (application_id : ℕ) where
    abbrev Source : LoanApplicationFinancials F → LoanApplication → Assessment F D → Type 0
    Source row app a =
        (sector : ResolvedSector F) × (a.source ≡ some (row.columns, sector))
        × (grade n
              (build_grading_input n row app.requested_amount (rate_float n a.bank_rate.rate_pct)
                sector)
              params
            ≡ ok a.result)

    grade_financials-Source :
        (app : LoanApplication) (bank : BankRateConfig) (row : LoanApplicationFinancials F)
        (a : Assessment F D)
        → grade_financials n params reference app bank (some row) ≡ ok a
        → Source row app a
    unfolding grade_financials
    grade_financials-Source app bank row a =
        elim (Result-cases (resolve_sector n reference row.columns params)) [
          | inr (e, failed) ↦ rw failed λ done. absurd (ground arith)
          | inl (sector, resolved) ↦
              elim (Result-cases (
                as_422 (
                  grade n
                    (build_grading_input n row app.requested_amount (rate_float n bank.rate_pct)
                      sector)
                    params))) [
                      | inr (e, failed) ↦ rw (resolved, failed) λ done. absurd (ground arith)
                      | inl (result, graded) ↦
                          rw (resolved, graded)
                            λ done.
                              subst (Source row app) (ok_injective _ a done)
                                (sector, refl, as_422_ok _ result graded)
                    ]
        ]

    assess-Source :
        (desk : Desk F) (app : LoanApplication) (a : Assessment F D)
        (row : LoanApplicationFinancials F)
        → find_financials application_id desk.financials ≡ ok (some row)
        → assess n params reference application_id desk app ≡ ok a
        → Source row app a
    unfolding assess
    assess-Source desk app a row found =
        elim (Result-cases (get_current_bank_rate desk.bank_rates (date_of desk.db.clock))) [
          | inr (e, failed) ↦ rw failed λ done. absurd (ground arith)
          | inl (bank, given) ↦
              rw (given, found) λ done. grade_financials-Source app bank row a done
        ]

    started-IsStored :
        (desk : Desk F) (app : LoanApplication) (a : Assessment F D)
        (row : LoanApplicationFinancials F) (sector : ResolvedSector F)
        → IsFresh desk
        → a.source ≡ some (row.columns, sector)
        → IsStored
            (desk.db.uuid4 desk.db.draws)
            (run_of n params reference application_id a desk).0
            (stored_input n
              (desk.db.uuid4 desk.db.draws)
              application_id
              row.columns
              app.requested_amount
              a.bank_rate
              sector)
            (started n params reference application_id app a desk)
    unfolding input_rows stored_input
    started-IsStored desk app a row sector fresh given =
        let h = desk.db.uuid4 desk.db.draws in
        record {
          one_input = rw given (last_one (is_input h) desk.inputs _ fresh.no_input (==_self h));
          one_run = (
            (run_of n params reference application_id a desk).0,
            last_one (is_run h) desk.db.score_runs _ fresh.no_run (==_self h),
          );
          same_run = inl refl;
          unused = λ i le. fresh.unused i (omega arith);
        }

    -- What a replay finds after the run that has returned.
    abbrev Replays : List (Call F) → Result (ScoreRun × GradingResult F D) × Desk F → Type 0
    Replays calls (err e, desk) = Unit {0}
    Replays calls (ok (sr, result), desk) =
        (later : ScoreRun) × IsRunOf sr later
        × ((replay_score_run n params sr.id (run n params calls desk)).0 ≡ ok (later, result))

    replay_started :
        (calls : List (Call F)) (desk : Desk F) (app : LoanApplication) (a : Assessment F D)
        (row : LoanApplicationFinancials F)
        → IsFresh desk
        → find_financials application_id desk.financials ≡ ok (some row)
        → Source row app a
        → Replays calls (
          ok (run_of n params reference application_id a desk),
          started n params reference application_id app a desk,
        )
    replay_started calls desk app a row fresh found (sector, given, graded) =
        let h = desk.db.uuid4 desk.db.draws in
        let after = started n params reference application_id app a desk in
        let origin = (run_of n params reference application_id a desk).0 in
        let stored =
          stored_input n h application_id row.columns app.requested_amount a.bank_rate sector in
        let kept : IsStored h origin stored (run n params calls after) =
          run-IsStored n params h origin stored calls after
            (started-IsStored desk app a row sector fresh given) in
        (
          kept.one_run.0,
          kept.same_run,
          replay_stored h origin stored (run n params calls after) a.result kept (
              ap (λ i. grade n i params)
                (replayed-stored h application_id row app.requested_amount a.bank_rate sector
                  (found_application application_id desk.financials row found))
              ∙ graded),
        )

-- A run of an application with financials that has returned can be replayed under the same grading
-- parameters: after any financials, bank rates, runs and approvals that follow, whatever becomes of
-- the sector table, a replay under the run's id returns the grade that the run was given, with the
-- run as it was made or, if it was approved since, with its status LOCKED and the time of that and
-- no other change. No run may have had its id and no later one may get it.
pub replay_score_run-start :
    {F D : Type 0} (n : Numbers F D) (params : ParamSet F) (reference : Result (SectorReference F))
    (application_id : ℕ) (row : LoanApplicationFinancials F) (sr : ScoreRun)
    (result : GradingResult F D) (desk after : Desk F) (calls : List (Call F))
    → IsFresh desk
    → find_financials application_id desk.financials ≡ ok (some row)
    → start_score_run n params reference application_id desk ≡ (ok (sr, result), after)
    → (later : ScoreRun) × IsRunOf sr later
      × ((replay_score_run n params sr.id (run n params calls after)).0 ≡ ok (later, result))
replay_score_run-start n params reference application_id row sr result desk after calls fresh found
      done =
    elim (start_score_run-cases n params reference application_id desk) [
      | inl (e, failed) ↦ absurd (err-ne-ok (ap (λ x. x.0) (sym failed ∙ done)))
      | inr (app, a, assessed, returned) ↦
          subst (Replays n params reference application_id calls) (sym returned ∙ done) (
            replay_started n params reference application_id calls desk app a row fresh found
              (assess-Source n params reference application_id desk app a row found assessed))
    ]
