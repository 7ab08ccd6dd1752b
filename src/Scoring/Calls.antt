-- ===== src/Scoring/Calls.antt =====
-- The calls of app/underwriting/service.py that write, in any order. The sector table may change
-- between two runs.
use fund_lok.Prelude.{ℕ, ◌+◌, List, [], ◌∷◌}
use fund_lok.Db.{Result}
use fund_lok.Underwriting.Numbers.{Numbers}
use fund_lok.Underwriting.Types.{ParamSet}
use fund_lok.Scoring.Desk.{Financials, Desk, on_db}
use fund_lok.Scoring.Sector.{SectorReference}
use fund_lok.Scoring.Rates.{set_bank_rate}
use fund_lok.Scoring.Runs.{upsert_application_financials, start_score_run}
use fund_lok.Lending.Contracts.{approve_score_run}

pub data Call (F : Type 0) : Type 0 where
  upserts : ℕ → Financials F → Call F
  sets_rate : ℕ → ℕ → ℕ → Call F
  scores : Result (SectorReference F) → ℕ → Call F
  approves : ℕ → Call F
  waits : ℕ → Call F

module _ {F D : Type 0} (n : Numbers F D) (params : ParamSet F) where
  unfoldable pub step : Call F → Desk F → Desk F
  unfolding upsert_application_financials set_bank_rate start_score_run approve_score_run
  step (upserts application_id body) desk =
      (upsert_application_financials application_id body desk).1
  step (sets_rate rate_pct effective_from actor_id) desk =
      (set_bank_rate rate_pct effective_from actor_id desk).1
  step (scores reference application_id) desk =
      (start_score_run n params reference application_id desk).1
  step (approves score_run_id) desk = (on_db (approve_score_run score_run_id) desk).1
  step (waits t) desk = record desk { db = record desk.db { clock = desk.db.clock + t } }

  unfoldable pub run : List (Call F) → Desk F → Desk F
  unfolding step
  run [] desk = desk
  run (c ∷ calls) desk = run calls (step c desk)
