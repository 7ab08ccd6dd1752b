-- ===== src/Scoring/Sector.antt =====
-- app/underwriting/grading/sector_reference.py, and its use by app/underwriting/service.py.
use fund_lok.Prelude.{ℕ, String, Bool, ◌&&◌, ◌||◌, Option, none, some, List, if◌then◌else◌, pos}
use fund_lok.Db.{Result, ok, key_error}
use fund_lok.Underwriting.Numbers.{Numbers, ◌>>=◌, get_text, or_raise}
use fund_lok.Underwriting.Types.{AiScores, ParamSet}
use fund_lok.Scoring.Desk.{Financials}
use fund_lok.Underwriting.Gates.{text_in}
use fund_lok.Underwriting.Engine.{is_set}

pub record SectorRow (F : Type 0) : Type 0 where
  pub regulatory : F
  pub input_cost_vol : F
  pub cyclicality : F
  pub competitor : F
  pub macro : F
  pub uncontrollable : F
  pub cagr_pct : F

pub record SectorReference (F : Type 0) : Type 0 where
  pub sector_reference_version : String
  pub status : String
  pub industries : List (String × SectorRow F)
  pub founder_constant : ℕ

pub record ResolvedSector (F : Type 0) : Type 0 where
  pub ai_scores : AiScores F
  pub sector_cagr_pct : F
  pub sector_reference_version : Option String

module _ {F D : Type 0} (n : Numbers F D) where
  abbrev pub row_scores : SectorRow F → ℕ → AiScores F
  row_scores row founder = record {
    regulatory = some row.regulatory;
    input_cost_vol = some row.input_cost_vol;
    cyclicality = some row.cyclicality;
    competitor = some row.competitor;
    macro = some row.macro;
    uncontrollable = some row.uncontrollable;
    founder = some (n.of_int (pos founder));
  }

  unfoldable pub resolve_sector_inputs : String → SectorReference F → Result (ResolvedSector F)
  resolve_sector_inputs industry reference = do
    row ← or_raise key_error (get_text industry reference.industries)
    ok (record {
      ai_scores = row_scores row reference.founder_constant;
      sector_cagr_pct = row.cagr_pct;
      sector_reference_version = some reference.sector_reference_version;
    })

module _ {A : Type 0} where
  abbrev pub or_else : Option A → Option A → Option A
  or_else none b = b
  or_else (some a) b = some a

  abbrev pub get_or_else : Option A → A → A
  get_or_else none b = b
  get_or_else (some a) b = a

module _ {F : Type 0} where
  -- `scores.update(overrides)`
  abbrev pub updated : AiScores F → AiScores F → AiScores F
  updated scores overrides = record {
    regulatory = or_else overrides.regulatory scores.regulatory;
    input_cost_vol = or_else overrides.input_cost_vol scores.input_cost_vol;
    cyclicality = or_else overrides.cyclicality scores.cyclicality;
    competitor = or_else overrides.competitor scores.competitor;
    macro = or_else overrides.macro scores.macro;
    uncontrollable = or_else overrides.uncontrollable scores.uncontrollable;
    founder = or_else overrides.founder scores.founder;
  }

  -- Whether a dict of scores is not empty.
  abbrev pub has_score : AiScores F → Bool
  has_score s =
      is_set s.regulatory
      || is_set s.input_cost_vol
      || is_set s.cyclicality
      || is_set s.competitor
      || is_set s.macro
      || is_set s.uncontrollable
      || is_set s.founder

module _ {F D : Type 0} (n : Numbers F D) where
  -- `_resolve_sector`; `reference` is what load_sector_reference makes of its file.
  unfoldable pub resolve_sector :
      Result (SectorReference F) → Financials F → ParamSet F → Result (ResolvedSector F)
  unfolding resolve_sector_inputs
  resolve_sector reference financials params =
      let overrides = financials.ai_score_overrides in
      let cagr = financials.sector_cagr_pct_override in
      if has_score overrides && is_set cagr
      then ok (record {
        ai_scores = overrides;
        sector_cagr_pct = get_or_else cagr (n.literal 0 0);
        sector_reference_version = none;
      })
      else if text_in financials.industry params.supported_industries
      then (do
        table ← reference
        resolved ← resolve_sector_inputs n financials.industry table
        ok (record resolved {
          ai_scores = updated resolved.ai_scores overrides;
          sector_cagr_pct = get_or_else cagr resolved.sector_cagr_pct;
        }))
      else ok (record {
        ai_scores = overrides;
        sector_cagr_pct = get_or_else cagr (n.literal 0 0);
        sector_reference_version = none;
      })
