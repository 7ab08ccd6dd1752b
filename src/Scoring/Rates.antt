-- ===== src/Scoring/Rates.antt =====
-- The bank rate in force (app/underwriting/service.py). Dates are ordinals.
use fund_lok.Prelude.{
  ℕ, Bool, List, [], ◌∷◌, ◌++◌, leb, ◌==◌, if◌then◌else◌, select, any_of, sorted,
}
use fund_lok.Db.{http, Result, ok, err, new_id, require, scalars_first, integrity}
use fund_lok.Scoring.Desk.{BankRateConfig, Work, on_db, reads, change, ◌>>=◌, ◌>>◌}

-- `ORDER BY effective_from DESC`
abbrev pub later_first : BankRateConfig → BankRateConfig → Bool
later_first a b = leb b.effective_from a.effective_from

abbrev pub in_force : ℕ → BankRateConfig → Bool
in_force as_of row = leb row.effective_from as_of

unfoldable pub get_current_bank_rate : List BankRateConfig → ℕ → Result BankRateConfig
get_current_bank_rate rows as_of =
    require (scalars_first (sorted later_first (select (in_force as_of) rows)))
      (http 500 "no bank_rate_config row is in force -- config error, not a valid state")

abbrev pub takes_effect : ℕ → BankRateConfig → Bool
takes_effect effective_from row = row.effective_from == effective_from

module _ {F : Type 0} where
  -- `effective_from` is unique.
  unfoldable pub set_bank_rate : ℕ → ℕ → ℕ → Work F BankRateConfig
  set_bank_rate rate_pct effective_from actor_id = do
    id ← on_db new_id
    let row : BankRateConfig = record {
      id = id;
      rate_pct = rate_pct;
      effective_from = effective_from;
      created_by_actor_id = actor_id;
    }
    reads (λ desk.
        if any_of (takes_effect effective_from) desk.bank_rates then err integrity else ok tt)
    change (λ desk. record desk { bank_rates = desk.bank_rates ++ (row ∷ []) })
    λ desk. (ok row, desk)
