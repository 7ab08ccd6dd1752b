-- ===== src/Scoring/InForce.antt =====
-- Which bank rate is in force (app/underwriting/service.py).
use fund_lok.Prelude.{
  ℕ, ◌≡◌, refl, sym, ap, ◌∙◌, subst, inl, inr, Bool, true, false, not, ◌&&◌, ◌||◌, Option, none,
  some, List, [], ◌∷◌, ◌++◌, arith, leb, ◌==◌, if◌then◌else◌, select, any_of, sorted, Bool-cases,
  Option-cases, select-append,
}
use fund_lok.Db.{Result, ok, err, scalars_first}
use fund_lok.Prelude.Sort.{insert_sorted, sorted}
use fund_lok.Underwriting.Numbers.{err-ne-ok}
use fund_lok.Scoring.Desk.{BankRateConfig, Desk}
use fund_lok.Scoring.Rates.{
  later_first, in_force, get_current_bank_rate, takes_effect, set_bank_rate,
}
use mathlib.Core.List.{append-nil}

-- The row with the greatest date.
later_of : BankRateConfig → Option BankRateConfig → Option BankRateConfig
later_of x none = some x
later_of x (some y) = if later_first x y then some x else some y

latest : List BankRateConfig → Option BankRateConfig
unfolding later_of
latest [] = none
latest (x ∷ xs) = later_of x (latest xs)

first-insert_sorted :
    (x : BankRateConfig) (ys : List BankRateConfig)
    → scalars_first (insert_sorted later_first x ys) ≡ later_of x (scalars_first ys)
unfolding insert_sorted later_of
first-insert_sorted x [] = refl
first-insert_sorted x (y ∷ ys) = ground arith

first-sorted : (xs : List BankRateConfig) → scalars_first (sorted later_first xs) ≡ latest xs
unfolding sorted latest
first-sorted [] = refl
first-sorted (x ∷ xs) =
    first-insert_sorted x (sorted later_first xs) ∙ ap (later_of x) (first-sorted xs)

abbrev pub is_from : ℕ → BankRateConfig → Bool
is_from effective_from r = leb effective_from r.effective_from

abbrev some_from : ℕ → Option BankRateConfig → Bool
some_from e none = false
some_from e (some r) = is_from e r

latest_before :
    (e : ℕ) (xs : List BankRateConfig)
    → any_of (is_from e) xs ≡ false
    → some_from e (latest xs) ≡ false
unfolding latest later_of
latest_before e [] before = refl
latest_before e (x ∷ xs) before = elim (Option-cases (latest xs)) [
  | inl empty ↦ rw empty (ground arith)
  | inr (z, found) ↦
      let earlier : some_from e (some z) ≡ false =
        ap (some_from e) (sym found) ∙ latest_before e xs (ground arith) in
      rw found (ground arith)
]

later_of-new :
    (x new : BankRateConfig) (old : Option BankRateConfig) (c : Bool)
    → (x.effective_from == new.effective_from) ≡ false
    → (c ≡ false → some_from new.effective_from old ≡ false)
    → later_of x (if c then old else some new)
      ≡ (if is_from new.effective_from x || c then later_of x old else some new)
unfolding later_of
later_of-new x new old true other quiet = ground arith
later_of-new x new none false other quiet = ground arith
later_of-new x new (some y) false other quiet =
    let earlier : some_from new.effective_from (some y) ≡ false = quiet refl in ground arith

latest-append :
    (xs : List BankRateConfig) (new : BankRateConfig)
    → any_of (takes_effect new.effective_from) xs ≡ false
    → latest (xs ++ (new ∷ []))
      ≡ (if any_of (is_from new.effective_from) xs then latest xs else some new)
unfolding latest
latest-append [] new free = refl
latest-append (x ∷ xs) new free =
    ap (later_of x) (latest-append xs new (ground arith))
    ∙ later_of-new x new (latest xs) (any_of (is_from new.effective_from) xs) (ground arith)
        (latest_before new.effective_from xs)

-- Rows that are selected have no date that no row has.
free-select :
    (e as_of : ℕ) (rows : List BankRateConfig)
    → any_of (takes_effect e) rows ≡ false
    → any_of (takes_effect e) (select (in_force as_of) rows) ≡ false
free-select e as_of [] free = refl
free-select e as_of (x ∷ rows) free = ground (arith, free-select e as_of rows)

current-append :
    (rows : List BankRateConfig) (new : BankRateConfig) (as_of : ℕ)
    → any_of (takes_effect new.effective_from) rows ≡ false
    → get_current_bank_rate (rows ++ (new ∷ [])) as_of ≡ (
        if in_force as_of new
          && not (any_of (is_from new.effective_from) (select (in_force as_of) rows))
        then ok new
        else get_current_bank_rate rows as_of)
unfolding get_current_bank_rate
current-append rows new as_of free =
    let old = select (in_force as_of) rows in
    rw
      (
        first-sorted (select (in_force as_of) (rows ++ (new ∷ []))),
        first-sorted old,
        select-append (in_force as_of) rows (new ∷ []),
      )
      (elim (Bool-cases (in_force as_of new)) [
        | inr later ↦ rw (later, append-nil old) refl
        | inl now ↦
            rw (now, latest-append old new (free-select new.effective_from as_of rows free))
              (elim (Bool-cases (any_of (is_from new.effective_from) old)) [
                | inl some_later ↦ rw some_later refl
                | inr none_later ↦ rw none_later refl
              ])
      ])

-- A rate that was set is in force on the days from its date on that have no later date of another
-- rate at or before them; on all other days the rate in force stays what it was.
pub set_bank_rate-in_force :
    {F : Type 0} (rate_pct effective_from actor_id as_of : ℕ) (row : BankRateConfig)
    (desk after : Desk F)
    → set_bank_rate rate_pct effective_from actor_id desk ≡ (ok row, after)
    → get_current_bank_rate after.bank_rates as_of ≡ (
        if leb effective_from as_of
          && not (any_of (is_from effective_from) (select (in_force as_of) desk.bank_rates))
        then ok row
        else get_current_bank_rate desk.bank_rates as_of)
unfolding set_bank_rate
set_bank_rate-in_force {F} rate_pct effective_from actor_id as_of row desk after =
    elim (Bool-cases (any_of (takes_effect effective_from) desk.bank_rates)) [
      | inl taken ↦ rw taken λ done. absurd (err-ne-ok (ap (λ x. x.0) done))
      | inr free ↦ rw free λ done. subst Holds done (
          current-append desk.bank_rates
            (record {
              id = desk.db.uuid4 desk.db.draws;
              rate_pct = rate_pct;
              effective_from = effective_from;
              created_by_actor_id = actor_id;
            })
            as_of free)
    ]
  where
    Holds : Result BankRateConfig × Desk F → Type 0
    Holds (err e, later) = Unit {0}
    Holds (ok r, later) = get_current_bank_rate later.bank_rates as_of ≡ (
        if leb effective_from as_of
          && not (any_of (is_from effective_from) (select (in_force as_of) desk.bank_rates))
        then ok r
        else get_current_bank_rate desk.bank_rates as_of)
