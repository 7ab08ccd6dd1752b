-- ===== src/Ledger/PassThrough.antt =====
-- The pass-through check of `post_transaction` against what it means: an account that several legs
-- touch nets to zero.
use fund_lok.Prelude.{
  ℕ, ◌+◌, ◌<◌, ◌≡◌, refl, ◌∙◌, ◌↔◌, List, [], ◌∷◌, arith, ◌==◌, if◌then◌else◌, ℤ, pos, ◌+ℤ◌, ◌-ℤ◌,
  int_laws, eq_ℤ→≡, Dict, get_or, insert, lookup-insert, HasDistinctKeys, insert-HasDistinctKeys,
  Bool-cases, inl, inr, ==_iff,
}
use fund_lok.Db.{ok}
use fund_lok.Ledger.Chart.{LedgerLeg}
use fund_lok.Ledger.Checks.{Tally, tally_leg, tally_from, check_touches, check_pass_through}

-- What one leg, and a list of legs, moves into an account.
abbrev pub leg_moves : ℕ → LedgerLeg → ℤ
leg_moves a leg =
    (if leg.credit_account_id == a then leg.amount else pos 0)
    -ℤ (if leg.debit_account_id == a then leg.amount else pos 0)

abbrev pub net_of : ℕ → List LedgerLeg → ℤ
net_of a [] = pos 0
net_of a (leg ∷ legs) = leg_moves a leg +ℤ net_of a legs

-- How often the legs name an account, on either side.
abbrev pub leg_touches : ℕ → LedgerLeg → ℕ
leg_touches a leg =
    (if leg.debit_account_id == a then 1 else 0) + (if leg.credit_account_id == a then 1 else 0)

abbrev pub touches_of : ℕ → List LedgerLeg → ℕ
touches_of a [] = 0
touches_of a (leg ∷ legs) = leg_touches a leg + touches_of a legs

abbrev pub NetsToZero : List LedgerLeg → Type 0
NetsToZero legs = (a : ℕ) → 1 < touches_of a legs → net_of a legs ≡ pos 0

get_or-insert {ℓ} :
    {V : Type ℓ} (d : Dict V) (k j : ℕ) (v u : V)
    → get_or (insert k v d) j u ≡ (if k == j then v else get_or d j u)
get_or-insert d k j v u = ground (arith, lookup-insert k j v d)

-- A leg's amount moves out of its debit account and into its credit account.
net-tally_leg :
    (t : Tally) (leg : LedgerLeg) (a : ℕ)
    → get_or (tally_leg t leg).net a (pos 0) ≡ get_or t.net a (pos 0) +ℤ leg_moves a leg
unfolding tally_leg
net-tally_leg t leg a = simp get_or-insert (grind int_laws)

touches-tally_leg :
    (t : Tally) (leg : LedgerLeg) (a : ℕ)
    → get_or (tally_leg t leg).touches a 0 ≡ get_or t.touches a 0 + leg_touches a leg
unfolding tally_leg
touches-tally_leg t leg a = simp get_or-insert (grind arith)

net-tally_from :
    (t : Tally) (legs : List LedgerLeg) (a : ℕ)
    → get_or (tally_from t legs).net a (pos 0) ≡ get_or t.net a (pos 0) +ℤ net_of a legs
unfolding tally_from
net-tally_from t [] a = omega int_laws
net-tally_from t (leg ∷ legs) a =
    rw (net-tally_from (tally_leg t leg) legs a, net-tally_leg t leg a) (omega int_laws)

touches-tally_from :
    (t : Tally) (legs : List LedgerLeg) (a : ℕ)
    → get_or (tally_from t legs).touches a 0 ≡ get_or t.touches a 0 + touches_of a legs
unfolding tally_from
touches-tally_from t [] a = omega arith
touches-tally_from t (leg ∷ legs) a =
    omega (arith, touches-tally_from (tally_leg t leg) legs a, touches-tally_leg t leg a)

tally_from-HasDistinctKeys :
    (t : Tally) (legs : List LedgerLeg)
    → HasDistinctKeys t.touches
    → HasDistinctKeys (tally_from t legs).touches
unfolding tally_from tally_leg
tally_from-HasDistinctKeys t [] h = h
tally_from-HasDistinctKeys t (leg ∷ legs) h =
    tally_from-HasDistinctKeys (tally_leg t leg) legs
      (insert-HasDistinctKeys _ _ _ (insert-HasDistinctKeys _ _ _ h))

-- The loop over `touches.items()` passes exactly if each entry with a count over 1 has net 0.
check_touches_sound :
    (net : Dict ℤ) (touches : Dict ℕ) (a : ℕ)
    → check_touches net touches ≡ ok tt
    → 1 < get_or touches a 0
    → get_or net a (pos 0) ≡ pos 0
unfolding check_touches
check_touches_sound net [] a h lt = absurd (omega arith)
check_touches_sound net ((k, c) ∷ items) a h lt = elim (Bool-cases (k == a)) [
  | inl same ↦ rw (← (==_iff k a).0 same) (eq_ℤ→≡ (get_or net k (pos 0)) (pos 0) (ground arith))
  | inr other ↦ check_touches_sound net items a (ground arith) (ground arith)
]

check_touches_complete :
    (net : Dict ℤ) (touches : Dict ℕ)
    → HasDistinctKeys touches
    → ((a : ℕ) → 1 < get_or touches a 0 → get_or net a (pos 0) ≡ pos 0)
    → check_touches net touches ≡ ok tt
unfolding check_touches
check_touches_complete net [] d h = refl
check_touches_complete net ((k, c) ∷ items) d h =
    ground (arith, h k, check_touches_complete net items d.1 later)
  where
    later : (a : ℕ) → 1 < get_or items a 0 → get_or net a (pos 0) ≡ pos 0
    later a lt = h a (ground (arith, d.0))

-- The pass-through check accepts the legs exactly if every account that they touch more than once
-- receives as much as it pays out.
pub check_pass_through_iff :
    (legs : List LedgerLeg) → (check_pass_through legs ≡ ok tt) ↔ NetsToZero legs
unfolding check_pass_through
check_pass_through_iff legs = (sound, complete)
  where
    start : Tally
    start = record { net = []; touches = [] }

    net_lem : (a : ℕ) → get_or (tally_from start legs).net a (pos 0) ≡ net_of a legs
    net_lem a = net-tally_from start legs a ∙ omega int_laws

    touches_lem : (a : ℕ) → get_or (tally_from start legs).touches a 0 ≡ touches_of a legs
    touches_lem a = touches-tally_from start legs a ∙ omega arith

    sound :
        check_touches (tally_from start legs).net (tally_from start legs).touches ≡ ok tt
        → NetsToZero legs
    sound h a lt =
        rw (← net_lem a)
          (check_touches_sound _ (tally_from start legs).touches a h (rw touches_lem lt))

    complete :
        NetsToZero legs
        → check_touches (tally_from start legs).net (tally_from start legs).touches ≡ ok tt
    complete h =
        check_touches_complete _ _ (tally_from-HasDistinctKeys start legs tt)
          (λ a lt. rw net_lem (h a (rw touches_lem at lt)))
