-- ===== src/Payments/Split.antt =====
-- The legs that `record_repayment` (app/payments/service.py) adds for the lenders.
use fund_lok.Prelude.{
  ℕ, ◌+◌, ◌<◌, ◌≡◌, refl, sym, ap, ◌∙◌, ◌≢◌, inl, inr, true, false, ◌&&◌, some, List, [], ◌∷◌,
  arith, ltb, ltb_ℤ, ◌==◌, All, pos, ◌≤ℤ◌, Bool-cases, sum_by, pos_part, Dict, get_or,
}
use fund_lok.Db.{Db, LedgerAccount, Holding, Error, Result, ok, err, Exec, Result-cases}
use fund_lok.Ledger.Chart.{LedgerLeg, get_or_create_account}
use fund_lok.Payments.Repay.{distribution_legs, distribution_reference, split_legs}
use fund_lok.Apportion.Rounding.{HasUniqueIds}
use fund_lok.Apportion.Exact.{final_shares_exact}
use fund_lok.Apportion.{total_principal, final_shares, ordered}

-- A leg that pays a positive amount out of the omnibus account.
pub record IsPayout (contract_id omnibus : ℕ) (leg : LedgerLeg) : Type 0 where
  pub from_omnibus : leg.debit_account_id ≡ omnibus
  pub of_contract : leg.contract_id ≡ contract_id
  pub typed : leg.type ≡ "DISTRIBUTION"
  pub positive : pos 1 ≤ℤ leg.amount

abbrev pub leg_total : List LedgerLeg → ℕ
leg_total legs = sum_by (λ (leg : LedgerLeg). pos_part leg.amount) legs

module _ (contract_id custodial omnibus : ℕ) (shares : Dict ℕ) where
  abbrev share : Holding → ℕ
  share h = get_or shares h.id 0

  abbrev payout : Holding → LedgerAccount → LedgerLeg
  payout h account = record {
    debit_account_id = omnibus;
    credit_account_id = account.id;
    amount = pos (share h);
    type = "DISTRIBUTION";
    contract_id = contract_id;
    reference = distribution_reference h.investor_id;
  }

  abbrev lender : Holding → Exec LedgerAccount
  lender h = get_or_create_account "LENDER" custodial (some h.investor_id) (some contract_id)

  abbrev rest : List Holding → Db → Result (List LedgerLeg) × Db
  rest hs db = distribution_legs contract_id custodial omnibus shares hs db

  rest-zero :
      (h : Holding) (hs : List Holding) (db : Db)
      → (share h == 0) ≡ true
      → (rest (h ∷ hs) db).0 ≡ (rest hs db).0
  unfolding distribution_legs
  rest-zero h hs db zero_share = rw (distribution_legs, zero_share) refl

  rest-failed :
      (h : Holding) (hs : List Holding) (db : Db) (e : Error)
      → (share h == 0) ≡ false
      → (lender h db).0 ≡ err e
      → (rest (h ∷ hs) db).0 ≡ err e
  unfolding distribution_legs
  rest-failed h hs db e some_share failed = rw (distribution_legs, some_share, failed) refl

  rest-stopped :
      (h : Holding) (hs : List Holding) (db : Db) (a : LedgerAccount) (e : Error)
      → (share h == 0) ≡ false
      → (lender h db).0 ≡ ok a
      → (rest hs (lender h db).1).0 ≡ err e
      → (rest (h ∷ hs) db).0 ≡ err e
  unfolding distribution_legs
  rest-stopped h hs db a e some_share found stopped =
      rw (distribution_legs, some_share, found, stopped) refl

  rest-next :
      (h : Holding) (hs : List Holding) (db : Db) (a : LedgerAccount) (legs : List LedgerLeg)
      → (share h == 0) ≡ false
      → (lender h db).0 ≡ ok a
      → (rest hs (lender h db).1).0 ≡ ok legs
      → (rest (h ∷ hs) db).0 ≡ ok (payout h a ∷ legs)
  unfolding distribution_legs
  rest-next h hs db a legs some_share found went =
      rw (distribution_legs, some_share, found, went) refl

  ok_injective : {A : Type 0} (a b : A) → ok a ≡ ok b → a ≡ b
  ok_injective a b h = cc

  err≢ok : {A : Type 0} (e : Error) (a : A) → err e ≢ ok a
  err≢ok e a h = absurd (cc)

  Paid : List Holding → List LedgerLeg → Type 0
  Paid hs legs = (leg_total legs ≡ sum_by share hs) × All (IsPayout contract_id omnibus) legs

  no_share : (n m : ℕ) → (n == 0) ≡ true → m ≡ n + m
  no_share n m h = ground arith

  payout-IsPayout :
      (h : Holding) (a : LedgerAccount)
      → (share h == 0) ≡ false
      → IsPayout contract_id omnibus (payout h a)
  payout-IsPayout h a some_share = record {
    from_omnibus = refl;
    of_contract = refl;
    typed = refl;
    positive = ground arith;
  }

  rest-Paid :
      (hs : List Holding) (db : Db) (legs : List LedgerLeg)
      → (rest hs db).0 ≡ ok legs
      → Paid hs legs
  unfolding Paid distribution_legs
  rest-Paid [] db legs e = rw (← ok_injective [] legs e) (refl, tt)
  rest-Paid (h ∷ hs) db legs e = elim (Bool-cases (share h == 0)) [
    | inl zero_share ↦
        let (total, paid) = rest-Paid hs db legs (sym (rest-zero h hs db zero_share) ∙ e) in
        (total ∙ no_share (share h) (sum_by share hs) zero_share, paid)
    | inr some_share ↦ elim (Result-cases (lender h db).0) [
      | inr (e', failed) ↦
          absurd (err≢ok e' legs (sym (rest-failed h hs db e' some_share failed) ∙ e))
      | inl (a, found) ↦ elim (Result-cases (rest hs (lender h db).1).0) [
        | inr (e', stopped) ↦
            absurd (err≢ok e' legs (sym (rest-stopped h hs db a e' some_share found stopped) ∙ e))
        | inl (later, went) ↦
            let (total, paid) = rest-Paid hs (lender h db).1 later went in
            rw (← ok_injective _ legs (sym (rest-next h hs db a later some_share found went) ∙ e))
              (ap (λ n. share h + n) total, (payout-IsPayout h a some_share, paid))
      ]
    ]
  ]

split_legs_open :
    (contract_id custodial omnibus amount : ℕ) (holdings : List Holding) (db : Db)
    → (ltb 0 (total_principal holdings) && ltb_ℤ (pos 0) (pos amount)) ≡ true
    → split_legs contract_id custodial omnibus (pos amount) holdings db
      ≡ distribution_legs contract_id custodial omnibus
          (final_shares amount holdings)
          (ordered holdings)
          db
unfolding split_legs
split_legs_open contract_id custodial omnibus amount holdings db open_test =
    rw (split_legs, open_test) refl

both_positive : (n m : ℕ) → 0 < n → 0 < m → (ltb 0 n && ltb_ℤ (pos 0) (pos m)) ≡ true
both_positive n m h h' = ground arith

-- With holdings of distinct ids and a positive total principal, the legs that split a positive
-- amount pay out exactly that amount, each a positive part of it from the omnibus account and
-- within the contract.
pub split_legs_total :
    (contract_id custodial omnibus amount : ℕ) (holdings : List Holding) (db : Db)
    (legs : List LedgerLeg)
    → HasUniqueIds holdings
    → 0 < total_principal holdings
    → 0 < amount
    → (split_legs contract_id custodial omnibus (pos amount) holdings db).0 ≡ ok legs
    → (leg_total legs ≡ amount) × All (IsPayout contract_id omnibus) legs
unfolding split_legs Paid
split_legs_total contract_id custodial omnibus amount holdings db legs unique principal positive e =
    let (total, paid) =
      rest-Paid contract_id custodial omnibus (final_shares amount holdings) (ordered holdings) db
        legs
        (ap (λ (r : Result (List LedgerLeg) × Db). r.0)
            (sym (
              split_legs_open contract_id custodial omnibus amount holdings db
                (both_positive _ amount principal positive)))
          ∙ e) in
    (total ∙ final_shares_exact amount holdings unique principal, paid)
