-- ===== src/Auth/SecondFactor.antt =====
-- What the second factor guards (app/auth/service.py): sign-in, and the use of recovery codes.
use fund_lok.Prelude.{
  ℕ, suc, String, ◌≡◌, refl, inl, inr, Bool, true, false, some, List, [], ◌∷◌, arith, ◌==◌, length,
  select, find_first, update, any_of, Option-cases,
}
use fund_lok.Db.{Db, User, TotpRecoveryCode, ok}
use fund_lok.Auth.Totp.{
  is_unused, count_unused_recovery_codes, recovery_code_matches, decrypt_secret, live_code,
  matching_code, use_code, consume_second_factor,
}
use fund_lok.Security.{Security}

-- No two rows have one id.
abbrev pub HasDistinctIds : List TotpRecoveryCode → Type 0
HasDistinctIds [] = Unit
HasDistinctIds (row ∷ rows) =
    (any_of (λ (r : TotpRecoveryCode). r.id == row.id) rows ≡ false) × HasDistinctIds rows

abbrev used : ℕ → TotpRecoveryCode → TotpRecoveryCode
used now row = record row { used_at = some now }

-- The rows after the one with an id is marked as used.
abbrev marked : ℕ → ℕ → List TotpRecoveryCode → List TotpRecoveryCode
marked now id rows = update (λ (r : TotpRecoveryCode). r.id == id) (used now) rows

marked_absent :
    (now id : ℕ) (rows : List TotpRecoveryCode)
    → any_of (λ (r : TotpRecoveryCode). r.id == id) rows ≡ false
    → marked now id rows ≡ rows
marked_absent now id [] absent = refl
marked_absent now id (row ∷ rows) absent = ground (arith, marked_absent now id rows)

found_present :
    (p q : TotpRecoveryCode → Bool) (rows : List TotpRecoveryCode) (row : TotpRecoveryCode)
    → find_first p (select q rows) ≡ some row
    → any_of (λ (r : TotpRecoveryCode). r.id == row.id) rows ≡ true
found_present p q [] row found = absurd (ground arith)
found_present p q (x ∷ rows) row found = ground (arith, found_present p q rows row)

marked-count :
    (p : TotpRecoveryCode → Bool) (user_id now : ℕ) (rows : List TotpRecoveryCode)
    (row : TotpRecoveryCode)
    → HasDistinctIds rows
    → find_first p (select (is_unused user_id) rows) ≡ some row
    → suc (length (select (is_unused user_id) (marked now row.id rows)))
      ≡ length (select (is_unused user_id) rows)
marked-count p user_id now [] row distinct found = absurd (ground arith)
marked-count p user_id now (x ∷ rows) row distinct found = ground (
  arith,
  marked-count p user_id now rows row distinct.1,
  found_present p (is_unused user_id) rows row,
  marked_absent now row.id rows,
)

-- Where the code is not one of the authenticator's at this time, the second factor is accepted only
-- at the price of a recovery code: one code less of the user is left unused.
pub consume_second_factor-count :
    (k : Security) (user : User) (code : String) (db : Db)
    → HasDistinctIds db.totp_recovery_codes
    → live_code k db.clock (decrypt_secret k user.totp_secret) code ≡ false
    → (consume_second_factor k user code db).0 ≡ ok true
    → suc (count_unused_recovery_codes user.id (consume_second_factor k user code db).1)
      ≡ count_unused_recovery_codes user.id db
unfolding consume_second_factor use_code matching_code count_unused_recovery_codes
consume_second_factor-count k user code db distinct not_live =
    elim (Option-cases (matching_code k user.id code db.totp_recovery_codes)) [
      | inl none_matches ↦ rw (not_live, none_matches) λ accepted. absurd (ground arith)
      | inr (row, matches) ↦
          rw (not_live, matches)
            λ accepted.
              marked-count (λ (r : TotpRecoveryCode). recovery_code_matches k code r.code_hash)
                user.id db.clock db.totp_recovery_codes row distinct matches
    ]
