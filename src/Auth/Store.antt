-- ===== src/Auth/Store.antt =====
-- The abstract store of sessions that the revoking calls of app/auth/service.py implement: what is
-- known of a refresh token by its hash, in no order and without rows.
use fund_lok.Prelude.{
  ℕ, String, text_eq, ◌≡◌, refl, sym, ap, ◌∙◌, inl, inr, Bool, true, false, not, ◌&&◌, Option, none,
  some, List, [], ◌∷◌, arith, ◌==◌, if◌then◌else◌, length, select, find_first, update, any_of,
  Bool-cases, Option-cases,
}
use fund_lok.Db.{Db, RefreshToken, ok}
use fund_lok.Auth.Tokens.{is_set}
use fund_lok.Auth.Sessions.{
  has_hash, revoked, update_tokens, is_live, current_hash, is_current, is_open, revoke_session,
  is_other, revoke_other_sessions,
}
use fund_lok.Security.{Security}
use text.Mathlib.TextEquality.{eq_iff}

-- What a row says about a token.
pub record Seat : Type 0 where
  pub user : ℕ
  pub session : Option ℕ
  pub expires : ℕ
  pub spent : Bool

abbrev pub Store : Type 0
Store = String → Option Seat

abbrev pub seat_of : RefreshToken → Seat
seat_of row = record {
  user = row.user_id;
  session = row.session_id;
  expires = row.expires_at;
  spent = is_set row.revoked_at;
}

abbrev pub seat_of_some : Option RefreshToken → Option Seat
seat_of_some none = none
seat_of_some (some row) = some (seat_of row)

abbrev pub store_of : List RefreshToken → Store
store_of rows h = seat_of_some (find_first (has_hash h) rows)

abbrev pub spend_seat : Bool → Seat → Seat
spend_seat c s = if c then record s { spent = true } else s

-- A seat that satisfies the test is spent, another stays.
abbrev pub spend_if : (Seat → Bool) → Option Seat → Option Seat
spend_if q none = none
spend_if q (some s) = some (spend_seat (q s) s)

abbrev pub spend : (String → Seat → Bool) → Store → Store
spend q store h = spend_if (q h) (store h)

abbrev pub open_seat : ℕ → Seat → Bool
open_seat user_id s = s.user == user_id && not s.spent

-- What the calls promise.
module _ (k : Security) where
  abbrev pub spend_token : String → Store → Store
  spend_token token = spend (λ h s. text_eq h (k.sha256 token) && not s.spent)

  abbrev pub spend_session : ℕ → ℕ → Store → Store
  spend_session user_id session_id =
      spend
        (λ h s. open_seat user_id s && elim s.session [ none ↦ false | some j ↦ j == session_id ])

  abbrev pub spend_others : ℕ → Option String → Store → Store
  spend_others user_id current = spend (λ h s.
      open_seat user_id s
      && not (elim (current_hash k current) [ none ↦ false | some c ↦ text_eq h c ]))

find_first-update :
    (h : String) (p : RefreshToken → Bool) (now : ℕ) (rows : List RefreshToken)
    → find_first (has_hash h) (update p (revoked now) rows) ≡ elim (find_first (has_hash h) rows) [
      | none ↦ none
      | some r ↦ some (if p r then revoked now r else r)
    ]
find_first-update h p now [] = refl
find_first-update h p now (x ∷ rows) = elim (Bool-cases (p x)) [
  | inl changed ↦ elim (Bool-cases (has_hash h x)) [
    | inl here ↦ rw (changed, here, changed) refl
    | inr there ↦ rw (changed, there) (find_first-update h p now rows)
  ]
  | inr kept ↦ elim (Bool-cases (has_hash h x)) [
    | inl here ↦ rw (kept, here, kept) refl
    | inr there ↦ rw (kept, there) (find_first-update h p now rows)
  ]
]

changed-seat_of :
    (c : Bool) (now : ℕ) (r : RefreshToken)
    → seat_of (if c then revoked now r else r) ≡ spend_seat c (seat_of r)
changed-seat_of true now r = refl
changed-seat_of false now r = refl

-- The update of rows refines the spending of seats, where the tests agree.
update-spend :
    (h : String) (p : RefreshToken → Bool) (q : Seat → Bool) (now : ℕ) (rows : List RefreshToken)
    → ((r : RefreshToken) → find_first (has_hash h) rows ≡ some r → p r ≡ q (seat_of r))
    → seat_of_some (find_first (has_hash h) (update p (revoked now) rows))
      ≡ spend_if q (seat_of_some (find_first (has_hash h) rows))
update-spend h p q now rows agree = elim (Option-cases (find_first (has_hash h) rows)) [
  | inl none_there ↦ rw (find_first-update h p now rows, none_there) refl
  | inr (r, there) ↦
      rw (find_first-update h p now rows, there)
        (ap some (changed-seat_of (p r) now r ∙ ap (λ c. spend_seat c (seat_of r)) (agree r there)))
]

found_hash :
    (h : String) (rows : List RefreshToken) (r : RefreshToken)
    → find_first (has_hash h) rows ≡ some r
    → r.token_hash ≡ h
found_hash h [] r there = absurd (ground arith)
found_hash h (x ∷ rows) r there = elim (Bool-cases (has_hash h x)) [
  | inl here ↦
      sym (ap (λ (y : RefreshToken). y.token_hash) (some_row x r (ground arith)))
      ∙ (eq_iff x.token_hash h).0 here
  | inr later ↦ found_hash h rows r (ground arith)
]
  where
    some_row : (a b : RefreshToken) → some a ≡ some b → a ≡ b
    some_row a b e = ground arith

module _ (k : Security) (user_id : ℕ) (db : Db) where
  -- What a session's revocation that returns does to the rows is what it promises of the seats: all
  -- open ones of that session of that user are spent, and no other changes.
  pub revoke_session-refines :
      (session_id revoked_count : ℕ) (current_token : Option String) (h : String)
      → (revoke_session k user_id session_id current_token db).0 ≡ ok revoked_count
      → store_of (revoke_session k user_id session_id current_token db).1.refresh_tokens h
        ≡ spend_session k user_id session_id (store_of db.refresh_tokens) h
  unfolding revoke_session update_tokens
  revoke_session-refines session_id revoked_count current_token h =
      elim (Bool-cases (length (select (is_open k user_id session_id) db.refresh_tokens) == 0)) [
        | inl none_open ↦ rw none_open λ done. absurd (ground arith)
        | inr some_open ↦
            elim (Bool-cases (
              any_of (is_current k current_token)
                (select (is_open k user_id session_id) db.refresh_tokens))) [
                  | inl own ↦ rw (some_open, own) λ done. absurd (ground arith)
                  | inr other ↦
                      rw (some_open, other)
                        λ done.
                          update-spend h (is_open k user_id session_id) _ db.clock db.refresh_tokens
                            λ r there. refl
                ]
      ]

  -- Signing out everywhere else spends all open seats of the user but the caller's own.
  pub revoke_other_sessions-refines :
      (current_token : Option String) (h : String)
      → store_of (revoke_other_sessions k user_id current_token db).1.refresh_tokens h
        ≡ spend_others k user_id current_token (store_of db.refresh_tokens) h
  unfolding revoke_other_sessions update_tokens
  revoke_other_sessions-refines current_token h =
      update-spend h (is_other k user_id current_token) _ db.clock db.refresh_tokens λ r there.
        ap
          (λ t.
            is_live user_id r
            && not (elim (current_hash k current_token) [ none ↦ false | some c ↦ text_eq t c ]))
          (found_hash h db.refresh_tokens r there)
