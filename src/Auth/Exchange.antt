-- ===== src/Auth/Exchange.antt =====
-- What a refresh leaves behind, and what becomes of a second one (app/auth/service.py).
use fund_lok.Prelude.{
  ℕ, String, ◌≡◌, refl, ap, ◌∙◌, subst, inl, inr, true, false, Option, none, some, List, [], ◌∷◌,
  arith, ◌==◌, select, update, Bool-cases,
}
use fund_lok.Db.{
  Db, RefreshToken, value_error, Error, Result, ok, err, lift, require, ◌>>=◌, scalar_one_or_none,
  Result-cases,
}
use fund_lok.Auth.Revocation.{is_spent, IsSpent, create_token_pair-keeps}
use fund_lok.Auth.Tokens.{is_set, decode_now}
use fund_lok.Auth.Sessions.{
  TokenPair, bad_refresh, has_hash, find_token, rotated, update_tokens, or_text, usable,
  refresh_subject, create_token_pair, refresh_token_pair,
}
use fund_lok.Db.Frames.{Preserves, frames}
use fund_lok.Auth.Calls.{Call, run}
use fund_lok.Auth.Reuse.{run-IsSpent}
use fund_lok.Security.{Security}

-- The one row that a query finds.
pub scalar_some :
    {A : Type 0} (a b : A) (rows : List A)
    → scalar_one_or_none (a ∷ rows) ≡ ok (some b)
    → (a ≡ b) × (rows ≡ [])
scalar_some a b [] h = ground arith
scalar_some a b (c ∷ rows) h = absurd (ground arith)

module _ (h : String) where
  spent-select :
      (rows : List RefreshToken) → select (has_hash h) rows ≡ [] → is_spent h rows ≡ false
  spent-select [] none_left = refl
  spent-select (row ∷ rows) none_left = ground (arith, spent-select rows)

  -- The row that a query by the hash finds is revoked, if a row with the hash is.
  found_revoked :
      (rows : List RefreshToken) (stored : RefreshToken)
      → is_spent h rows ≡ true
      → find_token h rows ≡ ok (some stored)
      → is_set stored.revoked_at ≡ true
  unfolding find_token
  found_revoked [] stored spent found = absurd (ground arith)
  found_revoked (row ∷ rows) stored spent found = elim (Bool-cases (has_hash h row)) [
    | inr other ↦ found_revoked rows stored (ground arith) (ground arith)
    | inl same ↦
        let (head, tail) = scalar_some row stored (select (has_hash h) rows) (ground arith) in
        subst (λ (r : RefreshToken). is_set r.revoked_at ≡ true) head
          (ground (arith, spent-select rows tail))
  ]

  -- Revoking that row by its id makes the hash a spent one.
  rotated-is_spent :
      (rows : List RefreshToken) (stored : RefreshToken) (now : ℕ)
      → find_token h rows ≡ ok (some stored)
      → is_spent h (update (λ row. row.id == stored.id) (rotated now) rows) ≡ true
  unfolding find_token
  rotated-is_spent [] stored now found = absurd (ground arith)
  rotated-is_spent (row ∷ rows) stored now found = elim (Bool-cases (has_hash h row)) [
    | inr other ↦ ground (arith, rotated-is_spent rows stored now (ground arith))
    | inl same ↦
        let (head, tail) = scalar_some row stored (select (has_hash h) rows) (ground arith) in
        ground (arith, ap (λ (r : RefreshToken). r.id) head)
  ]

usable_revoked :
    (now : ℕ) (stored : RefreshToken)
    → is_set stored.revoked_at ≡ true
    → usable now (some stored) ≡ err bad_refresh
usable_revoked now stored h = rw h refl

usable_ok :
    (now : ℕ) (found : Option RefreshToken) (stored : RefreshToken)
    → usable now found ≡ ok stored
    → found ≡ some stored
usable_ok now none stored h = absurd (ground arith)
usable_ok now (some row) stored h = ground arith

module _ (k : Security) (token : String) (user_agent ip_address : Option String) (db : Db) where
  abbrev claims : Result String
  claims = refresh_subject (decode_now k token db)

  abbrev row : Result (Option RefreshToken)
  row = find_token (k.sha256 token) db.refresh_tokens

  -- A token whose hash is spent is refused, and nothing is written.
  spent_refused :
      IsSpent (k.sha256 token) db
      → (e : Error) × (refresh_token_pair k token user_agent ip_address db ≡ (err e, db))
  unfolding refresh_token_pair IsSpent
  spent_refused spent = elim (Result-cases claims) [
    | inr (e, refused) ↦ (e, rw refused refl)
    | inl (sub, read) ↦ elim (Result-cases row) [
      | inr (e, refused) ↦ (e, rw (read, refused) refl)
      | inl (none, found) ↦ (bad_refresh, rw (read, found) refl)
      | inl (some stored, found) ↦ (
        bad_refresh,
        rw
            (
              read,
              found,
              usable_revoked db.clock stored
                  (found_revoked (k.sha256 token) db.refresh_tokens stored spent found),
            )
            refl,
      )
    ]
  ]

  issue-keeps :
      (h sub : String) (session_id : Option ℕ) (agent ip : Option String)
      → Preserves (IsSpent h) (
          lift (require (k.parse_uuid sub) value_error) >>= λ uid.
          create_token_pair k uid session_id agent ip)
  issue-keeps h sub session_id agent ip = search (frames, create_token_pair-keeps)

  -- A token that is exchanged is spent.
  exchanged-IsSpent :
      (pair : TokenPair)
      → (refresh_token_pair k token user_agent ip_address db).0 ≡ ok pair
      → IsSpent (k.sha256 token) (refresh_token_pair k token user_agent ip_address db).1
  unfolding refresh_token_pair update_tokens IsSpent
  exchanged-IsSpent pair = elim (Result-cases claims) [
    | inr (e, refused) ↦ rw refused λ done. absurd (ground arith)
    | inl (sub, read) ↦ elim (Result-cases row) [
      | inr (e, refused) ↦ rw (read, refused) λ done. absurd (ground arith)
      | inl (found, query) ↦ elim (Result-cases (usable db.clock found)) [
        | inr (e, refused) ↦ rw (read, query, refused) λ done. absurd (ground arith)
        | inl (stored, live) ↦
            rw (read, query, live)
              λ done.
                (issue-keeps (k.sha256 token) sub stored.session_id
                    (or_text user_agent stored.user_agent)
                    (or_text ip_address stored.ip_address)).at
                  _
                  (rotated-is_spent (k.sha256 token) db.refresh_tokens stored db.clock
                    (query ∙ ap ok (usable_ok db.clock found stored live)))
      ]
    ]
  ]

-- A refresh token that has been exchanged once is refused whenever it is presented again, whatever
-- calls of Auth.Calls come in between, and that refusal writes nothing.
pub exchanged_once :
    (k : Security) (token : String) (user_agent ip_address user_agent' ip_address' : Option String)
    (db : Db) (pair : TokenPair) (calls : List Call)
    → (refresh_token_pair k token user_agent ip_address db).0 ≡ ok pair
    → (e : Error) × (refresh_token_pair k token user_agent' ip_address'
          (run k calls (refresh_token_pair k token user_agent ip_address db).1)
        ≡ (err e, run k calls (refresh_token_pair k token user_agent ip_address db).1))
exchanged_once k token user_agent ip_address user_agent' ip_address' db pair calls done =
    spent_refused k token user_agent' ip_address' _ (
      run-IsSpent k (k.sha256 token) calls _
        (exchanged-IsSpent k token user_agent ip_address db pair done))
