-- ===== src/Auth/Continuation.antt =====
-- A session goes on as long as its token is exchanged before it expires (app/auth/service.py).
use fund_lok.Prelude.{
  ℕ, suc, ◌+◌, ◌≤◌, String, ◌≡◌, refl, ◌∙◌, true, false, Option, none, some, List, [], ◌∷◌, ◌++◌,
  arith, ltb, ◌==◌, select, update, any_of, uuid_text, uuid_text_not_empty,
}
use fund_lok.Db.{Db, RefreshToken, ok}
use fund_lok.Auth.Tokens.{seconds, decode_now}
use fund_lok.Auth.Sessions.{
  TokenPair, has_hash, find_token, rotated, or_text, usable, refresh_subject, refresh_lifetime,
  refresh_token_pair,
}
use fund_lok.Auth.Kinds.{access, refresh, claims_of}
use fund_lok.Security.{Claims, Security}
use text.Mathlib.TextEquality.{eq_iff}

-- A refresh token that stands for a session of a user in the table, neither revoked nor expired.
pub record IsRefreshable (k : Security) (token : String) (uid session : ℕ) (db : Db) : Type 0 where
  pub stored : RefreshToken
  pub continues : stored.session_id ≡ some session
  pub read : refresh_subject (decode_now k token db) ≡ ok (uuid_text uid)
  pub found : find_token (k.sha256 token) db.refresh_tokens ≡ ok (some stored)
  pub live : usable db.clock (some stored) ≡ ok stored

select-append-one :
    (h : String) (rows : List RefreshToken) (row : RefreshToken)
    → any_of (has_hash h) rows ≡ false
    → has_hash h row ≡ true
    → select (has_hash h) (rows ++ (row ∷ [])) ≡ row ∷ []
select-append-one h [] row absent same = rw same refl
select-append-one h (x ∷ rows) row absent same = ground (arith, select-append-one h rows row)

any_of-rotated :
    (h : String) (id now : ℕ) (rows : List RefreshToken)
    → any_of (has_hash h) (update (λ (r : RefreshToken). r.id == id) (rotated now) rows)
      ≡ any_of (has_hash h) rows
any_of-rotated h id now [] = refl
any_of-rotated h id now (x ∷ rows) = ground (arith, any_of-rotated h id now rows)

not_ltb : (a b : ℕ) → b ≤ a → ltb a b ≡ false
not_ltb a b h = ground arith

-- What a refresh at this point signs.
abbrev pub next_claims : Security → ℕ → Db → Claims
next_claims k uid db = claims_of k refresh uid db.clock (db.uuid4 (suc db.draws))

abbrev pub next_token : Security → ℕ → Db → String
next_token k uid db = k.encode (next_claims k uid db)

module _ (k : Security) (token : String) (user_agent ip_address : Option String) (uid session : ℕ)
    (db : Db) (can : IsRefreshable k token uid session db) where
  abbrev next_row : RefreshToken
  next_row = record {
    id = db.uuid4 (suc (suc db.draws));
    user_id = uid;
    token_hash = k.sha256 (next_token k uid db);
    expires_at = db.clock + refresh_lifetime k;
    revoked_at = none;
    session_id = some session;
    user_agent = or_text user_agent can.stored.user_agent;
    ip_address = or_text ip_address can.stored.ip_address;
    last_used_at = some db.clock;
  }

  abbrev next_pair : TokenPair
  next_pair = record {
    access_token = k.encode (claims_of k access uid db.clock (db.uuid4 db.draws));
    refresh_token = (next_token k uid db);
    token_type = "bearer";
  }

  abbrev kept_rows : List RefreshToken
  kept_rows =
      update (λ (r : RefreshToken). r.id == can.stored.id) (rotated db.clock) db.refresh_tokens

  abbrev next_db : Db
  next_db = record db {
    refresh_tokens = kept_rows ++ (next_row ∷ []);
    draws = suc (suc (suc db.draws));
  }

  absent :
      any_of (has_hash (k.sha256 (next_token k uid db))) db.refresh_tokens ≡ false
      → any_of (has_hash (k.sha256 (next_token k uid db))) kept_rows ≡ false
  absent fresh =
      any_of-rotated (k.sha256 (next_token k uid db)) can.stored.id db.clock db.refresh_tokens
      ∙ fresh

  refreshed :
      k.parse_uuid (uuid_text uid) ≡ some uid
      → any_of (has_hash (k.sha256 (next_token k uid db))) db.refresh_tokens ≡ false
      → refresh_token_pair k token user_agent ip_address db ≡ (ok next_pair, next_db)
  unfolding refresh_token_pair
  refreshed parsed fresh =
      rw (can.read, can.found, can.live, parsed) (rw (can.continues, absent fresh) refl)

  unexpired :
      (wait : ℕ)
      → wait ≤ refresh_lifetime k
      → usable (db.clock + wait) (some next_row) ≡ ok next_row
  unexpired wait within =
      rw (not_ltb (db.clock + refresh_lifetime k) (db.clock + wait) (omega arith)) refl

  again :
      (wait : ℕ)
      → any_of (has_hash (k.sha256 (next_token k uid db))) db.refresh_tokens ≡ false
      → k.decode (seconds (db.clock + wait)) (next_token k uid db) ≡ some (next_claims k uid db)
      → wait ≤ refresh_lifetime k
      → IsRefreshable k
          (next_token k uid db)
          uid
          session
          (record next_db { clock = db.clock + wait })
  unfolding find_token
  again wait fresh decoded within = record {
    stored = next_row;
    continues = refl;
    read = rw (decoded, uuid_text_not_empty uid) refl;
    found =
        rw
          (select-append-one (k.sha256 (next_token k uid db)) kept_rows next_row (absent fresh)
            ((eq_iff (k.sha256 (next_token k uid db)) (k.sha256 (next_token k uid db))).1 refl))
          refl;
    live = unexpired wait within;
  }

-- A refresh token in the table that is neither revoked nor expired is exchanged, and the token that
-- comes back can be exchanged in turn after any wait up to its lifetime, in the same session: if
-- the text of the user's identifier is read back, the hash of the new token is not in the table
-- yet, and the new token decodes at the later time to the claims that were signed.
pub refresh_continues :
    (k : Security) (token : String) (user_agent ip_address : Option String) (uid session wait : ℕ)
    (db : Db) (can : IsRefreshable k token uid session db)
    → k.parse_uuid (uuid_text uid) ≡ some uid
    → any_of (has_hash (k.sha256 (next_token k uid db))) db.refresh_tokens ≡ false
    → k.decode (seconds (db.clock + wait)) (next_token k uid db) ≡ some (next_claims k uid db)
    → wait ≤ refresh_lifetime k
    → (pair : TokenPair) × (after : Db) × (refresh_token_pair k token user_agent ip_address db
        ≡ (ok pair, after))
      × IsRefreshable k pair.refresh_token uid session (record after { clock = db.clock + wait })
refresh_continues k token user_agent ip_address uid session wait db can parsed fresh decoded
      within =
    (
      next_pair k token user_agent ip_address uid session db can,
      next_db k token user_agent ip_address uid session db can,
      refreshed k token user_agent ip_address uid session db can parsed fresh,
      again k token user_agent ip_address uid session db can wait fresh decoded within,
    )
