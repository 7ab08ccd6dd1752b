-- ===== src/Auth/Sessions.antt =====
-- Sign-in sessions (app/auth/service.py): refresh tokens, their rotation and their revocation.
use fund_lok.Prelude.{
  ℕ, ◌+◌, ◌*◌, String, text_eq, Bool, true, false, not, ◌&&◌, ◌||◌, Option, none, some, List, [],
  ◌∷◌, ◌++◌, ltb, leb, ◌==◌, if◌then◌else◌, truthy, length, select, update, any_of, sorted,
  uuid_text,
}
use fund_lok.Db.{
  Db, RefreshToken, value_error, Error, integrity, http, Result, ok, err, Exec, pure, lift, gets,
  require, ◌>>=◌, ◌>>◌, raise_if, modify, scalar_one_or_none, new_id,
}
use fund_lok.Security.{Claims, Security}
use fund_lok.Auth.Tokens.{minutes, is_text, is_set, decode_now, create_access_token}

pub record TokenPair : Type 0 where
  pub access_token : String
  pub refresh_token : String
  pub token_type : String

abbrev pub bad_refresh : Error
bad_refresh = http 401 "Invalid or expired refresh token"

abbrev pub has_hash : String → RefreshToken → Bool
has_hash token_hash row = text_eq row.token_hash token_hash

unfoldable pub find_token : String → List RefreshToken → Result (Option RefreshToken)
find_token token_hash rows = scalar_one_or_none (select (has_hash token_hash) rows)

-- `token_hash` is unique.
unfoldable pub insert_token : RefreshToken → Exec (Unit {0})
insert_token row = do
  rows ← gets (λ db. db.refresh_tokens)
  raise_if (any_of (has_hash row.token_hash) rows) integrity
  modify (λ db. record db { refresh_tokens = db.refresh_tokens ++ (row ∷ []) })

-- `revoked_at` and `last_used_at` of a row at a rotation
abbrev pub rotated : ℕ → RefreshToken → RefreshToken
rotated now row = record row { revoked_at = some now; last_used_at = some now }

abbrev pub revoked : ℕ → RefreshToken → RefreshToken
revoked now row = record row { revoked_at = some now }

-- The rows that satisfy `p`, changed by `f` at the present time.
unfoldable pub update_tokens :
    (RefreshToken → Bool) → (ℕ → RefreshToken → RefreshToken) → Exec (Unit {0})
update_tokens p f =
    modify (λ db. record db { refresh_tokens = update p (f db.clock) db.refresh_tokens })

-- `a or b`
abbrev pub or_text : Option String → Option String → Option String
or_text a b = if truthy a then a else b

unfoldable pub session_or_new : Option ℕ → Exec ℕ
session_or_new none = new_id
session_or_new (some session_id) = pure session_id

-- `row.session_id == session_id` in SQL, where NULL equals nothing
abbrev pub in_session : ℕ → RefreshToken → Bool
in_session session_id row = elim row.session_id [ none ↦ false | some s ↦ s == session_id ]

abbrev pub is_live : ℕ → RefreshToken → Bool
is_live user_id row = row.user_id == user_id && not (is_set row.revoked_at)

-- `stored is None or stored.revoked_at is not None or stored.expires_at < now`
abbrev pub usable : ℕ → Option RefreshToken → Result RefreshToken
usable now none = err bad_refresh
usable now (some stored) =
    if is_set stored.revoked_at || ltb stored.expires_at now then err bad_refresh else ok stored

-- The `sub` of a refresh token's claims.
abbrev pub refresh_subject : Option Claims → Result String
refresh_subject none = err bad_refresh
refresh_subject (some payload) =
    if not (is_text "refresh" payload.typ)
    then err bad_refresh
    else if not (truthy payload.sub)
    then err bad_refresh
    else require payload.sub bad_refresh

module _ (k : Security) where
  abbrev pub hash_refresh_token : String → String
  hash_refresh_token token = k.sha256 token

  abbrev pub refresh_lifetime : ℕ
  refresh_lifetime = minutes (k.refresh_token_expire_days * 24 * 60)

  unfoldable pub create_token_pair : ℕ → Option ℕ → Option String → Option String → Exec TokenPair
  unfolding create_access_token session_or_new insert_token
  create_token_pair uid session_id user_agent ip_address = do
    access_token ←
        create_access_token k (uuid_text uid) none none (minutes k.access_token_expire_minutes)
    refresh_token ← create_access_token k (uuid_text uid) (some "refresh") none refresh_lifetime
    now ← gets (λ db. db.clock)
    session ← session_or_new session_id
    id ← new_id
    insert_token (record {
      id = id;
      user_id = uid;
      token_hash = hash_refresh_token refresh_token;
      expires_at = now + refresh_lifetime;
      revoked_at = none;
      session_id = some session;
      user_agent = user_agent;
      ip_address = ip_address;
      last_used_at = some now;
    })
    pure (record {
      access_token = access_token;
      refresh_token = refresh_token;
      token_type = "bearer";
    })

  unfoldable pub refresh_token_pair : String → Option String → Option String → Exec TokenPair
  unfolding find_token update_tokens create_token_pair
  refresh_token_pair refresh_token user_agent ip_address = do
    user_id ← λ db. (refresh_subject (decode_now k refresh_token db), db)
    found ← λ db. (find_token (hash_refresh_token refresh_token) db.refresh_tokens, db)
    now ← gets (λ db. db.clock)
    stored ← lift (usable now found)
    update_tokens (λ row. row.id == stored.id) rotated
    uid ← lift (require (k.parse_uuid user_id) value_error)
    create_token_pair uid stored.session_id (or_text user_agent stored.user_agent)
        (or_text ip_address stored.ip_address)

  -- `if stored is not None and stored.revoked_at is None`
  unfoldable pub revoke_stored : Option RefreshToken → Exec (Unit {0})
  unfolding update_tokens
  revoke_stored none = pure tt
  revoke_stored (some stored) =
      if is_set stored.revoked_at
      then pure tt
      else update_tokens (λ row. row.id == stored.id) revoked

  unfoldable pub logout : Option String → Exec (Unit {0})
  unfolding find_token revoke_stored
  logout none = pure tt
  logout (some token) = if text_eq token "" then pure tt else do
    found ← λ db. (find_token (hash_refresh_token token) db.refresh_tokens, db)
    revoke_stored found

  -- `hash_refresh_token(current_token) if current_token else None`
  abbrev pub current_hash : Option String → Option String
  current_hash none = none
  current_hash (some token) = if text_eq token "" then none else some (hash_refresh_token token)

  -- Whether a row is the one of the caller's own token.
  abbrev pub is_current : Option String → RefreshToken → Bool
  is_current token row = elim (current_hash token) [ none ↦ false | some h ↦ has_hash h row ]

  abbrev pub is_open : ℕ → ℕ → RefreshToken → Bool
  is_open user_id session_id row = is_live user_id row && in_session session_id row

  unfoldable pub revoke_session : ℕ → ℕ → Option String → Exec ℕ
  unfolding update_tokens
  revoke_session user_id session_id current_token = do
    rows ← gets (λ db. select (is_open user_id session_id) db.refresh_tokens)
    raise_if (length rows == 0) (http 404 "Session not found")
    raise_if (any_of (is_current current_token) rows)
        (http 400 "Cannot revoke the session you are signed in with; use logout")
    update_tokens (is_open user_id session_id) revoked
    pure (length rows)

  abbrev pub is_other : ℕ → Option String → RefreshToken → Bool
  is_other user_id current_token row = is_live user_id row && not (is_current current_token row)

  unfoldable pub revoke_other_sessions : ℕ → Option String → Exec ℕ
  unfolding update_tokens
  revoke_other_sessions user_id current_token = do
    rows ← gets (λ db. select (is_other user_id current_token) db.refresh_tokens)
    update_tokens (is_other user_id current_token) revoked
    pure (length rows)

  -- The rows that the security screen lists, the last used first.
  unfoldable pub list_sessions : ℕ → Option String → Db → List (RefreshToken × Bool)
  list_sessions user_id current_token db = marked (
      select (λ (row : RefreshToken). is_set row.session_id)
        (sorted (λ (a b : RefreshToken). used_before b.last_used_at a.last_used_at)
          (select (λ (row : RefreshToken). is_live user_id row && ltb db.clock row.expires_at)
            db.refresh_tokens)))
    where
      -- `nullslast`
      used_before : Option ℕ → Option ℕ → Bool
      used_before none b = true
      used_before (some a) none = false
      used_before (some a) (some b) = leb a b

      marked : List RefreshToken → List (RefreshToken × Bool)
      marked [] = []
      marked (row ∷ rows) = (row, is_current current_token row) ∷ marked rows
