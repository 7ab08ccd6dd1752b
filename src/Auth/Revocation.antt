-- ===== src/Auth/Revocation.antt =====
-- Revoked refresh tokens stay revoked (app/auth/service.py).
use fund_lok.Prelude.{
  ℕ, String, ◌≡◌, refl, Bool, true, ◌&&◌, Option, none, some, List, [], ◌∷◌, ◌++◌, arith, update,
  any_of, any_of-more, any_of-update,
}
use fund_lok.Db.{Db, RefreshToken, new_id}
use fund_lok.Auth.Tokens.{is_set, create_access_token}
use fund_lok.Auth.Sessions.{
  has_hash, insert_token, rotated, revoked, update_tokens, session_or_new, create_token_pair,
  refresh_token_pair, revoke_stored, logout, revoke_session, revoke_other_sessions,
}
use fund_lok.Security.{Security}
use fund_lok.Db.Frames.{
  Preserves, pure-Preserves, lift-Preserves, gets-Preserves, query-Preserves, if-Preserves,
  raise_if-Preserves, modify-Preserves, bind-Preserves, frames,
}

-- A revoked row with the hash stands in the table.
abbrev pub is_spent : String → List RefreshToken → Bool
is_spent h rows = any_of (λ row. has_hash h row && is_set row.revoked_at) rows

unfoldable pub IsSpent : String → Db → Type 0
IsSpent h db = is_spent h db.refresh_tokens ≡ true

-- A change of rows that keeps hashes and revokes.
abbrev IsRevocation : (RefreshToken → RefreshToken) → Type 0
IsRevocation f =
    (row : RefreshToken)
    → ((f row).token_hash ≡ row.token_hash) × (is_set (f row).revoked_at ≡ true)

module _ (h : String) where
  is_spent-update :
      (p : RefreshToken → Bool) (f : RefreshToken → RefreshToken) (rows : List RefreshToken)
      → IsRevocation f
      → is_spent h rows ≡ true
      → is_spent h (update p f rows) ≡ true
  is_spent-update p f rows keeps =
      any_of-update (λ row. has_hash h row && is_set row.revoked_at) p f rows
        (λ row spent. ground (arith, keeps row))

module _ (k : Security) (h : String) where
  pub new_id-keeps : Preserves (IsSpent h) new_id
  unfolding IsSpent
  new_id-keeps = record { at = λ db spent. spent }

  pub create_access_token-keeps :
      (sub : String) (typ purpose : Option String) (delta : ℕ)
      → Preserves (IsSpent h) (create_access_token k sub typ purpose delta)
  unfolding create_access_token IsSpent
  create_access_token-keeps sub typ purpose delta = record { at = λ db spent. spent }

  pub update_tokens-keeps :
      (p : RefreshToken → Bool) (f : ℕ → RefreshToken → RefreshToken)
      → ((now : ℕ) → IsRevocation (f now))
      → Preserves (IsSpent h) (update_tokens p f)
  unfolding update_tokens IsSpent
  update_tokens-keeps p f keeps = record {
    at = λ db spent. is_spent-update h p (f db.clock) db.refresh_tokens (keeps db.clock) spent;
  }

  append-keeps :
      (row : RefreshToken) (db : Db)
      → IsSpent h db
      → IsSpent h (record db { refresh_tokens = db.refresh_tokens ++ (row ∷ []) })
  unfolding IsSpent
  append-keeps row db spent = any_of-more _ db.refresh_tokens _ spent

  pub insert_token-keeps : (row : RefreshToken) → Preserves (IsSpent h) (insert_token row)
  unfolding insert_token
  insert_token-keeps row = search (frames, append-keeps)

  pub rotated-IsRevocation : (now : ℕ) → IsRevocation (rotated now)
  rotated-IsRevocation now row = (refl, refl)

  pub revoked-IsRevocation : (now : ℕ) → IsRevocation (revoked now)
  revoked-IsRevocation now row = (refl, refl)

  pub session_or_new-keeps : (s : Option ℕ) → Preserves (IsSpent h) (session_or_new s)
  unfolding session_or_new
  session_or_new-keeps none = new_id-keeps
  session_or_new-keeps (some s) = pure-Preserves s

  pub ruleset keeps = (
    frames, new_id-keeps, create_access_token-keeps, update_tokens-keeps, insert_token-keeps,
    session_or_new-keeps, rotated-IsRevocation, revoked-IsRevocation,
  )

  pub create_token_pair-keeps :
      (uid : ℕ) (session_id : Option ℕ) (user_agent ip_address : Option String)
      → Preserves (IsSpent h) (create_token_pair k uid session_id user_agent ip_address)
  unfolding create_token_pair
  create_token_pair-keeps uid session_id user_agent ip_address = search keeps depth 12

  pub refresh_token_pair-keeps :
      (token : String) (user_agent ip_address : Option String)
      → Preserves (IsSpent h) (refresh_token_pair k token user_agent ip_address)
  unfolding refresh_token_pair
  refresh_token_pair-keeps token user_agent ip_address =
      search (keeps, create_token_pair-keeps) depth 12

  pub revoke_session-keeps :
      (user_id session_id : ℕ) (current_token : Option String)
      → Preserves (IsSpent h) (revoke_session k user_id session_id current_token)
  unfolding revoke_session
  revoke_session-keeps user_id session_id current_token = search keeps depth 12

  pub revoke_other_sessions-keeps :
      (user_id : ℕ) (current_token : Option String)
      → Preserves (IsSpent h) (revoke_other_sessions k user_id current_token)
  unfolding revoke_other_sessions
  revoke_other_sessions-keeps user_id current_token = search keeps depth 12

  revoke_stored-keeps :
      (stored : Option RefreshToken) → Preserves (IsSpent h) (revoke_stored k stored)
  unfolding revoke_stored
  revoke_stored-keeps none = search keeps
  revoke_stored-keeps (some stored) = search keeps

  pub logout-keeps : (token : Option String) → Preserves (IsSpent h) (logout k token)
  unfolding logout
  logout-keeps none = search keeps
  logout-keeps (some token) = search (keeps, revoke_stored-keeps) depth 12
