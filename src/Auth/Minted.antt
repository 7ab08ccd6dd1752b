-- ===== src/Auth/Minted.antt =====
-- Whose tokens a completed sign-in returns (app/auth/service.py).
use fund_lok.Prelude.{
  ℕ, suc, ◌+◌, String, ◌≡◌, refl, subst, inl, inr, Bool, true, false, ◌&&◌, Option, none, some, [],
  ◌∷◌, ◌++◌, arith, any_of, Bool-cases,
}
use fund_lok.Db.{Db, User, RefreshToken, Result, ok}
use fund_lok.Security.{Security}
use fund_lok.Auth.Sessions.{TokenPair, has_hash, refresh_lifetime, create_token_pair}
use fund_lok.Auth.Login.{Outcome, tokens, totp_required, is_unseen_device, send, send_if, sign_in}
use fund_lok.Auth.Kinds.{access, refresh, claims_of}

-- Both tokens are signed for the user, and the one row that was added holds the refresh token's hash
-- for that user.
pub record IsPairFor (k : Security) (uid : ℕ) (pair : TokenPair) (before after : Db) : Type 0 where
  pub access_for : (i : ℕ) × (pair.access_token ≡ k.encode (claims_of k access uid before.clock i))
  pub refresh_for :
      (i : ℕ) × (pair.refresh_token ≡ k.encode (claims_of k refresh uid before.clock i))
  pub stored :
      (row : RefreshToken) × (after.refresh_tokens ≡ before.refresh_tokens ++ (row ∷ []))
      × (row.user_id ≡ uid)
      × (row.token_hash ≡ k.sha256 pair.refresh_token)
      × (row.revoked_at ≡ none)

-- The outcome is tokens for the user, and no challenge.
abbrev pub IsSignedIn : Security → User → Outcome → Db → Db → Type 0
IsSignedIn k user (tokens pair) before after = IsPairFor k user.id pair before after
IsSignedIn k user (totp_required token) before after = true ≡ false

same_outcome : (a b : Outcome) → ◌≡◌ {A = Result Outcome} (ok a) (ok b) → a ≡ b
same_outcome a b h = ground arith

module _ (k : Security) (user : User) (user_agent ip_address : Option String) (has_tasks : Bool)
    (db : Db) where
  abbrev new_pair : TokenPair
  new_pair = record {
    access_token = k.encode (claims_of k access user.id db.clock (db.uuid4 db.draws));
    refresh_token = k.encode (claims_of k refresh user.id db.clock (db.uuid4 (suc db.draws)));
    token_type = "bearer";
  }

  abbrev is_alerted : Bool
  is_alerted = is_unseen_device user.id user_agent db && user.signin_alerts_enabled && has_tasks

  abbrev new_token : RefreshToken
  new_token = record {
    id = db.uuid4 (suc (suc (suc db.draws)));
    user_id = user.id;
    token_hash = k.sha256 new_pair.refresh_token;
    expires_at = db.clock + refresh_lifetime k;
    revoked_at = none;
    session_id = some (db.uuid4 (suc (suc db.draws)));
    user_agent = user_agent;
    ip_address = ip_address;
    last_used_at = some db.clock;
  }

  made :
      (outcome : Outcome) (after : Db)
      → tokens new_pair ≡ outcome
      → after.refresh_tokens ≡ db.refresh_tokens ++ (new_token ∷ [])
      → IsSignedIn k user outcome db after
  made outcome after same added =
      subst (λ x. IsSignedIn k user x db after) same
        (record {
          access_for = (db.uuid4 db.draws, refl);
          refresh_for = (db.uuid4 (suc db.draws), refl);
          stored = (new_token, added, refl, refl, refl);
        })

  pub sign_in-IsSignedIn :
      (outcome : Outcome)
      → (sign_in k user user_agent ip_address has_tasks db).0 ≡ ok outcome
      → IsSignedIn k user outcome db (sign_in k user user_agent ip_address has_tasks db).1
  unfolding sign_in create_token_pair send_if send
  sign_in-IsSignedIn outcome =
      elim (Bool-cases (any_of (has_hash (k.sha256 new_pair.refresh_token)) db.refresh_tokens)) [
        | inl taken ↦ rw taken λ done. absurd (ground arith)
        | inr free ↦ elim (Bool-cases is_alerted) [
          | inl alerted ↦ rw (free, alerted) λ done. made outcome _ (same_outcome _ _ done) refl
          | inr quiet ↦ rw (free, quiet) λ done. made outcome _ (same_outcome _ _ done) refl
        ]
      ]
