-- ===== src/Auth/KeptByPasskeys.antt =====
-- Calls about passkeys, and spent refresh tokens (app/auth/passkeys.py).
use fund_lok.Prelude.{ℕ, String, Option, none, some, List}
use fund_lok.Db.{Db, User, WebAuthnCredential, WebAuthnChallenge, modify}
use fund_lok.Security.{PasskeyResponse, VerifiedPasskey, Security}
use fund_lok.Auth.Passkeys.{
  clear_challenges, issue_ceremony, consume_challenge, delete_credential, registration_options,
  add_credential, verify_registration, authentication_options, mark_used, verify_authentication,
  passkey_login,
}
use fund_lok.Auth.Revocation.{IsSpent, keeps, create_token_pair-keeps}
use fund_lok.Db.Frames.{Preserves, frames}

module _ (k : Security) (h : String) where
  clear_challenges-keeps :
      (user_id : Option ℕ) (purpose : String)
      → Preserves (IsSpent h) (clear_challenges user_id purpose)
  unfolding clear_challenges IsSpent
  clear_challenges-keeps none purpose = search frames
  clear_challenges-keeps (some user_id) purpose = search frames

  add_ceremony-keeps :
      (f : Db → List WebAuthnChallenge)
      → Preserves (IsSpent h) (modify (λ db. record db { webauthn_challenges = f db }))
  unfolding IsSpent
  add_ceremony-keeps f = record { at = λ db spent. spent }

  change_credentials-keeps :
      (f : Db → List WebAuthnCredential)
      → Preserves (IsSpent h) (modify (λ db. record db { webauthn_credentials = f db }))
  unfolding IsSpent
  change_credentials-keeps f = record { at = λ db spent. spent }

  issue_ceremony-keeps :
      (challenge : String) (user_id : Option ℕ) (purpose : String)
      → Preserves (IsSpent h) (issue_ceremony challenge user_id purpose)
  unfolding issue_ceremony
  issue_ceremony-keeps challenge user_id purpose =
      search (keeps, clear_challenges-keeps, add_ceremony-keeps) depth 16

  consume_challenge-keeps :
      (challenge purpose : String) → Preserves (IsSpent h) (consume_challenge challenge purpose)
  unfolding consume_challenge
  consume_challenge-keeps challenge purpose = search (keeps, add_ceremony-keeps) depth 16

  pub delete_credential-keeps :
      (user : User) (id : ℕ) → Preserves (IsSpent h) (delete_credential user id)
  unfolding delete_credential
  delete_credential-keeps user id = search (keeps, change_credentials-keeps) depth 16

  pub registration_options-keeps :
      (user : User) → Preserves (IsSpent h) (registration_options k user)
  unfolding registration_options
  registration_options-keeps user = search (keeps, issue_ceremony-keeps) depth 16

  add_credential-keeps :
      (user : User) (verified : VerifiedPasskey) (transports name : Option String)
      → Preserves (IsSpent h) (add_credential k user verified transports name)
  unfolding add_credential
  add_credential-keeps user verified transports name =
      search (keeps, change_credentials-keeps) depth 16

  pub verify_registration-keeps :
      (user : User) (credential : PasskeyResponse) (name : Option String)
      → Preserves (IsSpent h) (verify_registration k user credential name)
  unfolding verify_registration
  verify_registration-keeps user credential name =
      search (keeps, consume_challenge-keeps, add_credential-keeps) depth 20

  pub authentication_options-keeps : Preserves (IsSpent h) (authentication_options k)
  unfolding authentication_options
  authentication_options-keeps = search (keeps, issue_ceremony-keeps) depth 16

  mark_used-keeps :
      (stored : WebAuthnCredential) (count : ℕ) → Preserves (IsSpent h) (mark_used k stored count)
  unfolding mark_used
  mark_used-keeps stored count = search (keeps, change_credentials-keeps) depth 16

  verify_authentication-keeps :
      (credential : PasskeyResponse) → Preserves (IsSpent h) (verify_authentication k credential)
  unfolding verify_authentication
  verify_authentication-keeps credential =
      search (keeps, consume_challenge-keeps, mark_used-keeps) depth 24

  pub passkey_login-keeps :
      (credential : PasskeyResponse) (user_agent ip_address : Option String)
      → Preserves (IsSpent h) (passkey_login k credential user_agent ip_address)
  unfolding passkey_login
  passkey_login-keeps credential user_agent ip_address =
      search (keeps, verify_authentication-keeps, create_token_pair-keeps) depth 12
