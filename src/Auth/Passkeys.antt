-- ===== src/Auth/Passkeys.antt =====
-- Passkeys (app/auth/passkeys.py), and the sign-in with one (app/auth/router.py).
use fund_lok.Prelude.{
  ℕ, ◌+◌, String, text_eq, Bool, false, not, ◌&&◌, Option, none, some, List, [], ◌∷◌, ◌++◌, ltb,
  leb, ◌==◌, if◌then◌else◌, truthy, length, select, update, any_of, strip, rstrip_char, take_text,
}
use fund_lok.Db.{
  User, WebAuthnCredential, WebAuthnChallenge, Error, integrity, http, Result, ok, err, Exec, pure,
  lift, gets, require, ◌>>=◌, ◌>>◌, raise_if, modify, scalar_one_or_none, new_id,
}
use fund_lok.Security.{PasskeyResponse, VerifiedPasskey, Security}
use fund_lok.Auth.Tokens.{is_set, find_user}
use fund_lok.Auth.Sessions.{TokenPair, create_token_pair}

abbrev pub expired_request : Error
expired_request = http 400 "This request has expired. Please try again."

abbrev unrecognised : Error
unrecognised = http 401 "That passkey was not recognised."

abbrev pub of_user : ℕ → Option ℕ → Bool
of_user user_id none = false
of_user user_id (some u) = u == user_id

-- The earlier ceremonies of a user for the purpose are deleted.
unfoldable pub clear_challenges : Option ℕ → String → Exec (Unit {0})
clear_challenges none purpose = pure tt
clear_challenges (some user_id) purpose = modify (λ db. record db {
  webauthn_challenges =
      select
        (λ (c : WebAuthnChallenge). not (of_user user_id c.user_id && text_eq c.purpose purpose))
        db.webauthn_challenges;
})

-- `challenge` is unique; CHALLENGE_TTL_SECONDS is 300.
unfoldable pub issue_ceremony : String → Option ℕ → String → Exec (Unit {0})
unfolding clear_challenges
issue_ceremony challenge user_id purpose = do
  clear_challenges user_id purpose
  now ← gets (λ db. db.clock)
  id ← new_id
  rows ← gets (λ db. db.webauthn_challenges)
  raise_if (any_of (λ (c : WebAuthnChallenge). text_eq c.challenge challenge) rows) integrity
  modify (λ db. record db {
    webauthn_challenges =
        db.webauthn_challenges
        ++ ((record {
          id = id;
          challenge = challenge;
          user_id = user_id;
          purpose = purpose;
          expires_at = now + 300000000;
        })
            ∷ []);
  })

unfoldable pub find_challenge :
    String → String → List WebAuthnChallenge → Result (Option WebAuthnChallenge)
find_challenge challenge purpose rows = scalar_one_or_none (
    select (λ (c : WebAuthnChallenge). text_eq c.challenge challenge && text_eq c.purpose purpose)
      rows)

-- The row is deleted, also where it has expired.
unfoldable pub consume_challenge : String → String → Exec WebAuthnChallenge
unfolding find_challenge
consume_challenge challenge purpose = do
  found ← λ db. (find_challenge challenge purpose db.webauthn_challenges, db)
  row ← lift (require found expired_request)
  now ← gets (λ db. db.clock)
  modify (λ db. record db {
    webauthn_challenges =
        select (λ (c : WebAuthnChallenge). not (c.id == row.id)) db.webauthn_challenges;
  })
  raise_if (ltb row.expires_at now) expired_request
  pure row

unfoldable pub delete_credential : User → ℕ → Exec (Unit {0})
delete_credential user credential_id = do
  found ← λ db. (
    scalar_one_or_none (
        select (λ (c : WebAuthnCredential). c.id == credential_id && c.user_id == user.id)
          db.webauthn_credentials),
    db,
  )
  row ← lift (require found (http 404 "Passkey not found."))
  modify (λ db. record db {
    webauthn_credentials =
        select (λ (c : WebAuthnCredential). not (c.id == row.id)) db.webauthn_credentials;
  })

unfoldable pub find_credential :
    String → List WebAuthnCredential → Result (Option WebAuthnCredential)
find_credential credential_id rows =
    scalar_one_or_none
      (select (λ (c : WebAuthnCredential). text_eq c.credential_id credential_id) rows)

-- `(name or "").strip()[:80] or "Passkey"`, of the stripped name
abbrev pub passkey_name : String → String
passkey_name stripped =
    if text_eq (take_text 80 stripped) "" then "Passkey" else take_text 80 stripped

abbrev or_empty_text : Option String → String
or_empty_text none = ""
or_empty_text (some t) = t

module _ (k : Security) where
  -- `_expected_challenge`
  unfoldable pub expected_challenge : PasskeyResponse → Result String
  expected_challenge credential = elim (k.challenge_of credential.client_data) [
    | none ↦ err (http 400 "Malformed passkey response.")
    | some c ↦ ok (rstrip_char "=" c)
  ]

  -- At most MAX_CREDENTIALS_PER_USER passkeys, which are 20. The answer is the challenge.
  unfoldable pub registration_options : User → Exec String
  unfolding issue_ceremony
  registration_options user = do
    existing ←
        gets
          (λ db. select (λ (c : WebAuthnCredential). c.user_id == user.id) db.webauthn_credentials)
    raise_if (leb 20 (length existing))
        (http 400 "You have reached the maximum number of passkeys.")
    drawn ← new_id
    issue_ceremony (k.random_challenge drawn) (some user.id) "registration"
    pure (k.random_challenge drawn)

  unfoldable pub add_credential :
      User → VerifiedPasskey → Option String → Option String → Exec (Unit {0})
  add_credential user verified transports name = do
    id ← new_id
    modify (λ db. record db {
      webauthn_credentials =
          db.webauthn_credentials
          ++ ((record {
            id = id;
            user_id = user.id;
            credential_id = verified.credential_id;
            public_key = verified.public_key;
            sign_count = verified.sign_count;
            device_type = verified.device_type;
            backed_up = verified.backed_up;
            transports = transports;
            name = passkey_name (strip k.is_space (or_empty_text name));
            last_used_at = none;
          })
              ∷ []);
    })

  unfoldable pub verify_registration : User → PasskeyResponse → Option String → Exec (Unit {0})
  unfolding expected_challenge consume_challenge find_credential add_credential
  verify_registration user credential name = do
    challenge ← lift (expected_challenge credential)
    row ← consume_challenge challenge "registration"
    raise_if (not (of_user user.id row.user_id)) expired_request
    verified ← lift (
        require (k.verify_registration_response credential challenge)
          (http 400 "That passkey could not be verified."))
    clash ← λ db. (find_credential verified.credential_id db.webauthn_credentials, db)
    raise_if (is_set clash) (http 400 "That passkey is already registered.")
    add_credential user verified credential.transports name

  unfoldable pub authentication_options : Exec String
  unfolding issue_ceremony
  authentication_options = do
    drawn ← new_id
    issue_ceremony (k.random_challenge drawn) none "authentication"
    pure (k.random_challenge drawn)

  unfoldable pub mark_used : WebAuthnCredential → ℕ → Exec (Unit {0})
  mark_used stored new_sign_count = modify (λ db. record db {
    webauthn_credentials =
        update (λ (c : WebAuthnCredential). c.id == stored.id)
          (λ c. record c { sign_count = new_sign_count; last_used_at = some db.clock })
          db.webauthn_credentials;
  })

  unfoldable pub verify_authentication : PasskeyResponse → Exec User
  unfolding expected_challenge consume_challenge find_credential find_user mark_used
  verify_authentication credential = do
    challenge ← lift (expected_challenge credential)
    consume_challenge challenge "authentication"
    raise_if (not (truthy credential.raw_id)) (http 400 "Malformed passkey response.")
    raw_id ← lift (require credential.raw_id (http 400 "Malformed passkey response."))
    found ← λ db. (find_credential (rstrip_char "=" raw_id) db.webauthn_credentials, db)
    stored ← lift (require found unrecognised)
    new_sign_count ← lift (
        require
          (k.verify_authentication_response credential challenge stored.public_key
            stored.sign_count)
          unrecognised)
    account ← λ db. (find_user stored.user_id db.users, db)
    user ← lift (require account unrecognised)
    raise_if (not (text_eq user.status "ACTIVE")) unrecognised
    mark_used stored new_sign_count
    pure user

  -- The route's tokens; its audit row and its cookies are left out.
  unfoldable pub passkey_login :
      PasskeyResponse → Option String → Option String → Exec (User × TokenPair)
  unfolding verify_authentication create_token_pair
  passkey_login credential user_agent ip_address = do
    user ← verify_authentication credential
    pair ← create_token_pair k user.id none user_agent ip_address
    pure (user, pair)
