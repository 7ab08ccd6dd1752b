-- ===== src/Auth/PasskeyTests.antt =====
-- A sample ceremony of app/auth/passkeys.py, and the theorem applied to it.
use fund_lok.Prelude.{◌≡◌, refl, false, none, some, [], ◌∷◌}
use fund_lok.Db.{Db, ok, err}
use fund_lok.Security.{PasskeyResponse}
use fund_lok.Auth.Samples.{toy, member, accounts}
use fund_lok.Auth.Passkeys.{expired_request, expected_challenge, verify_authentication}
use fund_lok.Auth.Ceremony.{present, passkey_once}

-- A passkey signs in once with one challenge: the second answer finds none.
abbrev with_passkey : Db
with_passkey = record accounts {
  webauthn_credentials =
      record {
        id = 71;
        user_id = 1;
        credential_id = "cred";
        public_key = "key";
        sign_count = 4;
        device_type = none;
        backed_up = false;
        transports = none;
        name = "Passkey";
        last_used_at = none;
      }
      ∷ [];
  webauthn_challenges =
      record {
        id = 72;
        challenge = "ch";
        user_id = none;
        purpose = "authentication";
        expires_at = 9;
      }
      ∷ [];
}

abbrev answer : PasskeyResponse
answer = record { client_data = "ch="; raw_id = some "cred=="; body = ""; transports = none }

read_challenge : expected_challenge toy answer ≡ ok "ch"
unfolding expected_challenge
read_challenge = refl

signed_in : (verify_authentication toy answer with_passkey).0 ≡ ok member
unfolding verify_authentication
signed_in = refl

passkey_once_example :
    verify_authentication toy answer
      (present toy (answer ∷ []) (verify_authentication toy answer with_passkey).1)
    ≡ (
      err expired_request,
      present toy (answer ∷ []) (verify_authentication toy answer with_passkey).1,
    )
passkey_once_example =
    passkey_once toy answer answer (answer ∷ []) "ch" member with_passkey read_challenge
      read_challenge signed_in
