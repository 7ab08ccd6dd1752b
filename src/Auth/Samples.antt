-- ===== src/Auth/Samples.antt =====
-- Sample users, tokens and a setting of the libraries for the tests of app/auth/.
use fund_lok.Prelude.{
  suc, String, text_eq, true, false, none, some, [], ◌∷◌, append_text, uuid_text,
}
use fund_lok.Db.{Db, User, RefreshToken, empty_db, ok}
use fund_lok.Security.{Claims, Security}
use Prim.Native.Char.{Char}
use Prim.Native.String.{◌∷◌ as text_cons, [] as no_text}

-- A hash that is the text itself, and tokens that all decode to one set of claims.
abbrev pub sample : Claims → Security
sample claims = record {
  sha256 = λ t. t;
  encode = λ c. c.jti;
  decode = λ now t. some claims;
  parse_uuid = λ t. some 1;
  hash_argon2 = λ salt p. p;
  verify_argon2 = λ p h. text_eq p h;
  totp_verify = λ now secret code. false;
  random_base32 = λ n. "SECRET";
  valid_key = λ key. true;
  encrypt = λ key s. s;
  decrypt = λ key s. some s;
  random_challenge = λ n. uuid_text n;
  verify_registration_response = λ response challenge. none;
  verify_authentication_response = λ response challenge key count. some (suc count);
  challenge_of = λ text. some text;
  turnstile = λ t. ok tt;
  is_space = λ c. false;
  is_digit = λ c. true;
  is_decimal = λ c. true;
  upper = λ c. append_text "" (one c);
  totp_encryption_key = some "key";
  access_token_expire_minutes = 15;
  refresh_token_expire_days = 7;
}
  where
    one : Char → String
    one c = text_cons c no_text

abbrev pub refresh_claims : Claims
refresh_claims = record {
  sub = some "1";
  typ = some "refresh";
  purpose = none;
  exp = 100;
  jti = "first";
}

abbrev pub toy : Security
toy = sample refresh_claims

abbrev pub token_row : RefreshToken
token_row = record {
  id = 51;
  user_id = 1;
  token_hash = "first";
  expires_at = 1000;
  revoked_at = none;
  session_id = some 9;
  user_agent = some "Firefox";
  ip_address = none;
  last_used_at = none;
}

abbrev pub member : User
member = record {
  id = 1;
  email = "a@b.vn";
  phone = none;
  password_hash = some "secret";
  full_name = none;
  bio = none;
  avatar_key = none;
  role = some "SME";
  email_verified = true;
  status = "ACTIVE";
  signin_alerts_enabled = false;
  onboarding_tour_completed_at = none;
  totp_secret = none;
  totp_enabled = false;
  totp_confirmed_at = none;
}

-- A member with two open sessions.
abbrev pub accounts : Db
accounts = record empty_db {
  users = member ∷ [];
  refresh_tokens =
      token_row ∷ record token_row { id = 52; token_hash = "other"; session_id = some 8 } ∷ [];
  totp_recovery_codes =
      record { id = 61; user_id = 1; code_hash = "ABC"; used_at = none }
      ∷ record { id = 62; user_id = 1; code_hash = "DEF"; used_at = none }
      ∷ [];
}
