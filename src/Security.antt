-- ===== src/Security.antt =====
-- What app/auth/ and app/utils/jwt.py take from outside: hashes, signatures, one-time passwords,
-- Python's Unicode tables and the settings.
use fund_lok.Prelude.{ℕ, String, Bool, Option}
use Prim.Native.Char.{Char}
use fund_lok.Db.{Result}

-- What an authenticator answers (`raw_id` is its `rawId`, or else its `id`), and what the py_webauthn library makes of it.
pub record PasskeyResponse : Type 0 where
  pub client_data : String
  pub raw_id : Option String
  pub body : String
  pub transports : Option String

pub record VerifiedPasskey : Type 0 where
  pub credential_id : String
  pub public_key : String
  pub sign_count : ℕ
  pub device_type : Option String
  pub backed_up : Bool

-- The claims of a JWT; `sub` is a text, `exp` is in seconds.
pub record Claims : Type 0 where
  pub sub : Option String
  pub typ : Option String
  pub purpose : Option String
  pub exp : ℕ
  pub jti : String

pub record Security : Type 0 where
  -- hashlib.sha256 in hexadecimal
  pub sha256 : String → String
  -- python-jose under SECRET_KEY and ALGORITHM; decoding is at a second of time, and `none` is a
  -- JWTError
  pub encode : Claims → String
  pub decode : ℕ → String → Option Claims
  -- uuid.UUID of a text
  pub parse_uuid : String → Option ℕ
  -- Argon2 of app/utils/password.py: the salt is a number
  pub hash_argon2 : ℕ → String → String
  pub verify_argon2 : String → String → Bool
  -- pyotp: `verify` with a window of one step at a time of the clock, and a secret from a random
  -- number
  pub totp_verify : ℕ → String → String → Bool
  pub random_base32 : ℕ → String
  -- Fernet under a key, `none` where the key is not valid or the text was not made under it
  pub valid_key : String → Bool
  pub encrypt : String → String → String
  pub decrypt : String → String → Option String
  -- py_webauthn with base64url texts for bytes, at the relying party of the settings: a random
  -- challenge, and the two verifications; `none` is an invalid response
  pub random_challenge : ℕ → String
  pub verify_registration_response : PasskeyResponse → String → Option VerifiedPasskey
  pub verify_authentication_response : PasskeyResponse → String → String → ℕ → Option ℕ
  -- base64url and json: the `challenge` of the client data
  pub challenge_of : String → Option String
  -- the request to Cloudflare of app/utils/captcha.py
  pub turnstile : Option String → Result (Unit {0})
  -- str.isspace, str.isdigit, the `\d` of `re` and str.upper of one character
  pub is_space : Char → Bool
  pub is_digit : Char → Bool
  pub is_decimal : Char → Bool
  pub upper : Char → String
  -- settings
  pub totp_encryption_key : Option String
  pub access_token_expire_minutes : ℕ
  pub refresh_token_expire_days : ℕ
