-- ===== src/Auth/Tokens.antt =====
-- app/utils/jwt.py, and the challenge tokens of app/auth/totp.py.
use fund_lok.Prelude.{
  ℕ, ◌+◌, ◌*◌, ◌/◌, String, text_eq, Bool, true, false, not, Option, none, some, List, ◌==◌,
  if◌then◌else◌, truthy, select, uuid_text, strip,
}
use fund_lok.Db.{
  Db, User, Error, http, Result, Exec, pure, lift, gets, require, ◌>>=◌, ◌>>◌, raise_if,
  scalar_one_or_none, new_id,
}
use fund_lok.Security.{Security, Claims}

-- Times are microseconds; a JWT counts seconds.
abbrev pub seconds : ℕ → ℕ
seconds t = t / 1000000

abbrev pub minutes : ℕ → ℕ
minutes n = n * 60000000

-- `==` with a text that may be None
abbrev pub is_text : String → Option String → Bool
is_text s none = false
is_text s (some t) = text_eq t s

abbrev pub invalid_challenge : Error
invalid_challenge = http 401 "Invalid or expired two-factor challenge"

abbrev not_validated : Error
not_validated = http 401 "Could not validate credentials"

-- `payload.get("typ") not in (None, "access")`
abbrev pub is_access_typ : Option String → Bool
is_access_typ none = true
is_access_typ (some t) = text_eq t "access"

abbrev pub is_set {ℓ} : {A : Type ℓ} → Option A → Bool
is_set none = false
is_set (some a) = true

unfoldable pub find_user : ℕ → List User → Result (Option User)
find_user user_id users = scalar_one_or_none (select (λ (u : User). u.id == user_id) users)

module _ (k : Security) where
  abbrev pub decode_now : String → Db → Option Claims
  decode_now token db = k.decode (seconds db.clock) token

  -- `create_access_token` for the claims `sub`, `typ` and `purpose`
  unfoldable pub create_access_token : String → Option String → Option String → ℕ → Exec String
  create_access_token sub typ purpose expires_delta = do
    now ← gets (λ db. db.clock)
    jti ← new_id
    pure (
        k.encode (record {
          sub = some sub;
          typ = typ;
          purpose = purpose;
          exp = seconds (now + expires_delta);
          jti = uuid_text jti;
        }))

  unfoldable pub create_verification_token : ℕ → Exec String
  unfolding create_access_token
  create_verification_token user_id =
      create_access_token (uuid_text user_id) none (some "email_verification") (minutes (24 * 60))

  unfoldable pub create_password_reset_token : ℕ → Exec String
  unfolding create_access_token
  create_password_reset_token user_id =
      create_access_token (uuid_text user_id) none (some "password_reset") (minutes 60)

  -- TOTP_CHALLENGE_TTL is five minutes.
  unfoldable pub create_challenge_token : ℕ → Exec String
  unfolding create_access_token
  create_challenge_token user_id =
      create_access_token (uuid_text user_id) none (some "totp_challenge") (minutes 5)

  -- The `sub` of a token with the given purpose.
  unfoldable pub purpose_subject : String → Error → Error → Error → String → Exec String
  purpose_subject purpose unreadable other_purpose no_subject token = do
    decoded ← gets (decode_now token)
    payload ← lift (require decoded unreadable)
    raise_if (not (is_text purpose payload.purpose)) other_purpose
    raise_if (not (truthy payload.sub)) no_subject
    lift (require payload.sub no_subject)

  unfoldable pub verify_email_token : String → Exec String
  unfolding purpose_subject
  verify_email_token token =
      purpose_subject "email_verification" (http 400 "Invalid or expired verification token")
        (http 400 "Invalid token purpose") (http 400 "Invalid token claim") token

  unfoldable pub verify_password_reset_token : String → Exec String
  unfolding purpose_subject
  verify_password_reset_token token =
      purpose_subject "password_reset" (http 400 "Invalid or expired reset token")
        (http 400 "Invalid token purpose") (http 400 "Invalid token claim") token

  unfoldable pub verify_challenge_token : String → Exec String
  unfolding purpose_subject
  verify_challenge_token token =
      purpose_subject "totp_challenge" invalid_challenge invalid_challenge invalid_challenge token

  -- What `get_current_user` reads from a token.
  unfoldable pub session_subject : String → Exec ℕ
  session_subject token = do
    decoded ← gets (decode_now token)
    payload ← lift (require decoded not_validated)
    raise_if (is_set payload.purpose) not_validated
    raise_if (not (is_access_typ payload.typ)) not_validated
    sub ← lift (require payload.sub not_validated)
    lift (require (k.parse_uuid sub) not_validated)

  -- The header's token, stripped, if there is one, or else the cookie's.
  presented_token : Option String → Option String → Option String
  presented_token none cookie = cookie
  presented_token (some header) cookie =
      if text_eq (strip k.is_space header) "" then cookie else some (strip k.is_space header)

  unfoldable pub get_current_user : Option String → Option String → Exec User
  unfolding session_subject find_user presented_token
  get_current_user header cookie = do
    raise_if (not (truthy (presented_token header cookie))) not_validated
    token ← lift (require (presented_token header cookie) not_validated)
    uid ← session_subject token
    found ← λ db. (find_user uid db.users, db)
    lift (require found not_validated)
