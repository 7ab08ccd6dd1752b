-- ===== src/Auth/Login.antt =====
-- Sign-in with a password and with a second factor (app/auth/service.py).
use fund_lok.Prelude.{
  ℕ, String, text_eq, Bool, false, not, ◌&&◌, Option, none, some, List, [], ◌∷◌, ◌++◌, ◌==◌,
  if◌then◌else◌, select, any_of,
}
use fund_lok.Db.{
  Db, User, RefreshToken, Mail, value_error, http, Result, Exec, pure, lift, gets, require, ◌>>=◌,
  ◌>>◌, raise_if, modify, scalar_one_or_none, new_device_alert,
}
use fund_lok.Auth.Tokens.{
  is_text, invalid_challenge, find_user, create_challenge_token, verify_challenge_token,
}
use fund_lok.Auth.Sessions.{TokenPair, create_token_pair}
use fund_lok.Auth.Totp.{consume_second_factor, has_password}
use fund_lok.Auth.UserAgent.{describe_device, describe_browser}
use fund_lok.Security.{Security}

-- What a sign-in returns: tokens, or a challenge for the second factor.
pub data Outcome : Type 0 where
  tokens : TokenPair → Outcome
  totp_required : String → Outcome

unfoldable pub find_email : String → List User → Result (Option User)
find_email email users = scalar_one_or_none (select (λ (u : User). text_eq u.email email) users)

-- Whether the user agent has never signed in to the account.
unfoldable pub is_unseen_device : ℕ → Option String → Db → Bool
is_unseen_device user_id none db = false
is_unseen_device user_id (some user_agent) db =
    not (text_eq user_agent "")
    && not (
        any_of (λ (row : RefreshToken). row.user_id == user_id && is_text user_agent row.user_agent)
          db.refresh_tokens)

unfoldable pub send : Mail → Exec (Unit {0})
send message = modify (λ db. record db { mail = db.mail ++ (message ∷ []) })

unfoldable pub send_if : Bool → Mail → Exec (Unit {0})
unfolding send
send_if c message = if c then send message else pure tt

module _ (k : Security) where
  -- The user, if the password is theirs.
  unfoldable pub check_password : String → Option User → Option User
  unfolding has_password
  check_password password none = none
  check_password password (some user) = if has_password k password user then some user else none

  unfoldable pub authenticate_user : String → String → Exec (Option User)
  unfolding check_password find_email
  authenticate_user email password = do
    user ← λ db. (find_email email db.users, db)
    pure (check_password password user)

  -- The tokens of a completed sign-in, and the alert about a new device; `has_tasks` says whether
  -- the caller passes `background_tasks`.
  unfoldable pub sign_in : User → Option String → Option String → Bool → Exec Outcome
  unfolding create_token_pair is_unseen_device send_if describe_device describe_browser
  sign_in user user_agent ip_address has_tasks = do
    is_new_device ← gets (is_unseen_device user.id user_agent)
    pair ← create_token_pair k user.id none user_agent ip_address
    send_if (is_new_device && user.signin_alerts_enabled && has_tasks) (
        new_device_alert user.email (describe_device user_agent) (describe_browser k user_agent)
          ip_address)
    pure (tokens pair)

  unfoldable pub issue_challenge : User → Exec Outcome
  unfolding create_challenge_token
  issue_challenge user = do token ← create_challenge_token k user.id; pure (totp_required token)

  unfoldable pub login :
      String → String → Option String → Option String → Option String → Bool → Exec (User × Outcome)
  unfolding authenticate_user sign_in issue_challenge
  login email password turnstile_token user_agent ip_address has_tasks = do
    lift (k.turnstile turnstile_token)
    found ← authenticate_user email password
    user ← lift (require found (http 401 "Incorrect email or password"))
    outcome ←
        if user.totp_enabled
        then issue_challenge user
        else sign_in user user_agent ip_address has_tasks
    pure (user, outcome)

  unfoldable pub complete_totp_login :
      String → String → Option String → Option String → Bool → Exec (User × Outcome)
  unfolding find_user verify_challenge_token consume_second_factor sign_in
  complete_totp_login challenge_token code user_agent ip_address has_tasks = do
    user_id ← verify_challenge_token k challenge_token
    uid ← lift (require (k.parse_uuid user_id) value_error)
    found ← λ db. (find_user uid db.users, db)
    user ← lift (require found invalid_challenge)
    raise_if (not user.totp_enabled) invalid_challenge
    accepted ← consume_second_factor k user code
    raise_if (not accepted) (http 401 "That code is not valid")
    outcome ← sign_in user user_agent ip_address has_tasks
    pure (user, outcome)
