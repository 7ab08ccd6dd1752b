-- ===== src/Auth/Accounts.antt =====
-- Registration, verification of an address, and passwords (app/auth/service.py and
-- app/users/service.py).
use fund_lok.Prelude.{
  ℕ, String, text_eq, Bool, true, false, not, ◌||◌, Option, none, some, List, [], ◌∷◌, ◌++◌,
  if◌then◌else◌, truthy, length, select, any_of,
}
use fund_lok.Db.{
  Db, User, Error, integrity, http, Result, ok, err, Exec, pure, lift, gets, require, ◌>>=◌, ◌>>◌,
  raise_if, modify, scalar_one_or_none, new_id, verification_email, existing_account_notice,
  password_reset_email, password_changed_notice,
}
use fund_lok.Auth.Tokens.{
  is_text, is_set, find_user, create_verification_token, create_password_reset_token,
  verify_email_token, verify_password_reset_token,
}
use fund_lok.Auth.Sessions.{revoked, update_tokens, is_live}
use fund_lok.Auth.Totp.{update_user, has_password}
use fund_lok.Auth.Login.{find_email, send}
use fund_lok.Security.{Security}

unfoldable pub find_phone : String → List User → Result (Option User)
find_phone phone users = scalar_one_or_none (select (λ (u : User). is_text phone u.phone) users)

-- `email` and `phone` are unique.
abbrev pub is_taken : User → User → Bool
is_taken new row =
    text_eq row.email new.email || elim new.phone [ none ↦ false | some p ↦ is_text p row.phone ]

unfoldable pub insert_user : User → Exec (Unit {0})
insert_user new = do
  rows ← gets (λ db. db.users)
  raise_if (any_of (is_taken new) rows) integrity
  modify (λ db. record db { users = db.users ++ (new ∷ []) })

-- `if user_in.phone`: no other account may have it.
unfoldable pub check_phone : Option String → Exec (Unit {0})
unfolding find_phone
check_phone none = pure tt
check_phone (some phone) = if text_eq phone "" then pure tt else do
  found ← λ db. (find_phone phone db.users, db)
  raise_if (is_set found) (http 400 "Phone number already registered")

unfoldable pub created_or_rolled_back : Result ℕ → Db → Db → Result (Option ℕ) × Db
created_or_rolled_back (ok id) after before = (ok (some id), after)
created_or_rolled_back (err integrity) after before = (ok none, before)
created_or_rolled_back (err e) after before = (err e, after)

-- An IntegrityError at the commit is caught, and the session is rolled back.
unfoldable pub or_rollback : Exec ℕ → Exec (Option ℕ)
unfolding created_or_rolled_back
or_rollback m db = created_or_rolled_back (m db).0 (m db).1 db

abbrev not_found : Error
not_found = http 404 "User not found"

module _ (k : Security) where
  -- `hash_password`, with a fresh salt
  unfoldable pub hash_password : String → Exec String
  hash_password password = do salt ← new_id; pure (k.hash_argon2 salt password)

  unfoldable pub create_user : String → Option String → String → String → Exec ℕ
  unfolding hash_password insert_user
  create_user email phone full_name password = do
    password_hash ← hash_password password
    id ← new_id
    insert_user (record {
      id = id;
      email = email;
      phone = phone;
      password_hash = some password_hash;
      full_name = some full_name;
      bio = none;
      avatar_key = none;
      role = none;
      email_verified = false;
      status = "ACTIVE";
      signin_alerts_enabled = false;
      onboarding_tour_completed_at = none;
      totp_secret = none;
      totp_enabled = false;
      totp_confirmed_at = none;
    })
    pure id

  unfoldable pub mail_verification : String → Option ℕ → Exec (Unit {0})
  unfolding create_verification_token send
  mail_verification email none = pure tt
  mail_verification email (some id) = do
    token ← create_verification_token k id
    send (verification_email email token)

  unfoldable pub register_new : String → Option String → String → String → Exec (Unit {0})
  unfolding check_phone create_user or_rollback mail_verification
  register_new email phone full_name password = do
    check_phone phone
    created ← or_rollback (create_user email phone full_name password)
    mail_verification email created

  -- The acknowledgement is the same text in all cases that do not raise.
  unfoldable pub register_user :
      String → Option String → String → String → Option String → Exec String
  unfolding find_email register_new send
  register_user email phone full_name password turnstile_token = do
    lift (k.turnstile turnstile_token)
    existing_email ← λ db. (find_email email db.users, db)
    if is_set existing_email
        then send (existing_account_notice email)
        else register_new email phone full_name password
    pure "If these details are available, a verification email has been sent."

  unfoldable pub verify_email : String → Exec String
  unfolding find_user verify_email_token update_user
  verify_email token = do
    sub ← verify_email_token k token
    uid ← lift (require (k.parse_uuid sub) (http 400 "Invalid token details"))
    found ← λ db. (find_user uid db.users, db)
    user ← lift (require found not_found)
    if user.email_verified then pure "Email already verified" else do
      update_user user.id (λ u. record u { email_verified = true })
      pure "Email verified successfully"

  unfoldable pub resend_to : Option User → Exec String
  unfolding create_verification_token send
  resend_to none = pure "If the email exists, a verification link has been sent."
  resend_to (some user) = if user.email_verified then pure "Email already verified" else do
    token ← create_verification_token k user.id
    send (verification_email user.email token)
    pure "Verification link has been sent."

  unfoldable pub resend_verification : String → Exec String
  unfolding find_email resend_to
  resend_verification email = do user ← λ db. (find_email email db.users, db); resend_to user

  unfoldable pub mail_reset : Option User → Exec (Unit {0})
  unfolding create_password_reset_token send
  mail_reset none = pure tt
  mail_reset (some user) = do
    token ← create_password_reset_token k user.id
    send (password_reset_email user.email token)

  unfoldable pub forgot_password : String → Option String → Exec String
  unfolding find_email mail_reset
  forgot_password email turnstile_token = do
    lift (k.turnstile turnstile_token)
    user ← λ db. (find_email email db.users, db)
    mail_reset user
    pure "If the email is registered, a password reset link has been sent."

  unfoldable pub reset_password : String → String → Exec (Unit {0})
  unfolding find_user verify_password_reset_token hash_password update_user send
  reset_password token new_password = do
    sub ← verify_password_reset_token k token
    uid ← lift (require (k.parse_uuid sub) (http 400 "Invalid token details"))
    found ← λ db. (find_user uid db.users, db)
    user ← lift (require found not_found)
    password_hash ← hash_password new_password
    update_user user.id (λ u. record u { password_hash = some password_hash })
    send (password_changed_notice user.email false)

  unfoldable pub set_password : String → User → Exec (Unit {0})
  unfolding hash_password update_user send
  set_password new_password current_user = do
    raise_if (truthy current_user.password_hash)
        (http 400 "This account already has a password. Use Forgot password to change it.")
    password_hash ← hash_password new_password
    update_user current_user.id (λ u. record u { password_hash = some password_hash })
    send (password_changed_notice current_user.email true)

  unfoldable pub change_password : String → String → User → Exec ℕ
  unfolding has_password hash_password update_user update_tokens send
  change_password current_password new_password current_user = do
    raise_if (not (truthy current_user.password_hash))
        (http 400 "This account has no password yet. Set one instead.")
    raise_if (not (has_password k current_password current_user))
        (http 400 "Current password is incorrect")
    raise_if (has_password k new_password current_user)
        (http 400 "New password must be different from the current one")
    password_hash ← hash_password new_password
    update_user current_user.id (λ u. record u { password_hash = some password_hash })
    rows ← gets (λ db. select (is_live current_user.id) db.refresh_tokens)
    update_tokens (is_live current_user.id) revoked
    send (password_changed_notice current_user.email false)
    pure (length rows)
