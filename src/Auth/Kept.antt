-- ===== src/Auth/Kept.antt =====
-- Calls about accounts, and spent refresh tokens (app/auth/service.py, app/users/service.py).
use fund_lok.Prelude.{ℕ, String, Bool, Option, none, some}
use fund_lok.Db.{Db, User, integrity, Result, ok, err, Exec}
use fund_lok.Db.Frames.{Preserves, frames}
use fund_lok.Auth.Revocation.{IsSpent, keeps}
use fund_lok.Auth.Rotation.{parts}
use fund_lok.Auth.Tokens.{
  create_verification_token, create_password_reset_token, verify_email_token,
  verify_password_reset_token, verify_challenge_token,
}
use fund_lok.Auth.Totp.{start_totp_setup, enable_totp, disable_totp}
use fund_lok.Auth.Login.{authenticate_user, login, complete_totp_login}
use fund_lok.Auth.Accounts.{
  check_phone, created_or_rolled_back, or_rollback, create_user, mail_verification, register_new,
  register_user, verify_email, resend_to, resend_verification, mail_reset, forgot_password,
  reset_password, set_password, change_password,
}
use fund_lok.Auth.Profile.{
  check_clash, update_user_profile, select_user_role, update_security_preferences,
  complete_onboarding_tour,
}
use fund_lok.Security.{Security}

module _ (k : Security) (h : String) where
  pub login-keeps :
      (email password : String) (turnstile_token user_agent ip_address : Option String)
      (has_tasks : Bool)
      → Preserves
          (IsSpent h)
          (login k email password turnstile_token user_agent ip_address has_tasks)
  unfolding login authenticate_user
  login-keeps email password turnstile_token user_agent ip_address has_tasks =
      search (parts) depth 16

  pub complete_totp_login-keeps :
      (challenge_token code : String) (user_agent ip_address : Option String) (has_tasks : Bool)
      → Preserves
          (IsSpent h)
          (complete_totp_login k challenge_token code user_agent ip_address has_tasks)
  unfolding complete_totp_login verify_challenge_token
  complete_totp_login-keeps challenge_token code user_agent ip_address has_tasks =
      search (parts) depth 16

  pub start_totp_setup-keeps : (user : User) → Preserves (IsSpent h) (start_totp_setup k user)
  unfolding start_totp_setup
  start_totp_setup-keeps user = search (parts) depth 16

  pub enable_totp-keeps :
      (user : User) (code : String) → Preserves (IsSpent h) (enable_totp k user code)
  unfolding enable_totp
  enable_totp-keeps user code = search (parts) depth 16

  pub disable_totp-keeps :
      (user : User) (password code : String)
      → Preserves (IsSpent h) (disable_totp k user password code)
  unfolding disable_totp
  disable_totp-keeps user password code = search (parts) depth 16

  pub check_phone-some-keeps : (phone : String) → Preserves (IsSpent h) (check_phone (some phone))
  unfolding check_phone
  check_phone-some-keeps phone = search (parts) depth 16

  pub check_phone-keeps : (phone : Option String) → Preserves (IsSpent h) (check_phone phone)
  unfolding check_phone
  check_phone-keeps none = search keeps
  check_phone-keeps (some phone) = check_phone-some-keeps phone

  pub rolled_back-keeps :
      (r : Result ℕ) (after before : Db)
      → IsSpent h after
      → IsSpent h before
      → IsSpent h (created_or_rolled_back r after before).1
  unfolding created_or_rolled_back
  rolled_back-keeps (ok id) after before new old = new
  rolled_back-keeps (err integrity) after before new old = old
  rolled_back-keeps (err e) after before new old = new

  pub or_rollback-keeps :
      (m : Exec ℕ) → Preserves (IsSpent h) m → Preserves (IsSpent h) (or_rollback m)
  unfolding or_rollback
  or_rollback-keeps m same = record {
    at = λ db h. rolled_back-keeps (m db).0 (m db).1 db (same.at db h) h;
  }

  pub create_user-keeps :
      (email : String) (phone : Option String) (full_name password : String)
      → Preserves (IsSpent h) (create_user k email phone full_name password)
  unfolding create_user
  create_user-keeps email phone full_name password = search (parts) depth 16

  pub mail_verification-keeps :
      (email : String) (id : Option ℕ) → Preserves (IsSpent h) (mail_verification k email id)
  unfolding mail_verification create_verification_token
  mail_verification-keeps email none = search keeps
  mail_verification-keeps email (some id) = search parts depth 12

  pub register_new-keeps :
      (email : String) (phone : Option String) (full_name password : String)
      → Preserves (IsSpent h) (register_new k email phone full_name password)
  unfolding register_new
  register_new-keeps email phone full_name password =
      search
        (parts, check_phone-keeps, create_user-keeps, mail_verification-keeps, or_rollback-keeps)
        depth 16

  pub register_user-keeps :
      (email : String) (phone : Option String) (full_name password : String)
      (turnstile_token : Option String)
      → Preserves (IsSpent h) (register_user k email phone full_name password turnstile_token)
  unfolding register_user
  register_user-keeps email phone full_name password turnstile_token =
      search (parts, register_new-keeps) depth 16

  pub verify_email-keeps : (token : String) → Preserves (IsSpent h) (verify_email k token)
  unfolding verify_email verify_email_token
  verify_email-keeps token = search (parts) depth 16

  pub resend_to-keeps : (user : Option User) → Preserves (IsSpent h) (resend_to k user)
  unfolding resend_to create_verification_token
  resend_to-keeps none = search keeps
  resend_to-keeps (some user) = search parts depth 12

  pub mail_reset-keeps : (user : Option User) → Preserves (IsSpent h) (mail_reset k user)
  unfolding mail_reset create_password_reset_token
  mail_reset-keeps none = search keeps
  mail_reset-keeps (some user) = search parts depth 12

  pub resend_verification-keeps :
      (email : String) → Preserves (IsSpent h) (resend_verification k email)
  unfolding resend_verification
  resend_verification-keeps email = search (parts, resend_to-keeps) depth 16

  pub forgot_password-keeps :
      (email : String) (turnstile_token : Option String)
      → Preserves (IsSpent h) (forgot_password k email turnstile_token)
  unfolding forgot_password
  forgot_password-keeps email turnstile_token = search (parts, mail_reset-keeps) depth 16

  pub reset_password-keeps :
      (token new_password : String) → Preserves (IsSpent h) (reset_password k token new_password)
  unfolding reset_password verify_password_reset_token
  reset_password-keeps token new_password = search (parts) depth 16

  pub set_password-keeps :
      (new_password : String) (user : User)
      → Preserves (IsSpent h) (set_password k new_password user)
  unfolding set_password
  set_password-keeps new_password user = search (parts) depth 16

  pub change_password-keeps :
      (current_password new_password : String) (user : User)
      → Preserves (IsSpent h) (change_password k current_password new_password user)
  unfolding change_password
  change_password-keeps current_password new_password user = search (parts) depth 20

  pub check_clash-keeps :
      (phone : Option (Option String)) (user_id : ℕ)
      → Preserves (IsSpent h) (check_clash phone user_id)
  unfolding check_clash
  check_clash-keeps none user_id = search frames
  check_clash-keeps (some none) user_id = search frames
  check_clash-keeps (some (some phone)) user_id = search frames

  pub update_user_profile-keeps :
      (phone full_name bio : Option (Option String)) (user : User)
      → Preserves (IsSpent h) (update_user_profile phone full_name bio user)
  unfolding update_user_profile
  update_user_profile-keeps phone full_name bio user = search (parts, check_clash-keeps) depth 16

  pub select_user_role-keeps :
      (role : String) (user : User) → Preserves (IsSpent h) (select_user_role role user)
  unfolding select_user_role
  select_user_role-keeps role user = search (parts) depth 16

  pub update_security_preferences-keeps :
      (enabled : Bool) (user : User)
      → Preserves (IsSpent h) (update_security_preferences enabled user)
  unfolding update_security_preferences
  update_security_preferences-keeps enabled user = search (parts) depth 16

  pub complete_onboarding_tour-keeps :
      (user : User) → Preserves (IsSpent h) (complete_onboarding_tour user)
  unfolding complete_onboarding_tour
  complete_onboarding_tour-keeps user = search (parts) depth 16
