-- ===== src/Auth/Reuse.antt =====
-- Spent refresh tokens over any calls (app/auth/service.py, app/users/service.py).
use fund_lok.Prelude.{ℕ, ◌+◌, String, List, [], ◌∷◌}
use fund_lok.Db.{Db}
use fund_lok.Auth.Revocation.{
  IsSpent, refresh_token_pair-keeps, revoke_session-keeps, revoke_other_sessions-keeps,
  logout-keeps,
}
use fund_lok.Auth.Calls.{
  Call, refreshes, logs_out, revokes_session, revokes_others, logs_in, completes_login,
  starts_setup, enables_totp, disables_totp, registers, verifies_email, resends, forgets_password,
  resets_password, sets_password, changes_password, updates_profile, selects_role, sets_alerts,
  ends_tour, removes_passkey, starts_passkey, adds_passkey, offers_passkey, enters_by_passkey,
  enters_by_provider, waits, step, run,
}
use fund_lok.Auth.KeptByProviders.{oauth_login-keeps}
use fund_lok.Security.{Security}
use fund_lok.Auth.Kept.{
  login-keeps, complete_totp_login-keeps, start_totp_setup-keeps, enable_totp-keeps,
  disable_totp-keeps, register_user-keeps, verify_email-keeps, resend_verification-keeps,
  forgot_password-keeps, reset_password-keeps, set_password-keeps, change_password-keeps,
  update_user_profile-keeps, select_user_role-keeps, update_security_preferences-keeps,
  complete_onboarding_tour-keeps,
}
use fund_lok.Auth.KeptByPasskeys.{
  delete_credential-keeps, registration_options-keeps, verify_registration-keeps,
  authentication_options-keeps, passkey_login-keeps,
}

waits-keeps :
    (h : String) (t : ℕ) (db : Db) → IsSpent h db → IsSpent h (record db { clock = db.clock + t })
unfolding IsSpent
waits-keeps h t db spent = spent

module _ (k : Security) (h : String) where
  step-IsSpent : (c : Call) (db : Db) → IsSpent h db → IsSpent h (step k c db)
  unfolding step
  step-IsSpent (refreshes token user_agent ip) =
      (refresh_token_pair-keeps k h token user_agent ip).at
  step-IsSpent (logs_out token) = (logout-keeps k h token).at
  step-IsSpent (revokes_session user_id session_id token) =
      (revoke_session-keeps k h user_id session_id token).at
  step-IsSpent (revokes_others user_id token) = (revoke_other_sessions-keeps k h user_id token).at
  step-IsSpent (logs_in email password captcha user_agent ip tasks) =
      (login-keeps k h email password captcha user_agent ip tasks).at
  step-IsSpent (completes_login token code user_agent ip tasks) =
      (complete_totp_login-keeps k h token code user_agent ip tasks).at
  step-IsSpent (starts_setup user) = (start_totp_setup-keeps k h user).at
  step-IsSpent (enables_totp user code) = (enable_totp-keeps k h user code).at
  step-IsSpent (disables_totp user password code) = (disable_totp-keeps k h user password code).at
  step-IsSpent (registers email phone full_name password captcha) =
      (register_user-keeps k h email phone full_name password captcha).at
  step-IsSpent (verifies_email token) = (verify_email-keeps k h token).at
  step-IsSpent (resends email) = (resend_verification-keeps k h email).at
  step-IsSpent (forgets_password email captcha) = (forgot_password-keeps k h email captcha).at
  step-IsSpent (resets_password token password) = (reset_password-keeps k h token password).at
  step-IsSpent (sets_password password user) = (set_password-keeps k h password user).at
  step-IsSpent (changes_password old new user) = (change_password-keeps k h old new user).at
  step-IsSpent (updates_profile phone full_name bio user) =
      (update_user_profile-keeps k h phone full_name bio user).at
  step-IsSpent (selects_role role user) = (select_user_role-keeps k h role user).at
  step-IsSpent (sets_alerts enabled user) = (update_security_preferences-keeps k h enabled user).at
  step-IsSpent (ends_tour user) = (complete_onboarding_tour-keeps k h user).at
  step-IsSpent (removes_passkey user id) = (delete_credential-keeps k h user id).at
  step-IsSpent (starts_passkey user) = (registration_options-keeps k h user).at
  step-IsSpent (adds_passkey user credential name) =
      (verify_registration-keeps k h user credential name).at
  step-IsSpent offers_passkey = (authentication_options-keeps k h).at
  step-IsSpent (enters_by_passkey credential user_agent ip) =
      (passkey_login-keeps k h credential user_agent ip).at
  step-IsSpent (enters_by_provider o provider token user_agent ip tasks) =
      (oauth_login-keeps k h o provider token user_agent ip tasks).at
  step-IsSpent (waits t) = waits-keeps h t

  pub run-IsSpent : (calls : List Call) (db : Db) → IsSpent h db → IsSpent h (run k calls db)
  unfolding run
  run-IsSpent [] db spent = spent
  run-IsSpent (c ∷ calls) db spent = run-IsSpent calls (step k c db) (step-IsSpent c db spent)
