-- ===== src/Auth/Calls.antt =====
-- The calls of app/auth/service.py, app/oauth/service.py and app/users/service.py that change state, in any order, and
-- the passing of time between them.
use fund_lok.Prelude.{ℕ, ◌+◌, String, Bool, Option, List, [], ◌∷◌}
use fund_lok.Db.{Db, User}
use fund_lok.Auth.Sessions.{refresh_token_pair, logout, revoke_session, revoke_other_sessions}
use fund_lok.Auth.Totp.{start_totp_setup, enable_totp, disable_totp}
use fund_lok.Auth.Login.{login, complete_totp_login}
use fund_lok.Auth.Accounts.{
  register_user, verify_email, resend_verification, forgot_password, reset_password, set_password,
  change_password,
}
use fund_lok.Auth.Profile.{
  update_user_profile, select_user_role, update_security_preferences, complete_onboarding_tour,
}
use fund_lok.Auth.Oauth.{Providers, OauthProvider, oauth_login}
use fund_lok.Security.{PasskeyResponse, Security}
use fund_lok.Auth.Passkeys.{
  delete_credential, registration_options, verify_registration, authentication_options,
  passkey_login,
}

pub data Call : Type 0 where
  refreshes : String → Option String → Option String → Call
  logs_out : Option String → Call
  revokes_session : ℕ → ℕ → Option String → Call
  revokes_others : ℕ → Option String → Call
  logs_in : String → String → Option String → Option String → Option String → Bool → Call
  completes_login : String → String → Option String → Option String → Bool → Call
  starts_setup : User → Call
  enables_totp : User → String → Call
  disables_totp : User → String → String → Call
  registers : String → Option String → String → String → Option String → Call
  verifies_email : String → Call
  resends : String → Call
  forgets_password : String → Option String → Call
  resets_password : String → String → Call
  sets_password : String → User → Call
  changes_password : String → String → User → Call
  updates_profile :
      Option (Option String) → Option (Option String) → Option (Option String) → User → Call
  selects_role : String → User → Call
  sets_alerts : Bool → User → Call
  ends_tour : User → Call
  removes_passkey : User → ℕ → Call
  starts_passkey : User → Call
  adds_passkey : User → PasskeyResponse → Option String → Call
  offers_passkey : Call
  enters_by_passkey : PasskeyResponse → Option String → Option String → Call
  enters_by_provider :
      Providers → OauthProvider → String → Option String → Option String → Bool → Call
  waits : ℕ → Call

module _ (k : Security) where
  unfoldable pub step : Call → Db → Db
  unfolding refresh_token_pair logout revoke_session revoke_other_sessions login complete_totp_login
      start_totp_setup enable_totp disable_totp register_user verify_email resend_verification
      forgot_password reset_password set_password change_password update_user_profile
      select_user_role update_security_preferences complete_onboarding_tour delete_credential
      registration_options verify_registration authentication_options passkey_login oauth_login
  step (refreshes token user_agent ip) db = (refresh_token_pair k token user_agent ip db).1
  step (logs_out token) db = (logout k token db).1
  step (revokes_session user_id session_id token) db =
      (revoke_session k user_id session_id token db).1
  step (revokes_others user_id token) db = (revoke_other_sessions k user_id token db).1
  step (logs_in email password captcha user_agent ip tasks) db =
      (login k email password captcha user_agent ip tasks db).1
  step (completes_login token code user_agent ip tasks) db =
      (complete_totp_login k token code user_agent ip tasks db).1
  step (starts_setup user) db = (start_totp_setup k user db).1
  step (enables_totp user code) db = (enable_totp k user code db).1
  step (disables_totp user password code) db = (disable_totp k user password code db).1
  step (registers email phone full_name password captcha) db =
      (register_user k email phone full_name password captcha db).1
  step (verifies_email token) db = (verify_email k token db).1
  step (resends email) db = (resend_verification k email db).1
  step (forgets_password email captcha) db = (forgot_password k email captcha db).1
  step (resets_password token password) db = (reset_password k token password db).1
  step (sets_password password user) db = (set_password k password user db).1
  step (changes_password old new user) db = (change_password k old new user db).1
  step (updates_profile phone full_name bio user) db =
      (update_user_profile phone full_name bio user db).1
  step (selects_role role user) db = (select_user_role role user db).1
  step (sets_alerts enabled user) db = (update_security_preferences enabled user db).1
  step (ends_tour user) db = (complete_onboarding_tour user db).1
  step (removes_passkey user id) db = (delete_credential user id db).1
  step (starts_passkey user) db = (registration_options k user db).1
  step (adds_passkey user credential name) db = (verify_registration k user credential name db).1
  step offers_passkey db = (authentication_options k db).1
  step (enters_by_passkey credential user_agent ip) db =
      (passkey_login k credential user_agent ip db).1
  step (enters_by_provider o provider token user_agent ip tasks) db =
      (oauth_login k o provider token user_agent ip tasks db).1
  step (waits t) db = record db { clock = db.clock + t }

  unfoldable pub run : List Call → Db → Db
  unfolding step
  run [] db = db
  run (c ∷ calls) db = run calls (step c db)
