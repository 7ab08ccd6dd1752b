-- ===== src/Db/UserTables.antt =====
-- app/users/models.py: accounts, sign-ins and second factors.
use fund_lok.Prelude.{ℕ, Bool, String, Option}

pub record User : Type 0 where
  pub id : ℕ
  pub email : String
  pub phone : Option String
  pub password_hash : Option String
  pub full_name : Option String
  pub bio : Option String
  pub avatar_key : Option String
  pub role : Option String
  pub email_verified : Bool
  pub status : String
  pub signin_alerts_enabled : Bool
  pub onboarding_tour_completed_at : Option ℕ
  pub totp_secret : Option String
  pub totp_enabled : Bool
  pub totp_confirmed_at : Option ℕ

pub record RefreshToken : Type 0 where
  pub id : ℕ
  pub user_id : ℕ
  pub token_hash : String
  pub expires_at : ℕ
  pub revoked_at : Option ℕ
  pub session_id : Option ℕ
  pub user_agent : Option String
  pub ip_address : Option String
  pub last_used_at : Option ℕ

pub record TotpRecoveryCode : Type 0 where
  pub id : ℕ
  pub user_id : ℕ
  pub code_hash : String
  pub used_at : Option ℕ

pub record WebAuthnCredential : Type 0 where
  pub id : ℕ
  pub user_id : ℕ
  pub credential_id : String
  pub public_key : String
  pub sign_count : ℕ
  pub device_type : Option String
  pub backed_up : Bool
  pub transports : Option String
  pub name : String
  pub last_used_at : Option ℕ

pub record WebAuthnChallenge : Type 0 where
  pub id : ℕ
  pub challenge : String
  pub user_id : Option ℕ
  pub purpose : String
  pub expires_at : ℕ

-- A message that a background task sends (app/utils/email.py), with its recipient.
pub data Mail : Type 0 where
  existing_account_notice : String → Mail
  verification_email : String → String → Mail
  password_reset_email : String → String → Mail
  password_changed_notice : String → Bool → Mail
  new_device_alert : String → String → String → Option String → Mail
