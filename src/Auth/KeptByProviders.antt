-- ===== src/Auth/KeptByProviders.antt =====
-- A sign-in by a provider leaves exchanged tokens exchanged (app/oauth/service.py).
use fund_lok.Prelude.{ℕ, String, Bool, true, false, Option, none, some, if◌then◌else◌}
use fund_lok.Db.{User, pure}
use fund_lok.Security.{Security}
use fund_lok.Db.Frames.{Preserves, pure-Preserves}
use fund_lok.Auth.Revocation.{IsSpent}
use fund_lok.Auth.Rotation.{update_user-keeps, parts}
use fund_lok.Auth.Totp.{update_user}
use fund_lok.Auth.Oauth.{
  OauthProvider, OauthUserInfo, Providers, confirmed, known_or_new, get_or_create_user, oauth_login,
}

module _ (k : Security) (h : String) where
  mark-keeps :
      (c : Bool) (user_id : ℕ)
      → Preserves (IsSpent h) (if c then update_user user_id confirmed else pure tt)
  mark-keeps true user_id = update_user-keeps k h user_id confirmed
  mark-keeps false user_id = pure-Preserves tt

  known_or_new-keeps :
      (info : OauthUserInfo) (found : Option User) → Preserves (IsSpent h) (known_or_new info found)
  unfolding known_or_new
  known_or_new-keeps info none = search (parts) depth 12
  known_or_new-keeps info (some u) = search (parts, mark-keeps) depth 12

  get_or_create_user-keeps :
      (info : OauthUserInfo) → Preserves (IsSpent h) (get_or_create_user info)
  unfolding get_or_create_user
  get_or_create_user-keeps info = search (parts, known_or_new-keeps) depth 12

  pub oauth_login-keeps :
      (o : Providers) (provider : OauthProvider) (token : String)
      (user_agent ip_address : Option String) (has_tasks : Bool)
      → Preserves (IsSpent h) (oauth_login k o provider token user_agent ip_address has_tasks)
  unfolding oauth_login
  oauth_login-keeps o provider token user_agent ip_address has_tasks =
      search (parts, get_or_create_user-keeps) depth 12
