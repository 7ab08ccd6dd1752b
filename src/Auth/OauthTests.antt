-- ===== src/Auth/OauthTests.antt =====
-- Sample sign-ins by a provider (app/oauth/service.py), and the theorem applied to one.
use fund_lok.Prelude.{◌≡◌, refl, true, false, none, some, [], ◌∷◌, length, uuid_text}
use fund_lok.Db.{Db, User, http, Result, ok, err}
use fund_lok.Auth.Samples.{toy, member, accounts}
use fund_lok.Auth.Sessions.{TokenPair}
use fund_lok.Auth.Login.{
  Outcome, tokens, totp_required, find_email, is_unseen_device, send, send_if, check_password,
  authenticate_user, sign_in, issue_challenge, login, complete_totp_login,
}
use fund_lok.Auth.Oauth.{
  google, microsoft, Jwk, OauthUserInfo, Providers, signing_algorithms, user_info, oauth_login,
}
use fund_lok.Auth.Linked.{IsLinked, oauth_login-IsLinked}
use fund_lok.Auth.Minted.{IsSignedIn}

abbrev key : Jwk
key = record { kid = some "k1"; alg = none; material = "public" }

-- A provider whose ID tokens are the preferred user names.
abbrev providers : Providers
providers = record {
  userinfo = λ token. ok none;
  discovery = λ provider. ok ("jwks", "HS256" ∷ "ES256" ∷ []);
  keys = λ uri. ok (key ∷ []);
  header_kid = λ token. ok (some "k1");
  decode_id = λ token key algorithms audience. ok (record {
    sub = some "s";
    email = none;
    preferred_username = some token;
    name = none;
    iss = some "https://login.microsoftonline.com/1/v2.0";
    email_verified = false;
  });
  email_str = λ t. some t;
  client_id = λ provider. some "fundlok";
}

abbrev signed_in : Result (User × Outcome) × Db
signed_in = oauth_login toy providers microsoft "a@b.vn" none none false accounts

abbrev pair : TokenPair
pair = record { access_token = uuid_text 100; refresh_token = uuid_text 101; token_type = "bearer" }

oauth_login-IsLinked_example :
    (info : OauthUserInfo) × (user_info providers microsoft "a@b.vn" ≡ ok info)
    × IsLinked info member accounts.users signed_in.1.users
    × IsSignedIn toy member (tokens pair) accounts signed_in.1
unfolding oauth_login uuid_text fund_lok.Auth.Login.find_email
oauth_login-IsLinked_example =
    oauth_login-IsLinked toy providers microsoft "a@b.vn" none none false accounts member
      (tokens pair) refl

-- Of the algorithms that the provider names, the one with a public key is left.
asymmetric : signing_algorithms ("HS256" ∷ "ES256" ∷ []) key ≡ "ES256" ∷ []
asymmetric = refl

-- The second factor is not asked for.
abbrev guarded : Db
guarded = record accounts { users = record member { totp_enabled = true } ∷ [] }

second_factor_skipped :
    (oauth_login toy providers microsoft "a@b.vn" none none false guarded).0
    ≡ ok (record member { totp_enabled = true }, tokens pair)
unfolding oauth_login uuid_text fund_lok.Auth.Login.find_email
second_factor_skipped = refl

-- A new address makes an account.
registered :
    length (oauth_login toy providers microsoft "c@d.vn" none none false accounts).1.users ≡ 2
unfolding oauth_login uuid_text fund_lok.Auth.Login.find_email
registered = refl

-- An access token that Google refuses gives nothing.
refused :
    (oauth_login toy providers google "t" none none false accounts).0
    ≡ err (http 401 "Invalid Google access token")
unfolding oauth_login
refused = refl
