-- ===== src/Auth/Oauth.antt =====
-- Sign-in by a provider (app/oauth/service.py).
use fund_lok.Prelude.{
  ℕ, String, text_eq, Bool, true, false, not, ◌&&◌, ◌||◌, Option, none, some, List, [], ◌∷◌,
  if◌then◌else◌, truthy, select, find_first, take_text, after_prefix, ends_with,
}
use fund_lok.Db.{
  User, value_error, key_error, Error, http, Result, ok, err, Exec, pure, lift, require, ◌>>=◌,
  ◌>>◌, new_id,
}
use fund_lok.Security.{Security}
use fund_lok.Auth.Tokens.{is_set}
use fund_lok.Auth.Totp.{update_user}
use fund_lok.Auth.Login.{Outcome, find_email, sign_in}
use fund_lok.Auth.Accounts.{insert_user}

pub data OauthProvider : Type 0 where
  google microsoft : OauthProvider

-- The claims that are read; `email_verified` is a JSON boolean, false where it is missing.
pub record OauthClaims : Type 0 where
  pub sub : Option String
  pub email : Option String
  pub preferred_username : Option String
  pub name : Option String
  pub iss : Option String
  pub email_verified : Bool

pub record Jwk : Type 0 where
  pub kid : Option String
  pub alg : Option String
  pub material : String

pub record OauthUserInfo : Type 0 where
  pub address : String
  pub full_name : Option String
  pub is_verified : Bool

-- What the providers answer: Google's `userinfo` for an access token, none for a status other than
-- 200; the `jwks_uri` and the algorithms of the discovery document; the keys of that address. Then
-- python-jose: the key id of a token's header, and the claims of a token under a key, algorithms and
-- an audience. `email_str` is pydantic's EmailStr, none for an address that it refuses.
pub record Providers : Type 0 where
  pub userinfo : String → Result (Option OauthClaims)
  pub discovery : OauthProvider → Result (String × List String)
  pub keys : String → Result (List Jwk)
  pub header_kid : String → Result (Option String)
  pub decode_id : String → Jwk → List String → String → Result OauthClaims
  pub email_str : String → Option String
  pub client_id : OauthProvider → Option String

abbrev and_then : {A B : Type 0} → Result A → (A → Result B) → Result B
and_then (ok a) f = f a
and_then (err e) f = err e

abbrev unless : {A : Type 0} → Bool → Error → Result A → Result A
unless c e r = if c then err e else r

-- `except Exception`
abbrev or_invalid : {A : Type 0} → Result A → Result A
or_invalid (ok a) = ok a
or_invalid (err e) = err (http 401 "Invalid OAuth token")

abbrev pub is_asymmetric : String → Bool
is_asymmetric alg =
    let family = take_text 2 alg in
    text_eq family "RS" || text_eq family "ES" || text_eq family "PS"

abbrev or_rs256 : List String → List String
or_rs256 [] = "RS256" ∷ []
or_rs256 (alg ∷ algs) = alg ∷ algs

abbrev candidates : List String → Option String → List String
candidates supported none = supported
candidates supported (some alg) = if text_eq alg "" then supported else alg ∷ []

abbrev pub signing_algorithms : List String → Jwk → List String
signing_algorithms supported key = or_rs256 (select is_asymmetric (candidates supported key.alg))

abbrev pub find_key : List Jwk → Option String → Result Jwk
find_key keys kid =
    if truthy kid
    then require (find_first (λ (key : Jwk). opt_text kid key.kid) keys)
        (http 401 "OAuth signing key not found")
    else err (http 401 "OAuth token header is missing key id")
  where
    opt_text : Option String → Option String → Bool
    opt_text (some s) (some t) = text_eq s t
    opt_text s t = false

abbrev pub issuer_is_valid : OauthProvider → Option String → Bool
issuer_is_valid provider none = false
issuer_is_valid google (some iss) =
    text_eq iss "https://accounts.google.com" || text_eq iss "accounts.google.com"
issuer_is_valid microsoft (some iss) =
    is_set (after_prefix "https://login.microsoftonline.com/" iss) && ends_with "/v2.0" iss

abbrev is_google : OauthProvider → Bool
is_google google = true
is_google microsoft = false

abbrev no_client : OauthProvider → Error
no_client google = http 500 "google OAuth client ID is not configured"
no_client microsoft = http 500 "microsoft OAuth client ID is not configured"

abbrev require_client : OauthProvider → Option String → Result String
require_client provider none = err (no_client provider)
require_client provider (some id) = unless (text_eq id "") (no_client provider) (ok id)

module _ (o : Providers) where
  abbrev decoded_id : OauthProvider → String → String → Result OauthClaims
  decoded_id provider id_token audience =
      and_then (o.discovery provider) λ (found : String × List String).
        and_then (o.keys found.0) λ keys. and_then (o.header_kid id_token) λ kid.
          and_then (find_key keys kid)
            λ key. o.decode_id id_token key (signing_algorithms found.1 key) audience

  abbrev pub verify_id_token : OauthProvider → String → Result OauthClaims
  verify_id_token provider id_token =
      and_then (require_client provider (o.client_id provider)) λ audience.
        and_then (or_invalid (decoded_id provider id_token audience)) λ claims.
          unless (not (issuer_is_valid provider claims.iss)) (http 401 "Invalid OAuth issuer") (
            unless (not claims.email_verified && is_google provider)
              (http 401 "Google email is not verified") (ok claims))

  abbrev pub verify_access_token : String → Result OauthClaims
  verify_access_token access_token = and_then (o.userinfo access_token) λ found.
      and_then (require found (http 401 "Invalid Google access token")) λ claims.
        unless (not (truthy claims.sub) || not (truthy claims.email))
          (http 401 "Invalid Google access token payload") (ok claims)

  -- The two classes: what verifies a token, and which claim is the address.
  abbrev pub verify_token : OauthProvider → String → Result OauthClaims
  verify_token google token = verify_access_token token
  verify_token microsoft token = verify_id_token microsoft token

  abbrev address_of : OauthProvider → OauthClaims → Option String
  address_of google claims = claims.email
  address_of microsoft claims =
      if truthy claims.preferred_username then claims.preferred_username else claims.email

  abbrev pub map_claims : OauthProvider → OauthClaims → Result OauthUserInfo
  map_claims provider claims = and_then (require claims.sub key_error) λ sub.
      and_then (require (address_of provider claims) key_error) λ email.
        and_then (require (o.email_str email) value_error) λ address. ok (record {
          address = address;
          full_name = claims.name;
          is_verified = claims.email_verified || not (is_google provider);
        })

  unfoldable pub user_info : OauthProvider → String → Result OauthUserInfo
  user_info provider token = and_then (verify_token provider token) (map_claims provider)

abbrev pub confirmed : User → User
confirmed u = record u { email_verified = true }

abbrev pub confirmed_by : OauthUserInfo → User → User
confirmed_by info u = if info.is_verified && not u.email_verified then confirmed u else u

abbrev pub oauth_user : ℕ → OauthUserInfo → User
oauth_user id info = record {
  id = id;
  email = info.address;
  phone = none;
  password_hash = none;
  full_name = info.full_name;
  bio = none;
  avatar_key = none;
  role = none;
  email_verified = true;
  status = "ACTIVE";
  signin_alerts_enabled = false;
  onboarding_tour_completed_at = none;
  totp_secret = none;
  totp_enabled = false;
  totp_confirmed_at = none;
}

unfoldable pub known_or_new : OauthUserInfo → Option User → Exec User
unfolding update_user insert_user
known_or_new info (some u) = do
  if info.is_verified && not u.email_verified then update_user u.id confirmed else pure tt
  pure (confirmed_by info u)
known_or_new info none = do id ← new_id; insert_user (oauth_user id info); pure (oauth_user id info)

unfoldable pub get_or_create_user : OauthUserInfo → Exec User
unfolding known_or_new
get_or_create_user info = do
  found ← λ db. (find_email info.address db.users, db)
  known_or_new info found

unfoldable pub oauth_login :
    Security
    → Providers
    → OauthProvider
    → String
    → Option String
    → Option String
    → Bool
    → Exec (User × Outcome)
unfolding user_info get_or_create_user sign_in
oauth_login k o provider token user_agent ip_address has_tasks = do
  info ← lift (user_info o provider token)
  user ← get_or_create_user info
  outcome ← sign_in k user user_agent ip_address has_tasks
  pure (user, outcome)
