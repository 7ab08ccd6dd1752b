-- ===== src/Auth/Kinds.antt =====
-- The five kinds of token that app/utils/jwt.py, app/auth/totp.py and app/auth/service.py mint, and
-- the five places that take one.
use fund_lok.Prelude.{
  ℕ, suc, ◌+◌, ◌*◌, String, ◌≡◌, refl, sym, ap, ◌∙◌, subst, Bool, true, false, none, some, arith,
  uuid_text, uuid_text_not_empty,
}
use fund_lok.Db.{Db, Result, ok, err, Exec}
use fund_lok.Auth.Tokens.{
  seconds, minutes, decode_now, create_access_token, create_verification_token,
  create_password_reset_token, create_challenge_token, verify_email_token,
  verify_password_reset_token, verify_challenge_token, session_subject,
}
use fund_lok.Auth.Sessions.{refresh_subject, refresh_lifetime}
use fund_lok.Security.{Claims, Security}

pub data Kind : Type 0 where
  access refresh verification reset challenge : Kind

abbrev pub same_kind : Kind → Kind → Bool
same_kind access access = true
same_kind refresh refresh = true
same_kind verification verification = true
same_kind reset reset = true
same_kind challenge challenge = true
same_kind _ _ = false

abbrev is_ok : {A : Type 0} → Result A → Bool
is_ok (ok a) = true
is_ok (err e) = false

module _ (k : Security) where
  -- The token of a kind for a user.
  unfoldable pub mint : Kind → ℕ → Exec String
  unfolding create_access_token create_verification_token create_password_reset_token
      create_challenge_token
  mint access uid =
      create_access_token k (uuid_text uid) none none (minutes k.access_token_expire_minutes)
  mint refresh uid =
      create_access_token k (uuid_text uid) (some "refresh") none (refresh_lifetime k)
  mint verification uid = create_verification_token k uid
  mint reset uid = create_password_reset_token k uid
  mint challenge uid = create_challenge_token k uid

  -- Whether the place that takes a kind admits the token.
  unfoldable pub admits : Kind → String → Db → Bool
  unfolding session_subject verify_email_token verify_password_reset_token verify_challenge_token
  admits access token db = is_ok (session_subject k token db).0
  admits refresh token db = is_ok (refresh_subject (decode_now k token db))
  admits verification token db = is_ok (verify_email_token k token db).0
  admits reset token db = is_ok (verify_password_reset_token k token db).0
  admits challenge token db = is_ok (verify_challenge_token k token db).0

  -- The claims of a kind of token, which expires some time after a given one.
  abbrev pub claims_of : Kind → ℕ → ℕ → ℕ → Claims
  claims_of kind uid now jti = record {
    sub = some (uuid_text uid);
    typ = elim kind [ refresh ↦ some "refresh" | _ ↦ none ];
    purpose = elim kind [
      | verification ↦ some "email_verification"
      | reset ↦ some "password_reset"
      | challenge ↦ some "totp_challenge"
      | _ ↦ none
    ];
    exp = seconds (
        now + elim kind [
          | access ↦ minutes k.access_token_expire_minutes
          | refresh ↦ refresh_lifetime k
          | verification ↦ minutes (24 * 60)
          | reset ↦ minutes 60
          | challenge ↦ minutes 5
        ]);
    jti = uuid_text jti;
  }

  decoded_admits :
      (kind taker : Kind) (uid now jti : ℕ) (token : String) (later : Db)
      → k.decode (seconds later.clock) token ≡ some (claims_of kind uid now jti)
      → k.parse_uuid (uuid_text uid) ≡ some uid
      → admits taker token later ≡ same_kind kind taker
  unfolding admits
  decoded_admits access access uid now jti token later decoded parsed = rw (decoded, parsed) refl
  decoded_admits refresh refresh uid now jti token later decoded parsed =
      rw (decoded, uuid_text_not_empty uid) refl
  decoded_admits verification verification uid now jti token later decoded parsed =
      rw (decoded, uuid_text_not_empty uid) refl
  decoded_admits reset reset uid now jti token later decoded parsed =
      rw (decoded, uuid_text_not_empty uid) refl
  decoded_admits challenge challenge uid now jti token later decoded parsed =
      rw (decoded, uuid_text_not_empty uid) refl
  decoded_admits _ _ uid now jti token later decoded parsed = rw decoded refl

  mint_token :
      (kind : Kind) (uid : ℕ) (db : Db)
      → mint kind uid db ≡ (
        ok (k.encode (claims_of kind uid db.clock (db.uuid4 db.draws))),
        record db { draws = suc db.draws },
      )
  unfolding mint
  mint_token access uid db = refl
  mint_token refresh uid db = refl
  mint_token verification uid db = refl
  mint_token reset uid db = refl
  mint_token challenge uid db = refl

ok_injective : {A : Type 0} (a b : A) → ok a ≡ ok b → a ≡ b
ok_injective a b h = ground arith

-- A token is admitted where its own kind is wanted and nowhere else: at a time when it decodes to
-- the claims that were signed, and if the text of the user's identifier is read back.
pub mint-admits :
    (k : Security) (kind taker : Kind) (uid : ℕ) (db later : Db) (token : String)
    → (mint k kind uid db).0 ≡ ok token
    → k.decode (seconds later.clock) (k.encode (claims_of k kind uid db.clock (db.uuid4 db.draws)))
      ≡ some (claims_of k kind uid db.clock (db.uuid4 db.draws))
    → k.parse_uuid (uuid_text uid) ≡ some uid
    → admits k taker token later ≡ same_kind kind taker
mint-admits k kind taker uid db later token minted decoded parsed =
    subst (λ t. admits k taker t later ≡ same_kind kind taker)
      (ok_injective _ token
        (sym (ap (λ (r : Result String × Db). r.0) (mint_token k kind uid db)) ∙ minted))
      (decoded_admits k kind taker uid db.clock (db.uuid4 db.draws) _ later decoded parsed)
