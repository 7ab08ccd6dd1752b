-- ===== src/Auth/Totp.antt =====
-- The second factor (app/auth/totp.py, app/auth/totp_crypto.py and the part of app/auth/service.py
-- that enrols, disables and consumes it).
use fund_lok.Prelude.{
  ℕ, zero, suc, ◌%◌, String, text_eq, Bool, true, false, not, ◌&&◌, ◌||◌, Option, none, some, List,
  [], ◌∷◌, ◌++◌, ◌==◌, if◌then◌else◌, truthy, length, select, find_first, update, strip,
  remove_char, all_chars, text_length, char_at, after_prefix, append_text, map_text,
}
use fund_lok.Db.{
  Db, User, TotpRecoveryCode, Error, http, Result, ok, err, Exec, pure, lift, gets, require, ◌>>=◌,
  ◌>>◌, raise_if, modify, new_id,
}
use fund_lok.Security.{Security}

-- The user's row, changed by `f`.
unfoldable pub update_user : ℕ → (User → User) → Exec (Unit {0})
update_user user_id f =
    modify (λ db. record db { users = update (λ (u : User). u.id == user_id) f db.users })

abbrev unavailable : Error
unavailable = http 503 "Two-factor authentication is temporarily unavailable."

alphabet : String
alphabet = "ABCDEFGHJKMNPQRSTVWXYZ0123456789"

-- One `secrets.choice` from the 32 characters of the alphabet, before the rest.
unfoldable pub one_more_character : Exec String → Exec String
unfolding alphabet
one_more_character others = do
  drawn ← new_id
  rest ← others
  pure (append_text (char_at (drawn % 32) alphabet) rest)

unfoldable pub random_text : ℕ → Exec String
unfolding one_more_character
random_text zero = pure ""
random_text (suc n) = one_more_character (random_text n)

-- A code of 10 characters, before the rest.
unfoldable pub one_more_code : Exec (List String) → Exec (List String)
unfolding random_text
one_more_code others = do code ← random_text 10; rest ← others; pure (code ∷ rest)

unfoldable pub random_codes : ℕ → Exec (List String)
unfolding one_more_code
random_codes zero = pure []
random_codes (suc n) = one_more_code (random_codes n)

unfoldable pub generate_recovery_codes : Exec (List String)
unfolding random_codes
generate_recovery_codes = random_codes 8

abbrev pub is_unused : ℕ → TotpRecoveryCode → Bool
is_unused user_id row = elim row.used_at [ none ↦ row.user_id == user_id | some t ↦ false ]

unfoldable pub delete_recovery_codes : ℕ → Exec (Unit {0})
delete_recovery_codes user_id = modify (λ db. record db {
  totp_recovery_codes =
      select (λ (row : TotpRecoveryCode). not (row.user_id == user_id)) db.totp_recovery_codes;
})

unfoldable pub count_unused_recovery_codes : ℕ → Db → ℕ
count_unused_recovery_codes user_id db = length (select (is_unused user_id) db.totp_recovery_codes)

module _ (k : Security) where
  abbrev pub clean_code : String → String
  clean_code code = remove_char " " (strip k.is_space code)

  unfoldable pub verify_code : ℕ → String → String → Bool
  verify_code now secret code =
      if text_eq secret "" || text_eq code ""
      then false
      else if text_eq (clean_code code) ""
          || not (all_chars k.is_digit (clean_code code))
          || not (text_length (clean_code code) == 6)
      then false
      else k.totp_verify now secret (clean_code code)

  unfoldable pub normalize_recovery_code : String → String
  normalize_recovery_code code =
      map_text k.upper (remove_char "-" (remove_char " " (strip k.is_space code)))

  unfoldable pub recovery_code_matches : String → String → Bool
  unfolding normalize_recovery_code
  recovery_code_matches code code_hash = k.verify_argon2 (normalize_recovery_code code) code_hash

  -- The key of `_cipher`.
  unfoldable pub cipher_key : Result String
  cipher_key =
      if truthy k.totp_encryption_key
      then elim k.totp_encryption_key [
        | none ↦ err unavailable
        | some key ↦ if k.valid_key key then ok key else err unavailable
      ]
      else err unavailable

  unfoldable pub encrypt_secret : String → Result String
  unfolding cipher_key
  encrypt_secret secret = elim cipher_key [
    | ok key ↦ ok (append_text "v1:" (k.encrypt key secret))
    | err e ↦ err e
  ]

  decrypt_version : Option String → Option String
  unfolding cipher_key
  decrypt_version none = none
  decrypt_version (some token) = elim cipher_key [ ok key ↦ k.decrypt key token | err e ↦ none ]

  unfoldable pub decrypt_secret : Option String → Option String
  unfolding decrypt_version
  decrypt_secret none = none
  decrypt_secret (some stored) = decrypt_version (after_prefix "v1:" stored)

  -- `secret and totp.verify_code(secret, code)`
  unfoldable pub live_code : ℕ → Option String → String → Bool
  unfolding verify_code
  live_code now none code = false
  live_code now (some secret) code = verify_code now secret code

  unfoldable pub matching_code : ℕ → String → List TotpRecoveryCode → Option TotpRecoveryCode
  unfolding recovery_code_matches
  matching_code user_id code rows =
      find_first (λ (row : TotpRecoveryCode). recovery_code_matches code row.code_hash)
        (select (is_unused user_id) rows)

  -- Marks the matching code as used, if there is one.
  unfoldable pub use_code : Option TotpRecoveryCode → Exec Bool
  use_code none = pure false
  use_code (some row) = do
    now ← gets (λ db. db.clock)
    modify (λ db. record db {
      totp_recovery_codes =
          update (λ (r : TotpRecoveryCode). r.id == row.id) (λ r. record r { used_at = some now })
            db.totp_recovery_codes;
    })
    pure true

  unfoldable pub consume_second_factor : User → String → Exec Bool
  unfolding live_code decrypt_secret matching_code use_code
  consume_second_factor user code = do
    live ← gets (λ db. live_code (db.clock) (decrypt_secret user.totp_secret) code)
    if live
        then pure true
        else do row ← gets (λ db. matching_code user.id code db.totp_recovery_codes); use_code row

  unfoldable pub start_totp_setup : User → Exec String
  unfolding cipher_key encrypt_secret update_user
  start_totp_setup current_user = do
    raise_if current_user.totp_enabled (http 409 "Two-factor authentication is already enabled")
    key ← lift cipher_key
    drawn ← new_id
    stored ← lift (encrypt_secret (k.random_base32 drawn))
    update_user current_user.id (λ u. record u { totp_secret = some stored })
    pure (k.random_base32 drawn)

  unfoldable pub add_code : ℕ → String → Exec (Unit {0})
  unfolding normalize_recovery_code
  add_code user_id code = do
    salt ← new_id
    id ← new_id
    modify (λ db. record db {
      totp_recovery_codes =
          db.totp_recovery_codes
          ++ ((record {
            id = id;
            user_id = user_id;
            code_hash = k.hash_argon2 salt (normalize_recovery_code code);
            used_at = none;
          })
              ∷ []);
    })

  unfoldable pub add_codes : ℕ → List String → Exec (Unit {0})
  unfolding add_code
  add_codes user_id [] = pure tt
  add_codes user_id (code ∷ codes) = add_code user_id code >> add_codes user_id codes

  unfoldable pub enable_totp : User → String → Exec (List String)
  unfolding decrypt_secret verify_code update_user delete_recovery_codes generate_recovery_codes
      add_codes
  enable_totp current_user code = do
    raise_if current_user.totp_enabled (http 409 "Two-factor authentication is already enabled")
    secret ← lift (require (decrypt_secret current_user.totp_secret) not_started)
    raise_if (text_eq secret "") not_started
    now ← gets (λ db. db.clock)
    raise_if (not (verify_code now secret code))
        (http 400 "That code is not valid. Check your authenticator app and try again.")
    update_user current_user.id
        (λ u. record u { totp_enabled = true; totp_confirmed_at = some now })
    delete_recovery_codes current_user.id
    plaintext ← generate_recovery_codes
    add_codes current_user.id plaintext
    pure plaintext
    where
      not_started : Error
      not_started = http 400 "Start two-factor setup before enabling it"

  -- `user.password_hash and verify_password(password, user.password_hash)`
  unfoldable pub has_password : String → User → Bool
  has_password password user = elim user.password_hash [
    | none ↦ false
    | some h ↦ not (text_eq h "") && k.verify_argon2 password h
  ]

  unfoldable pub disable_totp : User → String → String → Exec (Unit {0})
  unfolding has_password consume_second_factor update_user delete_recovery_codes
  disable_totp current_user password code = do
    raise_if (not current_user.totp_enabled) (http 400 "Two-factor authentication is not enabled")
    raise_if (not (has_password password current_user)) (http 400 "Password is incorrect")
    accepted ← consume_second_factor current_user code
    raise_if (not accepted)
        (http 400 "That code is not valid. Use a code from your app or a recovery code.")
    update_user current_user.id
        (λ u. record u { totp_enabled = false; totp_secret = none; totp_confirmed_at = none })
    delete_recovery_codes current_user.id
