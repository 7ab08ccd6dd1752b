-- ===== src/Auth/Rotation.antt =====
-- A refresh token is exchanged at most once, whatever is called in between
-- (app/auth/service.py, app/users/service.py).
use fund_lok.Prelude.{ℕ, zero, suc, String, ◌≡◌, refl, Bool, Option, none, some, List, [], ◌∷◌}
use fund_lok.Db.{Db, User, TotpRecoveryCode, Mail, Error, Exec, modify}
use fund_lok.Db.Frames.{Preserves, pure-Preserves, bind-Preserves, frames}
use fund_lok.Auth.Revocation.{
  is_spent, IsSpent, new_id-keeps, create_access_token-keeps, update_tokens-keeps,
  insert_token-keeps, rotated-IsRevocation, revoked-IsRevocation, session_or_new-keeps, keeps,
  create_token_pair-keeps, refresh_token_pair-keeps, revoke_session-keeps,
  revoke_other_sessions-keeps, logout-keeps,
}
use fund_lok.Auth.Totp.{
  update_user, one_more_character, random_text, one_more_code, random_codes,
  generate_recovery_codes, delete_recovery_codes, use_code, consume_second_factor, add_code,
  add_codes,
}
use fund_lok.Auth.Login.{send, send_if, sign_in, issue_challenge}
use fund_lok.Auth.Accounts.{insert_user, hash_password}
use fund_lok.Security.{Security}
use fund_lok.Auth.Tokens.{create_challenge_token, purpose_subject}

module _ (k : Security) (h : String) where
  pub untouched :
      (f : Db → Db)
      → ((db : Db) → (f db).refresh_tokens ≡ db.refresh_tokens)
      → Preserves (IsSpent h) (modify f)
  unfolding IsSpent
  untouched f same = record { at = λ db spent. rw (same db) spent }

  pub update_user-keeps :
      (user_id : ℕ) (f : User → User) → Preserves (IsSpent h) (update_user user_id f)
  unfolding update_user
  update_user-keeps user_id f = untouched _ λ db. refl

  pub send-keeps : (message : Mail) → Preserves (IsSpent h) (send message)
  unfolding send
  send-keeps message = untouched _ λ db. refl

  pub send_if-keeps : (c : Bool) (message : Mail) → Preserves (IsSpent h) (send_if c message)
  unfolding send_if
  send_if-keeps c message = search (frames, send-keeps)

  pub delete_recovery_codes-keeps :
      (user_id : ℕ) → Preserves (IsSpent h) (delete_recovery_codes user_id)
  unfolding delete_recovery_codes
  delete_recovery_codes-keeps user_id = untouched _ λ db. refl

  pub insert_user-keeps : (new : User) → Preserves (IsSpent h) (insert_user new)
  unfolding insert_user IsSpent
  insert_user-keeps new = search frames depth 12

  pub ruleset untouching = (
    keeps, update_user-keeps, send-keeps, send_if-keeps, delete_recovery_codes-keeps,
    insert_user-keeps,
  )

  pub hash_password-keeps : (password : String) → Preserves (IsSpent h) (hash_password k password)
  unfolding hash_password
  hash_password-keeps password = search keeps

  pub purpose_subject-keeps :
      (purpose : String) (e e' e'' : Error) (token : String)
      → Preserves (IsSpent h) (purpose_subject k purpose e e' e'' token)
  unfolding purpose_subject
  purpose_subject-keeps purpose e e' e'' token = search keeps depth 12

  pub use_code-keeps : (row : Option TotpRecoveryCode) → Preserves (IsSpent h) (use_code k row)
  unfolding use_code
  use_code-keeps none = search keeps
  use_code-keeps (some row) = search (keeps, untouched) depth 12

  pub consume_second_factor-keeps :
      (user : User) (code : String) → Preserves (IsSpent h) (consume_second_factor k user code)
  unfolding consume_second_factor
  consume_second_factor-keeps user code = search (keeps, use_code-keeps) depth 12

  pub one_more_character-keeps :
      (others : Exec String)
      → Preserves (IsSpent h) others
      → Preserves (IsSpent h) (one_more_character others)
  unfolding one_more_character
  one_more_character-keeps others same = search keeps depth 12

  pub random_text-keeps : (n : ℕ) → Preserves (IsSpent h) (random_text n)
  unfolding random_text
  random_text-keeps zero = search keeps
  random_text-keeps (suc n) = one_more_character-keeps (random_text n) (random_text-keeps n)

  pub one_more_code-keeps :
      (others : Exec (List String))
      → Preserves (IsSpent h) others
      → Preserves (IsSpent h) (one_more_code others)
  unfolding one_more_code
  one_more_code-keeps others same = search (keeps, random_text-keeps) depth 12

  pub random_codes-keeps : (n : ℕ) → Preserves (IsSpent h) (random_codes n)
  unfolding random_codes
  random_codes-keeps zero = search keeps
  random_codes-keeps (suc n) = one_more_code-keeps (random_codes n) (random_codes-keeps n)

  pub add_code-keeps :
      (user_id : ℕ) (code : String) → Preserves (IsSpent h) (add_code k user_id code)
  unfolding add_code IsSpent
  add_code-keeps user_id code = search keeps depth 12

  pub add_codes-keeps :
      (user_id : ℕ) (codes : List String) → Preserves (IsSpent h) (add_codes k user_id codes)
  unfolding add_codes
  add_codes-keeps user_id [] = pure-Preserves tt
  add_codes-keeps user_id (code ∷ codes) =
      bind-Preserves (add_code k user_id code) (λ _. add_codes k user_id codes)
        (add_code-keeps user_id code) (λ _. add_codes-keeps user_id codes)

  pub sign_in-keeps :
      (user : User) (user_agent ip_address : Option String) (has_tasks : Bool)
      → Preserves (IsSpent h) (sign_in k user user_agent ip_address has_tasks)
  unfolding sign_in
  sign_in-keeps user user_agent ip_address has_tasks =
      search (untouching, create_token_pair-keeps) depth 12

  pub generate_recovery_codes-keeps : Preserves (IsSpent h) (generate_recovery_codes)
  unfolding generate_recovery_codes
  generate_recovery_codes-keeps = search (random_codes-keeps) depth 16

  pub issue_challenge-keeps : (user : User) → Preserves (IsSpent h) (issue_challenge k user)
  unfolding issue_challenge create_challenge_token
  issue_challenge-keeps user = search keeps depth 12

  pub ruleset parts = (
    untouching, hash_password-keeps, purpose_subject-keeps, consume_second_factor-keeps,
    sign_in-keeps, issue_challenge-keeps, generate_recovery_codes-keeps, add_codes-keeps,
  )
