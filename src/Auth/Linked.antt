-- ===== src/Auth/Linked.antt =====
-- Which account a sign-in by a provider reaches (app/oauth/service.py).
use fund_lok.Prelude.{
  ℕ, String, ◌≡◌, refl, sym, ap, ◌∙◌, subst, ◌⊎◌, inl, inr, Bool, true, false, not, ◌&&◌, Option,
  none, some, List, [], ◌∷◌, ◌++◌, arith, ◌==◌, update, any_of, Bool-cases,
}
use fund_lok.Db.{Db, User, RefreshToken, Mail, Result, ok, modify, new_id, Result-cases}
use fund_lok.Security.{Security}
use fund_lok.Db.Frames.{Preserves, frames}
use fund_lok.Auth.Tokens.{create_access_token}
use fund_lok.Auth.Totp.{update_user}
use fund_lok.Auth.Sessions.{insert_token, session_or_new, create_token_pair}
use fund_lok.Auth.Login.{Outcome, tokens, totp_required, find_email, send, send_if, sign_in}
use fund_lok.Auth.Accounts.{is_taken, insert_user}
use fund_lok.Auth.Oauth.{
  OauthProvider, OauthUserInfo, Providers, user_info, confirmed, confirmed_by, oauth_user,
  known_or_new, get_or_create_user, oauth_login,
}
use fund_lok.Auth.Minted.{IsSignedIn, sign_in-IsSignedIn}
use fund_lok.Auth.Kinds.{access, refresh, claims_of}

-- The account with the address, or a new one without password and role, and what the call leaves of
-- the accounts.
pub data IsLinked (info : OauthUserInfo) (user : User) (before after : List User) : Type 0 where
  known :
      (u : User)
      → find_email info.address before ≡ ok (some u)
      → user ≡ confirmed_by info u
      → (after ≡ before)
        ⊎ ((info.is_verified ≡ true)
            × (after ≡ update (λ (w : User). w.id == u.id) confirmed before))
      → IsLinked info user before after
  created :
      find_email info.address before ≡ ok none
      → user.email ≡ info.address
      → user.password_hash ≡ none
      → user.role ≡ none
      → after ≡ before ++ (user ∷ [])
      → IsLinked info user before after

HasUsers : List User → Db → Type 0
HasUsers rows db = db.users ≡ rows

module _ (rows : List User) where
  unaltered :
      (f : Db → Db) → ((db : Db) → (f db).users ≡ db.users) → Preserves (HasUsers rows) (modify f)
  unfolding HasUsers
  unaltered f same = record { at = λ db h. same db ∙ h }

  new_id-HasUsers : Preserves (HasUsers rows) new_id
  unfolding HasUsers
  new_id-HasUsers = record { at = λ db h. h }

  send_if-HasUsers : (c : Bool) (message : Mail) → Preserves (HasUsers rows) (send_if c message)
  unfolding send_if send
  send_if-HasUsers true message = unaltered _ λ db. refl
  send_if-HasUsers false message = record { at = λ db h. h }

  insert_token-HasUsers : (row : RefreshToken) → Preserves (HasUsers rows) (insert_token row)
  unfolding insert_token HasUsers
  insert_token-HasUsers row = search frames

module _ (k : Security) (rows : List User) where
  create_access_token-HasUsers :
      (sub : String) (typ purpose : Option String) (delta : ℕ)
      → Preserves (HasUsers rows) (create_access_token k sub typ purpose delta)
  unfolding create_access_token HasUsers
  create_access_token-HasUsers sub typ purpose delta = record { at = λ db h. h }

  create_token_pair-HasUsers :
      (uid : ℕ) (session_id : Option ℕ) (user_agent ip_address : Option String)
      → Preserves (HasUsers rows) (create_token_pair k uid session_id user_agent ip_address)
  unfolding create_token_pair session_or_new
  create_token_pair-HasUsers uid none user_agent ip_address =
      search (frames, new_id-HasUsers, create_access_token-HasUsers, insert_token-HasUsers) depth 12
  create_token_pair-HasUsers uid (some s) user_agent ip_address =
      search (frames, new_id-HasUsers, create_access_token-HasUsers, insert_token-HasUsers) depth 12

  sign_in-HasUsers :
      (user : User) (user_agent ip_address : Option String) (has_tasks : Bool)
      → Preserves (HasUsers rows) (sign_in k user user_agent ip_address has_tasks)
  unfolding sign_in
  sign_in-HasUsers user user_agent ip_address has_tasks =
      search (frames, send_if-HasUsers, create_token_pair-HasUsers) depth 12

verified_by : (a b : Bool) → (a && b) ≡ true → a ≡ true
verified_by a b h = ground arith

same_result : {A : Type 0} (a b : A) → ◌≡◌ {A = Result A} (ok a) (ok b) → a ≡ b
same_result a b h = ground arith

known_or_new-IsLinked :
    (info : OauthUserInfo) (found : Option User) (user : User) (db : Db)
    → find_email info.address db.users ≡ ok found
    → (known_or_new info found db).0 ≡ ok user
    → IsLinked info user db.users (known_or_new info found db).1.users
unfolding known_or_new insert_user update_user
known_or_new-IsLinked info (some u) user db query =
    elim (Bool-cases (info.is_verified && not u.email_verified)) [
      | inl marked ↦ rw marked λ done.
          known u query (rw marked (sym (same_result _ _ done)))
            (inr (verified_by info.is_verified _ marked, refl))
      | inr kept ↦ rw kept λ done. known u query (rw kept (sym (same_result _ _ done))) (inl refl)
    ]
known_or_new-IsLinked info none user db query =
    elim (Bool-cases (any_of (is_taken (oauth_user (db.uuid4 db.draws) info)) db.users)) [
      | inl taken ↦ rw taken λ done. absurd (ground arith)
      | inr free ↦ rw free λ done.
          let e = same_result _ _ done in
          subst
            (λ w. IsLinked info w db.users (db.users ++ (oauth_user (db.uuid4 db.draws) info ∷ [])))
            e (created query refl refl refl refl)
    ]

get_or_create_user-IsLinked :
    (info : OauthUserInfo) (user : User) (db : Db)
    → (get_or_create_user info db).0 ≡ ok user
    → IsLinked info user db.users (get_or_create_user info db).1.users
unfolding get_or_create_user
get_or_create_user-IsLinked info user db = elim (Result-cases (find_email info.address db.users)) [
  | inr (e, refused) ↦ rw refused λ done. absurd (ground arith)
  | inl (found, query) ↦ rw query λ done. known_or_new-IsLinked info found user db query done
]

-- Finding or making the account touches no session and no clock.
HasSessions : ℕ → List RefreshToken → Db → Type 0
HasSessions now rows db = (db.clock ≡ now) × (db.refresh_tokens ≡ rows)

known_or_new-HasSessions :
    (info : OauthUserInfo) (found : Option User) (db : Db)
    → HasSessions db.clock db.refresh_tokens (known_or_new info found db).1
unfolding known_or_new insert_user update_user HasSessions
known_or_new-HasSessions info (some u) db =
    elim (Bool-cases (info.is_verified && not u.email_verified)) [
      | inl marked ↦ rw marked (refl, refl)
      | inr kept ↦ rw kept (refl, refl)
    ]
known_or_new-HasSessions info none db =
    elim (Bool-cases (any_of (is_taken (oauth_user (db.uuid4 db.draws) info)) db.users)) [
      | inl taken ↦ rw taken (refl, refl)
      | inr free ↦ rw free (refl, refl)
    ]

get_or_create_user-HasSessions :
    (info : OauthUserInfo) (db : Db)
    → HasSessions db.clock db.refresh_tokens (get_or_create_user info db).1
unfolding get_or_create_user HasSessions
get_or_create_user-HasSessions info db = elim (Result-cases (find_email info.address db.users)) [
  | inr (e, refused) ↦ rw refused (refl, refl)
  | inl (found, query) ↦ rw query (known_or_new-HasSessions info found db)
]

-- Tokens that are new after a call are new after what came before it, if that left the sessions.
IsSignedIn-before :
    (k : Security) (user : User) (outcome : Outcome) (before between after : Db)
    → HasSessions before.clock before.refresh_tokens between
    → IsSignedIn k user outcome between after
    → IsSignedIn k user outcome before after
unfolding HasSessions
IsSignedIn-before k user (tokens pair) before between after (same_clock, same_rows) s =
    let (row, added, owner, hashed, live) = s.stored in
    record {
      access_for =
          subst (λ now. (i : ℕ) × (pair.access_token ≡ k.encode (claims_of k access user.id now i)))
            same_clock s.access_for;
      refresh_for =
          subst
            (λ now. (i : ℕ) × (pair.refresh_token ≡ k.encode (claims_of k refresh user.id now i)))
            same_clock s.refresh_for;
      stored = (row, added ∙ ap (λ rows. rows ++ (row ∷ [])) same_rows, owner, hashed, live);
    }
IsSignedIn-before k user (totp_required token) before between after same s = s

result_parts :
    (a b : User) (x y : Outcome)
    → ◌≡◌ {A = Result (User × Outcome)} (ok (a, x)) (ok (b, y))
    → (a ≡ b) × (x ≡ y)
result_parts a b x y h = ground arith

module _ (k : Security) (o : Providers) (provider : OauthProvider) (token : String)
    (user_agent ip_address : Option String) (has_tasks : Bool) (db : Db) where
  -- A sign-in by a provider that returns gives tokens, and both are signed for the user that it
  -- returns, as is the one row that it adds to the sessions. The user is the account with the address
  -- that the provider's answer names, and the accounts stay as they were, but for `email_verified`,
  -- which is set on the rows with that account's id, and only if the answer vouches for the address.
  -- Without such an account the user is one new account, which has no password and no role.
  pub oauth_login-IsLinked :
      (user : User) (outcome : Outcome)
      → (oauth_login k o provider token user_agent ip_address has_tasks db).0 ≡ ok (user, outcome)
      → (info : OauthUserInfo) × (user_info o provider token ≡ ok info)
        × IsLinked info user db.users
            (oauth_login k o provider token user_agent ip_address has_tasks db).1.users
        × IsSignedIn k user outcome db
            (oauth_login k o provider token user_agent ip_address has_tasks db).1
  unfolding oauth_login HasUsers
  oauth_login-IsLinked user outcome = elim (Result-cases (user_info o provider token)) [
    | inr (e, refused) ↦ rw refused λ done. absurd (ground arith)
    | inl (info, answered) ↦ elim (Result-cases (get_or_create_user info db).0) [
      | inr (e, refused) ↦ rw (answered, refused) λ done. absurd (ground arith)
      | inl (u, linked) ↦
          let between = (get_or_create_user info db).1 in
          let after = (sign_in k u user_agent ip_address has_tasks between).1 in
          elim (Result-cases (sign_in k u user_agent ip_address has_tasks between).0) [
            | inr (e, refused) ↦ rw (answered, linked, refused) λ done. absurd (ground arith)
            | inl (signed, issued) ↦
                let minted =
                  IsSignedIn-before k u signed db between after
                    (get_or_create_user-HasSessions info db)
                    (sign_in-IsSignedIn k u user_agent ip_address has_tasks between signed
                      issued) in
                rw (answered, linked, issued)
                  λ done.
                    let (same_user, same_outcome) = result_parts u user signed outcome done in
                    (
                      info,
                      refl,
                      subst (λ rows. IsLinked info user db.users rows)
                          (sym (
                            (sign_in-HasUsers k between.users u user_agent ip_address has_tasks).at
                              between refl))
                          (get_or_create_user-IsLinked info user db (linked ∙ ap ok same_user)),
                      subst (λ x. IsSignedIn k user x db after) same_outcome
                          (subst (λ x. IsSignedIn k x signed db after) same_user minted),
                    )
          ]
    ]
  ]
