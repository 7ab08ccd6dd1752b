-- ===== src/Auth/Guard.antt =====
-- To whom a sign-in gives tokens (app/auth/service.py).
use fund_lok.Prelude.{
  String, ◌≡◌, ap, ◌∙◌, subst, inl, inr, Bool, true, false, Option, none, some, arith, Bool-cases,
  Option-cases,
}
use fund_lok.Db.{Db, User, Result, ok, Result-cases}
use fund_lok.Auth.Sessions.{TokenPair}
use fund_lok.Auth.Totp.{has_password}
use fund_lok.Auth.Login.{
  Outcome, tokens, find_email, check_password, authenticate_user, sign_in, issue_challenge, login,
}
use fund_lok.Security.{Security}
use fund_lok.Auth.Minted.{IsPairFor, IsSignedIn, sign_in-IsSignedIn}

some_injective : {A : Type 0} (a b : A) → some a ≡ some b → a ≡ b
some_injective a b h = ground arith

same_user :
    (a b : User) (x y : Outcome) → ◌≡◌ {A = Result (User × Outcome)} (ok (a, x)) (ok (b, y)) → a ≡ b
same_user a b x y h = ground arith

same_tokens :
    (a b : User) (x y : Outcome) → ◌≡◌ {A = Result (User × Outcome)} (ok (a, x)) (ok (b, y)) → x ≡ y
same_tokens a b x y h = ground arith

check_password-some :
    (k : Security) (password : String) (found : Option User) (user : User)
    → check_password k password found ≡ some user
    → (found ≡ some user) × (has_password k password user ≡ true)
unfolding check_password
check_password-some k password none user h = absurd (ground arith)
check_password-some k password (some u) user h = elim (Bool-cases (has_password k password u)) [
  | inl same ↦
      let e = some_injective u user (ground arith) in
      (ap some e, subst (λ w. has_password k password w ≡ true) e same)
  | inr other ↦ absurd (ground arith)
]

module _ (k : Security) (email password : String)
    (turnstile_token user_agent ip_address : Option String) (has_tasks : Bool) (db : Db) where
  -- A sign-in with a password alone gives tokens only if the password is that of the account with the
  -- address and no second factor is enabled there. Both tokens are signed for that account, and the
  -- one row that is added to the sessions has the refresh token's hash for it.
  pub login_tokens :
      (user : User) (pair : TokenPair)
      → (login k email password turnstile_token user_agent ip_address has_tasks db).0
        ≡ ok (user, tokens pair)
      → (find_email email db.users ≡ ok (some user))
        × (has_password k password user ≡ true)
        × (user.totp_enabled ≡ false)
        × IsPairFor k user.id pair db
            (login k email password turnstile_token user_agent ip_address has_tasks db).1
  unfolding login authenticate_user issue_challenge
  login_tokens user pair = elim (Result-cases (k.turnstile turnstile_token)) [
    | inr (e, refused) ↦ rw refused λ done. absurd (ground arith)
    | inl (passed, captcha) ↦ elim (Result-cases (find_email email db.users)) [
      | inr (e, refused) ↦ rw (captcha, refused) λ done. absurd (ground arith)
      | inl (found, query) ↦ elim (Option-cases (check_password k password found)) [
        | inl wrong ↦ rw (captcha, query, wrong) λ done. absurd (ground arith)
        | inr (u, right) ↦ elim (Bool-cases u.totp_enabled) [
          | inl enabled ↦ rw (captcha, query, right, enabled) λ done. absurd (ground arith)
          | inr disabled ↦ elim (Result-cases (sign_in k u user_agent ip_address has_tasks db).0) [
            | inr (e, refused) ↦
                rw (captcha, query, right, disabled, refused) λ done. absurd (ground arith)
            | inl (outcome, issued) ↦
                let minted =
                  sign_in-IsSignedIn k u user_agent ip_address has_tasks db outcome issued in
                rw (captcha, query, right, disabled, issued)
                  λ done.
                    let e =
                      ap (λ b. record u { totp_enabled = b }) disabled
                      ∙ same_user _ user outcome (tokens pair) done in
                    let (present, checked) = check_password-some k password found u right in
                    let after = (sign_in k u user_agent ip_address has_tasks db).1 in
                    subst
                      (λ (w : User).
                        (◌≡◌ {A = Result (Option User)} (ok found) (ok (some w)))
                        × (has_password k password w ≡ true)
                        × (w.totp_enabled ≡ false)
                        × IsPairFor k w.id pair db after)
                      e
                      (
                        ap ok present,
                        checked,
                        disabled,
                        subst (λ x. IsSignedIn k u x db after)
                            (same_tokens _ user outcome (tokens pair) done) minted,
                      )
          ]
        ]
      ]
    ]
  ]
