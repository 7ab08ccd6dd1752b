-- ===== src/Auth/Ceremony.antt =====
-- Challenges of passkeys that are used up (app/auth/passkeys.py).
use fund_lok.Prelude.{
  String, text_eq, ◌≡◌, refl, ap, inl, inr, not, ◌&&◌, none, some, List, [], ◌∷◌, arith, ◌==◌,
  select, Bool-cases, Bool, ℕ, sym, subst, ltb,
}
use fund_lok.Db.{
  Db, WebAuthnCredential, WebAuthnChallenge, Result, ok, err, Exec, continue, modify, ◌>>=◌,
  Result-cases, User, lift,
}
use fund_lok.Auth.Exchange.{scalar_some}
use fund_lok.Auth.Passkeys.{
  expired_request, find_challenge, consume_challenge, mark_used, verify_authentication,
  expected_challenge,
}
use fund_lok.Db.Frames.{Preserves, frames}
use fund_lok.Security.{Security, PasskeyResponse}

-- A method that makes `P` true wherever it returns.
record Establishes {A : Type 0} (P : Db → Type 0) (m : Exec A) : Type 0 where
  at : (db : Db) (a : A) → (m db).0 ≡ ok a → P (m db).1

module _ {A B : Type 0} {P : Db → Type 0} where
  continue-Establishes :
      (r : Result A) (f : A → Exec B) (db : Db) (b : B)
      → ((a : A) → r ≡ ok a → P db)
      → ((a : A) → Preserves P (f a))
      → (continue r f db).0 ≡ ok b
      → P (continue r f db).1
  continue-Establishes (ok a) f db b first each h = (each a).at db (first a refl)
  continue-Establishes (err e) f db b first each h = absurd (ground arith)

  lift-Establishes :
      (r : Result A) (f : A → Exec B) (a : A)
      → r ≡ ok a
      → Establishes P (f a)
      → Establishes P (lift r >>= f)
  lift-Establishes r f a read first =
      subst (λ (r : Result A). Establishes P (lift r >>= f)) (sym read)
        (record { at = λ db b h. first.at db b h })

  bind-Establishes :
      (m : Exec A) (f : A → Exec B)
      → Establishes P m
      → ((a : A) → Preserves P (f a))
      → Establishes P (m >>= f)
  bind-Establishes m f first each = record {
    at = λ db b h. continue-Establishes (m db).0 f (m db).1 b (first.at db) each h;
  }

module _ (challenge purpose : String) where
  abbrev is_ceremony : WebAuthnChallenge → Bool
  is_ceremony c = text_eq c.challenge challenge && text_eq c.purpose purpose

  -- No ceremony for the purpose waits for the challenge.
  unfoldable IsUsedUp : Db → Type 0
  IsUsedUp db = select is_ceremony db.webauthn_challenges ≡ []

  select-select :
      (q : WebAuthnChallenge → Bool) (rows : List WebAuthnChallenge)
      → select is_ceremony rows ≡ []
      → select is_ceremony (select q rows) ≡ []
  select-select q [] h = refl
  select-select q (row ∷ rows) h = ground (arith, select-select q rows)

  -- The row that a query finds is the only one, so that none is left once it is deleted.
  select-deleted :
      (rows : List WebAuthnChallenge) (found : WebAuthnChallenge)
      → find_challenge challenge purpose rows ≡ ok (some found)
      → select is_ceremony (select (λ (c : WebAuthnChallenge). not (c.id == found.id)) rows) ≡ []
  unfolding find_challenge
  select-deleted [] found h = refl
  select-deleted (row ∷ rows) found h = elim (Bool-cases (is_ceremony row)) [
    | inr other ↦ ground (arith, select-deleted rows found (ground arith))
    | inl same ↦
        let (head, tail) = scalar_some row found (select is_ceremony rows) (ground arith) in
        ground (
          arith,
          ap (λ (r : WebAuthnChallenge). r.id) head,
          select-select (λ (c : WebAuthnChallenge). not (c.id == found.id)) rows tail,
        )
  ]

  consume_challenge-IsUsedUp : Establishes IsUsedUp (consume_challenge challenge purpose)
  unfolding consume_challenge IsUsedUp
  consume_challenge-IsUsedUp = record {
    at = λ db a h. elim (Result-cases (find_challenge challenge purpose db.webauthn_challenges)) [
      | inr (e, failed) ↦ absurd (ground (arith, h, failed))
      | inl (none, failed) ↦ absurd (ground (arith, h, failed))
      | inl (some row, found) ↦ elim (Bool-cases (ltb row.expires_at db.clock)) [
        | inl late ↦ rw (found, late) (select-deleted db.webauthn_challenges row found)
        | inr early ↦ rw (found, early) (select-deleted db.webauthn_challenges row found)
      ]
    ];
  }

  -- Another ceremony's deletion leaves it so.
  delete-keeps :
      (q : WebAuthnChallenge → Bool)
      → Preserves IsUsedUp
          (modify (λ db. record db { webauthn_challenges = select q db.webauthn_challenges }))
  unfolding IsUsedUp
  delete-keeps q = record { at = λ db h. select-select q db.webauthn_challenges h }

  consume_challenge-keeps :
      (other kind : String) → Preserves IsUsedUp (consume_challenge other kind)
  unfolding consume_challenge
  consume_challenge-keeps other kind = search (frames, delete-keeps) depth 16

  change_credentials-keeps :
      (f : Db → List WebAuthnCredential)
      → Preserves IsUsedUp (modify (λ db. record db { webauthn_credentials = f db }))
  unfolding IsUsedUp
  change_credentials-keeps f = record { at = λ db h. h }

  consume_challenge-refused :
      (db : Db) → IsUsedUp db → consume_challenge challenge purpose db ≡ (err expired_request, db)
  unfolding consume_challenge find_challenge IsUsedUp
  consume_challenge-refused db h = rw h refl

-- The responses are presented one after the other.
unfoldable pub present : Security → List PasskeyResponse → Db → Db
present k [] db = db
present k (response ∷ later) db = present k later (verify_authentication k response db).1

module _ (k : Security) (challenge : String) where
  abbrev IsUsedUpHere : Db → Type 0
  IsUsedUpHere = IsUsedUp challenge "authentication"

  mark_used-keeps :
      (stored : WebAuthnCredential) (count : ℕ) → Preserves IsUsedUpHere (mark_used k stored count)
  unfolding mark_used
  mark_used-keeps stored count =
      search (frames, change_credentials-keeps challenge "authentication") depth 16

  verify_authentication-keeps :
      (response : PasskeyResponse) → Preserves IsUsedUpHere (verify_authentication k response)
  unfolding verify_authentication
  verify_authentication-keeps response =
      search (frames, consume_challenge-keeps challenge "authentication", mark_used-keeps) depth 24

  present-keeps :
      (later : List PasskeyResponse) (db : Db) → IsUsedUpHere db → IsUsedUpHere (present k later db)
  unfolding present
  present-keeps [] db h = h
  present-keeps (response ∷ later) db h =
      present-keeps later (verify_authentication k response db).1
        ((verify_authentication-keeps response).at db h)

  verify_authentication-IsUsedUp :
      (response : PasskeyResponse)
      → expected_challenge k response ≡ ok challenge
      → Establishes IsUsedUpHere (verify_authentication k response)
  unfolding verify_authentication
  verify_authentication-IsUsedUp response read =
      search
        (
          frames,
          lift-Establishes,
          bind-Establishes,
          consume_challenge-IsUsedUp challenge "authentication",
          mark_used-keeps,
        )
        depth 24

  verify_authentication-refused :
      (response : PasskeyResponse) (db : Db)
      → expected_challenge k response ≡ ok challenge
      → IsUsedUpHere db
      → verify_authentication k response db ≡ (err expired_request, db)
  unfolding verify_authentication
  verify_authentication-refused response db read h =
      rw (read, consume_challenge-refused challenge "authentication" db h) refl

-- A passkey sign-in that returned has used up its challenge: any later response to that
-- challenge is refused as expired and changes nothing, whatever responses were presented in
-- between.
pub passkey_once :
    (k : Security) (response again : PasskeyResponse) (later : List PasskeyResponse)
    (challenge : String) (user : User) (db : Db)
    → expected_challenge k response ≡ ok challenge
    → expected_challenge k again ≡ ok challenge
    → (verify_authentication k response db).0 ≡ ok user
    → verify_authentication k again (present k later (verify_authentication k response db).1)
      ≡ (err expired_request, present k later (verify_authentication k response db).1)
passkey_once k response again later challenge user db read same accepted =
    verify_authentication-refused k challenge again
      (present k later (verify_authentication k response db).1) same
      (present-keeps k challenge later (verify_authentication k response db).1
        ((verify_authentication-IsUsedUp k challenge response read).at db user accepted))
