-- ===== src/Ledger/Replay.antt =====
-- Idempotency of `post_transaction` (app/ledger/service.py).
use fund_lok.Prelude.{
  ℕ, String, ◌≡◌, refl, ap, ◌≢◌, inl, inr, Bool, true, false, Option, none, some, List, [], ◌∷◌,
  ◌++◌, truthy, select, any_of, All, select-append, select-eq-nil,
}
use fund_lok.Db.{Db, LedgerTransaction, Result, ok}
use fund_lok.Ledger.Checks.{same_key, find_replay}
use fund_lok.Ledger.Post.{post_transaction}
use fund_lok.Ledger.Chart.{LedgerLeg}
use fund_lok.Ledger.Posting.{IsValidLeg, check_legs_iff, key_taken, header, posted}
use fund_lok.Ledger.Outcome.{post_transaction_ok}
use fund_lok.Ledger.Keys.{
  PostCall, post_each, post_each-HasOne, HasOne-find_replay, find_replay-HasOne,
}
use text.Mathlib.TextPositions.{eq_refl}

select_one :
    {A : Type 0} (p : A → Bool) (xs : List A) (x : A)
    → any_of p xs ≡ false
    → p x ≡ true
    → select p (xs ++ x ∷ []) ≡ x ∷ []
select_one p xs x h k = rw (select-append p xs (x ∷ []), select-eq-nil p xs h, k)

same_key_self : (key : Option String) → truthy key ≡ true → same_key key key ≡ true
same_key_self none h = cc
same_key_self (some k) h = eq_refl k

-- After a header with a truthy new key was added, the lookup under that key finds it.
pub find_replay-posted :
    (event_type : String) (legs : List LedgerLeg) (key reference : Option String)
    (created_by : Option ℕ) (db : Db) (c : ℕ)
    → truthy key ≡ true
    → key_taken db key ≡ false
    → find_replay key (posted event_type legs key reference created_by db c)
      ≡ ok (some (header event_type legs key reference created_by db c))
unfolding find_replay
find_replay-posted event_type legs key reference created_by db c h new = rw (
  h,
  select_one (λ (u : LedgerTransaction). same_key u.idempotency_key key) db.ledger_transactions
      (header event_type legs key reference created_by db c) new (same_key_self key h),
)

post_replayed :
    (event_type : String) (legs : List LedgerLeg) (key reference : Option String)
    (created_by : Option ℕ) (db : Db) (t : LedgerTransaction)
    → legs ≢ []
    → All IsValidLeg legs
    → find_replay key db ≡ ok (some t)
    → post_transaction event_type legs key reference created_by db ≡ (ok t, db)
unfolding post_transaction
post_replayed event_type [] key reference created_by db t ne valid found = absurd (ne refl)
post_replayed event_type (leg ∷ legs) key reference created_by db t ne valid found =
    rw ((check_legs_iff (leg ∷ legs)).1 valid, found)

-- After a call that returned `t` under a truthy key, the lookup under the key finds `t`.
found_after :
    (event_type : String) (legs : List LedgerLeg) (key reference : Option String)
    (created_by : Option ℕ) (db : Db) (t : LedgerTransaction)
    → truthy key ≡ true
    → (post_transaction event_type legs key reference created_by db).0 ≡ ok t
    → find_replay key (post_transaction event_type legs key reference created_by db).1 ≡ ok (some t)
found_after event_type legs key reference created_by db t h returned =
    elim (post_transaction_ok event_type legs key reference created_by db t returned) [
      | inl (has_key, found, same) ↦ rw same found
      | inr (c, postable, written) ↦
          let is_header : header event_type legs key reference created_by db c ≡ t =
            cc (ap (λ (r : Result LedgerTransaction × Db). r.0) written) in
          rw written (
            rw (← is_header)
              (find_replay-posted event_type legs key reference created_by db c h postable.key_new))
    ]

-- A call that returned `t` under a truthy key can be repeated at any time: after any later calls of
-- `post_transaction`, whether they return or raise, a call with that key and with at least one leg,
-- all valid, returns `t` again and writes nothing.
pub post_transaction_idempotent :
    (event_type : String) (legs : List LedgerLeg) (key reference : Option String)
    (created_by : Option ℕ) (db : Db) (t : LedgerTransaction)
    → truthy key ≡ true
    → (post_transaction event_type legs key reference created_by db).0 ≡ ok t
    → (later : List PostCall) (event_type' : String) (legs' : List LedgerLeg)
      (reference' : Option String) (created_by' : Option ℕ)
    → legs' ≢ []
    → All IsValidLeg legs'
    → let db' = post_each later (post_transaction event_type legs key reference created_by db).1 in
      post_transaction event_type' legs' key reference' created_by' db' ≡ (ok t, db')
post_transaction_idempotent event_type legs key reference created_by db t h returned later
      event_type' legs' reference' created_by' ne valid =
    post_replayed event_type' legs' key reference' created_by' _ t ne valid (
      HasOne-find_replay key t _ h (
        post_each-HasOne key t later _ (
          find_replay-HasOne key t _ h
            (found_after event_type legs key reference created_by db t h returned))))
