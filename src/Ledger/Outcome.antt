-- ===== src/Ledger/Outcome.antt =====
-- What a call of `post_transaction` (app/ledger/service.py) can end in.
use fund_lok.Prelude.{
  ℕ, ◌≡◌, ◌≢◌, refl, String, true, false, Option, some, List, [], ◌∷◌, arith, All, ◌==◌, any_of,
  all_of, inl, inr, select-eq-nil, ◌⊎◌, ◌∙◌, ap, none, truthy,
}
use fund_lok.Db.{Db, ok, LedgerTransaction, Result-cases, Error, err, integrity, imbalance, Result}
use fund_lok.Ledger.Chart.{LedgerLeg}
use fund_lok.Ledger.Checks.{check_legs, same_key, ring_fence, find_replay}
use fund_lok.Ledger.Post.{
  flush_transaction, flush_entries, post_new, write_transaction, post_transaction,
}
use fund_lok.Ledger.Posting.{
  header, posted, IsValidLeg, check_legs_iff, key_taken, has_leg_accounts, Accepts,
  post_new-Accepts, post_new_ok,
}
use fund_lok.Ledger.RingFence.{IsFenced, ring_fence_iff}
use fund_lok.Ledger.PassThrough.{NetsToZero, check_pass_through_iff}

-- The conditions on a call that writes a new transaction for contract `c`, without reference to
-- the code of the checks.
pub record IsPostable (db : Db) (legs : List LedgerLeg) (key : Option String) (c : ℕ) : Type 0 where
  pub not_empty : legs ≢ []
  pub valid : All IsValidLeg legs
  pub fenced : All (IsFenced db c) legs
  pub balanced : NetsToZero legs
  pub contract_known : any_of (λ r. r.id == c) db.contracts ≡ true
  pub key_new : key_taken db key ≡ false
  pub accounts_known : all_of (has_leg_accounts db.ledger_accounts) legs ≡ true

find_replay_new :
    (key : Option String) (db : Db) → key_taken db key ≡ false → find_replay key db ≡ ok none
unfolding find_replay
find_replay_new key db h = ground (
  arith,
  select-eq-nil (λ (u : LedgerTransaction). same_key u.idempotency_key key) db.ledger_transactions
      h,
)

IsPostable-Accepts :
    (db : Db) (legs : List LedgerLeg) (key : Option String) (c : ℕ)
    → IsPostable db legs key c
    → Accepts db legs key c
IsPostable-Accepts db [] key c h = absurd (h.not_empty refl)
IsPostable-Accepts db (leg ∷ legs) key c h = record {
  fenced = (ring_fence_iff db c leg legs).1 h.fenced;
  balanced = (check_pass_through_iff (leg ∷ legs)).1 h.balanced;
  contract_known = h.contract_known;
  key_new = h.key_new;
  accounts_known = h.accounts_known;
}

Accepts-IsPostable :
    (db : Db) (legs : List LedgerLeg) (key : Option String) (c : ℕ)
    → legs ≢ []
    → All IsValidLeg legs
    → Accepts db legs key c
    → IsPostable db legs key c
Accepts-IsPostable db [] key c ne valid h = absurd (ne refl)
Accepts-IsPostable db (leg ∷ legs) key c ne valid h = record {
  not_empty = ne;
  valid = valid;
  fenced = (ring_fence_iff db c leg legs).0 h.fenced;
  balanced = (check_pass_through_iff (leg ∷ legs)).0 h.balanced;
  contract_known = h.contract_known;
  key_new = h.key_new;
  accounts_known = h.accounts_known;
}

post_passed :
    (event_type : String) (legs : List LedgerLeg) (key reference : Option String)
    (created_by : Option ℕ) (db : Db)
    → legs ≢ []
    → check_legs legs ≡ ok tt
    → find_replay key db ≡ ok none
    → post_transaction event_type legs key reference created_by db
      ≡ post_new event_type legs key reference created_by db
unfolding post_transaction
post_passed event_type [] key reference created_by db ne good new = absurd (ne refl)
post_passed event_type (leg ∷ legs) key reference created_by db ne good new = rw (good, new)

-- The three ways through the checks that stand before the writing.
data Gate (event_type : String) (legs : List LedgerLeg) (key reference : Option String)
    (created_by : Option ℕ) (db : Db) : Type 0 where
  refused :
      (e : Error)
      → post_transaction event_type legs key reference created_by db ≡ (err e, db)
      → Gate event_type legs key reference created_by db
  replayed :
      (t : LedgerTransaction)
      → find_replay key db ≡ ok (some t)
      → post_transaction event_type legs key reference created_by db ≡ (ok t, db)
      → Gate event_type legs key reference created_by db
  passed :
      legs ≢ []
      → check_legs legs ≡ ok tt
      → find_replay key db ≡ ok none
      → post_transaction event_type legs key reference created_by db
        ≡ post_new event_type legs key reference created_by db
      → Gate event_type legs key reference created_by db

gate :
    (event_type : String) (legs : List LedgerLeg) (key reference : Option String)
    (created_by : Option ℕ) (db : Db)
    → Gate event_type legs key reference created_by db
unfolding post_transaction
gate event_type [] key reference created_by db = Gate.refused imbalance refl
gate event_type (leg ∷ legs) key reference created_by db =
    elim (Result-cases (check_legs (leg ∷ legs))) [
      | inr (e, bad) ↦ Gate.refused e (rw bad)
      | inl (done, good) ↦ elim (Result-cases (find_replay key db)) [
        | inr (e, bad) ↦ Gate.refused e (rw (good, bad))
        | inl (none, new) ↦ Gate.passed (λ e. cc) good new (rw (good, new))
        | inl (some t, old) ↦ Gate.replayed t old (rw (good, old))
      ]
    ]

find_replay-truthy :
    (key : Option String) (db : Db) (t : LedgerTransaction)
    → find_replay key db ≡ ok (some t)
    → truthy key ≡ true
unfolding find_replay
find_replay-truthy key db t h = ground arith

write_transaction_err :
    (event_type : String) (legs : List LedgerLeg) (key reference : Option String)
    (created_by : Option ℕ) (c : ℕ) (db : Db) (e : Error)
    → (write_transaction event_type legs key reference created_by c db).0 ≡ err e
    → ((write_transaction event_type legs key reference created_by c db).1.ledger_entries
        ≡ db.ledger_entries)
      × (e ≢ integrity → (write_transaction event_type legs key reference created_by c db).1 ≡ db)
unfolding write_transaction flush_transaction flush_entries
write_transaction_err event_type legs key reference created_by c db e h =
    (ground arith, λ ne. ground arith)

post_new_err :
    (event_type : String) (legs : List LedgerLeg) (key reference : Option String)
    (created_by : Option ℕ) (db : Db) (e : Error)
    → (post_new event_type legs key reference created_by db).0 ≡ err e
    → ((post_new event_type legs key reference created_by db).1.ledger_entries ≡ db.ledger_entries)
      × (e ≢ integrity → (post_new event_type legs key reference created_by db).1 ≡ db)
unfolding post_new
post_new_err event_type legs key reference created_by db e h =
    elim (Result-cases (ring_fence db legs)) [
      | inl (c, fenced) ↦
          rw fenced
            (write_transaction_err event_type legs key reference created_by c db e (rw fenced at h))
      | inr (f, bad) ↦ rw bad (refl, λ ne. refl)
    ]

module _ (event_type : String) (legs : List LedgerLeg) (key reference : Option String)
    (created_by : Option ℕ) (db : Db) where
  -- A call with at least one leg, whose legs are valid, belong with their accounts to contract `c`,
  -- and net to zero in every account that they touch more than once, where the contract and the
  -- accounts exist and the idempotency key is new, writes one header and one posting for each leg,
  -- changes nothing else, and returns the header.
  pub post_transaction_accepts :
      (c : ℕ)
      → IsPostable db legs key c
      → post_transaction event_type legs key reference created_by db ≡ (
        ok (header event_type legs key reference created_by db c),
        posted event_type legs key reference created_by db c,
      )
  post_transaction_accepts c h =
      post_passed event_type legs key reference created_by db h.not_empty
        ((check_legs_iff legs).1 h.valid) (find_replay_new key db h.key_new)
      ∙ post_new-Accepts event_type legs key reference created_by db c
          (IsPostable-Accepts db legs key c h)

  -- A call that returns `t` has either found it under its truthy key and changed nothing, or met
  -- every condition of `IsPostable` for some contract and written exactly the header `t` and one
  -- posting for each leg.
  pub post_transaction_ok :
      (t : LedgerTransaction)
      → (post_transaction event_type legs key reference created_by db).0 ≡ ok t
      → ((truthy key ≡ true)
          × (find_replay key db ≡ ok (some t))
          × (post_transaction event_type legs key reference created_by db ≡ (ok t, db)))
        ⊎ ((c : ℕ) × IsPostable db legs key c
            × (post_transaction event_type legs key reference created_by db ≡ (
              ok (header event_type legs key reference created_by db c),
              posted event_type legs key reference created_by db c,
            )))
  post_transaction_ok t h = elim (gate event_type legs key reference created_by db) [
    | Gate.refused e p ↦ absurd (cc (ap (λ (r : Result LedgerTransaction × Db). r.0) p))
    | Gate.replayed u found p ↦
        let same : u ≡ t = cc (ap (λ (r : Result LedgerTransaction × Db). r.0) p) in
        inl (find_replay-truthy key db u found, rw (← same) found, rw (← same) p)
    | Gate.passed ne good new p ↦
        let (c, accepts, written) =
          post_new_ok event_type legs key reference created_by db t (rw (← p) h) in
        inr (
          c,
          Accepts-IsPostable db legs key c ne ((check_legs_iff legs).0 good) accepts,
          p ∙ written,
        )
  ]

  -- A call that raises writes no posting, and unless the database itself refuses a row
  -- (IntegrityError) it leaves everything as it was.
  pub post_transaction_err :
      (e : Error)
      → (post_transaction event_type legs key reference created_by db).0 ≡ err e
      → ((post_transaction event_type legs key reference created_by db).1.ledger_entries
          ≡ db.ledger_entries)
        × (e ≢ integrity → (post_transaction event_type legs key reference created_by db).1 ≡ db)
  post_transaction_err e h = elim (gate event_type legs key reference created_by db) [
    | Gate.refused f p ↦ rw p (refl, λ ne. refl)
    | Gate.replayed u found p ↦ rw p (refl, λ ne. refl)
    | Gate.passed ne good new p ↦
        rw p (post_new_err event_type legs key reference created_by db e (rw (← p) h))
  ]
