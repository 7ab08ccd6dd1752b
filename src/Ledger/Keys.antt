-- ===== src/Ledger/Keys.antt =====
-- A transaction stays the only one under its key (app/ledger/service.py).
use fund_lok.Prelude.{
  ℕ, String, ◌≡◌, refl, sym, ◌∙◌, subst, inl, inr, Bool, true, false, Option, none, some, List, [],
  ◌∷◌, ◌++◌, arith, opt_eq, truthy, select, any_of, all_of, Bool-cases, select-append,
}
use fund_lok.Db.{Db, LedgerTransaction, ok, Exec, scalar_one_or_none, new_id}
use fund_lok.Db.Frames.{Preserves, pure-Preserves, frames}
use fund_lok.Ledger.Checks.{same_key, find_replay}
use fund_lok.Ledger.Post.{
  entries_of, has_accounts, flush_transaction, flush_entries, write_transaction, post_new, or_post,
  post_transaction,
}
use fund_lok.Ledger.Chart.{LedgerLeg}
use text.Mathlib.TextEquality.{eq_iff}

-- The arguments of a call of `post_transaction`, and calls one after the other, whether they return
-- or raise.
pub record PostCall : Type 0 where
  pub event_type : String
  pub legs : List LedgerLeg
  pub key : Option String
  pub reference : Option String
  pub created_by : Option ℕ

abbrev pub post_each : List PostCall → Db → Db
post_each [] db = db
post_each (p ∷ later) db =
    post_each later (post_transaction p.event_type p.legs p.key p.reference p.created_by db).1

-- A row that one test finds alone and another test finds nowhere.
only_row :
    {A : Type 0} (p q : A → Bool) (rows : List A) (t : A)
    → select p rows ≡ t ∷ []
    → any_of q rows ≡ false
    → (p t ≡ true) × (q t ≡ false)
only_row p q [] t found absent = absurd (ground arith)
only_row p q (x ∷ rows) t found absent = elim (Bool-cases (p x)) [
  | inl chosen ↦
      let head : x ≡ t = ground arith in
      (subst (λ y. p y ≡ true) head chosen, subst (λ y. q y ≡ false) head (ground arith))
  | inr other ↦ only_row p q rows t (ground arith) (ground arith)
]

same_key_trans :
    (a b c : Option String) → same_key a b ≡ true → same_key c b ≡ true → same_key a c ≡ true
same_key_trans none b c ab cb = absurd (ground arith)
same_key_trans (some a) none c ab cb = absurd (ground arith)
same_key_trans (some a) (some b) none ab cb = absurd (ground arith)
same_key_trans (some a) (some b) (some c) ab cb =
    (eq_iff a c).1 ((eq_iff a b).0 ab ∙ sym ((eq_iff c b).0 cb))

abbrev has_key : Option String → LedgerTransaction → Bool
has_key key u = same_key u.idempotency_key key

-- `t` is the one transaction under the key.
pub HasOne : Option String → LedgerTransaction → Db → Type 0
HasOne key t db = select (has_key key) db.ledger_transactions ≡ t ∷ []

module _ (key : Option String) (t : LedgerTransaction) where
  -- A new transaction has another key.
  flush_transaction-HasOne :
      (new : LedgerTransaction) → Preserves (HasOne key t) (flush_transaction new)
  unfolding flush_transaction HasOne
  flush_transaction-HasOne new = record {
    at = λ db one.
        elim (Bool-cases (any_of (λ c. opt_eq (some c.id) new.contract_id) db.contracts)) [
          | inr unknown ↦ rw unknown one
          | inl known ↦
              elim (Bool-cases (any_of (has_key new.idempotency_key) db.ledger_transactions)) [
                | inl taken ↦ rw (known, taken) one
                | inr free ↦
                    let (mine, not_new) =
                      only_row (has_key key) (has_key new.idempotency_key) db.ledger_transactions t
                        one free in
                    rw (known, free) (added db one (differs mine not_new))
              ]
        ];
  }
    where
      differs :
          same_key t.idempotency_key key ≡ true
          → same_key t.idempotency_key new.idempotency_key ≡ false
          → same_key new.idempotency_key key ≡ false
      differs mine not_new = elim (Bool-cases (same_key new.idempotency_key key)) [
        | inr other ↦ other
        | inl same ↦
            let both = same_key_trans t.idempotency_key key new.idempotency_key mine same in
            absurd (ground arith)
      ]

      added :
          (db : Db)
          → HasOne key t db
          → same_key new.idempotency_key key ≡ false
          → select (has_key key) (db.ledger_transactions ++ (new ∷ [])) ≡ t ∷ []
      added db one other =
          select-append (has_key key) db.ledger_transactions (new ∷ []) ∙ rw (one, other) refl

  new_id-HasOne : Preserves (HasOne key t) new_id
  unfolding HasOne
  new_id-HasOne = record { at = λ db one. one }

  flush_entries-HasOne :
      (new : LedgerTransaction) (legs : List LedgerLeg)
      → Preserves (HasOne key t) (flush_entries new legs)
  unfolding flush_entries HasOne
  flush_entries-HasOne new legs = record {
    at = λ db one.
        elim (Bool-cases
          (all_of (has_accounts db.ledger_accounts) (entries_of db.uuid4 db.draws new legs))) [
            | inl known ↦ rw known one
            | inr unknown ↦ rw unknown one
          ];
  }

  write_transaction-HasOne :
      (event_type : String) (legs : List LedgerLeg) (k reference : Option String)
      (created_by : Option ℕ) (c : ℕ)
      → Preserves (HasOne key t) (write_transaction event_type legs k reference created_by c)
  unfolding write_transaction
  write_transaction-HasOne event_type legs k reference created_by c =
      search (frames, new_id-HasOne, flush_transaction-HasOne, flush_entries-HasOne) depth 12

  post_new-HasOne :
      (event_type : String) (legs : List LedgerLeg) (k reference : Option String)
      (created_by : Option ℕ)
      → Preserves (HasOne key t) (post_new event_type legs k reference created_by)
  unfolding post_new
  post_new-HasOne event_type legs k reference created_by =
      search (frames, write_transaction-HasOne) depth 12

  or_post-HasOne :
      (found : Option LedgerTransaction) (post : Exec LedgerTransaction)
      → Preserves (HasOne key t) post
      → Preserves (HasOne key t) (or_post found post)
  unfolding or_post
  or_post-HasOne none post h = h
  or_post-HasOne (some existing) post h = pure-Preserves existing

  post_transaction-HasOne :
      (event_type : String) (legs : List LedgerLeg) (k reference : Option String)
      (created_by : Option ℕ)
      → Preserves (HasOne key t) (post_transaction event_type legs k reference created_by)
  unfolding post_transaction
  post_transaction-HasOne event_type legs k reference created_by =
      search (frames, or_post-HasOne, post_new-HasOne) depth 12

  pub post_each-HasOne :
      (later : List PostCall) (db : Db) → HasOne key t db → HasOne key t (post_each later db)
  post_each-HasOne [] db one = one
  post_each-HasOne (p ∷ later) db one =
      post_each-HasOne later
        (post_transaction p.event_type p.legs p.key p.reference p.created_by db).1
        ((post_transaction-HasOne p.event_type p.legs p.key p.reference p.created_by).at db one)

  pub HasOne-find_replay :
      (db : Db) → truthy key ≡ true → HasOne key t db → find_replay key db ≡ ok (some t)
  unfolding find_replay HasOne
  HasOne-find_replay db h one = rw (h, one) refl

  pub find_replay-HasOne :
      (db : Db) → truthy key ≡ true → find_replay key db ≡ ok (some t) → HasOne key t db
  unfolding find_replay HasOne
  find_replay-HasOne db h found =
      one_row (select (has_key key) db.ledger_transactions) (rw h at found)
    where
      one_row :
          (rows : List LedgerTransaction) → scalar_one_or_none rows ≡ ok (some t) → rows ≡ t ∷ []
      one_row [] e = absurd (ground arith)
      one_row (x ∷ []) e = ground arith
      one_row (x ∷ y ∷ rest) e = absurd (ground arith)
