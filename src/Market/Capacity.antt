-- ===== src/Market/Capacity.antt =====
-- The capacity of a listing (app/market/service.py): no order takes it past its target.
use fund_lok.Prelude.{
  ℕ, String, ◌≡◌, refl, sym, subst, inl, inr, Bool, true, false, not, Option, none, some, List, [],
  ◌∷◌, arith, ◌==◌, if◌then◌else◌, All, ℤ, ◌+ℤ◌, ◌-ℤ◌, ◌≤ℤ◌, ltb_ℤ, leb_ℤ, int_laws, Bool-cases,
}
use fund_lok.Db.{Db, Listing, Order, Error, ok, err, Exec, Result-cases}
use fund_lok.Market.Fill.{
  save, save_listing, save_contract, save_holding, insert_order, recompute_holding_shares,
  fund_contract, grow_holding, fill_order, find_contract, find_holding, order_key_taken,
}
use fund_lok.Market.Place.{
  find_listing, check_order, below_ticket, place_new, or_place, place_order, find_order,
}

abbrev pub IsWithinTarget : Listing → Type 0
IsWithinTarget lst = lst.funded_amount ≤ℤ lst.target_amount

pub record IsSound (db : Db) : Type 0 where
  pub within : All IsWithinTarget db.listings

same-IsSound : (db db' : Db) → db'.listings ≡ db.listings → IsSound db → IsSound db'
same-IsSound db db' e sound = record {
  within = subst (λ rows. All IsWithinTarget rows) (sym e) sound.within;
}

save-All :
    {A : Type 0} (P : A → Type 0) (id_of : A → ℕ) (a : A) (rows : List A)
    → P a
    → All P rows
    → All P (save id_of a rows)
save-All P id_of a [] p h = tt
save-All P id_of a (b ∷ rows) p h = (replaced (id_of b == id_of a), save-All P id_of a rows p h.1)
  where
    replaced : (c : Bool) → P (if c then a else b)
    replaced true = p
    replaced false = h.0

module _ (lst : Listing) (investor_id : ℕ) (amount : ℤ) (key : Option String) (db : Db) where
  -- The listing's row after the order, and after the test whether it is complete.
  abbrev funded_row : Listing
  funded_row = record lst { funded_amount = lst.funded_amount +ℤ amount }

  abbrev closed_row : Listing
  closed_row = record lst {
    funded_amount = lst.funded_amount +ℤ amount;
    status = if leb_ℤ lst.target_amount (lst.funded_amount +ℤ amount) then "FUNDED" else lst.status;
    close_at =
        if leb_ℤ lst.target_amount (lst.funded_amount +ℤ amount)
        then some db.clock
        else lst.close_at;
  }

  once :
      IsWithinTarget funded_row
      → IsSound db
      → All IsWithinTarget (save (λ (l : Listing). l.id) funded_row db.listings)
  once within sound =
      save-All IsWithinTarget (λ (l : Listing). l.id) funded_row db.listings within sound.within

  twice :
      IsWithinTarget funded_row
      → IsSound db
      → All IsWithinTarget (
          save
            (λ (l : Listing). l.id)
            closed_row
            (save (λ (l : Listing). l.id) funded_row db.listings))
  twice within sound =
      save-All IsWithinTarget (λ (l : Listing). l.id) closed_row _ within (once within sound)

  fill_order-IsSound :
      lst.funded_amount +ℤ amount ≤ℤ lst.target_amount
      → IsSound db
      → IsSound (fill_order lst investor_id amount key db).1
  unfolding fill_order insert_order save_listing save_contract save_holding fund_contract
      grow_holding recompute_holding_shares
  fill_order-IsSound within sound = elim (Bool-cases (order_key_taken key db.orders)) [
    | inl taken ↦ rw taken (same-IsSound db _ refl sound)
    | inr free ↦ elim (Result-cases (find_contract lst.contract_id db.contracts)) [
      | inr (e, refused) ↦ rw (free, refused) (record { within = once within sound })
      | inl (none, found) ↦
          elim (Result-cases (find_holding lst.contract_id investor_id db.holdings)) [
            | inr (e, refused) ↦ rw (free, found, refused) (record { within = once within sound })
            | inl (none, held) ↦ rw (free, found, held) (record { within = twice within sound })
            | inl (some h, held) ↦ rw (free, found, held) (record { within = twice within sound })
          ]
      | inl (some c, found) ↦
          elim (Result-cases (find_holding lst.contract_id investor_id db.holdings)) [
            | inr (e, refused) ↦ rw (free, found, refused) (record { within = once within sound })
            | inl (none, held) ↦ rw (free, found, held) (record { within = twice within sound })
            | inl (some h, held) ↦ rw (free, found, held) (record { within = twice within sound })
          ]
    ]
  ]

room :
    (funded target amount : ℤ)
    → ltb_ℤ (target -ℤ funded) amount ≡ false
    → funded +ℤ amount ≤ℤ target
room funded target amount h = grind int_laws

check_order_ok :
    (lst : Listing) (amount : ℤ)
    → check_order lst amount ≡ ok tt
    → lst.funded_amount +ℤ amount ≤ℤ lst.target_amount
unfolding check_order
check_order_ok lst amount h = room lst.funded_amount lst.target_amount amount (ground arith)

module _ (listing_id investor_id : ℕ) (amount : ℤ) (key : Option String) (db : Db) where
  place_new-IsSound : IsSound db → IsSound (place_new listing_id investor_id amount key db).1
  unfolding place_new
  place_new-IsSound sound = elim (Result-cases (find_listing listing_id db.listings)) [
    | inr (e, refused) ↦ rw refused sound
    | inl (none, found) ↦ rw found sound
    | inl (some lst, found) ↦ elim (Result-cases (check_order lst amount)) [
      | inr (e, refused) ↦ rw (found, refused) sound
      | inl (done, admitted) ↦
          rw (found, admitted)
            (fill_order-IsSound lst investor_id amount key db (check_order_ok lst amount admitted)
              sound)
    ]
  ]

or_place-IsSound :
    (existing : Option Order) (listing_id : ℕ) (new : Exec (Order × Bool)) (db : Db)
    → IsSound db
    → IsSound (new db).1
    → IsSound (or_place existing listing_id new db).1
unfolding or_place
or_place-IsSound none listing_id new db sound h = h
or_place-IsSound (some o) listing_id new db sound h =
    elim (Bool-cases (not (o.listing_id == listing_id))) [
      | inl other ↦ rw other sound
      | inr same ↦ rw same sound
    ]

-- Whether it returns or raises, an order leaves no listing funded past its target, where none was.
pub place_order-IsSound :
    (listing_id investor_id : ℕ) (amount : ℤ) (ack_risk_disclosure : Bool) (key : Option String)
    (db : Db)
    → IsSound db
    → IsSound (place_order listing_id investor_id amount ack_risk_disclosure key db).1
unfolding place_order
place_order-IsSound listing_id investor_id amount false key db sound = sound
place_order-IsSound listing_id investor_id amount true key db sound =
    elim (Result-cases (find_order key db)) [
      | inr (e, refused) ↦ rw refused sound
      | inl (existing, found) ↦ rw found (
          or_place-IsSound existing listing_id (place_new listing_id investor_id amount key) db
            sound (place_new-IsSound listing_id investor_id amount key db sound))
    ]

check_order_ticket :
    (lst : Listing) (amount : ℤ)
    → check_order lst amount ≡ ok tt
    → below_ticket lst.min_ticket amount ≡ false
unfolding check_order
check_order_ticket lst amount h = ground arith

no_room :
    (funded target ticket amount : ℤ)
    → ltb_ℤ (target -ℤ funded) ticket ≡ true
    → ltb_ℤ amount ticket ≡ false
    → ¬ (funded +ℤ amount ≤ℤ target)
no_room funded target ticket amount h h' room' = grind int_laws

check_order_stuck :
    (lst : Listing) (ticket amount : ℤ)
    → lst.min_ticket ≡ some ticket
    → ltb_ℤ (lst.target_amount -ℤ lst.funded_amount) ticket ≡ true
    → (e : Error) × (check_order lst amount ≡ err e)
check_order_stuck lst ticket amount least short = elim (Result-cases (check_order lst amount)) [
  | inr refused ↦ refused
  | inl (done, admitted) ↦ absurd (
      no_room lst.funded_amount lst.target_amount ticket amount short
        (subst (λ t. below_ticket t amount ≡ false) least (check_order_ticket lst amount admitted))
        (check_order_ok lst amount admitted))
]

-- A listing whose remaining capacity is below its minimal ticket takes no order any more: under a
-- key that is not in use, every amount is refused and nothing is written.
pub place_order_stuck :
    (listing_id investor_id : ℕ) (amount : ℤ) (ack_risk_disclosure : Bool) (key : Option String)
    (db : Db) (lst : Listing) (ticket : ℤ)
    → find_listing listing_id db.listings ≡ ok (some lst)
    → find_order key db ≡ ok none
    → lst.min_ticket ≡ some ticket
    → ltb_ℤ (lst.target_amount -ℤ lst.funded_amount) ticket ≡ true
    → (e : Error) × (place_order listing_id investor_id amount ack_risk_disclosure key db
        ≡ (err e, db))
unfolding place_order place_new or_place
place_order_stuck listing_id investor_id amount false key db lst ticket found new least short =
    (_, refl)
place_order_stuck listing_id investor_id amount true key db lst ticket found new least short =
    let (e, refused) = check_order_stuck lst ticket amount least short in
    (e, rw (new, found, refused) refl)
