-- ===== src/Market/Place.antt =====
-- Orders (app/market/service.py).
use fund_lok.Prelude.{
  ℕ, String, text_eq, Bool, false, not, Option, none, some, List, ◌==◌, if◌then◌else◌, truthy,
  select, ℤ, pos, ◌-ℤ◌, ltb_ℤ, leb_ℤ,
}
use fund_lok.Db.{
  Db, Listing, Order, http, Result, ok, err, Exec, pure, lift, require, ◌>>=◌, ◌>>◌, raise_if,
  scalar_one_or_none,
}
use fund_lok.Market.Fill.{same_key, fill_order}

abbrev pub below_ticket : Option ℤ → ℤ → Bool
below_ticket none amount = false
below_ticket (some min_ticket) amount = ltb_ℤ amount min_ticket

unfoldable pub find_listing : ℕ → List Listing → Result (Option Listing)
find_listing listing_id listings =
    scalar_one_or_none (select (λ (l : Listing). l.id == listing_id) listings)

-- The guards of `place_order` on the listing.
unfoldable pub check_order : Listing → ℤ → Result (Unit {0})
check_order lst amount =
    if not (text_eq lst.status "OPEN")
    then err (http 400 "Listing is not open for funding")
    else if leb_ℤ amount (pos 0)
    then err (http 400 "Amount must be positive")
    else if below_ticket lst.min_ticket amount
    then err (http 400 "Amount below min_ticket")
    else if ltb_ℤ (lst.target_amount -ℤ lst.funded_amount) amount
    then err (http 400 "Amount exceeds remaining capacity")
    else ok tt

-- The part of `place_order` behind the idempotency check.
unfoldable pub place_new : ℕ → ℕ → ℤ → Option String → Exec (Order × Bool)
unfolding find_listing
place_new listing_id investor_id amount idempotency_key = do
  found ← λ db. (find_listing listing_id db.listings, db)
  lst ← lift (require found (http 404 "Listing not found"))
  lift (check_order lst amount)
  fill_order lst investor_id amount idempotency_key

-- The order that was placed under a truthy key.
unfoldable pub find_order : Option String → Db → Result (Option Order)
find_order key db =
    if truthy key
    then scalar_one_or_none (select (λ (o : Order). same_key o.idempotency_key key) db.orders)
    else ok none

unfoldable pub or_place : Option Order → ℕ → Exec (Order × Bool) → Exec (Order × Bool)
or_place none listing_id new = new
or_place (some existing) listing_id new = do
  raise_if (not (existing.listing_id == listing_id))
      (http 409 "Idempotency-Key already used for a different listing")
  pure (existing, false)

unfoldable pub place_order : ℕ → ℕ → ℤ → Bool → Option String → Exec (Order × Bool)
unfolding or_place
place_order listing_id investor_id amount ack_risk_disclosure idempotency_key = do
  raise_if (not ack_risk_disclosure) (http 400 "Risk disclosure must be acknowledged")
  existing ← λ db. (find_order idempotency_key db, db)
  or_place existing listing_id (place_new listing_id investor_id amount idempotency_key)
