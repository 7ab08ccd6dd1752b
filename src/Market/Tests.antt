-- ===== src/Market/Tests.antt =====
-- Sample listings (app/market/service.py), and the theorems on their capacity applied to them.
use fund_lok.Prelude.{◌≡◌, refl, true, none, some, [], ◌∷◌, arith, pos, ◌-ℤ◌, ltb_ℤ}
use fund_lok.Db.{Db, Listing, Error, ok, err, empty_db}
use fund_lok.Market.Place.{place_order, find_listing, find_order}
use fund_lok.Market.Capacity.{IsSound, place_order-IsSound, place_order_stuck}

-- A listing of contract 7 for 100, of which 90 are funded, with a minimal ticket of 20.
abbrev listing : Listing
listing = record {
  id = 5;
  contract_id = 7;
  target_amount = pos 100;
  min_ticket = some (pos 20);
  status = "OPEN";
  funded_amount = pos 90;
  open_at = none;
  close_at = none;
}

-- The same without a minimal ticket.
abbrev open_listing : Listing
open_listing = record listing { id = 6; min_ticket = none }

abbrev market : Db
market = record empty_db {
  contracts =
      record {
        id = 7;
        application_id = none;
        score_run_id = none;
        status = "ACTIVE_PENDING_FUNDING";
        target_amount = pos 100;
        funded_amount = pos 90;
      }
      ∷ [];
  listings = listing ∷ open_listing ∷ [];
  holdings =
      record {
        id = 31;
        contract_id = 7;
        investor_id = 21;
        order_id = none;
        principal = 90;
        share_ratio = none;
      }
      ∷ [];
}

market-IsSound : IsSound market
market-IsSound = record { within = (omega arith, (omega arith, tt)) }

-- The last 10 complete the listing and open a holding of a tenth.
last_order :
    (place_order 6 22 (pos 10) true none market).1.holdings
    ≡ record {
      id = 31;
      contract_id = 7;
      investor_id = 21;
      order_id = none;
      principal = 90;
      share_ratio = some 90000000;
    }
      ∷ record {
        id = 101;
        contract_id = 7;
        investor_id = 22;
        order_id = some 100;
        principal = 10;
        share_ratio = some 10000000;
      }
      ∷ []
unfolding place_order find_order fund_lok.Market.Place.place_new fund_lok.Market.Place.check_order
    ◌-ℤ◌ fund_lok.Market.Fill.fill_order fund_lok.Market.Fill.recompute_holding_shares
    fund_lok.Decimals.quantize_8 fund_lok.Decimals.div
last_order = refl

place_order-IsSound_example : IsSound (place_order 6 22 (pos 10) true none market).1
place_order-IsSound_example = place_order-IsSound 6 22 (pos 10) true none market market-IsSound

listing_found : find_listing 5 market.listings ≡ ok (some listing)
unfolding find_listing
listing_found = refl

no_order : find_order none market ≡ ok none
unfolding find_order
no_order = refl

ticket_too_large : ltb_ℤ (listing.target_amount -ℤ listing.funded_amount) (pos 20) ≡ true
unfolding ◌-ℤ◌
ticket_too_large = refl

place_order_stuck_example :
    (e : Error) × (place_order 5 22 (pos 10) true none market ≡ (err e, market))
place_order_stuck_example =
    place_order_stuck 5 22 (pos 10) true none market listing (pos 20) listing_found no_order refl
      ticket_too_large
