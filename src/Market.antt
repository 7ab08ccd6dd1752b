-- ===== src/Market.antt =====
-- app/market/service.py and app/lending/kyc.py: the listing of a contract, and the orders that fund it.
pub mod Listings
pub mod Fill
pub mod Place
pub mod Capacity
mod Tests
