-- ===== src/Auth.antt =====
-- app/auth/ and app/utils/jwt.py: tokens, sessions, sign-in, accounts and the second factor.
pub mod Tokens
pub mod Sessions
pub mod Revocation
pub mod UserAgent
pub mod Totp
pub mod Login
pub mod Accounts
pub mod Profile
pub mod Passkeys
pub mod Calls
pub mod Rotation
pub mod Kept
pub mod KeptByPasskeys
pub mod KeptByProviders
pub mod Reuse
pub mod Ceremony
pub mod Exchange
pub mod Kinds
pub mod SecondFactor
pub mod Minted
pub mod Guard
pub mod Oauth
pub mod Linked
pub mod Continuation
pub mod Store
mod Samples
mod PasskeyTests
mod OauthTests
mod Tests
