-- ===== src/Lib.antt =====
-- FundLok, a lending platform on FastAPI and SQLAlchemy: its double-entry ledger, the payments
-- that post to it, the market for listings, the fixed daily repayment schedule, sign-in with its
-- sessions and second factor, the checks of identity, the grading of applications, and their way
-- from draft to contract.
--
-- The parts and their files:
-- - Prelude: numbers, integers, lists, dicts, sorting and texts that the parts share.
-- - Db: the rows of app/ledger/models.py, app/lending/models.py and app/users/models.py
--   (Db/LedgerTables, Db/LendingTables, Db/UserTables), and the session (Db/Session): a method is
--   a function from the database to a result or an error and the database after it. Db/Frames has
--   a rule for each way to build a method, with which invariants are searched along the code, and
--   Db/Claims the rules for what a method that returns has made of the database.
--   What a raised error leaves behind is in that database; the request's commit or its absence
--   stands in Payments.
-- - Ledger: app/ledger/service.py. `post_transaction` runs check_legs, find_replay, ring_fence,
--   check_pass_through, flush_transaction and flush_entries in the order of the source, and
--   `get_or_create_account`, `resolve_custodial_account` and `get_account_balance` are the other
--   operations. Chart has legs, accounts and balances, Checks what is checked before a write,
--   Post the writes. PassThrough and RingFence describe the two checks, Posting and Outcome the
--   whole call, Keys and Replay the idempotency key, Balance the balances, Accounts the chart of
--   accounts.
-- - Apportion: the split of a repayment by the largest remainder, from `record_repayment` of
--   app/payments/service.py. Children: Rounding, Exact and Fair.
-- - Payments: app/payments/service.py, app/payments/router.py and app/utils/audit.py. Disburse
--   and Repay call the ledger and the split of Apportion, Routes adds the audit rows and the
--   commit. Split is about the lenders' legs, Replay about a repeated key, OtherKind
--   about a key of a disbursement in a repayment.
-- - Market: app/market/service.py and app/lending/kyc.py: the listing of a contract, and the
--   orders that fund it (Listings, Place), with their effect on the listing, the contract and the
--   holdings (Fill). Capacity is about the target of a listing. A changed row takes the place of
--   the row with its id (`save`), which is what the flush of a session's object does.
-- - Security: what the code takes from outside for sign-in: hashes, JWT, one-time passwords,
--   encryption, the captcha and the settings, as parameters.
-- - Auth: app/auth/service.py, app/auth/totp.py, app/auth/totp_crypto.py, app/auth/user_agent.py,
--   app/auth/passkeys.py, app/utils/jwt.py and the accounts of app/users/service.py. Tokens mints
--   and reads JWTs, Sessions keeps refresh tokens, UserAgent has the labels of devices, Totp the
--   second factor, Login the sign-in, Accounts registration and passwords, Profile the rest of a
--   user, Passkeys the ceremonies of passkeys. Calls is every one of their calls that writes, in
--   any order. Revocation, Rotation, Kept, KeptByPasskeys, KeptByProviders, Reuse and Exchange are
--   about exchanged tokens, Ceremony about used challenges, Kinds about the kinds of token,
--   SecondFactor and Guard about what a sign-in asks, Minted about whose tokens it gives,
--   Continuation about a session that goes on, Store about the abstract store of sessions. Oauth is
--   the sign-in by a provider of app/oauth/service.py, and
--   Linked the account that it reaches.
-- - Lending: app/projects/service.py, app/loans/service.py, app/contracts/service.py,
--   app/lending/service.py and the score runs of app/underwriting/service.py. Applications and
--   Contracts have the operations, Calls puts them in any order, Rows is about the row that a
--   query finds, Submitted and Frozen are about an application after its submission, Grounded
--   about what a contract rests on.
-- - Underwriting: app/underwriting/grading/. Numbers is what the code does with floats and
--   decimals, as a parameter, and the chains of results; Types is types.py with the parameters of
--   params.py, Derive is derive.py, Factors is curves.py and factors.py, Pricing is rollup.py and
--   pricing.py, Gates is gates.py, Engine is engine.py. Decision reads the decision off the
--   configured gates, Fires says when a gate fires and Resolved what the fired ones decide, Graded
--   is about every result, Rate about the interest rate, ZeroQuarter about a prior year with a
--   pause.
-- - Scoring: app/underwriting/service.py with the tables of app/underwriting/models.py (Desk) and
--   app/underwriting/grading/sector_reference.py (Sector). Rates has the bank rate, Inputs the
--   three forms of an application's data, Assess the grade that a run gets, Runs the operations
--   and Calls any order of them. InForce is about the bank rate, Started about what a run
--   leaves, Stored and Replay about the inputs that a run keeps.
-- - Schedule: app/repayment_schedule/. Facility is models.py, StateMachine is state_machine.py
--   (Rules and Apply, with the diagram of its specification as a relation in Diagram, the guards in
--   Guards, the check in
--   Check, histories in Runs and INV-4 in Stale), Calendar is calendar.py (with its search in
--   Scan), Origination is origination.py (with amounts in Amounts and the written rows in Rows),
--   over the decimals of Decimals, which the market's share ratios use too.
-- - Verification: app/verification/. Json has the values of a payload and the provider's client,
--   Webhook the check of a signature, Sessions the table and its calls, Deliveries what a delivery
--   does, with its route, and Once says what it does when it is sent again.
--
-- Conventions. A UUID is a number, `uuid4` of the database is the stream that `uuid.uuid4()`,
-- `secrets` and the salts of hashes draw from, and the text of a UUID is Prelude/Uuid. Amounts
-- are whole VND (Numeric of scale 0): integers, of which the principal of a holding is positive
-- by the table's constraint. A date is its ordinal, a time a number of microseconds that stands
-- still during a call. A background task is the message that it sends. A flush refuses a row
-- whose foreign key is missing or whose unique key is taken, as PostgreSQL does; foreign keys to
-- users are taken to hold.
--
-- Fuel: the search for business days has `count * 10 + 366 + 2` rounds, one more than the guard
-- of the loop admits; `generate_business_days_total` says when it returns. A decimal result is
-- given at most 56 places, which a value of at least 10 ^ -28 does not need more of; taking
-- digits away is bounded by the numerator. Every other loop is a recursion on a list.
--
-- Not modelled: the texts of exceptions other than those of HTTP, JSON columns, the times that
-- the database fills in, cookies, uploads, clients of banks and of identity checks and the
-- loaders of YAML files. Floats and decimals of the grading engine have no definition here: a theorem that needs
-- a law of them names it (IsDividing, IsMonotone). Counts of months and credit scores are taken
-- to be natural numbers. The engine's own grade is a parameter of Lending.
pub mod Prelude
pub mod Db
pub mod Ledger
pub mod Apportion
pub mod Payments
pub mod Decimals
pub mod Market
pub mod Schedule
pub mod Security
pub mod Auth
pub mod Lending
pub mod Underwriting
pub mod Scoring
pub mod Verification
