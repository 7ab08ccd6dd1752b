-- ===== src/Db/Session.antt =====
-- The database as one session sees it, and methods that read and write it and may raise.
use mathlib.Core.Path.{refl}
use fund_lok.Prelude.{
  ℕ, suc, ◌+◌, String, Bool, Option, none, some, List, [], ◌∷◌, if◌then◌else◌, ◌≡◌, ◌⊎◌, inl, inr,
}
use fund_lok.Db.LedgerTables.{CustodialAccount, LedgerAccount, LedgerTransaction, LedgerEntry}
use fund_lok.Db.LendingTables.{
  ProjectOwnership, Document, LoanApplication, Contract, Listing, Order, Holding, AuditLog, Project,
  ScoreRun,
}
use fund_lok.Db.UserTables.{
  User, RefreshToken, TotpRecoveryCode, WebAuthnCredential, WebAuthnChallenge, Mail,
}

-- `uuid4` holds the random numbers that `uuid.uuid4()`, `secrets` and the salts of hashes take, in
-- order, and `draws` says how many
-- are used; `clock` is what `datetime.now` returns, in microseconds; `mail` is what the background
-- tasks of the calls so far send.
pub record Db : Type 0 where
  pub custodial_accounts : List CustodialAccount
  pub ledger_accounts : List LedgerAccount
  pub ledger_transactions : List LedgerTransaction
  pub ledger_entries : List LedgerEntry
  pub project_ownerships : List ProjectOwnership
  pub documents : List Document
  pub loan_applications : List LoanApplication
  pub contracts : List Contract
  pub listings : List Listing
  pub orders : List Order
  pub holdings : List Holding
  pub audit_logs : List AuditLog
  pub projects : List Project
  pub score_runs : List ScoreRun
  pub users : List User
  pub refresh_tokens : List RefreshToken
  pub totp_recovery_codes : List TotpRecoveryCode
  pub webauthn_credentials : List WebAuthnCredential
  pub webauthn_challenges : List WebAuthnChallenge
  pub mail : List Mail
  pub uuid4 : ℕ → ℕ
  pub draws : ℕ
  pub clock : ℕ

-- A database without a row.
abbrev pub empty_db : Db
empty_db = record {
  custodial_accounts = [];
  ledger_accounts = [];
  ledger_transactions = [];
  ledger_entries = [];
  project_ownerships = [];
  documents = [];
  loan_applications = [];
  contracts = [];
  listings = [];
  orders = [];
  holdings = [];
  audit_logs = [];
  projects = [];
  score_runs = [];
  users = [];
  refresh_tokens = [];
  totp_recovery_codes = [];
  webauthn_credentials = [];
  webauthn_challenges = [];
  mail = [];
  uuid4 = λ n. 100 + n;
  draws = 0;
  clock = 0;
}

-- What a call raises: the ledger's three exceptions, the two of SQLAlchemy, FastAPI's
-- HTTPException with its status code and text, the use of a None as a row,
-- `next` on an empty iterator, the ValueError of a conversion, the KeyError of a dict,
-- ZeroDivisionError, OverflowError and TypeError.
pub data Error : Type 0 where
  imbalance cross_contract not_provisioned : Error
  integrity multiple_rows : Error
  http : ℕ → String → Error
  attribute_error stop_iteration value_error key_error : Error
  zero_division overflow_error type_error : Error

pub data Result {ℓ} (A : Type ℓ) : Type ℓ where
  ok : A → Result A
  err : Error → Result A

-- The state comes back beside an error too: what was written before it is in the session.
abbrev pub Exec : Type 0 → Type 0
Exec A = Db → Result A × Db

module _ {A : Type 0} where
  abbrev pub pure : A → Exec A
  pure a db = (ok a, db)

  abbrev pub raise : Error → Exec A
  raise e db = (err e, db)

  abbrev pub lift : Result A → Exec A
  lift r db = (r, db)

  abbrev pub gets : (Db → A) → Exec A
  gets f db = (ok (f db), db)

  -- `if row is None: raise e`
  abbrev pub require : Option A → Error → Result A
  require none e = err e
  require (some a) e = ok a

abbrev pub continue : {A B : Type 0} → Result A → (A → Exec B) → Exec B
continue (ok a) f db = f a db
continue (err e) f db = (err e, db)

infixl 5 ◌>>=◌ ◌>>◌
abbrev pub ◌>>=◌ : {A B : Type 0} → Exec A → (A → Exec B) → Exec B
◌>>=◌ m f db = continue (m db).0 f (m db).1

abbrev pub ◌>>◌ : {A B : Type 0} → Exec A → Exec B → Exec B
m >> k = m >>= λ _. k

abbrev pub raise_if : Bool → Error → Exec (Unit {0})
raise_if c e db = (if c then err e else ok tt, db)

abbrev pub modify : (Db → Db) → Exec (Unit {0})
modify f db = (ok tt, f db)

-- `Result.scalar_one_or_none` of SQLAlchemy.
abbrev pub scalar_one_or_none : {A : Type 0} → List A → Result (Option A)
scalar_one_or_none [] = ok none
scalar_one_or_none (a ∷ []) = ok (some a)
scalar_one_or_none (a ∷ b ∷ rest) = err multiple_rows

-- `Result.scalars().first()`.
abbrev pub scalars_first : {A : Type 0} → List A → Option A
scalars_first [] = none
scalars_first (a ∷ rest) = some a

-- The default of an `id` column.
abbrev pub new_id : Exec ℕ
new_id db = (ok (db.uuid4 db.draws), record db { draws = suc db.draws })

pub Result-cases :
    {A : Type 0} (r : Result A) → ((a : A) × (r ≡ ok a)) ⊎ ((e : Error) × (r ≡ err e))
Result-cases (ok a) = inl (a, refl)
Result-cases (err e) = inr (e, refl)
