-- ===== src/Market/Listings.antt =====
-- The listing of a contract (app/market/service.py, app/lending/kyc.py).
use fund_lok.Prelude.{
  ℕ, String, text_eq, Bool, true, false, not, ◌&&◌, Option, none, some, List, [], ◌∷◌, ◌++◌, ◌==◌,
  opt_eq, select, ℤ, pos, leb_ℤ,
}
use fund_lok.Db.{
  Db, Document, LoanApplication, Contract, Listing, http, Result, ok, err, Exec, pure, lift, gets,
  require, ◌>>=◌, ◌>>◌, raise_if, modify, scalar_one_or_none, new_id,
}

-- `project_has_verified_kyc` of app/lending/kyc.py
abbrev pub kyc_purposes : List String
kyc_purposes = "KYC_ID" ∷ "KYC_ADDRESS" ∷ "KYC_BUSINESS_REG" ∷ []

unfoldable pub approved_documents : Db → ℕ → String → List Document
approved_documents db project_id purpose =
    select
      (λ (d : Document).
        text_eq d.entity_type "PROJECT"
        && (d.entity_id == project_id
            && (text_eq d.purpose purpose && text_eq d.status "APPROVED")))
      db.documents

unfoldable pub has_purposes : Db → ℕ → List String → Result Bool
unfolding approved_documents
has_purposes db project_id [] = ok true
has_purposes db project_id (purpose ∷ purposes) =
    let rest = has_purposes db project_id purposes in
    elim (scalar_one_or_none (approved_documents db project_id purpose)) [
      | err e ↦ err e
      | ok none ↦ ok false
      | ok (some d) ↦ rest
    ]

unfoldable pub project_has_verified_kyc : ℕ → Exec Bool
unfolding has_purposes
project_has_verified_kyc project_id db = (has_purposes db project_id kyc_purposes, db)

abbrev pub is_some : {A : Type 0} → Option A → Bool
is_some none = false
is_some (some a) = true

unfoldable pub add_listing : Listing → Exec (Unit {0})
add_listing lst = modify (λ db. record db { listings = db.listings ++ lst ∷ [] })

unfoldable pub create_listing : ℕ → ℤ → ℤ → Exec Listing
unfolding add_listing
create_listing contract_id target_amount min_ticket = do
  found ←
      λ db. (scalar_one_or_none (select (λ (c : Contract). c.id == contract_id) db.contracts), db)
  c ← lift (require found (http 404 "Contract not found"))
  raise_if (not (text_eq c.status "ACTIVE_PENDING_FUNDING"))
      (http 400 "Contract must be ACTIVE_PENDING_FUNDING to list")
  app ← λ db. (
    scalar_one_or_none (
        select (λ (a : LoanApplication). opt_eq (some a.id) c.application_id) db.loan_applications),
    db,
  )
  application ← lift (require app (http 400 "Contract has no application"))
  verified ← project_has_verified_kyc application.project_id
  raise_if (not verified) (http 400 "Project must have all KYC documents APPROVED before listing")
  existing ← λ db.
      (scalar_one_or_none (select (λ (l : Listing). l.contract_id == contract_id) db.listings), db)
  raise_if (is_some existing) (http 400 "Listing already exists for this contract")
  raise_if (leb_ℤ min_ticket (pos 0)) (http 400 "min_ticket must be positive")
  opened ← gets (λ db. db.clock)
  id ← new_id
  let lst : Listing = record {
    id = id;
    contract_id = contract_id;
    target_amount = target_amount;
    min_ticket = some min_ticket;
    status = "OPEN";
    funded_amount = pos 0;
    open_at = some opened;
    close_at = none;
  }
  add_listing lst
  pure lst
