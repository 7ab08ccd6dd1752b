-- ===== src/Verification/Sessions.antt =====
-- The sessions of an identity check (app/verification/service.py) and their table
-- (app/verification/models.py).
use fund_lok.Prelude.{
  ℕ, suc, String, text_eq, Bool, ◌&&◌, ◌||◌, Option, none, some, List, [], ◌∷◌, ◌++◌, ◌==◌,
  if◌then◌else◌, select, update, any_of,
}
use fund_lok.Db.{Db, integrity, Result, ok, err}
use fund_lok.Verification.Json.{Json, Didit, get_field, fields_of, text_value}

pub record Verification (F : Type 0) : Type 0 where
  pub id : ℕ
  pub user_id : ℕ
  pub verification_type : String
  pub session_id : String
  pub verification_url : String
  pub status : String
  pub decision : Option (Json F)

pub record VerificationWebhookEvent : Type 0 where
  pub event_id : String
  pub session_id : String

pub record Checks (F : Type 0) : Type 0 where
  pub db : Db
  pub verifications : List (Verification F)
  pub events : List VerificationWebhookEvent

module _ {F : Type 0} where
  abbrev pub set_status : Option String → Verification F → Verification F
  set_status none v = v
  set_status (some status) v = record v { status = status }

-- `data.get("status") or status`
abbrev status_or : Option String → String → String
status_or none status = status
status_or (some t) status = if text_eq t "" then status else t

abbrev pub is_terminal : String → Bool
is_terminal status =
    text_eq status "Approved"
    || text_eq status "Declined"
    || text_eq status "Expired"
    || text_eq status "Abandoned"
    || text_eq status "Kyc Expired"

module _ {F : Type 0} where
  abbrev last_of : List (Verification F) → Option (Verification F)
  last_of [] = none
  last_of (v ∷ []) = some v
  last_of (v ∷ w ∷ rest) = last_of (w ∷ rest)

  -- `_latest_for_user`; rows stand in the order of their creation
  unfoldable pub latest_for_user : ℕ → String → List (Verification F) → Option (Verification F)
  latest_for_user user_id verification_type rows = last_of (
      select
        (λ (v : Verification F).
          v.user_id == user_id && text_eq v.verification_type verification_type)
        rows)

module _ {F : Type 0} (k : Didit F) where
  abbrev session_row : ℕ → ℕ → String → String × String × Option String → Verification F
  session_row id user_id verification_type (session_id, url, status) = record {
    id = id;
    user_id = user_id;
    verification_type = verification_type;
    session_id = session_id;
    verification_url = url;
    status = status_or status "Not Started";
    decision = none;
  }

  -- `session_id` is unique.
  unfoldable pub create_verification : ℕ → String → Checks F → Result (Verification F) × Checks F
  create_verification user_id verification_type s =
      elim (k.create_session verification_type user_id) [
        | err e ↦ (err e, s)
        | ok session ↦
            let row = session_row (s.db.uuid4 s.db.draws) user_id verification_type session in
            let drawn = record s { db = record s.db { draws = suc s.db.draws } } in
            if any_of (λ (v : Verification F). text_eq v.session_id row.session_id) s.verifications
            then (err integrity, drawn)
            else (ok row, record drawn { verifications = s.verifications ++ (row ∷ []) })
      ]

  abbrev or_create :
      ℕ → String → Option (Verification F) → Checks F → Result (Verification F) × Checks F
  or_create user_id verification_type none s = create_verification user_id verification_type s
  or_create user_id verification_type (some v) s =
      if is_terminal v.status then create_verification user_id verification_type s else (ok v, s)

  -- The callback, the language and the contact of the session are left out.
  unfoldable pub start_verification : ℕ → String → Checks F → Result (Verification F) × Checks F
  unfolding latest_for_user create_verification
  start_verification user_id verification_type s =
      or_create user_id verification_type
        (latest_for_user user_id verification_type s.verifications) s

  unfoldable pub sync_verification : Verification F → Checks F → Result (Unit {0}) × Checks F
  sync_verification v s = elim (k.retrieve_decision v.session_id) [
    | err e ↦ (err e, s)
    | ok data_value ↦ elim (text_value k (get_field "status" (fields_of data_value))) [
      | err e ↦ (err e, s)
      | ok status ↦ (
        ok tt,
        record s {
          verifications =
              update (λ (w : Verification F). w.id == v.id)
                (λ w. record (set_status status w) { decision = some data_value }) s.verifications;
        },
      )
    ]
  ]
