-- ===== src/Verification/Deliveries.antt =====
-- The deliveries about a session (app/verification/service.py) and their route
-- (app/verification/router.py).
use fund_lok.Prelude.{
  ◌/◌, String, text_eq, Bool, true, false, Option, none, some, List, [], ◌∷◌, ◌++◌, ◌==◌,
  if◌then◌else◌, select, update, any_of, append_text,
}
use fund_lok.Db.{Db, integrity, http, attribute_error, Result, ok, err, scalar_one_or_none}
use fund_lok.Verification.Json.{
  Json, null, object, Fields, Didit, get_field, text_value, session_of,
}
use fund_lok.Verification.Webhook.{Headers, payload_of, verify_webhook}
use fund_lok.Verification.Sessions.{Verification, VerificationWebhookEvent, Checks, set_status}

abbrev pub has_event : String → VerificationWebhookEvent → Bool
has_event event_id e = text_eq e.event_id event_id

abbrev pub add_event :
    Option String → String → List VerificationWebhookEvent → List VerificationWebhookEvent
add_event none session_id events = events
add_event (some event_id) session_id events =
    events ++ ((record { event_id = event_id; session_id = session_id }) ∷ [])

module _ {F : Type 0} where
  unfoldable pub already_processed : Option String → Checks F → Bool
  already_processed none s = false
  already_processed (some event_id) s = any_of (has_event event_id) s.events

  abbrev set_decision : Option (Json F) → Verification F → Verification F
  set_decision none v = v
  set_decision (some null) v = v
  set_decision (some d) v = record v { decision = some d }

  abbrev audited : Verification F → Db → Db
  audited v db = record db {
    audit_logs =
        db.audit_logs
        ++ ((record {
          entity_type = append_text v.verification_type "_VERIFICATION";
          entity_id = some v.id;
          action = "WEBHOOK";
          actor_id = none;
          ip_address = none;
        })
            ∷ []);
  }

  unfoldable pub find_verification :
      String → List (Verification F) → Result (Option (Verification F))
  find_verification session_id rows =
      scalar_one_or_none (select (λ (v : Verification F). text_eq v.session_id session_id) rows)

  -- The row of the session gets the status and the decision, and the call is committed with its
  -- event and its audit row. For an unknown session nothing is committed.
  abbrev pub applied :
      Option String
      → String
      → Option String
      → Option (Json F)
      → Option (Verification F)
      → Checks F
      → Checks F
  applied event_id session_id status decision none s = s
  applied event_id session_id status decision (some v) s = record s {
    db = audited v s.db;
    verifications =
        update (λ (w : Verification F). w.id == v.id)
          (λ w. set_decision decision (set_status status w)) s.verifications;
    events = add_event event_id session_id s.events;
  }

module _ {F : Type 0} (k : Didit F) where
  -- The rest of `handle_webhook` after the row of the session was looked for, with the commit of its
  -- route.
  unfoldable pub apply_to :
      Fields F
      → Option String
      → String
      → Option (Verification F)
      → Checks F
      → Result (Unit {0}) × Checks F
  apply_to payload event_id session_id none s = (ok tt, s)
  apply_to payload event_id session_id (some v) s =
      elim (text_value k (get_field "status" payload)) [
        | err e ↦ (err e, s)
        | ok status ↦
            (ok tt, applied event_id session_id status (get_field "decision" payload) (some v) s)
      ]

  -- The search writes the event first, whose id is the key of its table.
  unfoldable pub handle_session :
      Fields F → Option String → Option String → Checks F → Result (Unit {0}) × Checks F
  unfolding find_verification already_processed apply_to
  handle_session payload event_id none s = (ok tt, s)
  handle_session payload event_id (some session_id) s =
      if already_processed event_id s
      then (err integrity, s)
      else elim (find_verification session_id s.verifications) [
        | err e ↦ (err e, s)
        | ok found ↦ apply_to payload event_id session_id found s
      ]

  unfoldable pub handle_webhook : Fields F → Option String → Checks F → Result (Unit {0}) × Checks F
  unfolding handle_session
  handle_webhook payload event_id s = handle_session payload event_id (session_of k payload) s

  unfoldable pub handle_once : Fields F → Checks F → Result (Unit {0}) × Checks F
  unfolding already_processed handle_webhook
  handle_once payload s = elim (text_value k (get_field "event_id" payload)) [
    | err e ↦ (err e, s)
    | ok event_id ↦
        if already_processed event_id s then (ok tt, s) else handle_webhook payload event_id s
  ]

  abbrev handle_payload : Option (Json F) → Checks F → Result (Unit {0}) × Checks F
  unfolding handle_once
  handle_payload none s = (err (http 400 "Invalid JSON body"), s)
  handle_payload (some (object fields)) s = handle_once fields s
  handle_payload (some v) s = (err attribute_error, s)

  -- The route of the deliveries. The clock counts microseconds.
  unfoldable pub webhook : String → Headers → Checks F → Result (Unit {0}) × Checks F
  unfolding verify_webhook handle_payload
  webhook raw_body headers s = elim (verify_webhook k (s.db.clock / 1000000) raw_body headers) [
    | err e ↦ (err e, s)
    | ok false ↦ (err (http 401 "Invalid webhook signature"), s)
    | ok true ↦ handle_payload (payload_of k raw_body) s
  ]
