-- ===== src/Verification/Tests.antt =====
-- A sample delivery (app/verification/), and the theorems applied to it.
use fund_lok.Prelude.{
  ℕ, zero, suc, ◌+◌, ◌-◌, ◌*◌, ◌/◌, ◌%◌, ◌^◌, ◌≤◌, ◌<◌, String, text_eq, ◌≡◌, refl, sym, ap, ◌∙◌,
  subst, ◌≢◌, ◌↔◌, ◌⊎◌, inl, inr, Bool, true, false, not, ◌&&◌, ◌||◌, Option, none, some, List, [],
  ◌∷◌, ◌++◌, arith, ltb, leb, ◌==◌, if◌then◌else◌, opt_eq, truthy, length, select, find_first,
  update, any_of, any_of-more, any_of-update, all_of, All, All-map, All-append, strip, remove_char,
  rstrip_char, take_text, all_chars, text_length, char_at, search_text, after_prefix, contains,
  take_while, append_text, map_text, sum_by, sorted, uuid_text, uuid_text_not_empty, ℤ, pos, negsuc,
  ◌+ℤ◌, ◌-ℤ◌, ◌≤ℤ◌, ltb_ℤ, leb_ℤ, eq_ℤ, int_laws, Bool-cases, Option-cases, ==_self,
}
use fund_lok.Db.{empty_db, ok}
use fund_lok.Verification.Json.{string, object, Fields, end, field, Didit}
use fund_lok.Verification.Webhook.{Headers, verify_webhook, verify_webhook_resent}
use fund_lok.Verification.Sessions.{Verification, Checks, start_verification}
use fund_lok.Verification.Once.{deliver, handle_once_again}
use fund_lok.Verification.Deliveries.{find_verification, handle_once, webhook}

-- A mark that is the secret before the text, and bodies that are all one event.
abbrev sample : Didit ℕ
sample = record {
  loads = λ t. some (object approval);
  dumps = λ v. "{}";
  str = λ v. "s1";
  whole = λ n. some (pos n);
  hmac = λ secret t. append_text secret t;
  int_of = λ t. if text_eq t "1000" then some (pos 1000) else some (pos 9000);
  webhook_secret = none;
  webhook_secret_key = some "key:";
  create_session = λ type user. ok ("s1", "url", none);
  retrieve_decision = λ session. ok (object end);
}
  where
    approval : Fields ℕ
    approval =
        field "session_id" (string "s1")
          (field "status" (string "Approved") (field "event_id" (string "e1") end))

abbrev approved_event : Fields ℕ
approved_event =
    field "session_id" (string "s1")
      (field "status" (string "Approved") (field "event_id" (string "e1") end))

abbrev declined_event : Fields ℕ
declined_event =
    field "session_id" (string "s1")
      (field "status" (string "Declined") (field "event_id" (string "e2") end))

abbrev pending : Verification ℕ
pending = record {
  id = 7;
  user_id = 1;
  verification_type = "KYC";
  session_id = "s1";
  verification_url = "url";
  status = "Not Started";
  decision = none;
}

abbrev checks : Checks ℕ
checks = record {
  db = record empty_db { clock = 1000000000 };
  verifications = pending ∷ [];
  events = [];
}

abbrev signed : Headers
signed = record {
  timestamp = some "1000";
  signature_v2 = none;
  signature = some "key:body";
  signature_simple = none;
}

verify_webhook_resent_example :
    verify_webhook sample 9000 "body" (record signed { timestamp = some "9000" }) ≡ ok true
unfolding verify_webhook fund_lok.Prelude.Int.◌-ℤ◌
verify_webhook_resent_example =
    verify_webhook_resent sample 1000 9000 "body" "9000" signed refl refl refl

-- At that time the delivery itself is too old.
too_old : verify_webhook sample 9000 "body" signed ≡ ok false
unfolding verify_webhook fund_lok.Prelude.Int.◌-ℤ◌
too_old = refl

handle_once_again_example :
    handle_once sample
      (field "status" (string "Declined") approved_event)
      (deliver sample (declined_event ∷ []) (handle_once sample approved_event checks).1)
    ≡ (ok tt, deliver sample (declined_event ∷ []) (handle_once sample approved_event checks).1)
unfolding find_verification
handle_once_again_example =
    handle_once_again sample "e1" "s1" approved_event
      (field "status" (string "Declined") approved_event) (some "Approved") pending
      (declined_event ∷ []) checks refl refl refl refl refl

-- The delivery through its route leaves the status and an audit row.
delivered :
    (webhook sample "body" signed checks).1.verifications
    ≡ record pending { status = "Approved" } ∷ []
unfolding webhook fund_lok.Prelude.Int.◌-ℤ◌
delivered = refl

-- A second start before the end of the first returns the same session.
restarted : start_verification sample 1 "KYC" checks ≡ (ok pending, checks)
unfolding start_verification
restarted = refl
