-- ===== src/Verification/Once.antt =====
-- A delivery that is sent again (app/verification/service.py).
use fund_lok.Prelude.{
  String, text_eq, ◌≡◌, refl, ◌∙◌, inl, inr, Bool, true, false, ◌||◌, Option, none, some, List, [],
  ◌∷◌, any_of, any_of-more, Bool-cases, Option-cases, any_of-append,
}
use fund_lok.Db.{ok, Result-cases}
use fund_lok.Verification.Json.{Fields, Didit, get_field, text_value, session_of}
use fund_lok.Verification.Sessions.{Verification, Checks}
use fund_lok.Verification.Deliveries.{
  has_event, add_event, already_processed, find_verification, apply_to, handle_session,
  handle_webhook, handle_once,
}
use text.Mathlib.TextPositions.{eq_refl}

module _ {F : Type 0} (k : Didit F) where
  -- Deliveries that were accepted, one after the other.
  unfoldable pub deliver : List (Fields F) → Checks F → Checks F
  deliver [] s = s
  deliver (payload ∷ later) s = deliver later (handle_once k payload s).1

  abbrev Seen : String → Checks F → Type 0
  Seen e s = any_of (has_event e) s.events ≡ true

  apply_to-Seen :
      (e : String) (payload : Fields F) (event_id : Option String) (session_id : String)
      (found : Option (Verification F)) (s : Checks F)
      → Seen e s
      → Seen e (apply_to k payload event_id session_id found s).1
  unfolding apply_to
  apply_to-Seen e payload event_id session_id none s seen = seen
  apply_to-Seen e payload event_id session_id (some v) s seen =
      elim (Result-cases (text_value k (get_field "status" payload))) [
        | inr (x, failed) ↦ rw (failed, apply_to) seen
        | inl (status, stated) ↦ rw (stated, apply_to) (grown event_id)
      ]
    where
      grown : (id : Option String) → Seen e (record s { events = add_event id session_id s.events })
      grown none = seen
      grown (some id) = any_of-more (has_event e) s.events _ seen

  handle_webhook-Seen :
      (e : String) (payload : Fields F) (event_id : Option String) (s : Checks F)
      → Seen e s
      → Seen e (handle_webhook k payload event_id s).1
  unfolding handle_webhook handle_session
  handle_webhook-Seen e payload event_id s seen = elim (Option-cases (session_of k payload)) [
    | inl missing ↦ rw (missing, handle_webhook) seen
    | inr (session_id, given) ↦ elim (Bool-cases (already_processed event_id s)) [
      | inl old ↦ rw (given, old, handle_webhook) seen
      | inr new ↦ elim (Result-cases (find_verification session_id s.verifications)) [
        | inr (x, failed) ↦ rw (given, new, failed, handle_webhook) seen
        | inl (found, row) ↦
            rw (given, new, row, handle_webhook)
              (apply_to-Seen e payload event_id session_id found s seen)
      ]
    ]
  ]

  handle_once-Seen :
      (e : String) (payload : Fields F) (s : Checks F)
      → Seen e s
      → Seen e (handle_once k payload s).1
  unfolding handle_once
  handle_once-Seen e payload s seen =
      elim (Result-cases (text_value k (get_field "event_id" payload))) [
        | inr (x, failed) ↦ rw (failed, handle_once) seen
        | inl (event_id, given) ↦ elim (Bool-cases (already_processed event_id s)) [
          | inl old ↦ rw (given, old, handle_once) seen
          | inr new ↦ rw (given, new, handle_once) (handle_webhook-Seen e payload event_id s seen)
        ]
      ]

  deliver-Seen :
      (e : String) (later : List (Fields F)) (s : Checks F) → Seen e s → Seen e (deliver later s)
  unfolding deliver
  deliver-Seen e [] s seen = seen
  deliver-Seen e (payload ∷ later) s seen =
      deliver-Seen e later (handle_once k payload s).1 (handle_once-Seen e payload s seen)

  -- The first delivery of a known session records its event.
  first-Seen :
      (e session_id : String) (payload : Fields F) (status : Option String) (v : Verification F)
      (s : Checks F)
      → text_value k (get_field "event_id" payload) ≡ ok (some e)
      → session_of k payload ≡ some session_id
      → text_value k (get_field "status" payload) ≡ ok status
      → find_verification session_id s.verifications ≡ ok (some v)
      → Seen e (handle_once k payload s).1
  unfolding handle_once already_processed handle_webhook handle_session apply_to
  first-Seen e session_id payload status v s event given stated found =
      elim (Bool-cases (any_of (has_event e) s.events)) [
        | inl old ↦ rw (event, old, handle_once) old
        | inr new ↦
            rw (event, new, handle_once)
              (rw (given, new, found, stated, handle_webhook, apply_to)
                (any_of-append (has_event e) s.events _
                  ∙ last-Seen (any_of (has_event e) s.events)))
      ]
    where
      last-Seen : (b : Bool) → (b || (text_eq e e || false)) ≡ true
      last-Seen true = refl
      last-Seen false = rw (eq_refl e) refl

-- A delivery about a known session takes effect once: when a delivery with its event id is accepted
-- again, whatever its payload says otherwise and whatever deliveries came in between, it succeeds
-- and changes nothing.
pub handle_once_again :
    {F : Type 0} (k : Didit F) (e session_id : String) (first again : Fields F)
    (status : Option String) (v : Verification F) (later : List (Fields F)) (s : Checks F)
    → text_value k (get_field "event_id" first) ≡ ok (some e)
    → text_value k (get_field "event_id" again) ≡ ok (some e)
    → session_of k first ≡ some session_id
    → text_value k (get_field "status" first) ≡ ok status
    → find_verification session_id s.verifications ≡ ok (some v)
    → handle_once k again (deliver k later (handle_once k first s).1)
      ≡ (ok tt, deliver k later (handle_once k first s).1)
unfolding handle_once already_processed
handle_once_again k e session_id first again status v later s event same given stated found =
    let seen =
      deliver-Seen k e later (handle_once k first s).1
        (first-Seen k e session_id first status v s event given stated found) in
    rw (same, seen, handle_once) refl
