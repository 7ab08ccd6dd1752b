-- ===== src/Verification/Webhook.antt =====
-- The check of a delivery's signature (app/verification/service.py).
use fund_lok.Prelude.{
  ℕ, String, text_eq, ◌≡◌, refl, inl, inr, Bool, true, false, not, ◌&&◌, ◌||◌, Option, none, some,
  arith, if◌then◌else◌, truthy, append_text, ℤ, pos, ◌-ℤ◌, leb_ℤ, Bool-cases,
}
use fund_lok.Db.{attribute_error, Result, ok, err}
use fund_lok.Verification.Json.{Json, null, object, Fields, Didit, get_field, canonical_v2}

-- The headers that are read, whose names are compared in lower case; their values are ASCII, and the
-- bodies UTF-8.
pub record Headers : Type 0 where
  pub timestamp : Option String
  pub signature_v2 : Option String
  pub signature : Option String
  pub signature_simple : Option String

-- `hmac.compare_digest`, where there is a header
abbrev pub matches : Option String → String → Bool
matches none expected = false
matches (some s) expected = not (text_eq s "") && text_eq s expected

module _ {F : Type 0} (k : Didit F) where
  -- `settings.DIDIT_WEBHOOK_SECRET or settings.DIDIT_WEBHOOK_SECRET_KEY`, if it is not empty
  abbrev pub webhook_secret : Option String
  webhook_secret = if truthy k.webhook_secret then k.webhook_secret else k.webhook_secret_key

  abbrev near : ℕ → Option ℤ → Bool
  near now none = false
  near now (some t) = leb_ℤ (pos now -ℤ t) (pos 300) && leb_ℤ (t -ℤ pos now) (pos 300)

  -- At most _WEBHOOK_MAX_SKEW_SECONDS from now.
  abbrev pub is_fresh : ℕ → Option String → Bool
  is_fresh now none = false
  is_fresh now (some t) = near now (k.int_of t)

  -- `json.loads(raw_body or b"{}")`
  abbrev pub payload_of : String → Option (Json F)
  payload_of raw_body = k.loads (if text_eq raw_body "" then "{}" else raw_body)

  -- The body null is None to the code, like one that is not JSON.
  abbrev present : Option (Json F) → Option (Json F)
  present none = none
  present (some null) = none
  present (some v) = some v

  abbrev pub parsed : String → Option (Json F)
  parsed raw_body = present (payload_of raw_body)

  abbrev signed_v2 : String → Headers → Option (Json F) → Bool
  signed_v2 secret h none = false
  signed_v2 secret h (some payload) =
      matches h.signature_v2 (k.hmac secret (canonical_v2 k payload))

  abbrev envelope : Option String → Fields F → String
  envelope none fields = ""
  envelope (some t) fields = append_text t (
      append_text ":" (
        append_text (k.str (get_field "session_id" fields)) (
          append_text ":" (
            append_text (k.str (get_field "status" fields))
              (append_text ":" (k.str (get_field "webhook_type" fields)))))))

  -- A payload that is no object has no `get`.
  abbrev signed_simple : String → Headers → Option (Json F) → Result Bool
  signed_simple secret h none = ok false
  signed_simple secret h (some (object fields)) =
      ok (matches h.signature_simple (k.hmac secret (envelope h.timestamp fields)))
  signed_simple secret h (some v) =
      if truthy h.signature_simple then err attribute_error else ok false

  abbrev check_signatures : String → String → Headers → Result Bool
  check_signatures secret raw_body h =
      if signed_v2 secret h (parsed raw_body) || matches h.signature (k.hmac secret raw_body)
      then ok true
      else signed_simple secret h (parsed raw_body)

  abbrev check_secret : Option String → ℕ → String → Headers → Result Bool
  check_secret none now raw_body h = ok false
  check_secret (some secret) now raw_body h =
      if text_eq secret "" || not (is_fresh now h.timestamp)
      then ok false
      else check_signatures secret raw_body h

  unfoldable pub verify_webhook : ℕ → String → Headers → Result Bool
  unfolding canonical_v2
  verify_webhook now raw_body h = check_secret webhook_secret now raw_body h

  -- Without the envelope's signature only the others count.
  unsigned_simple :
      (secret : String) (h : Headers) (payload : Option (Json F))
      → h.signature_simple ≡ none
      → signed_simple secret h payload ≡ ok false
  unsigned_simple secret h none unsigned = refl
  unsigned_simple secret h (some (object fields)) unsigned = rw unsigned refl
  unsigned_simple secret h (some v) unsigned = rw unsigned refl

  check_signatures_ok :
      (secret raw_body : String) (h : Headers)
      → h.signature_simple ≡ none
      → check_signatures secret raw_body h ≡ ok true
      → (signed_v2 secret h (parsed raw_body) || matches h.signature (k.hmac secret raw_body))
        ≡ true
  check_signatures_ok secret raw_body h unsigned =
      elim (Bool-cases
        (signed_v2 secret h (parsed raw_body) || matches h.signature (k.hmac secret raw_body))) [
          | inl signed ↦ λ accepted. signed
          | inr other ↦
              rw (other, unsigned_simple secret h (parsed raw_body) unsigned)
                λ accepted. absurd (ground arith)
        ]

  signed_v2_resent :
      (secret t : String) (h : Headers) (payload : Option (Json F))
      → signed_v2 secret (record h { timestamp = some t }) payload ≡ signed_v2 secret h payload
  signed_v2_resent secret t h none = refl
  signed_v2_resent secret t h (some p) = refl

  check_secret_resent :
      (secret : Option String) (now later : ℕ) (raw_body t : String) (h : Headers)
      → h.signature_simple ≡ none
      → is_fresh later (some t) ≡ true
      → check_secret secret now raw_body h ≡ ok true
      → check_secret secret later raw_body (record h { timestamp = some t }) ≡ ok true
  check_secret_resent none now later raw_body t h unsigned fresh = λ accepted. absurd (ground arith)
  check_secret_resent (some secret) now later raw_body t h unsigned fresh =
      elim (Bool-cases (text_eq secret "" || not (is_fresh now h.timestamp))) [
        | inl refused ↦ rw refused λ accepted. absurd (ground arith)
        | inr asked ↦ rw asked λ accepted.
            let (given, _) = neither (text_eq secret "") _ asked in
            rw
              (
                given,
                fresh,
                signed_v2_resent secret t h (parsed raw_body),
                check_signatures_ok secret raw_body h unsigned accepted,
              )
              refl
      ]
    where
      neither : (a b : Bool) → (a || b) ≡ false → (a ≡ false) × (b ≡ false)
      neither a b h = ground arith

  -- A delivery that is accepted without the signature of its envelope is accepted at any other time
  -- too, with the same body and signatures and a timestamp of that time: neither signature covers
  -- the timestamp.
  pub verify_webhook_resent :
      (now later : ℕ) (raw_body t : String) (h : Headers)
      → h.signature_simple ≡ none
      → is_fresh later (some t) ≡ true
      → verify_webhook now raw_body h ≡ ok true
      → verify_webhook later raw_body (record h { timestamp = some t }) ≡ ok true
  unfolding verify_webhook
  verify_webhook_resent now later raw_body t h unsigned fresh =
      check_secret_resent webhook_secret now later raw_body t h unsigned fresh
