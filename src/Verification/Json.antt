-- ===== src/Verification/Json.antt =====
-- JSON values with floats of a type `F`, and what app/verification/service.py takes from outside.
use fund_lok.Prelude.{
  ℕ, String, text_eq, Bool, true, false, not, Option, none, some, if◌then◌else◌, ℤ, pos, eq_ℤ,
}
use fund_lok.Db.{Result, ok, err, type_error}

mutual
  pub data Json (F : Type 0) : Type 0 where
    null : Json F
    boolean : Bool → Json F
    integer : ℤ → Json F
    number : F → Json F
    string : String → Json F
    array : Items F → Json F
    object : Fields F → Json F

  pub data Items (F : Type 0) : Type 0 where
    nil : Items F
    cons : Json F → Items F → Items F

  pub data Fields (F : Type 0) : Type 0 where
    end : Fields F
    field : String → Json F → Fields F → Fields F

-- `json.loads` with none for a JSONDecodeError, `json.dumps` with sorted keys and no spaces, the
-- text of a value or of None, `float.is_integer` with the integer, HMAC-SHA256 in hexadecimal of a
-- text under a secret, and `int` of a text. The client of Didit is there too: a new session of a
-- type for a user, and the decision of a session. A session has its id, its URL and maybe a status.
pub record Didit (F : Type 0) : Type 0 where
  pub loads : String → Option (Json F)
  pub dumps : Json F → String
  pub str : Option (Json F) → String
  pub whole : F → Option ℤ
  pub hmac : String → String → String
  pub int_of : String → Option ℤ
  pub webhook_secret : Option String
  pub webhook_secret_key : Option String
  pub create_session : String → ℕ → Result (String × String × Option String)
  pub retrieve_decision : String → Result (Json F)

-- `payload.get(key)`
abbrev pub get_field : {F : Type 0} → String → Fields F → Option (Json F)
get_field key end = none
get_field key (field k v rest) = if text_eq k key then some v else get_field key rest

module _ {F : Type 0} (k : Didit F) where
  abbrev shortened : F → Option ℤ → Json F
  shortened x none = number x
  shortened x (some i) = integer i

  -- `_shorten_floats`
  unfoldable mutual
    pub shorten_floats : Json F → Json F
    shorten_floats null = null
    shorten_floats (boolean b) = boolean b
    shorten_floats (integer i) = integer i
    shorten_floats (number x) = shortened x (k.whole x)
    shorten_floats (string t) = string t
    shorten_floats (array items) = array (shorten_items items)
    shorten_floats (object fields) = object (shorten_fields fields)

    pub shorten_items : Items F → Items F
    shorten_items nil = nil
    shorten_items (cons v items) = cons (shorten_floats v) (shorten_items items)

    pub shorten_fields : Fields F → Fields F
    shorten_fields end = end
    shorten_fields (field key v fields) = field key (shorten_floats v) (shorten_fields fields)

  unfoldable pub canonical_v2 : Json F → String
  unfolding shorten_floats
  canonical_v2 parsed = k.dumps (shorten_floats parsed)

-- The values that are false as a condition.
abbrev pub is_falsy : {F : Type 0} → Didit F → Json F → Bool
is_falsy k null = true
is_falsy k (boolean b) = not b
is_falsy k (integer i) = eq_ℤ i (pos 0)
is_falsy k (number x) = is_zero (k.whole x)
  where
    is_zero : Option ℤ → Bool
    is_zero none = false
    is_zero (some i) = eq_ℤ i (pos 0)
is_falsy k (string t) = text_eq t ""
is_falsy k (array nil) = true
is_falsy k (array (cons v items)) = false
is_falsy k (object end) = true
is_falsy k (object (field key v fields)) = false

-- The fields of an object; the client answers with one.
abbrev pub fields_of : {F : Type 0} → Json F → Fields F
fields_of (object fields) = fields
fields_of v = end

-- A value of the payload that a text column gets; none where it is falsy.
abbrev text_of : {F : Type 0} → Json F → Result (Option String)
text_of (string t) = ok (some t)
text_of v = err type_error

abbrev pub text_value : {F : Type 0} → Didit F → Option (Json F) → Result (Option String)
text_value k none = ok none
text_value k (some v) = if is_falsy k v then ok none else text_of v

-- `str(v)` of a value that is not falsy
abbrev written : {F : Type 0} → Didit F → Option (Json F) → Option String
written k none = none
written k (some v) = if is_falsy k v then none else some (k.str (some v))

abbrev pub session_of : {F : Type 0} → Didit F → Fields F → Option String
session_of k payload = written k (get_field "session_id" payload)
