-- ===== src/Cdc/Values.antt =====
-- `_json_safe` of backend/app/routes/streaming.py: what a decoded Avro value becomes in a response.
-- A text is the list of its code points, a float its 64 bits.
use open_htap_stack.Prelude.{
  ℕ, ◌+◌, ◌-◌, ◌*◌, ◌/◌, ◌%◌, String, Bool, List, [], ◌∷◌, ltb, ◌==◌, if◌then◌else◌,
}
use open_htap_stack.Prelude.Int.{ℤ}

-- What JSON holds as it is.
pub data Scalar : Type 0 where
  text : List ℕ → Scalar
  whole : ℤ → Scalar
  real : ℕ → Scalar
  truth : Bool → Scalar
  missing : Scalar

-- A decoded value. `moment` is a datetime or a date, by its ISO format; `named` a Decimal or a UUID, by
-- its text; `other` anything else, by its `str`.
mutual
  pub data Value : Type 0 where
    scalar : Scalar → Value
    bytes : List ℕ → Value
    moment : List ℕ → Value
    named : List ℕ → Value
    dict : Fields → Value
    sequence : Values → Value
    other : List ℕ → Value

  pub data Values : Type 0 where
    no_values : Values
    value_then : Value → Values → Values

  pub data Fields : Type 0 where
    no_fields : Fields
    field_then : String → Value → Fields → Fields

mutual
  pub data Json : Type 0 where
    atom : Scalar → Json
    array : Elements → Json
    object : Members → Json

  pub data Elements : Type 0 where
    no_elements : Elements
    element_then : Json → Elements → Elements

  pub data Members : Type 0 where
    no_members : Members
    member_then : String → Json → Members → Members

-- The base64 alphabet: A-Z, a-z, 0-9, + and /.
unfoldable pub base64_char : ℕ → ℕ
base64_char n =
    if ltb n 26
    then 65 + n
    else if ltb n 52
    then 97 + (n - 26)
    else if ltb n 62
    then 48 + (n - 52)
    else if n == 62
    then 43
    else 47

-- `base64.b64encode(value).decode("ascii")`: four characters for three bytes, padded by `=`.
unfoldable pub b64encode : List ℕ → List ℕ
unfolding base64_char
b64encode [] = []
b64encode (a ∷ []) = base64_char (a / 4) ∷ base64_char (a % 4 * 16) ∷ 61 ∷ 61 ∷ []
b64encode (a ∷ b ∷ []) =
    base64_char (a / 4) ∷ base64_char (a % 4 * 16 + b / 16) ∷ base64_char (b % 16 * 4) ∷ 61 ∷ []
b64encode (a ∷ b ∷ c ∷ rest) =
    base64_char (a / 4)
    ∷ base64_char (a % 4 * 16 + b / 16)
    ∷ base64_char (b % 16 * 4 + c / 64)
    ∷ base64_char (c % 64)
    ∷ b64encode rest

unfoldable mutual
  unfolding b64encode

  pub json_safe : Value → Json
  json_safe (scalar s) = atom s
  json_safe (bytes b) = object (member_then "base64" (atom (text (b64encode b))) no_members)
  json_safe (moment iso) = atom (text iso)
  json_safe (named str) = atom (text str)
  json_safe (dict fields) = object (safe_fields fields)
  json_safe (sequence values) = array (safe_values values)
  json_safe (other str) = atom (text str)

  pub safe_values : Values → Elements
  safe_values no_values = no_elements
  safe_values (value_then v vs) = element_then (json_safe v) (safe_values vs)

  pub safe_fields : Fields → Members
  safe_fields no_fields = no_members
  safe_fields (field_then name v fs) = member_then name (json_safe v) (safe_fields fs)
