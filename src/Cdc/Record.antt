-- ===== src/Cdc/Record.antt =====
-- `CdcTail._decode` of backend/app/routes/streaming.py, and the records that it makes. What the
-- schema registry and the Avro reader answer are parameters.
use Prim.Native.Char.{code}
use open_htap_stack.Prelude.{
  ℕ, ◌+◌, ◌*◌, String, Bool, true, false, ◌&&◌, not, ◌||◌, Option, none, some, List, [], ◌∷◌, ltb,
  contains, ◌==◌, ◌=s=◌, if◌then◌else◌, length,
}
use open_htap_stack.Prelude.Int.{ℤ}
use open_htap_stack.Cdc.Values.{
  Fields, no_fields, field_then, Members, no_members, member_then, json_safe, safe_fields,
}

-- A message of the topic. The key is its text; a missing key or value is `none`.
pub record Message : Type 0 where
  pub partition : ℕ
  pub offset : ℕ
  pub key : Option String
  pub value : Option (List ℕ)
  pub timestamp : Option ℕ

-- A field that the code computes with: missing or null, of the type that it needs, or of another, which
-- raises there.
pub data Typed {ℓ} (A : Type ℓ) : Type ℓ where
  absent : Typed A
  typed : A → Typed A
  mistyped : Typed A

-- `x or d`
abbrev pub typed_or {ℓ} : {A : Type ℓ} → Typed A → A → A
typed_or absent d = d
typed_or (typed x) d = x
typed_or mistyped d = d

abbrev pub is_fitting {ℓ} : {A : Type ℓ} → Typed A → Bool
is_fitting absent = true
is_fitting (typed x) = true
is_fitting mistyped = false

-- A decoded record: the envelope's fields that are read, `payload` where it is a dictionary, and all
-- fields with their names.
pub record Envelope : Type 0 where
  pub operation_type : Option String
  pub source_keyspace : Option String
  pub source_table : Option String
  pub is_partial : Option Bool
  pub timestamp_micros : Typed ℕ
  pub update_fields : Typed (List String)
  pub payload : Option Fields
  pub items : Fields

-- `micros // 1000` and the loop over `updateFields` raise nothing.
unfoldable pub envelope_fits : Envelope → Bool
envelope_fits e = is_fitting e.timestamp_micros && is_fitting e.update_fields

-- What `fastavro.schemaless_reader` does: it raises, or gives a record, or a value that is none.
pub data Read : Type 0 where
  unreadable : String → Read
  decoded : Envelope → Read
  no_record : Read

pub record Avro : Type 1 where
  pub Schema : Type 0
  pub schemaless_reader : Schema → List ℕ → Read

-- The errors that a record carries.
pub data DecodeError : Type 0 where
  not_framed : ℕ → Option ℕ → DecodeError
  no_schema : String → DecodeError
  avro_error : String → DecodeError

pub record CdcRecord : Type 0 where
  pub seq : ℕ
  pub partition : ℕ
  pub offset : ℕ
  pub key : String
  pub keyspace : String
  pub table : String
  pub operation : String
  pub mutation_at_ms : ℕ
  pub kafka_at_ms : ℕ
  -- in microseconds, not rounded
  pub age : Option ℤ
  pub backfill : Bool
  pub partial : Bool
  pub columns : Members
  pub update_fields : List String
  pub schema_id : Option ℕ
  pub decode_error : Option DecodeError

-- `x or ""`, and so on.
abbrev pub or_else {ℓ} : {A : Type ℓ} → Option A → A → A
or_else none d = d
or_else (some x) d = x

-- `str(x or d)`: an empty text counts as missing.
unfoldable pub text_or : Option String → String → String
text_or none d = d
text_or (some s) d = if s =s= "" then d else s

-- A text up to its first colon, and what stands behind that.
unfoldable pub cut_at_colon : String → String × Option String
cut_at_colon String.[] = ("", none)
cut_at_colon (String.◌∷◌ c s) =
    let (head, rest) = cut_at_colon s in
    if code c == b':' then ("", some s) else (String.◌∷◌ c head, rest)

-- The first two of the parts, where there are two.
unfoldable pub two_parts : String → Option String → String × String
unfolding cut_at_colon
two_parts head none = ("", "")
two_parts head (some rest) = (head, (cut_at_colon rest).0)

-- `parts = record.key.split(":")`, as far as it is used.
unfoldable pub key_parts : String → String × String
unfolding two_parts cut_at_colon
key_parts key = let (head, rest) = cut_at_colon key in two_parts head rest

abbrev pub envelope_fields : List String
envelope_fields =
    "timestampMicros" ∷ "sourceTable" ∷ "sourceKeyspace" ∷ "truncatedFields" ∷ "version"
    ∷ "operationType" ∷ "isPartial" ∷ "updateFields" ∷ "range" ∷ "ttl" ∷ "payload" ∷ []

unfoldable pub unlisted : Fields → Members
unfolding contains json_safe
unlisted no_fields = no_members
unlisted (field_then name v fs) =
    if contains name envelope_fields
    then unlisted fs
    else member_then name (json_safe v) (unlisted fs)

-- `record.columns`
unfoldable pub columns_of : Envelope → Members
unfolding unlisted json_safe
columns_of e = elim e.payload [ some fields ↦ safe_fields fields | none ↦ unlisted e.items ]

-- `int.from_bytes(payload[1:_HEADER_BYTES], "big")`, where there are five bytes.
unfoldable pub schema_id_of : List ℕ → ℕ
schema_id_of (magic ∷ a ∷ b ∷ c ∷ d ∷ rest) = ((a * 256 + b) * 256 + c) * 256 + d
schema_id_of _ = 0

abbrev pub first_byte : List ℕ → Option ℕ
first_byte [] = none
first_byte (b ∷ bs) = some b

-- The frame's test passes: five bytes or more, the first of them 0.
unfoldable pub is_framed : List ℕ → Bool
is_framed [] = false
is_framed (magic ∷ rest) = not (ltb (length (magic ∷ rest)) 5 || not (magic == 0))
