-- ===== src/Store/Event.antt =====
-- `Event`, `makeEvent`, `parseStreamEvent` and `streamString` of store/redis.go. The revision of an
-- event is a natural number: a negative one, which no script prints, is read as 0, and like 0 it is
-- refused by `emit` and `ingest` and lies before the start of every watch.
pub mod Agree
use retcd.Prelude.{
  ℕ, zero, suc, ◌≡◌, Bool, true, false, ◌&&◌, List, [], ◌∷◌, Option, none, some, ltb, leb, ◌==◌,
  if◌then◌else◌, ℤ, pos, pos_part, length, take, ◌>>=?◌,
}
use retcd.Bytes.{Bytes, str_eq}
use retcd.Decimal.{parse_int}
use retcd.Store.Blob.{KeyValue, decode_kv}

pub record Event : Type 0 where
  pub kind : Bytes
  pub key : Bytes
  pub rev : ℕ
  pub kv : Option KeyValue
  pub prev_kv : Option KeyValue
  pub created_ms : ℤ
  pub id : Bytes

-- "PUT" and "DELETE"
abbrev pub put_op : Bytes
put_op = b'P' ∷ b'U' ∷ b'T' ∷ []

abbrev pub delete_op : Bytes
delete_op = b'D' ∷ b'E' ∷ b'L' ∷ b'E' ∷ b'T' ∷ b'E' ∷ []

-- The names of a stream entry's fields: "type", "key", "rev", "data", "prev_data".
abbrev pub type_field : Bytes
type_field = b't' ∷ b'y' ∷ b'p' ∷ b'e' ∷ []

abbrev pub key_field : Bytes
key_field = b'k' ∷ b'e' ∷ b'y' ∷ []

abbrev pub rev_field : Bytes
rev_field = b'r' ∷ b'e' ∷ b'v' ∷ []

abbrev pub data_field : Bytes
data_field = b'd' ∷ b'a' ∷ b't' ∷ b'a' ∷ []

abbrev pub prev_data_field : Bytes
prev_data_field = b'p' ∷ b'r' ∷ b'e' ∷ b'v' ∷ b'_' ∷ data_field

abbrev pub Fields : Type 0
Fields = List (Bytes × Bytes)

-- A message of the stream: its ID and its fields.
pub record XMessage : Type 0 where
  pub id : Bytes
  pub values : Fields

unfoldable pub field : Bytes → Fields → Option Bytes
field name [] = none
field name ((n, v) ∷ rest) = let later = field name rest in if str_eq n name then some v else later

-- `streamString`: values of the stream are strings, and a missing one reads as "".
abbrev pub stream_string : Option Bytes → Bytes
stream_string none = []
stream_string (some s) = s

-- strings.IndexByte(s, c)
unfoldable pub index_byte : Bytes → ℕ → Option ℕ
index_byte [] c = none
index_byte (x ∷ s) c =
    let later = index_byte s c >>=? λ i. some (suc i) in if x == c then some zero else later

abbrev or_zero : Option ℤ → ℤ
or_zero none = pos 0
or_zero (some n) = n

-- The milliseconds before the dash of a stream ID; 0 where there is no such prefix.
unfoldable pub created_ms_of : Bytes → ℤ
created_ms_of sid = elim (index_byte sid b'-') [
  | none ↦ pos 0
  | some dash ↦ if ltb 0 dash then or_zero (parse_int (take dash sid)) else pos 0
]

unfoldable pub make_event : Bytes → Bytes → ℕ → Bytes → Bytes → Bytes → Event
make_event typ key rev new_blob prev_blob sid = record {
  kind = typ;
  key = key;
  rev = rev;
  id = sid;
  created_ms = created_ms_of sid;
  kv = if str_eq typ put_op && leb 32 (length new_blob) then decode_kv key new_blob else none;
  prev_kv = if leb 32 (length prev_blob) then decode_kv key prev_blob else none;
}

-- `decodeKV` of an optional field
abbrev decode_field : Bytes → Option Bytes → Option KeyValue
decode_field key none = none
decode_field key (some blob) = decode_kv key blob

abbrev decode_prev_field : Bytes → Option Bytes → Option KeyValue
decode_prev_field key none = none
decode_prev_field key (some []) = none
decode_prev_field key (some (c ∷ blob)) = decode_kv key (c ∷ blob)

-- `none` is the error "parse rev".
unfoldable pub parse_stream_event : XMessage → Option Event
parse_stream_event msg =
    let typ = stream_string (field type_field msg.values) in
    let key = stream_string (field key_field msg.values) in
    parse_int (stream_string (field rev_field msg.values)) >>=? λ rev. some (record {
      kind = typ;
      key = key;
      id = msg.id;
      created_ms = created_ms_of msg.id;
      rev = pos_part rev;
      kv = if str_eq typ put_op then decode_field key (field data_field msg.values) else none;
      prev_kv = decode_prev_field key (field prev_data_field msg.values);
    })
