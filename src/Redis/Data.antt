-- ===== src/Redis/Data.antt =====
-- The values of a Redis database, and what its commands and the client's arguments do to them.
use retcd.Prelude.{
  ℕ, ◌+◌, ◌-◌, ◌*◌, ◌/◌, ◌^◌, ltb, leb, Bool, true, false, not, ◌||◌, List, [], ◌∷◌, Option, none,
  some, ◌==◌, if◌then◌else◌, ℤ, pos, negsuc, take,
}
use retcd.Bytes.{Bytes, str_eq, str_lt}
use retcd.Decimal.{parse_int}
use retcd.Store.Event.{XMessage}

-- The bound strings of ZRANGEBYLEX: "-", "+", "[b" and "(b".
pub data LexBound : Type 0 where
  lowest highest : LexBound
  inclusive exclusive : Bytes → LexBound

unfoldable pub above : LexBound → Bytes → Bool
above lowest m = true
above highest m = false
above (inclusive b) m = not (str_lt m b)
above (exclusive b) m = str_lt b m

unfoldable pub below : LexBound → Bytes → Bool
below lowest m = false
below highest m = true
below (inclusive b) m = not (str_lt b m)
below (exclusive b) m = str_lt m b

-- The value at a key. The members of a sorted set with equal scores stand in the order of their
-- bytes; of a set only the membership counts. An expiring string is there for so many milliseconds
-- yet; no other value that the program writes expires.
pub data Value : Type 0 where
  absent : Value
  string : Bytes → Value
  expiring : ℕ → Bytes → Value
  zset : List Bytes → Value
  set : List Bytes → Value
  stream : List XMessage → Value

unfoldable pub contains : Bytes → List Bytes → Bool
contains m [] = false
contains m (x ∷ xs) = str_eq x m || contains m xs

unfoldable pub without : Bytes → List Bytes → List Bytes
without m [] = []
without m (x ∷ xs) = let rest = without m xs in if str_eq x m then rest else x ∷ rest

-- A member put at its place in the order.
unfoldable pub put_in_order : Bytes → List Bytes → List Bytes
put_in_order m [] = m ∷ []
put_in_order m (x ∷ xs) =
    let rest = put_in_order m xs in
    if str_eq x m then x ∷ xs else if str_lt m x then m ∷ x ∷ xs else x ∷ rest

unfoldable pub select : (Bytes → Bool) → List Bytes → List Bytes
select p [] = []
select p (x ∷ xs) = let rest = select p xs in if p x then x ∷ rest else rest

-- A set or a sorted set that loses its last member is gone.
abbrev pub zset_value : List Bytes → Value
zset_value [] = absent
zset_value (m ∷ ms) = zset (m ∷ ms)

abbrev pub set_value : List Bytes → Value
set_value [] = absent
set_value (m ∷ ms) = set (m ∷ ms)

-- What a command of each type finds at a key; `none` is a value of another type.
abbrev pub as_string : Value → Option (Option Bytes)
as_string absent = some none
as_string (string s) = some (some s)
as_string (expiring t s) = some (some s)
as_string (zset ms) = none
as_string (set ms) = none
as_string (stream es) = none

abbrev pub as_zset : Value → Option (List Bytes)
as_zset absent = some []
as_zset (zset ms) = some ms
as_zset (string s) = none
as_zset (expiring t s) = none
as_zset (set ms) = none
as_zset (stream es) = none

abbrev pub as_set : Value → Option (List Bytes)
as_set absent = some []
as_set (set ms) = some ms
as_set (string s) = none
as_set (expiring t s) = none
as_set (zset ms) = none
as_set (stream es) = none

abbrev pub as_stream : Value → Option (List XMessage)
as_stream absent = some []
as_stream (stream es) = some es
as_stream (string s) = none
as_stream (expiring t s) = none
as_stream (zset ms) = none
as_stream (set ms) = none

-- The number that INCR reads: a missing key counts as 0.
abbrev pub counter_text : Option ℤ → Option ℕ
counter_text none = none
counter_text (some (pos n)) = some n
counter_text (some (negsuc n)) = none

abbrev pub as_counter : Value → Option ℕ
as_counter absent = some 0
as_counter (string s) = counter_text (parse_int s)
as_counter (expiring t s) = none
as_counter (zset ms) = none
as_counter (set ms) = none
as_counter (stream es) = none

-- The ID from which XREAD reads everything: "0" or "0-0".
abbrev pub is_start : Bytes → Bool
is_start id = str_eq id (b'0' ∷ []) || str_eq id (b'0' ∷ b'-' ∷ b'0' ∷ [])

-- The entries behind the one with the given ID.
unfoldable pub behind : Bytes → List XMessage → List XMessage
behind id [] = []
behind id (e ∷ es) = let rest = behind id es in if str_eq e.id id then es else rest

unfoldable pub has_id : Bytes → List XMessage → Bool
has_id id [] = false
has_id id (e ∷ es) = str_eq e.id id || has_id id es

abbrev pub entries_after : Bytes → List XMessage → List XMessage
entries_after id es = if is_start id then es else behind id es

-- COUNT, which the client leaves out where it is 0.
abbrev pub at_most : ℕ → List XMessage → List XMessage
at_most n es = if n == 0 then es else take n es

-- What SET with an expiration of so many nanoseconds leaves: the client sends EX or PX only for a
-- positive one, of at least a millisecond.
abbrev pub set_with : ℤ → Bytes → Value
set_with (negsuc d) s = string s
set_with (pos d) s =
    if d == 0 then string s else if ltb d (10 ^ 6) then expiring 1 s else expiring (d / 10 ^ 6) s

-- What EXPIRE with a duration of so many nanoseconds leaves, which the client cuts to seconds, of at
-- least one where it is positive; a value that is to expire at once is deleted.
abbrev pub expire_with : ℤ → Option Bytes → Value
expire_with d none = absent
expire_with (negsuc d) (some s) = absent
expire_with (pos d) (some s) =
    if d == 0
    then absent
    else if ltb d (10 ^ 9)
    then expiring 1000 s
    else expiring (d / 10 ^ 9 * 1000) s

-- What the client's TTL returns, in nanoseconds: whole seconds of the server's rounding, or its -2
-- for no key and its -1 for no expiration, which it does not scale.
abbrev pub ttl_of : Value → ℤ
ttl_of absent = negsuc 1
ttl_of (string s) = negsuc 0
ttl_of (expiring t s) = pos ((t + 500) / 1000 * 10 ^ 9)
ttl_of (zset ms) = negsuc 0
ttl_of (set ms) = negsuc 0
ttl_of (stream es) = negsuc 0

-- A value after so many milliseconds.
abbrev pub aged : ℕ → Value → Value
aged t absent = absent
aged t (string s) = string s
aged t (expiring left s) = if leb left t then absent else expiring (left - t) s
aged t (zset ms) = zset ms
aged t (set ms) = set ms
aged t (stream es) = stream es

abbrev pub is_present : Value → Bool
is_present absent = false
is_present (string s) = true
is_present (expiring t s) = true
is_present (zset ms) = true
is_present (set ms) = true
is_present (stream es) = true

-- TYPE's answer "set".
abbrev pub is_set : Value → Bool
is_set absent = false
is_set (string s) = false
is_set (expiring t s) = false
is_set (zset ms) = false
is_set (set ms) = true
is_set (stream es) = false
