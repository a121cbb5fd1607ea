-- ===== src/Server/Match.antt =====
-- Which keys a request or a watch covers: the filter of server/kv_range.go and
-- server/kv_delete.go, and `matchesWatch` of server/watch.go.
pub mod Scan
use retcd.Prelude.{Bool, true, not, ◌&&◌, ◌||◌, [], ◌∷◌, if◌then◌else◌}
use retcd.Bytes.{Bytes, str_eq, str_lt}

-- "\x00" as a range end: all keys from the key onwards.
abbrev pub from_key : Bytes
from_key = 0 ∷ []

-- kv.Key >= key && (rangeEnd == "\x00" || kv.Key < rangeEnd)
unfoldable pub in_range : Bytes → Bytes → Bytes → Bool
in_range key range_end k = not (str_lt k key) && (str_eq range_end from_key || str_lt k range_end)

unfoldable pub matches_watch : Bytes → Bytes → Bytes → Bool
matches_watch event_key key range_end =
    if str_eq range_end []
    then str_eq event_key key
    else if str_eq range_end from_key
    then not (str_lt event_key key)
    else not (str_lt event_key key) && str_lt event_key range_end
