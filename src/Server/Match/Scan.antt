-- ===== src/Server/Match/Scan.antt =====
-- The scan of a range request, cut down to the keys that have the bounds' common prefix, and the
-- watches' view of the same range.
use retcd.Prelude.{ℕ, ◌≡◌, ◌≢◌, true, false, [], ◌∷◌, arith}
use retcd.Bytes.{Bytes, str_eq, str_lt, has_prefix, common_prefix}
use retcd.Bytes.Order.{str_eq_iff}
use retcd.Bytes.Prefix.{between-has_prefix}
use retcd.Server.Match.{from_key, in_range, matches_watch}

-- Every key of a range [key, end) with an end other than "\x00" is found by a scan of the keys that
-- begin with the common prefix of the bounds.
pub in_range-has_prefix :
    (key range_end k : Bytes)
    → range_end ≢ from_key
    → in_range key range_end k ≡ true
    → has_prefix (common_prefix key range_end) k ≡ true
unfolding in_range
in_range-has_prefix key range_end k h p =
    ground (arith, between-has_prefix key range_end k, str_eq_iff range_end from_key)

-- An open range that starts at a key with another first byte than 0 is scanned whole.
pub from_key-has_prefix :
    (b : ℕ) (key k : Bytes) → b ≢ 0 → has_prefix (common_prefix (b ∷ key) from_key) k ≡ true
unfolding has_prefix common_prefix
from_key-has_prefix b key k h = ground arith

-- A watch of a non-empty range end sees exactly the keys that a range request for it would return.
pub matches_watch-in_range :
    (key range_end k : Bytes)
    → range_end ≢ []
    → matches_watch k key range_end ≡ in_range key range_end k
unfolding matches_watch in_range
matches_watch-in_range key range_end k h = ground (arith, str_eq_iff range_end [])

-- An open range that starts at a key with first byte 0 covers every key with another first byte, but
-- the prefix that is scanned for it does not.
pub from_key-scan_misses :
    (key : Bytes) (b : ℕ) (k : Bytes)
    → b ≢ 0
    → (in_range (0 ∷ key) from_key (b ∷ k) ≡ true)
      × (has_prefix (common_prefix (0 ∷ key) from_key) (b ∷ k) ≡ false)
unfolding in_range str_lt str_eq has_prefix common_prefix
from_key-scan_misses key b k h = (ground arith, ground arith)
