-- ===== src/Bytes/Prefix.antt =====
-- Prefixes and the order: what lies between two strings begins with their common prefix.
use retcd.Prelude.{◌≡◌, refl, true, false, [], ◌∷◌, arith}
use retcd.Bytes.{Bytes, str_lt, has_prefix, common_prefix}

-- A key of the half-open range [key, end) has every common prefix of the two bounds.
pub between-has_prefix :
    (key end k : Bytes)
    → str_lt k key ≡ false
    → str_lt k end ≡ true
    → has_prefix (common_prefix key end) k ≡ true
unfolding str_lt has_prefix common_prefix
between-has_prefix [] end k p q = refl
between-has_prefix (x ∷ key) [] k p q = cc
between-has_prefix (x ∷ key) (y ∷ end) [] p q = cc
between-has_prefix (x ∷ key) (y ∷ end) (z ∷ k) p q = ground (arith, between-has_prefix key end k)
