-- ===== src/Bytes.antt =====
-- Go strings and byte slices: lists of bytes, in Go's order of strings (bytewise, a proper prefix
-- first), and `commonPrefix` of server/types.go.
pub mod Order
pub mod Prefix
use retcd.Prelude.{
  ℕ, ◌<◌, ◌≡◌, refl, Bool, true, false, ◌&&◌, List, [], ◌∷◌, ltb, ◌==◌, if◌then◌else◌, All,
}

abbrev pub Bytes : Type 0
Bytes = List ℕ

abbrev pub IsBytes : Bytes → Type 0
IsBytes = All (λ b. b < 256)

-- s == t
unfoldable pub str_eq : Bytes → Bytes → Bool
str_eq [] [] = true
str_eq [] (y ∷ ys) = false
str_eq (x ∷ xs) [] = false
str_eq (x ∷ xs) (y ∷ ys) = x == y && str_eq xs ys

-- s < t
unfoldable pub str_lt : Bytes → Bytes → Bool
str_lt xs [] = false
str_lt [] (y ∷ ys) = true
str_lt (x ∷ xs) (y ∷ ys) =
    let rest = str_lt xs ys in if ltb x y then true else if x == y then rest else false

-- strings.HasPrefix(s, p), with the prefix first
unfoldable pub has_prefix : Bytes → Bytes → Bool
has_prefix [] s = true
has_prefix (p ∷ ps) [] = false
has_prefix (p ∷ ps) (x ∷ s) = p == x && has_prefix ps s

-- The loop of `commonPrefix` stops at the first index where the bytes differ.
unfoldable pub common_prefix : Bytes → Bytes → Bytes
common_prefix [] b = []
common_prefix (x ∷ a) [] = []
common_prefix (x ∷ a) (y ∷ b) = let rest = x ∷ common_prefix a b in if x == y then rest else []
