-- ===== src/Store/Lex.antt =====
-- `prefixLexRange` and `lexSuccessor` of store/redis.go: the bounds that ZRANGEBYLEX takes for the
-- keys with a given prefix.
pub mod Exact
use retcd.Prelude.{
  ℕ, zero, suc, ◌+◌, Bool, true, false, not, ◌&&◌, [], ◌∷◌, ◌++◌, Option, none, some, ◌==◌,
  if◌then◌else◌, length, get_elem?, take,
}
use retcd.Bytes.{Bytes}
use retcd.Redis.{LexBound, lowest, highest, inclusive, exclusive}

-- b[i] with the loop's bound check, which `lexSuccessor` never meets
abbrev byte_at : Bytes → ℕ → ℕ
byte_at b i = elim (get_elem? b i) [ none ↦ 0 | some c ↦ c ]

-- The loop from `i - 1` down to 0: the first byte below 0xff is raised, and the rest dropped.
unfoldable pub successor_from : Bytes → ℕ → Option Bytes
successor_from b zero = none
successor_from b (suc i) =
    let below = successor_from b i in
    if not (byte_at b i == 0xff) then some (take i b ++ (byte_at b i + 1) ∷ []) else below

unfoldable pub lex_successor : Bytes → Option Bytes
unfolding successor_from
lex_successor s = successor_from s (length s)

unfoldable pub prefix_lex_range : Bytes → LexBound × LexBound
prefix_lex_range [] = (lowest, highest)
prefix_lex_range (c ∷ s) = elim (lex_successor (c ∷ s)) [
  | none ↦ (inclusive (c ∷ s), highest)
  | some next ↦ (inclusive (c ∷ s), exclusive next)
]
