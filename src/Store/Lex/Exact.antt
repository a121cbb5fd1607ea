-- ===== src/Store/Lex/Exact.antt =====
-- The range of a prefix holds exactly the strings with that prefix.
use retcd.Prelude.{
  ℕ, zero, suc, ◌+◌, ◌≡◌, refl, Bool, true, not, ◌&&◌, [], ◌∷◌, Option, none, some, ◌==◌,
  if◌then◌else◌, length, arith,
}
use retcd.Bytes.{Bytes, IsBytes, str_lt, has_prefix}
use retcd.Redis.{above, below}
use retcd.Store.Lex.{successor_from, lex_successor, prefix_lex_range}

-- The loop, one byte at the front added.
successor_from-cons :
    (c : ℕ) (b : Bytes) (i : ℕ)
    → successor_from (c ∷ b) (suc i) ≡ (elim (successor_from b i) [
      | none ↦ if not (c == 0xff) then some ((c + 1) ∷ []) else none
      | some t ↦ some (c ∷ t)
    ])
unfolding successor_from
successor_from-cons c b zero = ground arith
successor_from-cons c b (suc i) = ground (arith, successor_from-cons c b i)

lex_successor-cons :
    (c : ℕ) (b : Bytes)
    → lex_successor (c ∷ b) ≡ (elim (lex_successor b) [
      | none ↦ if not (c == 0xff) then some ((c + 1) ∷ []) else none
      | some t ↦ some (c ∷ t)
    ])
unfolding lex_successor
lex_successor-cons c b = successor_from-cons c b (length b)

-- Below the successor and not below the string: the prefix, and nothing else.
abbrev under : Option Bytes → Bytes → Bool
under none m = true
under (some t) m = str_lt m t

successor-exact :
    (p m : Bytes)
    → IsBytes p
    → IsBytes m
    → (not (str_lt m p) && under (lex_successor p) m) ≡ has_prefix p m
unfolding str_lt has_prefix lex_successor successor_from
successor-exact [] m hp hm = ground arith
successor-exact (c ∷ p) [] hp hm = refl
successor-exact (c ∷ p) (x ∷ m) hp hm =
    rw lex_successor-cons (ground (arith, successor-exact p m hp.1 hm.1))

-- For byte strings, the bounds of a prefix admit a member exactly if it has the prefix.
pub prefix_lex_range-exact :
    (p m : Bytes)
    → IsBytes p
    → IsBytes m
    → (above (prefix_lex_range p).0 m && below (prefix_lex_range p).1 m) ≡ has_prefix p m
unfolding prefix_lex_range above below has_prefix
prefix_lex_range-exact [] m hp hm = refl
prefix_lex_range-exact (c ∷ p) m hp hm = ground (arith, successor-exact (c ∷ p) m hp hm)
