-- ===== src/Store/Refine/Index.antt =====
-- The key index stays in the order of the keys, each key once.
use retcd.Prelude.{◌≡◌, Bool, true, List, [], ◌∷◌, arith, All, inl, inr, Bool-cases}
use retcd.Bytes.{Bytes, str_eq, str_lt}
use retcd.Bytes.Order.{str_lt_trans, str_lt-total, str_eq_iff}
use retcd.Redis.{without, put_in_order, select}

abbrev pub Above : Bytes → List Bytes → Type 0
Above x = All (λ y. str_lt x y ≡ true)

abbrev pub IsOrdered : List Bytes → Type 0
IsOrdered [] = Unit {0}
IsOrdered (x ∷ xs) = Above x xs × IsOrdered xs

Above-trans : (x y : Bytes) (xs : List Bytes) → str_lt x y ≡ true → Above y xs → Above x xs
Above-trans x y [] h a = tt
Above-trans x y (z ∷ xs) h a = (str_lt_trans x y z h a.0, Above-trans x y xs h a.1)

Above-put_in_order :
    (x m : Bytes) (xs : List Bytes) → str_lt x m ≡ true → Above x xs → Above x (put_in_order m xs)
unfolding put_in_order
Above-put_in_order x m [] h a = (h, tt)
Above-put_in_order x m (y ∷ xs) h a = ground (arith, Above-put_in_order x m xs h a.1)

pub put_in_order-IsOrdered :
    (m : Bytes) (xs : List Bytes) → IsOrdered xs → IsOrdered (put_in_order m xs)
unfolding put_in_order
put_in_order-IsOrdered m [] o = (tt, tt)
put_in_order-IsOrdered m (x ∷ xs) o = elim (Bool-cases (str_eq x m)) [
  | inl same ↦ rw same o
  | inr other ↦ elim (Bool-cases (str_lt m x)) [
    | inl before ↦ rw other (rw before ((before, Above-trans m x xs before o.0), o))
    | inr after ↦ rw other (
        rw after (
          Above-put_in_order x m xs
              (str_lt-total m x after (ground (arith, str_eq_iff m x, str_eq_iff x m))) o.0,
          put_in_order-IsOrdered m xs o.1,
        ))
  ]
]

Above-without : (x m : Bytes) (xs : List Bytes) → Above x xs → Above x (without m xs)
unfolding without
Above-without x m [] a = tt
Above-without x m (y ∷ xs) a = ground (arith, Above-without x m xs a.1)

pub without-IsOrdered : (m : Bytes) (xs : List Bytes) → IsOrdered xs → IsOrdered (without m xs)
unfolding without
without-IsOrdered m [] o = tt
without-IsOrdered m (x ∷ xs) o = elim (Bool-cases (str_eq x m)) [
  | inl same ↦ rw same (without-IsOrdered m xs o.1)
  | inr other ↦ rw other (Above-without x m xs o.0, without-IsOrdered m xs o.1)
]

Above-select : (p : Bytes → Bool) (x : Bytes) (xs : List Bytes) → Above x xs → Above x (select p xs)
unfolding select
Above-select p x [] a = tt
Above-select p x (y ∷ xs) a = ground (arith, Above-select p x xs a.1)

pub select-IsOrdered : (p : Bytes → Bool) (xs : List Bytes) → IsOrdered xs → IsOrdered (select p xs)
unfolding select
select-IsOrdered p [] o = tt
select-IsOrdered p (x ∷ xs) o = elim (Bool-cases (p x)) [
  | inl in_it ↦ rw in_it (Above-select p x xs o.0, select-IsOrdered p xs o.1)
  | inr out ↦ rw out (select-IsOrdered p xs o.1)
]
