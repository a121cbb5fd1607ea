-- ===== src/Bytes/Order.antt =====
-- Equality and order of byte strings.
use retcd.Prelude.{◌≡◌, refl, ◌↔◌, true, false, [], ◌∷◌, arith}
use retcd.Bytes.{Bytes, str_eq, str_lt}

pub str_eq_refl : (s : Bytes) → str_eq s s ≡ true
unfolding str_eq
str_eq_refl [] = refl
str_eq_refl (x ∷ s) = ground (arith, str_eq_refl s)

pub str_eq→eq : (s t : Bytes) → str_eq s t ≡ true → s ≡ t
unfolding str_eq
str_eq→eq [] [] h = refl
str_eq→eq [] (y ∷ ys) h = cc
str_eq→eq (x ∷ xs) [] h = cc
str_eq→eq (x ∷ xs) (y ∷ ys) h = ground (arith, str_eq→eq xs ys)

pub str_eq_iff : (s t : Bytes) → (str_eq s t ≡ true) ↔ (s ≡ t)
str_eq_iff s t = (str_eq→eq s t, λ e. rw e (str_eq_refl t))

pub str_eq_sym : (s t : Bytes) → str_eq s t ≡ str_eq t s
unfolding str_eq
str_eq_sym [] [] = refl
str_eq_sym [] (y ∷ ys) = refl
str_eq_sym (x ∷ xs) [] = refl
str_eq_sym (x ∷ xs) (y ∷ ys) = ground (arith, str_eq_sym xs ys)

pub str_lt_irrefl : (s : Bytes) → str_lt s s ≡ false
unfolding str_lt
str_lt_irrefl [] = refl
str_lt_irrefl (x ∷ s) = ground (arith, str_lt_irrefl s)

pub str_lt_trans : (s t u : Bytes) → str_lt s t ≡ true → str_lt t u ≡ true → str_lt s u ≡ true
unfolding str_lt
str_lt_trans s t [] p q = cc
str_lt_trans s [] (z ∷ u) p q = cc
str_lt_trans [] (y ∷ t) (z ∷ u) p q = refl
str_lt_trans (x ∷ s) (y ∷ t) (z ∷ u) p q = ground (arith, str_lt_trans s t u)

-- Two strings of which neither comes first are one.
pub str_lt-total : (s t : Bytes) → str_lt s t ≡ false → str_eq s t ≡ false → str_lt t s ≡ true
unfolding str_lt str_eq
str_lt-total [] [] p q = cc
str_lt-total [] (y ∷ t) p q = cc
str_lt-total (x ∷ s) [] p q = refl
str_lt-total (x ∷ s) (y ∷ t) p q = ground (arith, str_lt-total s t)
