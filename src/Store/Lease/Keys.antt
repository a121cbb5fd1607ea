-- ===== src/Store/Lease/Keys.antt =====
-- The Redis keys of the leases: they are apart from those of the write scripts, and from each other.
use retcd.Prelude.{ℕ, ◌<◌, ◌^◌, ◌≡◌, refl, false, [], ◌∷◌, arith, ℤ, pos, negsuc, ◌==◌}
use retcd.Bytes.{Bytes, str_eq}
use retcd.Bytes.Order.{str_eq_iff}
use retcd.Decimal.{decimal}
use retcd.Decimal.RoundTrip.{StartsWithDigit, decimal-StartsWithDigit, parse_int-decimal}
use retcd.Store.Keyspace.Apart.{IsApart}
use retcd.Store.Lease.{lease_id_counter, lease_set_key, int_text, lease_data_key}

not_digit : (c : ℕ) (s t : Bytes) → b'9' < c → StartsWithDigit s → str_eq (c ∷ t) s ≡ false
unfolding str_eq
not_digit c [] t h d = elim d [ ]
not_digit c (x ∷ s) t h d = ground (arith, d)

-- No number begins with a letter.
letter_ne : (c : ℕ) (t : Bytes) (id : ℤ) → b'9' < c → str_eq (c ∷ t) (int_text id) ≡ false
unfolding str_eq
letter_ne c t (pos n) h = not_digit c (decimal n) t h (decimal-StartsWithDigit n)
letter_ne c t (negsuc n) h = ground arith

pub lease_data_key-IsApart : (id : ℤ) → IsApart (lease_data_key id)
unfolding str_eq
lease_data_key-IsApart id = record {
  counter = refl;
  blobs = λ j. refl;
  index = refl;
  log = refl;
  leases = λ n. letter_ne b'k' (b'e' ∷ b'y' ∷ b's' ∷ b':' ∷ decimal n) id (omega arith);
}

pub lease_set_key-IsApart : IsApart lease_set_key
unfolding str_eq
lease_set_key-IsApart = record {
  counter = refl;
  blobs = λ j. refl;
  index = refl;
  log = refl;
  leases = λ n. refl;
}

pub lease_id_counter-IsApart : IsApart lease_id_counter
unfolding str_eq
lease_id_counter-IsApart = record {
  counter = refl;
  blobs = λ j. refl;
  index = refl;
  log = refl;
  leases = λ n. refl;
}

pub counter_ne-data : (id : ℤ) → str_eq lease_id_counter (lease_data_key id) ≡ false
unfolding str_eq
counter_ne-data id =
    letter_ne b'i' (b'd' ∷ b'_' ∷ b'c' ∷ b'o' ∷ b'u' ∷ b'n' ∷ b't' ∷ b'e' ∷ b'r' ∷ []) id
      (omega arith)

pub set_ne-data : (id : ℤ) → str_eq lease_set_key (lease_data_key id) ≡ false
unfolding str_eq
set_ne-data id = refl

pub counter_ne-set : str_eq lease_id_counter lease_set_key ≡ false
unfolding str_eq
counter_ne-set = refl

-- Different numbers have different texts.
pub decimal_ne : (m n : ℕ) → m < 2 ^ 63 → n < 2 ^ 63 → str_eq (decimal m) (decimal n) ≡ (m == n)
decimal_ne m n hm hn =
    ground
      (arith, str_eq_iff (decimal m) (decimal n), parse_int-decimal m hm, parse_int-decimal n hn)

pub data_ne :
    (m n : ℕ)
    → m < 2 ^ 63
    → n < 2 ^ 63
    → str_eq (lease_data_key (pos m)) (lease_data_key (pos n)) ≡ (m == n)
unfolding str_eq
data_ne m n hm hn = decimal_ne m n hm hn
