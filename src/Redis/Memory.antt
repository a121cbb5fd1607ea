-- ===== src/Redis/Memory.antt =====
-- A Redis in memory, which meets the laws: a function from keys to values. The n-th entry of a
-- stream has the ID "1-n".
use retcd.Prelude.{
  ℕ, suc, ◌^◌, ◌<◌, ◌≡◌, refl, false, ◌&&◌, List, [], ◌∷◌, ◌++◌, Option, none, some, if◌then◌else◌,
  length, arith, ap, Bool-cases, inl, inr, not,
}
use retcd.Bytes.{Bytes, str_eq}
use retcd.Decimal.{decimal}
use retcd.Store.Event.{XMessage}
use retcd.Redis.{
  Redis, Value, absent, string, stream, zset_value, set_value, as_string, as_zset, as_set,
  as_stream, as_counter, contains, without, put_in_order, select, above, below, is_present, is_set,
  set_with, expire_with, ttl_of, at_most, entries_after, aged,
}

abbrev Keyspace : Type 0
Keyspace = Bytes → Value

abbrev put_at : Keyspace → Bytes → Value → Keyspace
put_at db k v j = if str_eq k j then v else db j

abbrev pub or_empty {ℓ} : {A : Type ℓ} → Option (List A) → List A
or_empty none = []
or_empty (some xs) = xs

abbrev or_none : Option (Option Bytes) → Option Bytes
or_none none = none
or_none (some o) = o

abbrev or_nought : Option ℕ → ℕ
or_nought none = 0
or_nought (some n) = n

abbrev pub entry_id : List XMessage → Bytes
entry_id es = b'1' ∷ b'-' ∷ decimal (suc (length es))

pub get_law : (v : Value) (o : Option Bytes) → as_string v ≡ some o → or_none (as_string v) ≡ o
get_law v o h = ground arith

pub incr_law :
    (v : Value) (n : ℕ)
    → as_counter v ≡ some n
    → suc n < 2 ^ 63
    → suc (or_nought (as_counter v)) ≡ suc n
incr_law v n h b = ground (arith, h)

pub id_law : (es : List XMessage) → str_eq (entry_id es) [] ≡ false
unfolding str_eq
id_law es = refl

pub set_nx_law :
    (db : Keyspace) (k v j : Bytes)
    → (if is_present (db k) then db else put_at db k (string v)) j
      ≡ (if str_eq k j && not (is_present (db k)) then string v else db j)
set_nx_law db k v j = elim (Bool-cases (is_present (db k))) [
  | inl there ↦ rw there (ground arith)
  | inr gone ↦ rw gone (ground arith)
]

abbrev pub in_memory : Redis
in_memory = record {
  Db = Keyspace;
  value = λ db. db;
  get = λ db k. or_none (as_string (db k));
  set = λ db k v. put_at db k (string v);
  del = λ db k. put_at db k absent;
  incr =
      λ db k. let n = suc (or_nought (as_counter (db k))) in (n, put_at db k (string (decimal n)));
  zadd = λ db k m. put_at db k (zset_value (put_in_order m (or_empty (as_zset (db k)))));
  zrem = λ db k m. put_at db k (zset_value (without m (or_empty (as_zset (db k)))));
  zrange_by_lex = λ db k lo hi. select (λ m. above lo m && below hi m) (or_empty (as_zset (db k)));
  sadd = λ db k m. let ms = or_empty (as_set (db k)) in put_at db k (set_value (m ∷ without m ms));
  srem = λ db k m. put_at db k (set_value (without m (or_empty (as_set (db k)))));
  smembers = λ db k. or_empty (as_set (db k));
  xadd = λ db k fields.
      let es = or_empty (as_stream (db k)) in
      (entry_id es, put_at db k (stream (es ++ record { id = entry_id es; values = fields } ∷ [])));
  set_nx = λ db k v. if is_present (db k) then db else put_at db k (string v);
  set_for = λ db k v d. put_at db k (set_with d v);
  expire = λ db k d. put_at db k (expire_with d (or_none (as_string (db k))));
  ttl = λ db k. ttl_of (db k);
  exists_at = λ db k. is_present (db k);
  is_set_at = λ db k. is_set (db k);
  xread = λ db k id n. at_most n (entries_after id (or_empty (as_stream (db k))));
  elapse = λ t db j. aged t (db j);
  get-value = λ db k o h. get_law (db k) o h;
  value-set = λ db k v j. refl;
  value-del = λ db k j. refl;
  incr-value = λ db k n h b. incr_law (db k) n h b;
  value-incr = λ db k j n h b. ap (λ o. put_at db k (string (decimal (suc (or_nought o)))) j) h;
  value-zadd =
      λ db k m j ms h. ap (λ o. put_at db k (zset_value (put_in_order m (or_empty o))) j) h;
  value-zrem = λ db k m j ms h. ap (λ o. put_at db k (zset_value (without m (or_empty o))) j) h;
  zrange_by_lex-value =
      λ db k lo hi ms h. ap (λ o. select (λ m. above lo m && below hi m) (or_empty o)) h;
  value-sadd = λ db k m j ms h. ap (λ o. put_at db k (set_value (m ∷ without m (or_empty o))) j) h;
  value-srem = λ db k m j ms h. ap (λ o. put_at db k (set_value (without m (or_empty o))) j) h;
  smembers-value = λ db k m ms h. ap (λ o. contains m (or_empty o)) h;
  smembers-length = λ db k ms h. ap (λ o. length (or_empty o)) h;
  value-xadd = λ db k j fields es h.
      ap
        (λ o.
          put_at db k
            (stream (
              or_empty o
              ++ record { id = entry_id (or_empty (as_stream (db k))); values = fields } ∷ []))
            j)
        h;
  xadd-id_ne = λ db k fields. id_law (or_empty (as_stream (db k)));
  value-set_nx = λ db k v j. set_nx_law db k v j;
  value-set_for = λ db k v j d h. refl;
  value-expire = λ db k j d o h. ap (λ x. put_at db k (expire_with d (or_none x)) j) h;
  ttl-value = λ db k. refl;
  exists_at-value = λ db k. refl;
  is_set_at-value = λ db k. refl;
  xread-value = λ db k id n es h known. ap (λ x. at_most n (entries_after id (or_empty x))) h;
  value-elapse = λ db t j. refl;
}
