-- ===== src/Store/Refine/Codec.antt =====
-- Reading back what `encode` wrote, and the index and the log after a write.
use retcd.Prelude.{
  ◌<◌, ◌^◌, ◌≡◌, refl, true, false, List, [], ◌∷◌, ◌++◌, some, arith, length, leb, if◌then◌else◌,
  ◌∙◌,
}
use retcd.Bytes.{Bytes, str_eq}
use retcd.Bytes.Order.{str_eq_iff}
use retcd.Redis.{contains, without, put_in_order}
use retcd.Store.Blob.{KeyValue, make_blob, dec64, decode_kv}
use retcd.Store.Blob.RoundTrip.{decode_kv-fields, length-make_blob}
use retcd.Store.Event.{Event, XMessage, parse_stream_event}
use retcd.Store.Refine.{encode, parse_all}

pub record Fits (kv : KeyValue) : Type 0 where
  pub create : kv.create_revision < 2 ^ 64
  pub modified : kv.mod_revision < 2 ^ 64
  pub version : kv.version < 2 ^ 64
  pub lease : kv.lease < 2 ^ 64

pub decode_kv-encode : (kv : KeyValue) → Fits kv → decode_kv kv.key (encode kv) ≡ some kv
unfolding encode
decode_kv-encode kv f =
    decode_kv-fields kv.key kv.create_revision kv.mod_revision kv.version kv.lease kv.value f.create
      f.modified f.version f.lease

pub length-encode : (kv : KeyValue) → leb 32 (length (encode kv)) ≡ true
unfolding encode
length-encode kv =
    ground (arith, length-make_blob kv.create_revision kv.mod_revision kv.version kv.lease kv.value)

-- The scripts' reads at the four offsets.
module _ (kv : KeyValue) (f : Fits kv) where
  pub dec64_create : dec64 (encode kv) 0 ≡ kv.create_revision
  unfolding dec64 encode make_blob
  dec64_create = omega (arith, f.create)

  pub dec64_mod : dec64 (encode kv) 8 ≡ kv.mod_revision
  unfolding dec64 encode make_blob
  dec64_mod = omega (arith, f.modified)

  pub dec64_version : dec64 (encode kv) 16 ≡ kv.version
  unfolding dec64 encode make_blob
  dec64_version = omega (arith, f.version)

  pub dec64_lease : dec64 (encode kv) 24 ≡ kv.lease
  unfolding dec64 encode make_blob
  dec64_lease = omega (arith, f.lease)

pub contains-put_in_order :
    (k m : Bytes) (ms : List Bytes)
    → contains k (put_in_order m ms) ≡ (if str_eq m k then true else contains k ms)
unfolding contains put_in_order
contains-put_in_order k m [] = ground arith
contains-put_in_order k m (x ∷ ms) =
    ground (arith, contains-put_in_order k m ms, str_eq_iff x m, str_eq_iff m k, str_eq_iff x k)

pub contains-without :
    (k m : Bytes) (ms : List Bytes)
    → contains k (without m ms) ≡ (if str_eq m k then false else contains k ms)
unfolding contains without
contains-without k m [] = ground arith
contains-without k m (x ∷ ms) =
    ground (arith, contains-without k m ms, str_eq_iff x m, str_eq_iff m k, str_eq_iff x k)

pub parse_all-append : (xs ys : List XMessage) → parse_all (xs ++ ys) ≡ parse_all xs ++ parse_all ys
unfolding parse_all
parse_all-append [] ys = refl
parse_all-append (x ∷ xs) ys = ground (arith, parse_all-append xs ys)

pub parse_all-snoc :
    (xs : List XMessage) (e : XMessage) (ev : Event)
    → parse_stream_event e ≡ some ev
    → parse_all (xs ++ e ∷ []) ≡ parse_all xs ++ ev ∷ []
unfolding parse_all
parse_all-snoc xs e ev h = parse_all-append xs (e ∷ []) ∙ ground (arith, h)
