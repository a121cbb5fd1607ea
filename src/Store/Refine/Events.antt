-- ===== src/Store/Refine/Events.antt =====
-- The blob and the event of a write, as the specification has them.
use retcd.Prelude.{ℕ, suc, ◌<◌, ◌^◌, ◌≡◌, refl, [], Option, none, some, arith, ap, sym, ◌∙◌}
use retcd.Bytes.{Bytes, str_eq}
use retcd.Store.Blob.{KeyValue, make_blob, decode_kv}
use retcd.Store.Event.{put_op, delete_op, make_event}
use retcd.Store.Script.{or_blank, write_create_rev, write_version, txn_create_rev, txn_version}
use retcd.Store.Mvcc.{Mvcc, IsExact, next_kv, put_event, delete_event}
use retcd.Store.Refine.{encode, encoded}
use retcd.Store.Refine.Codec.{Fits, decode_kv-encode, length-encode, dec64_create, dec64_version}

-- A stored version that belongs to the key and fits the blob's fields.
pub record IsStored (key : Bytes) (kv : KeyValue) : Type 0 where
  pub key_is : kv.key ≡ key
  pub fits : Fits kv

abbrev pub StoredOption : Bytes → Option KeyValue → Type 0
StoredOption key none = Unit {0}
StoredOption key (some kv) = IsStored key kv

exact-IsStored :
    (m : Mvcc) (key : Bytes) (kv : KeyValue) → IsExact m → m.at key ≡ some kv → IsStored key kv
exact-IsStored m key kv x e = record {
  key_is = x.key_is key kv e;
  fits = record {
    create = omega (arith, x.room, x.create_le key kv e, x.mod_le key kv e);
    modified = omega (arith, x.room, x.mod_le key kv e);
    version = omega (arith, x.room, x.version_le key kv e);
    lease = omega (arith, x.lease_lt key kv e);
  };
}

stored_option :
    (m : Mvcc) (key : Bytes) (o : Option KeyValue) → IsExact m → m.at key ≡ o → StoredOption key o
stored_option m key none x e = tt
stored_option m key (some kv) x e = exact-IsStored m key kv x e

pub exact-StoredOption : (m : Mvcc) (key : Bytes) → IsExact m → StoredOption key (m.at key)
exact-StoredOption m key x = stored_option m key (m.at key) x refl

pub next-IsStored :
    (m : Mvcc) (key value : Bytes) (lease : ℕ)
    → IsExact m
    → lease < 2 ^ 63
    → IsStored key (next_kv key value lease (suc m.revision) (m.at key))
next-IsStored m key value lease x b = go (m.at key) refl
  where
    go :
        (o : Option KeyValue)
        → m.at key ≡ o
        → IsStored key (next_kv key value lease (suc m.revision) o)
    go none e =
        unfold next_kv in
        record {
          key_is = refl;
          fits = record {
            create = omega (arith, x.room);
            modified = omega (arith, x.room);
            version = omega arith;
            lease = omega arith;
          };
        }
    go (some kv) e =
        unfold next_kv in
        record {
          key_is = refl;
          fits = record {
            create = omega (arith, x.room, x.create_le key kv e, x.mod_le key kv e);
            modified = omega (arith, x.room);
            version = omega (arith, x.room, x.version_le key kv e);
            lease = omega arith;
          };
        }

module _ (key value : Bytes) (lease rev : ℕ) where
  pub write_blob :
      (o : Option KeyValue)
      → StoredOption key o
      → make_blob (write_create_rev (encoded o) rev) rev (write_version (encoded o)) lease value
        ≡ encode (next_kv key value lease rev o)
  unfolding next_kv
  write_blob none h = unfold encode in refl
  write_blob (some kv) h =
      rw (length-encode kv, dec64_create kv h.fits, dec64_version kv h.fits) (unfold encode in refl)

  pub txn_blob :
      (o : Option KeyValue)
      → StoredOption key o
      → make_blob (txn_create_rev (encoded o) rev) rev (txn_version (encoded o)) lease value
        ≡ encode (next_kv key value lease rev o)
  unfolding next_kv
  txn_blob none h = unfold encode in refl
  txn_blob (some kv) h =
      rw (length-encode kv, dec64_create kv h.fits, dec64_version kv h.fits) (unfold encode in refl)

pub decode-IsStored :
    (key : Bytes) (kv : KeyValue) → IsStored key kv → decode_kv key (encode kv) ≡ some kv
decode-IsStored key kv h =
    ap (λ k. decode_kv k (encode kv)) (sym h.key_is) ∙ decode_kv-encode kv h.fits

-- The event that a PUT sends in-process.
pub make_event-put :
    (key sid : Bytes) (kv : KeyValue) (prev : Option KeyValue)
    → IsStored key kv
    → StoredOption key prev
    → make_event put_op key kv.mod_revision (encode kv) (or_blank (encoded prev)) sid
      ≡ put_event key kv prev sid
unfolding make_event str_eq
make_event-put key sid kv none h p = ground (arith, length-encode kv, decode-IsStored key kv h)
make_event-put key sid kv (some q) h p =
    ground
      (arith, length-encode kv, length-encode q, decode-IsStored key kv h, decode-IsStored key q p)

pub make_event-delete :
    (key sid : Bytes) (rev : ℕ) (prev : KeyValue)
    → IsStored key prev
    → make_event delete_op key rev [] (encode prev) sid ≡ delete_event key rev prev sid
unfolding make_event str_eq
make_event-delete key sid rev prev p =
    ground (arith, length-encode prev, decode-IsStored key prev p)

mod_revision-next_kv :
    (key value : Bytes) (lease rev : ℕ) (o : Option KeyValue)
    → (next_kv key value lease rev o).mod_revision ≡ rev
unfolding next_kv
mod_revision-next_kv key value lease rev none = refl
mod_revision-next_kv key value lease rev (some kv) = refl

-- The event of the next revision, built from the blobs.
pub make_event-next :
    (m : Mvcc) (key value sid : Bytes) (lease : ℕ)
    → IsExact m
    → lease < 2 ^ 63
    → make_event put_op key
        (suc m.revision)
        (encode (next_kv key value lease (suc m.revision) (m.at key)))
        (or_blank (encoded (m.at key)))
        sid
      ≡ put_event key (next_kv key value lease (suc m.revision) (m.at key)) (m.at key) sid
make_event-next m key value sid lease x fits =
    let kv = next_kv key value lease (suc m.revision) (m.at key) in
    ap (λ r. make_event put_op key r (encode kv) (or_blank (encoded (m.at key))) sid)
      (sym (mod_revision-next_kv key value lease (suc m.revision) (m.at key)))
    ∙ make_event-put key sid kv (m.at key) (next-IsStored m key value lease x fits)
        (exact-StoredOption m key x)
