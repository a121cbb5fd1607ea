-- ===== src/Store/Refine/Txn.antt =====
-- store/txn.lua does what the specification's compare-and-swap says.
use retcd.Prelude.{
  ℕ, suc, ◌<◌, ◌^◌, ◌≡◌, refl, true, false, [], ◌∷◌, ◌++◌, Option, none, some, arith, ap, ◌∙◌,
  if◌then◌else◌, ltb, ℤ,
}
use retcd.Bytes.{Bytes, str_eq}
use retcd.Decimal.{decimal}
use retcd.Redis.{Redis, put_in_order}
use retcd.Store.Blob.{KeyValue, make_blob}
use retcd.Store.Event.{put_op}
use retcd.Store.Script.{
  Returned, result, str, int, revision_key, event_stream, key_index, redis_key, or_blank,
  put_fields, txn_create_rev, txn_version, compare_passes, clamped_revision, txn_put, txn_script,
}
use retcd.Store.Keyspace.{Shape, Has, update, set-Has, incr-Has, zadd-Has, xadd-Has}
use retcd.Store.Mvcc.{Mvcc, IsExact, next_kv, put, passes}
use retcd.Store.Refine.{encode, encoded, Refines}
use retcd.Store.Refine.Codec.{length-encode, dec64_mod}
use retcd.Store.Refine.Events.{StoredOption, exact-StoredOption, txn_blob}
use retcd.Store.Refine.Agree.{put-Agrees_eq}
use retcd.Store.Refine.Write.Spec.{room, current_is, rev_is, revision_read}

module _ (R : Redis) where
  open R use {Db, get, set, incr, zadd, xadd}

  module _ (db : Db) (s : Shape) (key value : Bytes) (current : Option Bytes) (lease : ℕ)
      (h : Has R db s) (fits : suc s.counter < 2 ^ 63) where
    abbrev pub txn_rev : ℕ
    txn_rev = (incr db revision_key).0

    abbrev pub txn_new_blob : Bytes
    txn_new_blob =
        make_blob (txn_create_rev current txn_rev) txn_rev (txn_version current) lease value

    abbrev pub txn_stored : Db
    txn_stored = zadd (set (incr db revision_key).1 (redis_key key) txn_new_blob) key_index key

    abbrev pub txn_sid : Bytes
    txn_sid = (xadd txn_stored event_stream (put_fields key txn_rev txn_new_blob current)).0

    -- The key sets of the leases stay as they were.
    pub txn_put-Has : Has R (txn_put R key current value lease db).1 (record {
      counter = suc s.counter;
      blobs = update s.blobs key (some txn_new_blob);
      members = put_in_order key s.members;
      entries =
          s.entries
          ++ record { id = txn_sid; values = put_fields key txn_rev txn_new_blob current } ∷ [];
      leases = s.leases;
      others = s.others;
    })
    unfolding txn_put
    txn_put-Has =
        xadd-Has R txn_stored _ (put_fields key txn_rev txn_new_blob current)
          (zadd-Has R _ _ key (set-Has R _ _ key txn_new_blob (incr-Has R db s h fits)))

reply_eq :
    {rev rev' : ℕ} {prev blob blob' sid : Bytes}
    → rev ≡ rev'
    → blob ≡ blob'
    → result (int 1 ∷ str prev ∷ str (decimal rev) ∷ str blob ∷ str sid ∷ [])
      ≡ result (int 1 ∷ str prev ∷ str (decimal rev') ∷ str blob' ∷ str sid ∷ [])
reply_eq p q = cc

-- What a swap comes to.
pub record Swaps (R : Redis) (m : Mvcc) (key value : Bytes) (lease : ℕ) (out : Returned × R.Db)
    : Type 0 where
  pub sid : Bytes
  pub named : str_eq sid [] ≡ false
  pub returned :
      out.0
      ≡ result (
          int 1
          ∷ str (or_blank (encoded (m.at key)))
          ∷ str (decimal (suc m.revision))
          ∷ str (encode (next_kv key value lease (suc m.revision) (m.at key)))
          ∷ str sid
          ∷ [])
  pub refines : Refines R out.1 (put key value lease sid m)

compare_passes-encoded :
    (key : Bytes) (expected : ℤ) (o : Option KeyValue)
    → StoredOption key o
    → compare_passes expected (encoded o) ≡ passes expected o
unfolding compare_passes passes
compare_passes-encoded key expected none h = ground arith
compare_passes-encoded key expected (some kv) h =
    ground (arith, length-encode kv, dec64_mod kv h.fits)

module _ (R : Redis) (db : R.Db) (m : Mvcc) (r : Refines R db m) (x : IsExact m) (key : Bytes) where
  blob_is :
      (value : Bytes) (lease : ℕ)
      → make_blob
          (txn_create_rev (encoded (m.at key)) (R.incr db revision_key).0)
          (R.incr db revision_key).0
          (txn_version (encoded (m.at key)))
          lease
          value
        ≡ encode (next_kv key value lease (suc m.revision) (m.at key))
  blob_is value lease =
      ap
        (λ n.
          make_blob (txn_create_rev (encoded (m.at key)) n) n (txn_version (encoded (m.at key)))
            lease value)
        (rev_is R db m r x key)
      ∙ txn_blob key value lease (suc m.revision) (m.at key) (exact-StoredOption m key x)

  txn_put-Swaps :
      (value : Bytes) (lease : ℕ)
      → lease < 2 ^ 63
      → Swaps R m key value lease (txn_put R key (encoded (m.at key)) value lease db)
  txn_put-Swaps value lease fits = record {
    sid = txn_sid R db r.shape key value (encoded (m.at key)) lease r.has (room R db m r x key);
    named = R.xadd-id_ne _ _ _;
    returned = unfold txn_put in reply_eq (rev_is R db m r x key) (blob_is value lease);
    refines = record {
      shape = _;
      has =
          txn_put-Has R db r.shape key value (encoded (m.at key)) lease r.has (room R db m r x key);
      agrees =
          put-Agrees_eq r.shape m r.agrees x key _ value lease fits _ _ _ _ _
            (ap suc r.agrees.revision) (rev_is R db m r x key) refl (blob_is value lease);
    };
  }

  clamped : clamped_revision R db ≡ (if ltb m.revision 1 then 1 else m.revision)
  clamped = ap (λ n. if ltb n 1 then 1 else n) (revision_read R db m r x key)

  pub compared :
      (expected : ℤ)
      → compare_passes expected (R.get db (redis_key key)) ≡ passes expected (m.at key)
  compared expected =
      ap (compare_passes expected) (current_is R db m r x key)
      ∙ compare_passes-encoded key expected (m.at key) (exact-StoredOption m key x)

  pub txn_script-passed :
      (expected : ℤ) (value : Bytes) (lease : ℕ)
      → passes expected (m.at key) ≡ true
      → txn_script R (redis_key key) expected value put_op lease db
        ≡ txn_put R key (encoded (m.at key)) value lease db
  unfolding txn_script str_eq
  txn_script-passed expected value lease pass =
      rw (compared expected ∙ pass) (rw (current_is R db m r x key) refl)

  -- A compare-and-swap by txn.lua with op PUT writes exactly when the specification's compare
  -- passes; it then does what a put does. Otherwise it returns the current blob and the revision that
  -- clients see, and leaves the database as it is.
  pub txn_script-Swaps :
      (expected : ℤ) (value : Bytes) (lease : ℕ)
      → lease < 2 ^ 63
      → (passes expected (m.at key) ≡ true
          → Swaps R m key value lease (txn_script R (redis_key key) expected value put_op lease db))
        × (passes expected (m.at key) ≡ false
            → txn_script R (redis_key key) expected value put_op lease db ≡ (
              result (
                  int 0
                  ∷ str (or_blank (encoded (m.at key)))
                  ∷ str (decimal (if ltb m.revision 1 then 1 else m.revision))
                  ∷ []),
              db,
            ))
  unfolding txn_script str_eq
  txn_script-Swaps expected value lease fits = (
    λ pass.
        rw (compared expected ∙ pass)
          (rw (current_is R db m r x key) (txn_put-Swaps value lease fits)),
    λ fail. rw (compared expected ∙ fail) (rw (current_is R db m r x key) (rw clamped)),
  )
