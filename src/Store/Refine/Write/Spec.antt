-- ===== src/Store/Refine/Write/Spec.antt =====
-- store/write.lua does what the specification says.
use retcd.Prelude.{ℕ, suc, ◌<◌, ◌^◌, ◌≡◌, refl, false, [], ◌∷◌, none, some, arith, ap, ◌∙◌}
use retcd.Bytes.{Bytes, str_eq}
use retcd.Decimal.{decimal}
use retcd.Decimal.RoundTrip.{parse_int-decimal}
use retcd.Redis.{Redis}
use retcd.Store.Blob.{KeyValue, make_blob}
use retcd.Store.Event.{put_op, delete_op}
use retcd.Store.Script.{
  Returned, result, str, revision_key, redis_key, or_blank, number_or_zero, write_create_rev,
  write_version, write_put, write_delete, write_script,
}
use retcd.Store.Keyspace.{get-Has, get_revision-Has, incr-counter}
use retcd.Store.Mvcc.{Mvcc, IsExact, next_kv, put, delete}
use retcd.Store.Refine.{encode, encoded, Refines}
use retcd.Store.Refine.Events.{exact-StoredOption, write_blob}
use retcd.Store.Refine.Agree.{put-Agrees_eq, delete-Agrees_eq}
use retcd.Store.Refine.Write.{put_sid, delete_sid, write_put-Has, write_delete-Has}

reply_eq :
    {rev rev' : ℕ} {prev blob blob' sid : Bytes}
    → rev ≡ rev'
    → blob ≡ blob'
    → result (str (decimal rev) ∷ str prev ∷ str blob ∷ str sid ∷ [])
      ≡ result (str (decimal rev') ∷ str prev ∷ str blob' ∷ str sid ∷ [])
reply_eq p q = cc

number_or_zero-decimal : (n : ℕ) → n < 2 ^ 63 → number_or_zero (some (decimal n)) ≡ n
number_or_zero-decimal n h = ground (arith, parse_int-decimal n h)

-- What a PUT by the script comes to: its result, and the state behind it.
pub record Puts (R : Redis) (m : Mvcc) (key value : Bytes) (lease : ℕ) (out : Returned × R.Db)
    : Type 0 where
  pub sid : Bytes
  pub named : str_eq sid [] ≡ false
  pub returned :
      out.0
      ≡ result (
          str (decimal (suc m.revision))
          ∷ str (or_blank (encoded (m.at key)))
          ∷ str (encode (next_kv key value lease (suc m.revision) (m.at key)))
          ∷ str sid
          ∷ [])
  pub refines : Refines R out.1 (put key value lease sid m)

pub record Deletes (R : Redis) (m : Mvcc) (key : Bytes) (prev : KeyValue) (out : Returned × R.Db)
    : Type 0 where
  pub sid : Bytes
  pub named : str_eq sid [] ≡ false
  pub returned :
      out.0 ≡ result (str (decimal (suc m.revision)) ∷ str (encode prev) ∷ str [] ∷ str sid ∷ [])
  pub refines : Refines R out.1 (delete key prev sid m)

module _ (R : Redis) (db : R.Db) (m : Mvcc) (r : Refines R db m) (x : IsExact m) (key : Bytes) where
  pub room : suc r.shape.counter < 2 ^ 63
  room = omega (arith, x.room, r.agrees.revision)

  pub current_is : R.get db (redis_key key) ≡ encoded (m.at key)
  current_is = get-Has R db r.shape key r.has ∙ r.agrees.blobs key

  pub rev_is : (R.incr db revision_key).0 ≡ suc m.revision
  rev_is = incr-counter R db r.shape r.has room ∙ ap suc r.agrees.revision

  blob_is :
      (value : Bytes) (lease : ℕ)
      → make_blob
          (write_create_rev (encoded (m.at key)) (R.incr db revision_key).0)
          (R.incr db revision_key).0
          (write_version (encoded (m.at key)))
          lease
          value
        ≡ encode (next_kv key value lease (suc m.revision) (m.at key))
  blob_is value lease =
      ap
        (λ n.
          make_blob (write_create_rev (encoded (m.at key)) n) n (write_version (encoded (m.at key)))
            lease value)
        rev_is
      ∙ write_blob key value lease (suc m.revision) (m.at key) (exact-StoredOption m key x)

  pub revision_read : number_or_zero (R.get db revision_key) ≡ m.revision
  revision_read =
      ap number_or_zero (get_revision-Has R db r.shape r.has)
      ∙ (number_or_zero-decimal r.shape.counter (omega (arith, room)) ∙ r.agrees.revision)

  write_put-Puts :
      (value : Bytes) (lease : ℕ)
      → lease < 2 ^ 63
      → Puts R m key value lease (write_put R key (encoded (m.at key)) value lease db)
  write_put-Puts value lease fits = record {
    sid = put_sid R db r.shape key value (encoded (m.at key)) lease r.has room;
    named = R.xadd-id_ne _ _ _;
    returned = (unfold write_put in reply_eq rev_is (blob_is value lease));
    refines = record {
      shape = _;
      has = write_put-Has R db r.shape key value (encoded (m.at key)) lease r.has room;
      agrees =
          put-Agrees_eq r.shape m r.agrees x key _ value lease fits _ _ _ _ _
            (ap suc r.agrees.revision) rev_is refl (blob_is value lease);
    };
  }

  write_delete-Deletes :
      (prev : KeyValue)
      → m.at key ≡ some prev
      → Deletes R m key prev (write_delete R key (some (encode prev)) db)
  write_delete-Deletes prev there = record {
    sid = delete_sid R db r.shape key (encode prev) r.has room;
    named = R.xadd-id_ne _ _ _;
    returned = unfold write_delete in reply_eq rev_is refl;
    refines = record {
      shape = _;
      has = write_delete-Has R db r.shape key (encode prev) r.has room;
      agrees =
          delete-Agrees_eq r.shape m r.agrees x key _ prev there _ _ _ _ (ap suc r.agrees.revision)
            rev_is refl;
    };
  }

  -- A PUT by write.lua makes the next revision: it returns that revision, the overwritten blob and
  -- the new one, and leaves the database in the state of the specification's put, with one event.
  pub write_script-Puts :
      (value : Bytes) (lease : ℕ)
      → lease < 2 ^ 63
      → Puts R m key value lease (write_script R (redis_key key) put_op value lease db)
  unfolding write_script str_eq
  write_script-Puts value lease fits = rw current_is (write_put-Puts value lease fits)

  -- A DELETE by write.lua of a key that is there does what the specification's delete does; of an
  -- absent key it returns the current revision and no stream ID, and leaves the database as it is.
  pub write_script-Deletes :
      ((prev : KeyValue)
        → m.at key ≡ some prev
        → Deletes R m key prev (write_script R (redis_key key) delete_op [] 0 db))
      × (m.at key ≡ none
          → write_script R (redis_key key) delete_op [] 0 db
            ≡ (result (str (decimal m.revision) ∷ str [] ∷ str [] ∷ str [] ∷ []), db))
  unfolding write_script str_eq
  write_script-Deletes = (
    λ prev there. rw current_is (rw there (write_delete-Deletes prev there)),
    λ gone. rw current_is (rw gone (unfold write_delete in absent_reply)),
  )
    where
      absent_reply :
          ◌≡◌ {A = Returned × R.Db}
            (
              result (
                  str (decimal (number_or_zero (R.get db revision_key)))
                  ∷ str []
                  ∷ str []
                  ∷ str []
                  ∷ []),
              db,
            )
            (result (str (decimal m.revision) ∷ str [] ∷ str [] ∷ str [] ∷ []), db)
      absent_reply =
          ap (λ n. (result (str (decimal n) ∷ str [] ∷ str [] ∷ str [] ∷ []), db)) revision_read
