-- ===== src/Store/Refine/Agree.antt =====
-- The state after a write agrees with the specification's, key by key.
use retcd.Prelude.{
  ℕ, suc, ◌<◌, ◌^◌, ◌≡◌, refl, List, [], ◌∷◌, ◌++◌, Option, none, some, arith, ap, ◌∙◌,
}
use retcd.Bytes.{Bytes}
use retcd.Redis.{without, put_in_order}
use retcd.Store.Blob.{KeyValue}
use retcd.Store.Event.{parse_stream_event}
use retcd.Store.Event.Agree.{parse-put_fields, parse-delete_fields}
use retcd.Store.Script.{put_fields, delete_fields}
use retcd.Store.Keyspace.{Shape, update}
use retcd.Store.Mvcc.{Mvcc, IsExact, next_kv, put, delete, put_event, delete_event}
use retcd.Store.Refine.{encode, encoded, Agrees}
use retcd.Store.Refine.Index.{put_in_order-IsOrdered, without-IsOrdered}
use retcd.Store.Refine.Codec.{contains-put_in_order, contains-without, parse_all-snoc}
use retcd.Store.Refine.Events.{IsStored, exact-StoredOption, make_event-next, make_event-delete}

module _ (s : Shape) (m : Mvcc) (a : Agrees s m) (x : IsExact m) (key sid : Bytes) where
  module _ (value : Bytes) (lease : ℕ) (fits : lease < 2 ^ 63) where
    abbrev pub new_kv : KeyValue
    new_kv = next_kv key value lease (suc m.revision) (m.at key)

    put_parses :
        parse_stream_event (record {
          id = sid;
          values = put_fields key (suc m.revision) (encode new_kv) (encoded (m.at key));
        })
        ≡ some (put_event key new_kv (m.at key) sid)
    put_parses =
        parse-put_fields key (suc m.revision) (encode new_kv) sid (encoded (m.at key))
          (omega (arith, x.room))
        ∙ ap some (make_event-next m key value sid lease x fits)

    pub put-Agrees :
        (ls : ℕ → List Bytes)
        → Agrees
            (record {
              counter = suc m.revision;
              blobs = update s.blobs key (some (encode new_kv));
              members = put_in_order key s.members;
              entries =
                  s.entries
                  ++ record {
                    id = sid;
                    values = put_fields key (suc m.revision) (encode new_kv) (encoded (m.at key));
                  }
                    ∷ [];
              leases = ls;
              others = s.others;
            })
            (put key value lease sid m)
    unfolding put
    put-Agrees ls = record {
      revision = refl;
      blobs = λ k. ground (arith, a.blobs k);
      indexed = λ k. contains-put_in_order k key s.members ∙ ground (arith, a.indexed k);
      ordered = put_in_order-IsOrdered key s.members a.ordered;
      history =
          parse_all-snoc s.entries _ _ put_parses
          ∙ ap (λ h. h ++ put_event key new_kv (m.at key) sid ∷ []) a.history;
    }

    -- The same for a counter, a revision, a pre-image and a blob that are equal to these.
    pub put-Agrees_eq :
        (c rev : ℕ) (current : Option Bytes) (blob : Bytes) (ls : ℕ → List Bytes)
        → c ≡ suc m.revision
        → rev ≡ suc m.revision
        → current ≡ encoded (m.at key)
        → blob ≡ encode new_kv
        → Agrees
            (record {
              counter = c;
              blobs = update s.blobs key (some blob);
              members = put_in_order key s.members;
              entries =
                  s.entries ++ record { id = sid; values = put_fields key rev blob current } ∷ [];
              leases = ls;
              others = s.others;
            })
            (put key value lease sid m)
    put-Agrees_eq c rev current blob ls ec er ep eb = rw (ec, er, ep, eb) (put-Agrees ls)

  module _ (prev : KeyValue) (there : m.at key ≡ some prev) where
    delete_parses :
        parse_stream_event
          (record { id = sid; values = delete_fields key (suc m.revision) (encode prev) })
        ≡ some (delete_event key (suc m.revision) prev sid)
    delete_parses =
        parse-delete_fields key (suc m.revision) (encode prev) sid (omega (arith, x.room))
        ∙ ap some (make_event-delete key sid (suc m.revision) prev stored)
      where
        stored : IsStored key prev
        stored = rw there at (exact-StoredOption m key x)

    pub delete-Agrees :
        (ls : ℕ → List Bytes)
        → Agrees
            (record {
              counter = suc m.revision;
              blobs = update s.blobs key none;
              members = without key s.members;
              entries =
                  s.entries
                  ++ record { id = sid; values = delete_fields key (suc m.revision) (encode prev) }
                    ∷ [];
              leases = ls;
              others = s.others;
            })
            (delete key prev sid m)
    unfolding delete
    delete-Agrees ls = record {
      revision = refl;
      blobs = λ k. ground (arith, a.blobs k);
      indexed = λ k. contains-without k key s.members ∙ ground (arith, a.indexed k);
      ordered = without-IsOrdered key s.members a.ordered;
      history =
          parse_all-snoc s.entries _ _ delete_parses
          ∙ ap (λ h. h ++ delete_event key (suc m.revision) prev sid ∷ []) a.history;
    }

    pub delete-Agrees_eq :
        (c rev : ℕ) (raw : Bytes) (ls : ℕ → List Bytes)
        → c ≡ suc m.revision
        → rev ≡ suc m.revision
        → raw ≡ encode prev
        → Agrees
            (record {
              counter = c;
              blobs = update s.blobs key none;
              members = without key s.members;
              entries = s.entries ++ record { id = sid; values = delete_fields key rev raw } ∷ [];
              leases = ls;
              others = s.others;
            })
            (delete key prev sid m)
    delete-Agrees_eq c rev raw ls ec er eb = rw (ec, er, eb) (delete-Agrees ls)
