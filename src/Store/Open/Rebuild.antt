-- ===== src/Store/Open/Rebuild.antt =====
-- The key index of an older database, and of one that needs no migration.
use retcd.Prelude.{◌≡◌, refl, false, ◌||◌, List, [], ◌∷◌, some, is_some, arith, ap, ◌∙◌, sym}
use retcd.Bytes.{Bytes}
use retcd.Bytes.Order.{str_eq_refl}
use retcd.Redis.{Redis, set, as_zset, as_set, contains, put_in_order, is_set}
use retcd.Store.Script.{key_index}
use retcd.Store.Keyspace.{Shape, Has, zadd-Has}
use retcd.Store.Mvcc.{Mvcc}
use retcd.Store.Refine.{encoded, parse_all, Refines}
use retcd.Store.Refine.Index.{IsOrdered, put_in_order-IsOrdered}
use retcd.Store.Refine.Codec.{contains-put_in_order}
use retcd.Store.Client.{range_failed, ok, World, pure}
use retcd.Store.Client.Reads.{call-read}
use retcd.Store.Lease.{ignoring, ◌⨟◌}
use retcd.Store.Lease.Revoke.{command-answered}
use retcd.Store.Open.{zadd_all, add_members, rebuild_index, migrate_key_index}

module _ (R : Redis) where
  -- A database of an older version: all is as it should be but for the key index, which is a set.
  pub record IsLegacy (db : R.Db) (m : Mvcc) : Type 0 where
    pub shape : Shape
    pub has : Has R (R.del db key_index) shape
    pub revision : shape.counter ≡ m.revision
    pub blobs : (k : Bytes) → shape.blobs k ≡ encoded (m.at k)
    pub history : parse_all shape.entries ≡ m.history
    pub members : List Bytes
    pub index : R.value db key_index ≡ set members
    pub indexed : (k : Bytes) → contains k members ≡ is_some (m.at k)

  put_all : List Bytes → List Bytes → List Bytes
  put_all [] zs = zs
  put_all (m ∷ ms) zs = put_all ms (put_in_order m zs)

  put_all-IsOrdered : (ms zs : List Bytes) → IsOrdered zs → IsOrdered (put_all ms zs)
  unfolding put_all
  put_all-IsOrdered [] zs o = o
  put_all-IsOrdered (m ∷ ms) zs o =
      put_all-IsOrdered ms (put_in_order m zs) (put_in_order-IsOrdered m zs o)

  contains-put_all :
      (k : Bytes) (ms zs : List Bytes)
      → contains k (put_all ms zs) ≡ (contains k ms || contains k zs)
  unfolding put_all contains
  contains-put_all k [] zs = refl
  contains-put_all k (m ∷ ms) zs =
      ground (arith, contains-put_all k ms (put_in_order m zs), contains-put_in_order k m zs)

  zadd_all-Has :
      (ms : List Bytes) (db : R.Db) (s : Shape)
      → Has R db s
      → Has R (zadd_all R ms db) (record s { members = put_all ms s.members })
  unfolding put_all zadd_all
  zadd_all-Has [] db s h = h
  zadd_all-Has (m ∷ ms) db s h =
      zadd_all-Has ms (R.zadd db key_index m) (record s { members = put_in_order m s.members })
        (zadd-Has R db s m h)

  pub rebuilt : R.Db → R.Db
  rebuilt db = zadd_all R (R.smembers db key_index) (R.del db key_index)

  pub rebuilt-Refines : (db : R.Db) (m : Mvcc) → IsLegacy db m → Refines R (rebuilt db) m
  unfolding rebuilt contains
  rebuilt-Refines db m l =
      let s = l.shape in
      let ms = R.smembers db key_index in
      let gone : as_zset (R.value (R.del db key_index) key_index) ≡ some [] =
        ap as_zset (R.value-del db key_index key_index) ∙ rw (str_eq_refl key_index) refl in
      let bare : s.members ≡ [] =
        (let e : some s.members ≡ some [] = sym l.has.index ∙ gone in cc) in
      record {
        shape = record s { members = put_all ms s.members };
        has = zadd_all-Has ms (R.del db key_index) s l.has;
        agrees = record {
          revision = l.revision;
          blobs = l.blobs;
          indexed = λ k.
              contains-put_all k ms s.members
              ∙ (ap (λ zs. contains k ms || contains k zs) bare
                  ∙ ground (
                    arith,
                    R.smembers-value db key_index k l.members (ap as_set l.index),
                    l.indexed k,
                  ));
          ordered = rw bare (put_all-IsOrdered ms [] tt);
          history = l.history;
        };
      }

  add_members-run :
      (ms : List Bytes) (w : World R)
      → w.fates ≡ []
      → add_members R ms w ≡ (ok tt, record w { db = zadd_all R ms w.db })
  unfolding pure zadd_all
  add_members-run [] w calm = refl
  add_members-run (m ∷ ms) w calm = command-answered R range_failed (zadd_all R (m ∷ ms)) w calm

  pub migrate-run :
      (w : World R) (members : List Bytes)
      → R.value w.db key_index ≡ set members
      → w.fates ≡ []
      → migrate_key_index R w ≡ (ok tt, record w { db = rebuilt w.db })
  unfolding migrate_key_index ignoring rebuild_index ◌⨟◌ rebuilt
  migrate-run w members there calm =
      rw
        (
          call-read R range_failed (λ db. R.is_set_at db key_index) w calm,
          R.is_set_at-value w.db key_index,
          there,
          call-read R range_failed (λ db. R.smembers db key_index) w calm,
          command-answered R range_failed (λ db. R.del db key_index) w calm,
          add_members-run (R.smembers w.db key_index) (record w { db = R.del w.db key_index }) calm,
        )
        refl

  pub migrate-idle :
      (w : World R)
      → is_set (R.value w.db key_index) ≡ false
      → w.fates ≡ []
      → migrate_key_index R w ≡ (ok tt, w)
  unfolding migrate_key_index ignoring pure
  migrate-idle w other calm =
      rw
        (
          call-read R range_failed (λ db. R.is_set_at db key_index) w calm,
          R.is_set_at-value w.db key_index,
          other,
        )
        refl
