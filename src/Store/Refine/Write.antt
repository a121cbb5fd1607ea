-- ===== src/Store/Refine/Write.antt =====
-- store/write.lua, command by command: what it leaves in each of the store's keys.
pub mod Spec
use retcd.Prelude.{
  ℕ, suc, ◌+◌, ◌≤◌, ◌<◌, ◌^◌, ◌≡◌, refl, Bool, true, false, List, [], ◌∷◌, ◌++◌, Option, none, some,
  arith, ap, sym, ◌∙◌, if◌then◌else◌, inl, inr, Bool-cases, ◌==◌,
}
use retcd.Bytes.{Bytes, str_eq}
use retcd.Decimal.{decimal}
use retcd.Decimal.RoundTrip.{parse_int-decimal}
use retcd.Redis.{Redis, without, put_in_order}
use retcd.Store.Blob.{KeyValue, make_blob}
use retcd.Store.Event.{put_op, delete_op}
use retcd.Store.Script.{
  Returned, result, str, revision_key, event_stream, key_index, redis_key, lease_keys_key, or_blank,
  blob_field, number_or_zero, put_fields, delete_fields, write_create_rev, write_version, detach,
  attach, write_put, write_delete, write_script,
}
use retcd.Store.Keyspace.{
  Shape, Has, update, update_lease, get-Has, get_revision-Has, set-Has, del-Has, incr-counter,
  incr-Has, zadd-Has, zrem-Has, sadd-Has, srem-Has, xadd-Has,
}
use retcd.Store.Mvcc.{Mvcc, IsExact, next_kv, put, delete}
use retcd.Store.Refine.{encode, encoded, Agrees, Refines}
use retcd.Store.Refine.Events.{exact-StoredOption, write_blob}
use retcd.Store.Refine.Agree.{put-Agrees, delete-Agrees}

-- The key sets of the leases after the two conditional steps of the script.
abbrev pub detached : Bytes → ℕ → (ℕ → List Bytes) → ℕ → List Bytes
detached key cur ls = if cur == 0 then ls else update_lease ls cur (without key (ls cur))

abbrev pub attached : Bytes → ℕ → (ℕ → List Bytes) → ℕ → List Bytes
attached key lease ls =
    if lease == 0 then ls else update_lease ls lease (key ∷ without key (ls lease))

abbrev pub relinked : Bytes → ℕ → ℕ → (ℕ → List Bytes) → ℕ → List Bytes
relinked key cur lease ls = attached key lease (if cur == lease then ls else detached key cur ls)

module _ (R : Redis) where
  open R use {Db, get, set, del, incr, zadd, zrem, xadd}

  detach-Has :
      (db : Db) (s : Shape) (key : Bytes) (cur : ℕ)
      → Has R db s
      → Has R (detach R key cur db) (record s { leases = detached key cur s.leases })
  unfolding detach
  detach-Has db s key cur h = elim (Bool-cases (cur == 0)) [
    | inl e ↦ rw e h
    | inr e ↦ rw e (srem-Has R db s cur key h)
  ]

  attach-Has :
      (db : Db) (s : Shape) (key : Bytes) (lease : ℕ)
      → Has R db s
      → Has R (attach R key lease db) (record s { leases = attached key lease s.leases })
  unfolding attach
  attach-Has db s key lease h = elim (Bool-cases (lease == 0)) [
    | inl e ↦ rw e h
    | inr e ↦ rw e (sadd-Has R db s lease key h)
  ]

  relink-Has :
      (db : Db) (s : Shape) (key : Bytes) (cur lease : ℕ)
      → Has R db s
      → Has R
          (attach R key lease (if cur == lease then db else detach R key cur db))
          (record s { leases = relinked key cur lease s.leases })
  relink-Has db s key cur lease h = elim (Bool-cases (cur == lease)) [
    | inl e ↦ rw e (attach-Has db s key lease h)
    | inr e ↦ rw e (attach-Has _ _ key lease (detach-Has db s key cur h))
  ]

  module _ (db : Db) (s : Shape) (key value : Bytes) (current : Option Bytes) (lease : ℕ)
      (h : Has R db s) (room : suc s.counter < 2 ^ 63) where
    abbrev pub new_rev : ℕ
    new_rev = (incr db revision_key).0

    abbrev pub new_blob : Bytes
    new_blob =
        make_blob (write_create_rev current new_rev) new_rev (write_version current) lease value

    abbrev pub stored : Db
    stored = zadd (set (incr db revision_key).1 (redis_key key) new_blob) key_index key

    abbrev pub linked : Db
    linked = attach R key lease (
        if blob_field current 24 == lease
        then stored
        else detach R key (blob_field current 24) stored)

    abbrev pub put_sid : Bytes
    put_sid = (xadd linked event_stream (put_fields key new_rev new_blob current)).0

    pub write_put-Has : Has R (write_put R key current value lease db).1 (record {
      counter = suc s.counter;
      blobs = update s.blobs key (some new_blob);
      members = put_in_order key s.members;
      entries =
          s.entries
          ++ record { id = put_sid; values = put_fields key new_rev new_blob current } ∷ [];
      leases = relinked key (blob_field current 24) lease s.leases;
      others = s.others;
    })
    unfolding write_put
    write_put-Has = xadd-Has R linked _ (put_fields key new_rev new_blob current) (
        relink-Has stored _ key (blob_field current 24) lease
          (zadd-Has R _ _ key (set-Has R _ _ key new_blob (incr-Has R db s h room))))

  module _ (db : Db) (s : Shape) (key raw : Bytes) (h : Has R db s)
      (room : suc s.counter < 2 ^ 63) where
    abbrev pub delete_rev : ℕ
    delete_rev = (incr db revision_key).0

    abbrev pub unlinked : Db
    unlinked =
        detach R key (blob_field (some raw) 24)
          (zrem (del (incr db revision_key).1 (redis_key key)) key_index key)

    abbrev pub delete_sid : Bytes
    delete_sid = (xadd unlinked event_stream (delete_fields key delete_rev raw)).0

    pub write_delete-Has : Has R (write_delete R key (some raw) db).1 (record {
      counter = suc s.counter;
      blobs = update s.blobs key none;
      members = without key s.members;
      entries =
          s.entries ++ record { id = delete_sid; values = delete_fields key delete_rev raw } ∷ [];
      leases = detached key (blob_field (some raw) 24) s.leases;
      others = s.others;
    })
    unfolding write_delete
    write_delete-Has = xadd-Has R unlinked _ (delete_fields key delete_rev raw) (
        detach-Has _ _ key (blob_field (some raw) 24)
          (zrem-Has R _ _ key (del-Has R _ _ key (incr-Has R db s h room))))
