-- ===== src/Store/Keyspace.antt =====
-- The Redis keys of the store, read as one state: the counter, the blobs, the key index, the event
-- stream and the key sets of the leases. `Has` relates a database to it, and each command that the
-- scripts run keeps the relation.
pub mod Apart
use retcd.Prelude.{
  ℕ, suc, ◌^◌, ◌<◌, ◌≡◌, refl, List, [], ◌∷◌, ◌++◌, Option, none, some, if◌then◌else◌, arith, ◌∙◌,
  false, ap,
}
use retcd.Bytes.{Bytes, str_eq}
use retcd.Bytes.Order.{str_eq_sym}
use retcd.Decimal.{decimal}
use retcd.Decimal.RoundTrip.{parse_int-decimal}
use retcd.Redis.{
  Redis, Value, absent, string, as_zset, as_set, as_stream, as_counter, counter_text, zset_value,
  set_value, without, put_in_order,
}
use Apart.{IsApart}
use retcd.Store.Event.{XMessage, Fields}
use retcd.Store.Script.{revision_key, event_stream, key_index, redis_key, lease_keys_key}

pub record Shape : Type 0 where
  pub counter : ℕ
  pub blobs : Bytes → Option Bytes
  pub members : List Bytes
  pub entries : List XMessage
  pub leases : ℕ → List Bytes
  pub others : Bytes → Value

abbrev pub blob_value : Option Bytes → Value
blob_value none = absent
blob_value (some raw) = string raw

-- m[k] = v, and delete(m, k)
abbrev pub update : (Bytes → Option Bytes) → Bytes → Option Bytes → Bytes → Option Bytes
update m k o j = if str_eq k j then o else m j

abbrev pub update_lease : (ℕ → List Bytes) → ℕ → List Bytes → ℕ → List Bytes
update_lease m id ms n = if str_eq (lease_keys_key id) (lease_keys_key n) then ms else m n

as_zset-zset_value : (ms : List Bytes) → as_zset (zset_value ms) ≡ some ms
as_zset-zset_value [] = refl
as_zset-zset_value (m ∷ ms) = refl

as_set-set_value : (ms : List Bytes) → as_set (set_value ms) ≡ some ms
as_set-set_value [] = refl
as_set-set_value (m ∷ ms) = refl

as_counter-decimal : (n : ℕ) → n < 2 ^ 63 → as_counter (string (decimal n)) ≡ some n
as_counter-decimal n h = ap counter_text (parse_int-decimal n h)

module _ (R : Redis) where
  open R use {
    Db, value, get, set, del, incr, zadd, zrem, sadd, srem, xadd, get-value, value-set, value-del,
    incr-value, value-incr, value-zadd, value-zrem, value-sadd, value-srem, value-xadd,
  }

  pub record Has (db : Db) (s : Shape) : Type 0 where
    pub counter : value db revision_key ≡ string (decimal s.counter)
    pub blobs : (k : Bytes) → value db (redis_key k) ≡ blob_value (s.blobs k)
    pub index : as_zset (value db key_index) ≡ some s.members
    pub log : as_stream (value db event_stream) ≡ some s.entries
    pub leases : (n : ℕ) → as_set (value db (lease_keys_key n)) ≡ some (s.leases n)
    pub others : (k : Bytes) → IsApart k → value db k ≡ s.others k

  pub get-Has : (db : Db) (s : Shape) (k : Bytes) → Has db s → get db (redis_key k) ≡ s.blobs k
  get-Has db s k h = get-value db (redis_key k) (s.blobs k) (ground (arith, h.blobs k))

  pub get_revision-Has :
      (db : Db) (s : Shape) → Has db s → get db revision_key ≡ some (decimal s.counter)
  get_revision-Has db s h =
      get-value db revision_key (some (decimal s.counter)) (ground (arith, h.counter))

  pub set-Has :
      (db : Db) (s : Shape) (k v : Bytes)
      → Has db s
      → Has (set db (redis_key k) v) (record s { blobs = update s.blobs k (some v) })
  unfolding str_eq
  set-Has db s k v h = record {
    counter = value-set db (redis_key k) v revision_key ∙ h.counter;
    blobs = λ j. value-set db (redis_key k) v (redis_key j) ∙ ground (arith, h.blobs j);
    index = ap as_zset (value-set db (redis_key k) v key_index) ∙ h.index;
    log = ap as_stream (value-set db (redis_key k) v event_stream) ∙ h.log;
    leases = λ n. ap as_set (value-set db (redis_key k) v (lease_keys_key n)) ∙ h.leases n;
    others = λ j a. value-set db (redis_key k) v j ∙ rw (a.blobs k) (h.others j a);
  }

  pub del-Has :
      (db : Db) (s : Shape) (k : Bytes)
      → Has db s
      → Has (del db (redis_key k)) (record s { blobs = update s.blobs k none })
  unfolding str_eq
  del-Has db s k h = record {
    counter = value-del db (redis_key k) revision_key ∙ h.counter;
    blobs = λ j. value-del db (redis_key k) (redis_key j) ∙ ground (arith, h.blobs j);
    index = ap as_zset (value-del db (redis_key k) key_index) ∙ h.index;
    log = ap as_stream (value-del db (redis_key k) event_stream) ∙ h.log;
    leases = λ n. ap as_set (value-del db (redis_key k) (lease_keys_key n)) ∙ h.leases n;
    others = λ j a. value-del db (redis_key k) j ∙ rw (a.blobs k) (h.others j a);
  }

  module _ (db : Db) (s : Shape) (h : Has db s) (b : suc s.counter < 2 ^ 63) where
    counter_read : as_counter (value db revision_key) ≡ some s.counter
    counter_read = ap as_counter h.counter ∙ as_counter-decimal s.counter (omega arith)

    value_incr :
        (j : Bytes)
        → value (incr db revision_key).1 j
          ≡ (if str_eq revision_key j then string (decimal (suc s.counter)) else value db j)
    value_incr j = value-incr db revision_key j s.counter counter_read b

    pub incr-counter : (incr db revision_key).0 ≡ suc s.counter
    incr-counter = incr-value db revision_key s.counter counter_read b

    pub incr-Has : Has (incr db revision_key).1 (record s { counter = suc s.counter })
    unfolding str_eq
    incr-Has = record {
      counter = value_incr revision_key;
      blobs = λ j. value_incr (redis_key j) ∙ h.blobs j;
      index = ap as_zset (value_incr key_index) ∙ h.index;
      log = ap as_stream (value_incr event_stream) ∙ h.log;
      leases = λ n. ap as_set (value_incr (lease_keys_key n)) ∙ h.leases n;
      others = λ j a. value_incr j ∙ rw a.counter (h.others j a);
    }

  pub zadd-Has :
      (db : Db) (s : Shape) (m : Bytes)
      → Has db s
      → Has (zadd db key_index m) (record s { members = put_in_order m s.members })
  unfolding str_eq
  zadd-Has db s m h = record {
    counter = value-zadd db key_index m revision_key s.members h.index ∙ h.counter;
    blobs = λ j. value-zadd db key_index m (redis_key j) s.members h.index ∙ h.blobs j;
    index =
        ap as_zset (value-zadd db key_index m key_index s.members h.index)
        ∙ as_zset-zset_value (put_in_order m s.members);
    log = ap as_stream (value-zadd db key_index m event_stream s.members h.index) ∙ h.log;
    leases = λ n.
        ap as_set (value-zadd db key_index m (lease_keys_key n) s.members h.index) ∙ h.leases n;
    others = λ j a. value-zadd db key_index m j s.members h.index ∙ rw a.index (h.others j a);
  }

  pub zrem-Has :
      (db : Db) (s : Shape) (m : Bytes)
      → Has db s
      → Has (zrem db key_index m) (record s { members = without m s.members })
  unfolding str_eq
  zrem-Has db s m h = record {
    counter = value-zrem db key_index m revision_key s.members h.index ∙ h.counter;
    blobs = λ j. value-zrem db key_index m (redis_key j) s.members h.index ∙ h.blobs j;
    index =
        ap as_zset (value-zrem db key_index m key_index s.members h.index)
        ∙ as_zset-zset_value (without m s.members);
    log = ap as_stream (value-zrem db key_index m event_stream s.members h.index) ∙ h.log;
    leases = λ n.
        ap as_set (value-zrem db key_index m (lease_keys_key n) s.members h.index) ∙ h.leases n;
    others = λ j a. value-zrem db key_index m j s.members h.index ∙ rw a.index (h.others j a);
  }

  pub sadd-Has :
      (db : Db) (s : Shape) (id : ℕ) (m : Bytes)
      → Has db s
      → Has
          (sadd db (lease_keys_key id) m)
          (record s { leases = update_lease s.leases id (m ∷ without m (s.leases id)) })
  unfolding str_eq
  sadd-Has db s id m h = record {
    counter =
        value-sadd db (lease_keys_key id) m revision_key (s.leases id) (h.leases id) ∙ h.counter;
    blobs = λ j.
        value-sadd db (lease_keys_key id) m (redis_key j) (s.leases id) (h.leases id) ∙ h.blobs j;
    index =
        ap as_zset (value-sadd db (lease_keys_key id) m key_index (s.leases id) (h.leases id))
        ∙ h.index;
    log =
        ap as_stream (value-sadd db (lease_keys_key id) m event_stream (s.leases id) (h.leases id))
        ∙ h.log;
    leases = λ n.
        ap as_set
          (value-sadd db (lease_keys_key id) m (lease_keys_key n) (s.leases id) (h.leases id))
        ∙ ground (arith, h.leases n);
    others = λ j a.
        value-sadd db (lease_keys_key id) m j (s.leases id) (h.leases id)
        ∙ rw (a.leases id) (h.others j a);
  }

  pub srem-Has :
      (db : Db) (s : Shape) (id : ℕ) (m : Bytes)
      → Has db s
      → Has
          (srem db (lease_keys_key id) m)
          (record s { leases = update_lease s.leases id (without m (s.leases id)) })
  unfolding str_eq
  srem-Has db s id m h = record {
    counter =
        value-srem db (lease_keys_key id) m revision_key (s.leases id) (h.leases id) ∙ h.counter;
    blobs = λ j.
        value-srem db (lease_keys_key id) m (redis_key j) (s.leases id) (h.leases id) ∙ h.blobs j;
    index =
        ap as_zset (value-srem db (lease_keys_key id) m key_index (s.leases id) (h.leases id))
        ∙ h.index;
    log =
        ap as_stream (value-srem db (lease_keys_key id) m event_stream (s.leases id) (h.leases id))
        ∙ h.log;
    leases = λ n.
        ap as_set
          (value-srem db (lease_keys_key id) m (lease_keys_key n) (s.leases id) (h.leases id))
        ∙ ground (arith, h.leases n, as_set-set_value (without m (s.leases id)));
    others = λ j a.
        value-srem db (lease_keys_key id) m j (s.leases id) (h.leases id)
        ∙ rw (a.leases id) (h.others j a);
  }

  pub xadd-Has :
      (db : Db) (s : Shape) (fields : Fields)
      → Has db s
      → Has (xadd db event_stream fields).1 (record s {
        entries =
            s.entries ++ record { id = (xadd db event_stream fields).0; values = fields } ∷ [];
      })
  unfolding str_eq
  xadd-Has db s fields h = record {
    counter = value-xadd db event_stream revision_key fields s.entries h.log ∙ h.counter;
    blobs = λ j. value-xadd db event_stream (redis_key j) fields s.entries h.log ∙ h.blobs j;
    index = ap as_zset (value-xadd db event_stream key_index fields s.entries h.log) ∙ h.index;
    log = ap as_stream (value-xadd db event_stream event_stream fields s.entries h.log);
    leases = λ n.
        ap as_set (value-xadd db event_stream (lease_keys_key n) fields s.entries h.log)
        ∙ h.leases n;
    others = λ j a. value-xadd db event_stream j fields s.entries h.log ∙ rw a.log (h.others j a);
  }

  -- The key set of a lease is deleted.
  pub del_lease-Has :
      (db : Db) (s : Shape) (id : ℕ)
      → Has db s
      → Has (del db (lease_keys_key id)) (record s { leases = update_lease s.leases id [] })
  unfolding str_eq
  del_lease-Has db s id h = record {
    counter = value-del db (lease_keys_key id) revision_key ∙ h.counter;
    blobs = λ j. value-del db (lease_keys_key id) (redis_key j) ∙ h.blobs j;
    index = ap as_zset (value-del db (lease_keys_key id) key_index) ∙ h.index;
    log = ap as_stream (value-del db (lease_keys_key id) event_stream) ∙ h.log;
    leases = λ n.
        ap as_set (value-del db (lease_keys_key id) (lease_keys_key n))
        ∙ ground (arith, h.leases n);
    others = λ j a. value-del db (lease_keys_key id) j ∙ rw (a.leases id) (h.others j a);
  }

  -- A command at a key apart from these.
  pub apart-Has :
      (db db' : Db) (s : Shape) (k : Bytes)
      → IsApart k
      → ((j : Bytes) → str_eq k j ≡ false → value db' j ≡ value db j)
      → Has db s
      → Has db' (record s { others = λ j. value db' j })
  apart-Has db db' s k a frame h = record {
    counter = frame revision_key (str_eq_sym k revision_key ∙ a.counter) ∙ h.counter;
    blobs = λ j. frame (redis_key j) (str_eq_sym k (redis_key j) ∙ a.blobs j) ∙ h.blobs j;
    index = ap as_zset (frame key_index (str_eq_sym k key_index ∙ a.index)) ∙ h.index;
    log = ap as_stream (frame event_stream (str_eq_sym k event_stream ∙ a.log)) ∙ h.log;
    leases = λ n.
        ap as_set (frame (lease_keys_key n) (str_eq_sym k (lease_keys_key n) ∙ a.leases n))
        ∙ h.leases n;
    others = λ j b. refl;
  }
