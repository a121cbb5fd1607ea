-- ===== src/Tests.antt =====
-- Runs of the program on concrete inputs, over the Redis in memory: the data, and in the children the
-- tests and the instances of the theorems.
pub mod Stores
pub mod Services
pub mod Watches
pub mod Deliveries
pub mod Deletes
pub mod Sessions
pub mod Leases
pub mod Expiry
pub mod Streams
pub mod Seeks
pub mod Inflight
pub mod Contexts
use retcd.Prelude.{
  ℕ, suc, ◌+◌, ◌<◌, ◌^◌, ◌≡◌, refl, Bool, true, false, List, [], ◌∷◌, ◌++◌, Option, none, some,
  if◌then◌else◌, arith, ℤ, pos, All,
}
use retcd.Bytes.{Bytes, IsBytes, str_eq}
use retcd.Decimal.{decimal, decimal_fuel}
use retcd.Redis.{Redis, Value, absent, string}
use retcd.Redis.Memory.{in_memory}
use retcd.Store.Script.{revision_key, redis_key, lease_keys_key, key_index, event_stream}
use retcd.Store.Mvcc.{Mvcc, IsExact}
use retcd.Store.Keyspace.{Shape, Has}
use retcd.Store.Refine.{Refines, parse_all}
use retcd.Store.Client.{World}
use retcd.Redis.{contains}

-- "/a/b"
abbrev pub pod : Bytes
pod = b'/' ∷ b'a' ∷ b'/' ∷ b'b' ∷ []

abbrev pub value : Bytes
value = b'v' ∷ []

-- The database after the store has been opened: the counter is 0.
abbrev pub opened : Bytes → Value
unfolding str_eq
opened k = if str_eq revision_key k then string (b'0' ∷ []) else absent

abbrev pub world : World in_memory
world = record { db = opened; fates = []; sink = true; emitted = [] }

abbrev pub nothing : Mvcc
nothing = record { revision = 0; at = λ k. none; history = [] }

pub opened-Refines : Refines in_memory opened nothing
unfolding opened str_eq decimal parse_all contains
opened-Refines = record {
  shape = record {
    counter = 0;
    blobs = λ k. none;
    members = [];
    entries = [];
    leases = λ n. [];
    others = opened;
  };
  has = record {
    counter = refl;
    blobs = λ k. refl;
    index = refl;
    log = refl;
    leases = λ n. refl;
    others = λ k a. refl;
  };
  agrees = record {
    revision = refl;
    blobs = λ k. refl;
    indexed = λ k. refl;
    ordered = tt;
    history = refl;
  };
}

pub nothing-IsExact : IsExact nothing
nothing-IsExact = record {
  room = omega arith;
  key_is = λ k kv h. absurd cc;
  create_le = λ k kv h. absurd cc;
  mod_le = λ k kv h. absurd cc;
  version_le = λ k kv h. absurd cc;
  lease_lt = λ k kv h. absurd cc;
}
