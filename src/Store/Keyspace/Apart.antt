-- ===== src/Store/Keyspace/Apart.antt =====
-- The Redis keys that the write scripts never touch.
use retcd.Prelude.{ℕ, ◌≡◌, false}
use retcd.Bytes.{Bytes, str_eq}
use retcd.Store.Script.{revision_key, event_stream, key_index, redis_key, lease_keys_key}

pub record IsApart (k : Bytes) : Type 0 where
  pub counter : str_eq revision_key k ≡ false
  pub blobs : (j : Bytes) → str_eq (redis_key j) k ≡ false
  pub index : str_eq key_index k ≡ false
  pub log : str_eq event_stream k ≡ false
  pub leases : (n : ℕ) → str_eq (lease_keys_key n) k ≡ false
