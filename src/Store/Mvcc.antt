-- ===== src/Store/Mvcc.antt =====
-- What the store promises: a multi-version key-value store, without Redis, blobs or scripts. The ID
-- of a stream entry, which the server chooses, is an argument.
pub mod Exact
use retcd.Prelude.{
  ℕ, suc, ◌+◌, ◌≤◌, ◌^◌, ◌<◌, ◌≡◌, List, [], ◌∷◌, ◌++◌, Option, none, some, if◌then◌else◌, ltb, ℤ,
  negsuc, pos, eqb_ℤ, Bool, true, false,
}
use retcd.Bytes.{Bytes, str_eq}
use retcd.Store.Blob.{KeyValue}
use retcd.Store.Event.{Event, put_op, delete_op, created_ms_of}

pub record Mvcc : Type 0 where
  pub revision : ℕ
  pub at : Bytes → Option KeyValue
  pub history : List Event

-- The version of a key that a write makes over the one before.
unfoldable pub next_kv : Bytes → Bytes → ℕ → ℕ → Option KeyValue → KeyValue
next_kv key value lease rev none = record {
  key = key;
  value = value;
  create_revision = rev;
  mod_revision = rev;
  version = 1;
  lease = lease;
}
next_kv key value lease rev (some prev) = record {
  key = key;
  value = value;
  create_revision = prev.create_revision;
  mod_revision = rev;
  version = prev.version + 1;
  lease = lease;
}

abbrev pub update_at : (Bytes → Option KeyValue) → Bytes → Option KeyValue → Bytes → Option KeyValue
update_at m k o j = if str_eq k j then o else m j

abbrev pub put_event : Bytes → KeyValue → Option KeyValue → Bytes → Event
put_event key kv prev sid = record {
  kind = put_op;
  key = key;
  rev = kv.mod_revision;
  kv = some kv;
  prev_kv = prev;
  created_ms = created_ms_of sid;
  id = sid;
}

abbrev pub delete_event : Bytes → ℕ → KeyValue → Bytes → Event
delete_event key rev prev sid = record {
  kind = delete_op;
  key = key;
  rev = rev;
  kv = none;
  prev_kv = some prev;
  created_ms = created_ms_of sid;
  id = sid;
}

-- A write makes the next revision, and one event.
unfoldable pub put : Bytes → Bytes → ℕ → Bytes → Mvcc → Mvcc
put key value lease sid m =
    let kv = next_kv key value lease (suc m.revision) (m.at key) in
    record {
      revision = suc m.revision;
      at = update_at m.at key (some kv);
      history = m.history ++ put_event key kv (m.at key) sid ∷ [];
    }

-- A delete of a key that is there.
unfoldable pub delete : Bytes → KeyValue → Bytes → Mvcc → Mvcc
delete key prev sid m = record {
  revision = suc m.revision;
  at = update_at m.at key none;
  history = m.history ++ delete_event key (suc m.revision) prev sid ∷ [];
}

-- The condition of a compare-and-swap: -1 asks for an absent key, another number for that
-- modification revision, 0 where the key is absent.
abbrev pub mod_revision_of : Option KeyValue → ℕ
mod_revision_of none = 0
mod_revision_of (some kv) = kv.mod_revision

abbrev pub is_absent : Option KeyValue → Bool
is_absent none = true
is_absent (some kv) = false

unfoldable pub passes : ℤ → Option KeyValue → Bool
passes expected current =
    if eqb_ℤ expected (negsuc 0)
    then is_absent current
    else eqb_ℤ (pos (mod_revision_of current)) expected

-- The versions lie within the revision counter, and everything fits an int64.
pub record IsExact (m : Mvcc) : Type 0 where
  pub room : m.revision + 1 < 2 ^ 63
  pub key_is : (k : Bytes) (kv : KeyValue) → m.at k ≡ some kv → kv.key ≡ k
  pub create_le :
      (k : Bytes) (kv : KeyValue) → m.at k ≡ some kv → kv.create_revision ≤ kv.mod_revision
  pub mod_le : (k : Bytes) (kv : KeyValue) → m.at k ≡ some kv → kv.mod_revision ≤ m.revision
  pub version_le : (k : Bytes) (kv : KeyValue) → m.at k ≡ some kv → kv.version ≤ m.revision
  pub lease_lt : (k : Bytes) (kv : KeyValue) → m.at k ≡ some kv → kv.lease < 2 ^ 63
