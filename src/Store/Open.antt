-- ===== src/Store/Open.antt =====
-- NewRedisStoreDB and migrateKeyIndex of store/redis.go: what the store does of a database when it is
-- opened. No error is reported.
pub mod Rebuild
pub mod Migrate
use retcd.Prelude.{ℕ, Bool, true, false, List, [], ◌∷◌, if◌then◌else◌, length, drop, none, some}
use retcd.Bytes.{Bytes, has_prefix}
use retcd.Redis.{Redis}
use retcd.Store.Script.{revision_key, key_index}
use retcd.Store.Client.{
  revision_failed, range_failed, Result, ok, err, World, Io, ◌>>=◌, ◌>>◌, pure, call,
}
use retcd.Store.Lease.{ignoring, command, ◌⨟◌}

-- "unix://"
abbrev pub unix_scheme : Bytes
unix_scheme = b'u' ∷ b'n' ∷ b'i' ∷ b'x' ∷ b':' ∷ b'/' ∷ b'/' ∷ []

-- The options that the client is made with.
pub record Options : Type 0 where
  pub unix : Bool
  pub addr : Bytes
  pub db : ℕ

unfoldable pub options_of : Bytes → ℕ → Options
options_of addr db =
    if has_prefix unix_scheme addr
    then record { unix = true; addr = drop (length unix_scheme) addr; db = db }
    else record { unix = false; addr = addr; db = db }

module _ (R : Redis) where
  open R use {Db, set_nx, is_set_at, smembers, del, zadd}

  -- ZADD of several members, with score 0.
  unfoldable pub zadd_all : List Bytes → Db → Db
  zadd_all [] db = db
  zadd_all (m ∷ ms) db = zadd_all ms (zadd db key_index m)

  -- ZADD is sent only if there is a member.
  abbrev add_members : List Bytes → Io R (Unit {0})
  add_members [] = pure R tt
  add_members (m ∷ ms) = command R range_failed (zadd_all (m ∷ ms))

  -- The index as a sorted set; an error ends the migration where it is.
  unfoldable pub rebuild_index : Io R (Unit {0})
  rebuild_index = do
    members ← call R range_failed (λ db. (smembers db key_index, db))
    ◌⨟◌ R (command R range_failed (λ db. del db key_index)) (add_members members)

  abbrev rebuild_if : Bool → Io R (Unit {0})
  rebuild_if true = rebuild_index
  rebuild_if false = pure R tt

  -- `migrateKeyIndex`
  unfoldable pub migrate_key_index : Io R (Unit {0})
  migrate_key_index =
      ignoring R
        (do is_set ← call R range_failed (λ db. (is_set_at db key_index, db)); rebuild_if is_set)

  -- `NewRedisStoreDB`: the counter starts at 0 where there is none.
  unfoldable pub open_store : Io R (Unit {0})
  open_store = do
    counted ← ignoring R (command R revision_failed (λ db. set_nx db revision_key (b'0' ∷ [])))
    migrate_key_index
