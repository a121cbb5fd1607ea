-- ===== src/Redis.antt =====
-- The Redis server, which the repository does not contain: a parameter of the store. Its commands
-- are fields of a record, and the laws beside them state what Redis documents of each command that
-- the store uses. A command at a key of a type that it does not serve has no law.
mod Data
pub mod Memory
unfoldable pub use Data.*
use retcd.Prelude.{
  ℕ, suc, ◌^◌, eqb_ℤ, ◌<◌, ◌≡◌, Bool, true, false, not, ◌&&◌, ◌||◌, List, [], ◌∷◌, ◌++◌, Option,
  some, if◌then◌else◌, ℤ, negsuc, length,
}
use retcd.Bytes.{Bytes, str_eq}
use retcd.Decimal.{decimal}
use retcd.Store.Event.{XMessage, Fields}

pub record Redis : Type 1 where
  pub Db : Type 0
  -- the value at a key: what the commands below are documented by
  pub value : Db → Bytes → Value
  pub get : Db → Bytes → Option Bytes
  pub set : Db → Bytes → Bytes → Db
  pub del : Db → Bytes → Db
  pub incr : Db → Bytes → ℕ × Db
  -- ZADD with score 0
  pub zadd : Db → Bytes → Bytes → Db
  pub zrem : Db → Bytes → Bytes → Db
  pub zrange_by_lex : Db → Bytes → LexBound → LexBound → List Bytes
  pub sadd : Db → Bytes → Bytes → Db
  pub srem : Db → Bytes → Bytes → Db
  pub smembers : Db → Bytes → List Bytes
  -- XADD with the ID "*": the server chooses the ID
  pub xadd : Db → Bytes → Fields → Bytes × Db
  -- SET with NX
  pub set_nx : Db → Bytes → Bytes → Db
  -- SET, EXPIRE and TTL, with the client's durations in nanoseconds
  pub set_for : Db → Bytes → Bytes → ℤ → Db
  pub expire : Db → Bytes → ℤ → Db
  pub ttl : Db → Bytes → ℤ
  pub exists_at : Db → Bytes → Bool
  pub is_set_at : Db → Bytes → Bool
  -- XREAD of one stream, with a COUNT
  pub xread : Db → Bytes → Bytes → ℕ → List XMessage
  -- so many milliseconds pass
  pub elapse : ℕ → Db → Db
  pub get-value :
      (db : Db) (k : Bytes) (o : Option Bytes) → as_string (value db k) ≡ some o → get db k ≡ o
  pub value-set :
      (db : Db) (k v j : Bytes)
      → value (set db k v) j ≡ (if str_eq k j then string v else value db j)
  pub value-del :
      (db : Db) (k j : Bytes) → value (del db k) j ≡ (if str_eq k j then absent else value db j)
  pub incr-value :
      (db : Db) (k : Bytes) (n : ℕ)
      → as_counter (value db k) ≡ some n
      → suc n < 2 ^ 63
      → (incr db k).0 ≡ suc n
  pub value-incr :
      (db : Db) (k j : Bytes) (n : ℕ)
      → as_counter (value db k) ≡ some n
      → suc n < 2 ^ 63
      → value (incr db k).1 j ≡ (if str_eq k j then string (decimal (suc n)) else value db j)
  pub value-zadd :
      (db : Db) (k m j : Bytes) (ms : List Bytes)
      → as_zset (value db k) ≡ some ms
      → value (zadd db k m) j ≡ (if str_eq k j then zset_value (put_in_order m ms) else value db j)
  pub value-zrem :
      (db : Db) (k m j : Bytes) (ms : List Bytes)
      → as_zset (value db k) ≡ some ms
      → value (zrem db k m) j ≡ (if str_eq k j then zset_value (without m ms) else value db j)
  pub zrange_by_lex-value :
      (db : Db) (k : Bytes) (lo hi : LexBound) (ms : List Bytes)
      → as_zset (value db k) ≡ some ms
      → zrange_by_lex db k lo hi ≡ select (λ m. above lo m && below hi m) ms
  pub value-sadd :
      (db : Db) (k m j : Bytes) (ms : List Bytes)
      → as_set (value db k) ≡ some ms
      → value (sadd db k m) j ≡ (if str_eq k j then set_value (m ∷ without m ms) else value db j)
  pub value-srem :
      (db : Db) (k m j : Bytes) (ms : List Bytes)
      → as_set (value db k) ≡ some ms
      → value (srem db k m) j ≡ (if str_eq k j then set_value (without m ms) else value db j)
  pub smembers-value :
      (db : Db) (k m : Bytes) (ms : List Bytes)
      → as_set (value db k) ≡ some ms
      → contains m (smembers db k) ≡ contains m ms
  -- each member once
  pub smembers-length :
      (db : Db) (k : Bytes) (ms : List Bytes)
      → as_set (value db k) ≡ some ms
      → length (smembers db k) ≡ length ms
  pub value-xadd :
      (db : Db) (k j : Bytes) (fields : Fields) (es : List XMessage)
      → as_stream (value db k) ≡ some es
      → value (xadd db k fields).1 j ≡ (
          if str_eq k j
          then stream (es ++ record { id = (xadd db k fields).0; values = fields } ∷ [])
          else value db j)
  -- IDs have the form "<ms>-<seq>"
  pub xadd-id_ne : (db : Db) (k : Bytes) (fields : Fields) → str_eq (xadd db k fields).0 [] ≡ false
  pub value-set_nx :
      (db : Db) (k v j : Bytes)
      → value (set_nx db k v) j
        ≡ (if str_eq k j && not (is_present (value db k)) then string v else value db j)
  -- any duration but the client's KeepTTL, which is -1
  pub value-set_for :
      (db : Db) (k v j : Bytes) (d : ℤ)
      → eqb_ℤ d (negsuc 0) ≡ false
      → value (set_for db k v d) j ≡ (if str_eq k j then set_with d v else value db j)
  pub value-expire :
      (db : Db) (k j : Bytes) (d : ℤ) (o : Option Bytes)
      → as_string (value db k) ≡ some o
      → value (expire db k d) j ≡ (if str_eq k j then expire_with d o else value db j)
  pub ttl-value : (db : Db) (k : Bytes) → ttl db k ≡ ttl_of (value db k)
  pub exists_at-value : (db : Db) (k : Bytes) → exists_at db k ≡ is_present (value db k)
  pub is_set_at-value : (db : Db) (k : Bytes) → is_set_at db k ≡ is_set (value db k)
  pub xread-value :
      (db : Db) (k id : Bytes) (n : ℕ) (es : List XMessage)
      → as_stream (value db k) ≡ some es
      → (is_start id || has_id id es) ≡ true
      → xread db k id n ≡ at_most n (entries_after id es)
  pub value-elapse : (db : Db) (t : ℕ) (j : Bytes) → value (elapse t db) j ≡ aged t (value db j)
