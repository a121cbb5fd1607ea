-- ===== src/Store/Script.antt =====
-- The scripts store/write.lua and store/txn.lua, which the Redis server runs as one atomic step, and
-- the names of the Redis keys. Lua's numbers are doubles: the model is exact below 10^14, up to where
-- `tostring` prints every digit. A lease id is a natural number: LeaseGrant makes them by INCR.
use retcd.Prelude.{
  ℕ, ◌+◌, Bool, true, false, List, [], ◌∷◌, Option, none, some, ltb, leb, ◌==◌, if◌then◌else◌, ℤ,
  pos, negsuc, eqb_ℤ, length, drop, get_elem?,
}
use retcd.Bytes.{Bytes, str_eq}
use retcd.Decimal.{decimal, parse_int}
use retcd.Redis.{Redis}
use retcd.Store.Blob.{dec64, make_blob}
use retcd.Store.Event.{
  Fields, put_op, delete_op, type_field, key_field, rev_field, data_field, prev_data_field,
}

-- "global:revision", "events", "keyindex"
abbrev pub revision_key : Bytes
revision_key =
    b'g' ∷ b'l' ∷ b'o' ∷ b'b' ∷ b'a' ∷ b'l' ∷ b':' ∷ b'r' ∷ b'e' ∷ b'v' ∷ b'i' ∷ b's' ∷ b'i' ∷ b'o'
    ∷ b'n' ∷ []

abbrev pub event_stream : Bytes
event_stream = b'e' ∷ b'v' ∷ b'e' ∷ b'n' ∷ b't' ∷ b's' ∷ []

abbrev pub key_index : Bytes
key_index = b'k' ∷ b'e' ∷ b'y' ∷ b'i' ∷ b'n' ∷ b'd' ∷ b'e' ∷ b'x' ∷ []

-- "kv:" + key
abbrev pub redis_key : Bytes → Bytes
redis_key key = b'k' ∷ b'v' ∷ b':' ∷ key

-- 'lease:keys:' .. id, where Lua prints the number with at most fourteen digits: the definition is the
-- script's key for a lease below 10^14.
abbrev pub lease_keys_key : ℕ → Bytes
lease_keys_key id =
    b'l' ∷ b'e' ∷ b'a' ∷ b's' ∷ b'e' ∷ b':' ∷ b'k' ∷ b'e' ∷ b'y' ∷ b's' ∷ b':' ∷ decimal id

-- An element of a script's result.
pub data Reply : Type 0 where
  int : ℕ → Reply
  str : Bytes → Reply

-- What a script gives: its result, or an error that a command raised.
pub data Returned : Type 0 where
  result : List Reply → Returned
  script_error : Returned

-- `scriptStr` of store/redis.go
unfoldable pub script_str : List Reply → ℕ → Bytes
script_str res i = elim (get_elem? res i) [ none ↦ [] | some r ↦ elim r [ int n ↦ [] | str s ↦ s ] ]

-- tonumber(s) or 0, for the text of a counter
abbrev pub number_or_zero : Option Bytes → ℕ
number_or_zero none = 0
number_or_zero (some s) = elim (parse_int s) [
  | none ↦ 0
  | some n ↦ elim n [ pos k ↦ k | negsuc k ↦ 0 ]
]

-- current_raw or ''
abbrev pub or_blank : Option Bytes → Bytes
or_blank none = []
or_blank (some s) = s

-- A field of the current blob, 0 where there is none or it is too short.
abbrev pub blob_field : Option Bytes → ℕ → ℕ
blob_field none off = 0
blob_field (some raw) off = if leb 32 (length raw) then dec64 raw off else 0

-- The fields of the DELETE entry.
abbrev pub delete_fields : Bytes → ℕ → Bytes → Fields
delete_fields etcd_key rev raw =
    (type_field, delete_op)
    ∷ (key_field, etcd_key)
    ∷ (rev_field, decimal rev)
    ∷ (prev_data_field, raw)
    ∷ []

-- The fields of the PUT entry; the pre-image stands there only if there is one.
abbrev pub put_fields : Bytes → ℕ → Bytes → Option Bytes → Fields
put_fields etcd_key rev blob none =
    (type_field, put_op)
    ∷ (key_field, etcd_key)
    ∷ (rev_field, decimal rev)
    ∷ (data_field, blob)
    ∷ []
put_fields etcd_key rev blob (some raw) =
    (type_field, put_op)
    ∷ (key_field, etcd_key)
    ∷ (rev_field, decimal rev)
    ∷ (data_field, blob)
    ∷ (prev_data_field, raw)
    ∷ []

-- create_rev and version of the new blob
abbrev pub write_create_rev : Option Bytes → ℕ → ℕ
write_create_rev none new_rev = new_rev
write_create_rev (some raw) new_rev = if leb 32 (length raw) then dec64 raw 0 else new_rev

abbrev pub write_version : Option Bytes → ℕ
write_version none = 1
write_version (some raw) = if leb 32 (length raw) then dec64 raw 16 + 1 else 1

-- The compare of txn.lua: -1 asks for an absent key, any other number for that revision.
unfoldable pub compare_passes : ℤ → Option Bytes → Bool
compare_passes expected current =
    if eqb_ℤ expected (negsuc 0)
    then elim current [ none ↦ true | some raw ↦ false ]
    else eqb_ℤ (pos (blob_field current 8)) expected

-- current_raw and current_create_rev or new_rev, and the version likewise
abbrev pub txn_create_rev : Option Bytes → ℕ → ℕ
txn_create_rev none new_rev = new_rev
txn_create_rev (some raw) new_rev = blob_field (some raw) 0

abbrev pub txn_version : Option Bytes → ℕ
txn_version none = 1
txn_version (some raw) = blob_field (some raw) 16 + 1

module _ (R : Redis) where
  open R use {Db, get, set, del, incr, zadd, zrem, sadd, srem, xadd}

  -- if cur_lease ~= 0 then SREM
  unfoldable pub detach : Bytes → ℕ → Db → Db
  detach etcd_key cur_lease db =
      if cur_lease == 0 then db else srem db (lease_keys_key cur_lease) etcd_key

  unfoldable pub attach : Bytes → ℕ → Db → Db
  attach etcd_key lease db = if lease == 0 then db else sadd db (lease_keys_key lease) etcd_key

  -- The DELETE branch of write.lua.
  unfoldable pub write_delete : Bytes → Option Bytes → Db → Returned × Db
  write_delete etcd_key none db = (
    result (str (decimal (number_or_zero (get db revision_key))) ∷ str [] ∷ str [] ∷ str [] ∷ []),
    db,
  )
  write_delete etcd_key (some raw) db =
      let (new_rev, db1) = incr db revision_key in
      let db2 = zrem (del db1 (redis_key etcd_key)) key_index etcd_key in
      let db3 = detach etcd_key (blob_field (some raw) 24) db2 in
      let (sid, db4) = xadd db3 event_stream (delete_fields etcd_key new_rev raw) in
      (result (str (decimal new_rev) ∷ str raw ∷ str [] ∷ str sid ∷ []), db4)

  -- The PUT branch of write.lua.
  unfoldable pub write_put : Bytes → Option Bytes → Bytes → ℕ → Db → Returned × Db
  write_put etcd_key current value lease db =
      let cur_lease = blob_field current 24 in
      let (new_rev, db1) = incr db revision_key in
      let new_blob =
        make_blob (write_create_rev current new_rev) new_rev (write_version current) lease value in
      let db2 = zadd (set db1 (redis_key etcd_key) new_blob) key_index etcd_key in
      let db3 = if cur_lease == lease then db2 else detach etcd_key cur_lease db2 in
      let db4 = attach etcd_key lease db3 in
      let (sid, db5) = xadd db4 event_stream (put_fields etcd_key new_rev new_blob current) in
      (result (str (decimal new_rev) ∷ str (or_blank current) ∷ str new_blob ∷ str sid ∷ []), db5)

  -- write.lua, with KEYS[1] = redis_key and ARGV = op, value, lease
  unfoldable pub write_script : Bytes → Bytes → Bytes → ℕ → Db → Returned × Db
  write_script key1 op value lease db =
      let current = get db key1 in
      let etcd_key = drop 3 key1 in
      if str_eq op delete_op
      then write_delete etcd_key current db
      else write_put etcd_key current value lease db

  -- The global revision that txn.lua returns on a failed compare.
  abbrev pub clamped_revision : Db → ℕ
  clamped_revision db = let n = number_or_zero (get db revision_key) in if ltb n 1 then 1 else n

  -- The DELETE branch. Without a current value the XADD gets a false argument, which is an error
  -- after the increment and the deletions.
  unfoldable pub txn_delete : Bytes → Option Bytes → Db → Returned × Db
  txn_delete etcd_key current db =
      let (new_rev, db1) = incr db revision_key in
      let db2 = zrem (del db1 (redis_key etcd_key)) key_index etcd_key in
      elim current [
        | none ↦ (script_error, db2)
        | some raw ↦
            let (sid, db3) = xadd db2 event_stream (delete_fields etcd_key new_rev raw) in
            (result (int 1 ∷ str raw ∷ str (decimal new_rev) ∷ str [] ∷ str sid ∷ []), db3)
      ]

  unfoldable pub txn_put : Bytes → Option Bytes → Bytes → ℕ → Db → Returned × Db
  txn_put etcd_key current value lease db =
      let (new_rev, db1) = incr db revision_key in
      let new_blob =
        make_blob (txn_create_rev current new_rev) new_rev (txn_version current) lease value in
      let db2 = zadd (set db1 (redis_key etcd_key) new_blob) key_index etcd_key in
      let (sid, db3) = xadd db2 event_stream (put_fields etcd_key new_rev new_blob current) in
      (
        result
            (int 1 ∷ str (or_blank current) ∷ str (decimal new_rev) ∷ str new_blob ∷ str sid ∷ []),
        db3,
      )

  -- txn.lua, with KEYS[1] = redis_key and ARGV = expected, value, op, lease
  unfoldable pub txn_script : Bytes → ℤ → Bytes → Bytes → ℕ → Db → Returned × Db
  txn_script key1 expected value op lease db =
      let current = get db key1 in
      let etcd_key = drop 3 key1 in
      if compare_passes expected current
      then if str_eq op delete_op
        then txn_delete etcd_key current db
        else txn_put etcd_key current value lease db
      else (result (int 0 ∷ str (or_blank current) ∷ str (decimal (clamped_revision db)) ∷ []), db)
