-- ===== src/Store/Client.antt =====
-- `RedisStore` of store/redis.go: the calls that it makes of the Redis client, and its methods.
-- A call may fail, with or without having run at the server, and the client may repeat a command.
pub mod Writes
pub mod Swaps
pub mod Reads
pub mod Scan
pub mod Log
pub mod Runs
pub mod Removal
use retcd.Prelude.{
  ℕ, zero, suc, Bool, true, false, not, ◌&&◌, ◌||◌, List, [], ◌∷◌, ◌++◌, Option, none, some, ltb,
  leb, ◌==◌, if◌then◌else◌, ℤ, pos, negsuc, pos_part, map, length, get_elem?,
}
use retcd.Bytes.{Bytes, str_eq}
use retcd.Decimal.{parse_int}
use retcd.Redis.{Redis}
use retcd.Store.Lex.{prefix_lex_range}
use retcd.Store.Blob.{KeyValue, decode_kv}
use retcd.Store.Event.{Event, put_op, delete_op, make_event}
use retcd.Store.Script.{
  Reply, int, str, Returned, result, script_error, script_str, redis_key, revision_key, key_index,
  write_script, txn_script,
}

-- The errors, by what they wrap.
pub data Error : Type 0 where
  put_failed delete_failed txn_failed get_failed range_failed mget_failed revision_failed : Error
  bad_revision incr_lease_failed lease_grant_failed lease_keys_failed lease_key_failed : Error
  lease_revoke_failed lease_not_found get_lease_failed bad_ttl ttl_failed read_failed : Error

pub data Result {ℓ} (A : Type ℓ) : Type ℓ where
  ok : A → Result A
  err : Error → Result A

-- What becomes of a call: it is answered after `n` runs that were not, or it fails after `n` runs.
pub data Fate : Type 0 where
  answered failed : ℕ → Fate

-- The database, the fates of the calls to come (an empty list: every call is answered at once),
-- whether a sink is registered, and the events that it was handed.
pub record World (R : Redis) : Type 0 where
  pub db : R.Db
  pub fates : List Fate
  pub sink : Bool
  pub emitted : List Event

abbrev pub Io : Redis → Type 0 → Type 0
Io R A = World R → Result A × World R

abbrev continue : {R : Redis} {A B : Type 0} → Result A → (A → Io R B) → Io R B
continue (ok a) f w = f a w
continue (err e) f w = (err e, w)

infixl 5 ◌>>=◌ ◌>>◌
abbrev pub ◌>>=◌ : {R : Redis} {A B : Type 0} → Io R A → (A → Io R B) → Io R B
◌>>=◌ m f w = let (r, w') = m w in continue r f w'

abbrev pub ◌>>◌ : {R : Redis} {B : Type 0} → Io R (Unit {0}) → Io R B → Io R B
m >> n = m >>= λ _. n

-- `scriptRev`
unfoldable pub script_rev : List Reply → ℕ
script_rev [] = 0
script_rev (int v ∷ res) = v
script_rev (str s ∷ res) = elim (parse_int s) [ none ↦ 0 | some n ↦ pos_part n ]

pub record TxnResult : Type 0 where
  pub succeeded : Bool
  pub revision : ℕ
  pub current : Option KeyValue

-- if blob != "" then decodeKV
abbrev pub decode_nonempty : Bytes → Bytes → Option KeyValue
decode_nonempty key [] = none
decode_nonempty key (c ∷ blob) = decode_kv key (c ∷ blob)

-- The values of an MGET beside the keys that were asked for; missing and short ones are skipped.
abbrev pub keep : Option KeyValue → List KeyValue → List KeyValue
keep none kvs = kvs
keep (some kv) kvs = kv ∷ kvs

abbrev decode_found : Bytes → Option Bytes → Option KeyValue
decode_found key none = none
decode_found key (some blob) = decode_kv key blob

-- sid != ""
abbrev pub not_blank : Bytes → Bool
not_blank s = not (str_eq s [])

module _ (R : Redis) where
  open R use {Db, get, zrange_by_lex}

  unfoldable pub pure : {A : Type 0} → A → Io R A
  pure a w = (ok a, w)

  unfoldable pub raise : {A : Type 0} → Error → Io R A
  raise e w = (err e, w)

  unfoldable pub run_times : {A : Type 0} → ℕ → (Db → A × Db) → Db → Db
  run_times zero cmd db = db
  run_times (suc n) cmd db = run_times n cmd (cmd db).1

  unfoldable pub call : {A : Type 0} → Error → (Db → A × Db) → Io R A
  call e cmd w = elim w.fates [
    | [] ↦ (ok (cmd w.db).0, record w { db = (cmd w.db).1 })
    | fate ∷ rest ↦ elim fate [
      | answered n ↦ (
        ok (cmd (run_times n cmd w.db)).0,
        record w { db = (cmd (run_times n cmd w.db)).1; fates = rest },
      )
      | failed n ↦ (err e, record w { db = run_times n cmd w.db; fates = rest })
    ]
  ]

  abbrev or_raise : Error → Returned → Io R (List Reply)
  or_raise e (result res) w = (ok res, w)
  or_raise e script_error w = (err e, w)

  -- script.Run(...).Slice()
  unfoldable pub run_script : Error → (Db → Returned × Db) → Io R (List Reply)
  run_script e script = do res ← call e script; or_raise e res

  unfoldable pub emit : Bytes → Bytes → ℕ → Bytes → Bytes → Bytes → Io R (Unit {0})
  emit typ key rev new_blob prev_blob sid w =
      if w.sink && (not_blank sid && ltb 0 rev)
      then (
        ok tt,
        record w { emitted = w.emitted ++ make_event typ key rev new_blob prev_blob sid ∷ [] },
      )
      else (ok tt, w)

  unfoldable pub put : Bytes → Bytes → ℕ → Io R (ℕ × Option KeyValue)
  put key value lease = do
    res ← run_script put_failed (write_script R (redis_key key) put_op value lease)
    emit put_op key (script_rev res) (script_str res 2) (script_str res 1) (script_str res 3)
    pure (script_rev res, decode_nonempty key (script_str res 1))

  unfoldable pub delete : Bytes → Io R (ℕ × Option KeyValue)
  delete key = do
    res ← run_script delete_failed (write_script R (redis_key key) delete_op [] 0)
    emit delete_op key (script_rev res) [] (script_str res 1) (script_str res 3)
    pure (script_rev res, decode_nonempty key (script_str res 1))

  unfoldable pub get_kv : Bytes → Io R (Option KeyValue)
  get_kv key = do
    blob ← call get_failed (λ db. (get db (redis_key key), db))
    pure (decode_found key blob)

  abbrev clamp_parsed : Option ℤ → Io R ℕ
  clamp_parsed none = raise bad_revision
  clamp_parsed (some n) = pure (if ltb (pos_part n) 1 then 1 else pos_part n)

  abbrev clamp_revision : Option Bytes → Io R ℕ
  clamp_revision none = pure 1
  clamp_revision (some text) = clamp_parsed (parse_int text)

  unfoldable pub current_revision : Io R ℕ
  current_revision = do
    text ← call revision_failed (λ db. (get db revision_key, db))
    clamp_revision text

  abbrev raw_or_zero : Option Bytes → ℕ
  raw_or_zero none = 0
  raw_or_zero (some text) = elim (parse_int text) [ none ↦ 0 | some n ↦ pos_part n ]

  unfoldable pub raw_revision : Io R ℕ
  raw_revision = do
    text ← call revision_failed (λ db. (get db revision_key, db))
    pure (raw_or_zero text)

  -- The loop over the values that MGET found.
  unfoldable pub found_values : List Bytes → Db → List KeyValue
  found_values [] db = []
  found_values (k ∷ ks) db = keep (decode_found k (get db (redis_key k))) (found_values ks db)

  -- The revision of `Range`: 1 unless the counter is a number from 1 on.
  abbrev pub range_revision : Option Bytes → ℕ
  range_revision text = let n = raw_or_zero text in if leb 1 n then n else 1

  abbrev pub fetch : List Bytes → ℕ → Io R (ℕ × List KeyValue)
  fetch [] rev = pure (rev, [])
  fetch (k ∷ ks) rev = do
    kvs ← call mget_failed (λ db. (found_values (k ∷ ks) db, db))
    pure (rev, kvs)

  -- The pipeline of `Range`: the members of the index, and the counter.
  abbrev pub range_commands : Bytes → Db → (List Bytes × Option Bytes) × Db
  range_commands prefix db =
      let (min, max) = prefix_lex_range prefix in
      ((zrange_by_lex db key_index min max, get db revision_key), db)

  -- One pipeline with the range and the counter, then one MGET.
  unfoldable pub range : Bytes → Io R (ℕ × List KeyValue)
  range prefix = do
    found ← call range_failed (range_commands prefix)
    fetch found.0 (range_revision found.1)

  abbrev succeeded_of : List Reply → Bool
  succeeded_of [] = false
  succeeded_of (int n ∷ res) = n == 1
  succeeded_of (str s ∷ res) = false

  -- The revision of element 2, 0 where it is missing or no number.
  abbrev txn_revision : List Reply → ℕ
  txn_revision res = elim (parse_int (script_str res 2)) [ none ↦ 0 | some n ↦ pos_part n ]

  -- result.Revision, _ = r.CurrentRevision(ctx): an error leaves 0
  abbrev or_current : ℕ → Io R ℕ
  or_current zero w = let (r, w') = current_revision w in (ok (elim r [ ok n ↦ n | err e ↦ 0 ]), w')
  or_current (suc n) w = (ok (suc n), w)

  abbrev emit_if : Bool → Bytes → Bytes → ℕ → List Reply → Io R (Unit {0})
  emit_if true op key rev res =
      emit op key rev (script_str res 3) (script_str res 1) (script_str res 4)
  emit_if false op key rev res = pure tt

  unfoldable pub txn : Bytes → ℤ → Bytes → Bytes → ℕ → Io R TxnResult
  txn key expected op value lease = do
    res ← run_script txn_failed (txn_script R (redis_key key) expected value op lease)
    rev ← or_current (txn_revision res)
    emit_if (succeeded_of res) op key rev res
    pure (record {
      succeeded = succeeded_of res;
      revision = rev;
      current = if succeeded_of res then none else decode_kv key (script_str res 1);
    })
