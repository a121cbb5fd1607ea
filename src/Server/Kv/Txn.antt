-- ===== src/Server/Kv/Txn.antt =====
-- Transactions: server/kv_txn.go.
use retcd.Prelude.{
  ℕ, Bool, true, false, not, ◌&&◌, List, [], ◌∷◌, Option, none, some, if◌then◌else◌, ℤ, length, map,
  pos, negsuc, ltb_ℤ, eqb_ℤ,
}
use retcd.Bytes.{Bytes}
use retcd.Redis.{Redis}
use retcd.Store.Blob.{KeyValue}
use retcd.Store.Event.{put_op}
use retcd.Store.Client.{Io, ◌>>=◌, pure, put, get_kv, TxnResult, txn}
use retcd.Server.Messages.{
  CompareTarget, on_version, on_create, on_mod, on_other, CompareResult, equal, not_equal, greater,
  less, other_result, Compare, get_version, get_create_revision, get_mod_revision, to_proto_kv,
  header_at, PutRequest, RequestOp, request_put, request_range, request_delete_range, request_other,
  ResponseOp, response_put, response_range, response_delete_range, response_empty, TxnRequest,
  TxnResponse,
}
use retcd.Server.Kv.{range_request, delete_range, header, list_of}

abbrev is_mod : CompareTarget → Bool
is_mod on_mod = true
is_mod on_version = false
is_mod on_create = false
is_mod on_other = false

abbrev is_equal : CompareResult → Bool
is_equal equal = true
is_equal not_equal = false
is_equal greater = false
is_equal less = false
is_equal other_result = false

abbrev as_put : RequestOp → Option PutRequest
as_put (request_put put) = some put
as_put (request_range r) = none
as_put (request_delete_range d) = none
as_put request_other = none

abbrev is_range : RequestOp → Bool
is_range (request_range r) = true
is_range (request_put put) = false
is_range (request_delete_range d) = false
is_range request_other = false

abbrev only {ℓ} : {A : Type ℓ} → List A → Option A
only [] = none
only (x ∷ []) = some x
only (x ∷ y ∷ xs) = none

abbrev guard {ℓ} : {A : Type ℓ} → Bool → Option A → Option A
guard true o = o
guard false o = none

-- The one compare, if it is for an equal modification revision.
abbrev equal_mod : Option Compare → Option Compare
equal_mod none = none
equal_mod (some c) = guard (is_mod c.target && is_equal c.result) (some c)

abbrev only_put : Option RequestOp → Option PutRequest
only_put none = none
only_put (some op) = as_put op

abbrev create_put : Option Compare → Option PutRequest → List RequestOp → Option PutRequest
create_put none put failure = none
create_put (some c) put [] = guard (eqb_ℤ (get_mod_revision c.target_union) (pos 0)) put
create_put (some c) put (op ∷ ops) = none

unfoldable pub is_create : TxnRequest → Option PutRequest
is_create req = create_put (equal_mod (only req.compare)) (only_put (only req.success)) req.failure

-- What `isUpdate` returns.
pub record Update : Type 0 where
  pub expected_rev : ℤ
  pub key : Bytes
  pub value : Bytes
  pub lease : ℕ

-- The key is the compare's, and the rest is the put's.
abbrev update_of : Option Compare → Option PutRequest → Option RequestOp → Option Update
update_of none put failure = none
update_of (some c) none failure = none
update_of (some c) (some put) none = none
update_of (some c) (some put) (some op) = guard (is_range op) (
    some (record {
      expected_rev = get_mod_revision c.target_union;
      key = c.key;
      value = put.value;
      lease = put.lease;
    }))

unfoldable pub is_update : TxnRequest → Option Update
is_update req =
    update_of (equal_mod (only req.compare)) (only_put (only req.success)) (only req.failure)

abbrev pub put_response_at : ℕ → ResponseOp
put_response_at rev = response_put (record { header = header_at rev; prev_kv = none })

unfoldable pub create_response : TxnResult → TxnResponse
create_response res = record {
  header = header_at res.revision;
  succeeded = res.succeeded;
  responses = if res.succeeded then put_response_at res.revision ∷ [] else [];
}

abbrev pub current_response : TxnResult → ResponseOp
current_response res = response_range (record {
  header = header_at res.revision;
  count = length (list_of res.current);
  kvs = map to_proto_kv (list_of res.current);
})

unfoldable pub update_response : TxnResult → TxnResponse
update_response res = record {
  header = header_at res.revision;
  succeeded = res.succeeded;
  responses =
      if res.succeeded then put_response_at res.revision ∷ [] else current_response res ∷ [];
}

-- The fields that a compare reads; an absent key counts as 0.
abbrev version_of : Option KeyValue → ℕ
version_of none = 0
version_of (some kv) = kv.version

abbrev mod_of : Option KeyValue → ℕ
mod_of none = 0
mod_of (some kv) = kv.mod_revision

abbrev create_of : Option KeyValue → ℕ
create_of none = 0
create_of (some kv) = kv.create_revision

abbrev pub related : CompareResult → ℤ → ℤ → Bool
related equal actual expected = eqb_ℤ actual expected
related not_equal actual expected = not (eqb_ℤ actual expected)
related greater actual expected = ltb_ℤ expected actual
related less actual expected = ltb_ℤ actual expected
related other_result actual expected = false

-- The two switches of `evalCompare`.
unfoldable pub compare_kv : Compare → Option KeyValue → Bool
compare_kv c kv = elim c.target [
  | on_version ↦ related c.result (pos (version_of kv)) (get_version c.target_union)
  | on_mod ↦ related c.result (pos (mod_of kv)) (get_mod_revision c.target_union)
  | on_create ↦ related c.result (pos (create_of kv)) (get_create_revision c.target_union)
  | on_other ↦ false
]

module _ (R : Redis) where
  unfoldable pub create : PutRequest → Io R TxnResponse
  create put = do
    res ← txn R put.key (negsuc 0) put_op put.value put.lease
    pure R (create_response res)

  unfoldable pub update : Update → Io R TxnResponse
  update u = do
    res ← txn R u.key u.expected_rev put_op u.value u.lease
    pure R (update_response res)

  unfoldable pub eval_compare : Compare → Io R Bool
  eval_compare c = do kv ← get_kv R c.key; pure R (compare_kv c kv)

  -- The loop ends at the first compare that fails.
  unfoldable pub eval_compares : List Compare → Io R Bool
  eval_compares [] = pure R true
  eval_compares (c ∷ cs) = do
    holds ← eval_compare c
    if holds then eval_compares cs else pure R false

  unfoldable pub execute_op : RequestOp → Io R ResponseOp
  execute_op (request_put req) = do
    written ← put R req.key req.value req.lease
    pure R (put_response_at written.0)
  execute_op (request_range req) = do resp ← range_request R req; pure R (response_range resp)
  execute_op (request_delete_range req) = do
    resp ← delete_range R req
    pure R (response_delete_range resp)
  execute_op request_other = pure R response_empty

  -- The loop ends at the first operation that fails; what the others did stays.
  unfoldable pub execute_ops : List RequestOp → Io R (List ResponseOp)
  execute_ops [] = pure R []
  execute_ops (op ∷ ops) = do resp ← execute_op op; rest ← execute_ops ops; pure R (resp ∷ rest)

  unfoldable pub generic_txn : TxnRequest → Io R TxnResponse
  generic_txn req = do
    succeeded ← eval_compares req.compare
    results ← execute_ops (if succeeded then req.success else req.failure)
    h ← header R
    pure R (record { header = h; succeeded = succeeded; responses = results })

  abbrev update_or_generic : TxnRequest → Option Update → Io R TxnResponse
  update_or_generic req none = generic_txn req
  update_or_generic req (some u) = update u

  abbrev pub dispatch : TxnRequest → Option PutRequest → Io R TxnResponse
  dispatch req none = update_or_generic req (is_update req)
  dispatch req (some put) = create put

  unfoldable pub txn_request : TxnRequest → Io R TxnResponse
  txn_request req = dispatch req (is_create req)
