-- ===== src/Server/Kv.antt =====
-- The key-value service: server/kv.go, kv_put.go, kv_range.go, kv_delete.go and compact.go, and
-- `Status` of server/maintenance.go, over the store of store/redis.go.
pub mod Txn
pub mod Ranges
pub mod Swap
pub mod Generic
pub mod Deletes
pub mod DeleteRange
use retcd.Prelude.{
  ℕ, zero, suc, ◌+◌, Bool, true, false, List, [], ◌∷◌, Option, none, some, ltb, if◌then◌else◌,
  length, map,
}
use retcd.Bytes.{Bytes, str_eq, common_prefix}
use retcd.Redis.{Redis}
use retcd.Store.Blob.{KeyValue}
use retcd.Store.Client.{
  Result, ok, err, World, Io, ◌>>=◌, ◌>>◌, pure, put, delete, get_kv, current_revision, range,
}
use retcd.Server.Match.{in_range}
use retcd.Server.Messages.{
  ProtoKeyValue, to_proto_kv, ResponseHeader, header_at, PutRequest, PutResponse, RangeRequest,
  RangeResponse, DeleteRangeRequest, DeleteRangeResponse, StatusResponse,
}

-- The loop that keeps the keys of a range.
unfoldable pub filter_range : Bytes → Bytes → List KeyValue → List KeyValue
filter_range key range_end [] = []
filter_range key range_end (kv ∷ kvs) =
    let rest = filter_range key range_end kvs in
    if in_range key range_end kv.key then kv ∷ rest else rest

abbrev pub list_of : Option KeyValue → List KeyValue
list_of none = []
list_of (some kv) = kv ∷ []

abbrev pub mod_revision_or_zero : Option KeyValue → ℕ
mod_revision_or_zero none = 0
mod_revision_or_zero (some kv) = kv.mod_revision

abbrev pub max_rev : ℕ → ℕ → ℕ
max_rev rev cur = if ltb rev cur then cur else rev

-- The previous version, where it is asked for.
abbrev pub asked : Bool → Option KeyValue → Option ProtoKeyValue
asked true (some kv) = some (to_proto_kv kv)
asked true none = none
asked false _ = none

unfoldable pub range_response : Bool → ℕ → List KeyValue → RangeResponse
range_response count_only rev kvs = record {
  header = header_at rev;
  count = length kvs;
  kvs = if count_only then [] else map to_proto_kv kvs;
}

-- rev, _ := s.store.CurrentRevision(ctx): an error leaves 0
abbrev pub value_or_zero : Result ℕ → ℕ
value_or_zero (ok n) = n
value_or_zero (err e) = 0

module _ (R : Redis) where
  unfoldable pub revision_or_zero : Io R ℕ
  revision_or_zero w = let (r, w') = current_revision R w in (ok (value_or_zero r), w')

  unfoldable pub header : Io R ResponseHeader
  header = do rev ← revision_or_zero; pure R (header_at rev)

  unfoldable pub put_request : PutRequest → Io R PutResponse
  put_request req = do
    written ← put R req.key req.value req.lease
    pure R (record { header = header_at written.0; prev_kv = asked req.prev_kv written.1 })

  -- A failed read of the revision leaves the one of the key.
  abbrev pub lookup_single : Bytes → Io R (ℕ × List KeyValue)
  lookup_single key = do
    kv ← get_kv R key
    cur ← revision_or_zero
    pure R (max_rev (mod_revision_or_zero kv) cur, list_of kv)

  abbrev pub scan : Bytes → Bytes → Io R (ℕ × List KeyValue)
  scan key range_end = do
    found ← range R (common_prefix key range_end)
    pure R (found.0, filter_range key range_end found.1)

  unfoldable pub range_request : RangeRequest → Io R RangeResponse
  range_request req = do
    found ← (if str_eq req.range_end [] then lookup_single req.key else scan req.key req.range_end)
    pure R (range_response req.count_only found.0 found.1)

  -- The loop over the scanned keys, with the number deleted so far.
  unfoldable pub delete_each : Bytes → Bytes → List KeyValue → ℕ → Io R ℕ
  delete_each key range_end [] deleted = pure R deleted
  delete_each key range_end (kv ∷ kvs) deleted =
      let rest = delete_each key range_end kvs in
      if in_range key range_end kv.key
      then (do written ← delete R kv.key; rest (suc deleted))
      else rest deleted

  abbrev pub delete_single : Bytes → Io R ℕ
  delete_single key = do written ← delete R key; pure R (length (list_of written.1))

  abbrev pub delete_scanned : Bytes → Bytes → Io R ℕ
  delete_scanned key range_end = do
    found ← range R (common_prefix key range_end)
    delete_each key range_end found.1 0

  unfoldable pub delete_range : DeleteRangeRequest → Io R DeleteRangeResponse
  delete_range req = do
    deleted ←
        (if str_eq req.range_end []
          then delete_single req.key
          else delete_scanned req.key req.range_end)
    h ← header
    pure R (record { header = h; deleted = deleted })

  -- `Compact` discards nothing: its answer is a header.
  unfoldable pub compact : Io R ResponseHeader
  compact = header

  unfoldable pub status : Io R StatusResponse
  status = do rev ← revision_or_zero; pure R (record { header = header_at rev; raft_index = rev })
