-- ===== src/Tests/Services.antt =====
-- The key-value service on concrete inputs.
use retcd.Prelude.{ℕ, ◌≡◌, ◌≢◌, refl, true, false, [], ◌∷◌, none, some, ◌⊎◌, arith, ℤ, pos}
use retcd.Bytes.{has_prefix, common_prefix}
use retcd.Redis.Memory.{in_memory}
use retcd.Store.Blob.{KeyValue}
use retcd.Store.Mvcc.{passes}
use retcd.Store.Client.{ok}
use retcd.Server.Match.{from_key, in_range, matches_watch}
use retcd.Server.Match.Scan.{from_key-scan_misses}
use retcd.Server.Messages.{
  PutRequest, RangeRequest, Compare, equal, on_mod, mod_revision, request_put, TxnRequest,
}
use retcd.Server.Kv.{range_request}
use retcd.Server.Kv.Ranges.{Listed, range_request-Listed}
use retcd.Server.Kv.Txn.{is_create, txn_request}
use retcd.Server.Kv.Swap.{
  Wrote, refused_create, refused_update, create-Wrote_or_refused, update-Wrote_or_refused,
  update_request,
}
use retcd.Tests.{pod, value}
use retcd.Tests.Stores.{
  first_put, after_put, after_put-IsExact, after_put-HasByteKeys, world_after_put,
}

-- ["/a/", "/a0")
abbrev folder_request : RangeRequest
folder_request = record {
  key = b'/' ∷ b'a' ∷ b'/' ∷ [];
  range_end = b'/' ∷ b'a' ∷ b'0' ∷ [];
  count_only = false;
}

folder_request-closed : folder_request.range_end ≢ from_key
folder_request-closed h = cc

range_request-Listed_example :
    Listed in_memory world_after_put after_put
      (λ k. matches_watch k folder_request.key folder_request.range_end)
      false
      (range_request in_memory folder_request world_after_put)
range_request-Listed_example =
    range_request-Listed in_memory world_after_put after_put first_put.refines after_put-IsExact
      folder_request refl after_put-HasByteKeys (omega arith, (omega arith, (omega arith, tt)))
      folder_request-closed

abbrev pod_put : PutRequest
pod_put = record { key = pod; value = value; lease = 0; prev_kv = false }

abbrev unchanged_at : ℤ → Compare
unchanged_at rev = record {
  result = equal;
  target = on_mod;
  key = pod;
  target_union = mod_revision rev;
}

abbrev pod_create : TxnRequest
pod_create = record {
  compare = unchanged_at (pos 0) ∷ [];
  success = request_put pod_put ∷ [];
  failure = [];
}

pod_create-is_create : is_create pod_create ≡ some pod_put
unfolding is_create
pod_create-is_create = refl

create-Wrote_or_refused_example :
    ((after_put.at pod ≡ none)
      × Wrote in_memory world_after_put after_put pod value 0
          (txn_request in_memory pod_create world_after_put))
    ⊎ ((prev : KeyValue) × ((after_put.at pod ≡ some prev)
          × (txn_request in_memory pod_create world_after_put
              ≡ (ok (refused_create after_put), world_after_put))))
create-Wrote_or_refused_example =
    create-Wrote_or_refused in_memory world_after_put after_put first_put.refines after_put-IsExact
      pod_create pod_put refl refl pod_create-is_create (omega arith)

abbrev other_put : PutRequest
other_put = record { key = []; value = value; lease = 0; prev_kv = false }

abbrev pod_range : RangeRequest
pod_range = record { key = pod; range_end = []; count_only = false }

-- The put names another key than the compare.
update-Wrote_or_refused_example :
    ((passes (pos 1) (after_put.at pod) ≡ true)
      × Wrote in_memory world_after_put after_put pod value 0 (
          txn_request in_memory
            (update_request pod (mod_revision (pos 1)) other_put pod_range)
            world_after_put))
    ⊎ ((passes (pos 1) (after_put.at pod) ≡ false)
        × (txn_request in_memory
              (update_request pod (mod_revision (pos 1)) other_put pod_range)
              world_after_put
            ≡ (ok (refused_update after_put pod), world_after_put)))
update-Wrote_or_refused_example =
    update-Wrote_or_refused in_memory world_after_put after_put first_put.refines after_put-IsExact
      pod (mod_revision (pos 1)) other_put pod_range refl refl (omega arith)

-- The range of all keys: ["\x00", "\x00").
abbrev slash : ℕ
slash = b'/'

slash_ne : slash ≢ 0
slash_ne h = cc

from_key-scan_misses_example :
    (in_range (0 ∷ []) from_key pod ≡ true)
    × (has_prefix (common_prefix (0 ∷ []) from_key) pod ≡ false)
from_key-scan_misses_example = from_key-scan_misses [] slash (b'a' ∷ b'/' ∷ b'b' ∷ []) slash_ne
