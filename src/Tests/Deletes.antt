-- ===== src/Tests/Deletes.antt =====
-- Delete requests and transactions of other shapes on concrete inputs.
use retcd.Prelude.{
  Bool, ◌↔◌, ◌≤◌, ◌≡◌, ◌≢◌, refl, true, false, List, [], ◌∷◌, none, is_some, arith, pos, length, ap,
  sym, ◌∙◌, Bool-cases, inl, inr,
}
use retcd.Bytes.{Bytes, str_eq, str_lt}
use retcd.Bytes.Order.{str_eq_iff, str_eq_refl, str_lt_irrefl}
use retcd.Redis.{contains}
use retcd.Redis.Memory.{in_memory}
use retcd.Store.Mvcc
use retcd.Store.Refine.Index.{IsOrdered}
use retcd.Store.Client.{ok}
use retcd.Store.Client.Swaps.{visible}
use retcd.Server.Match.{from_key, matches_watch}
use retcd.Server.Messages.{
  DeleteRangeRequest, Compare, greater, on_version, version, TxnRequest, header_at,
}
use retcd.Server.Kv.{delete_range}
use retcd.Server.Kv.DeleteRange.{RangeDeleted, delete_range-RangeDeleted}
use retcd.Server.Kv.Txn.{is_create, is_update, compare_kv, eval_compares, txn_request}
use retcd.Server.Kv.Generic.{all_hold, AllHold, eval_compares-AllHold, txn_request-refused}
use retcd.Tests.{pod}
use retcd.Tests.Stores.{
  after_put, after_put-IsExact, after_put-HasByteKeys, first_put, world_after_put,
}

first_contained : (x : Bytes) (ms : List Bytes) → contains x (x ∷ ms) ≡ true
unfolding contains
first_contained x ms = ground (arith, str_eq_refl x)

second_contained : (x y : Bytes) (ms : List Bytes) → contains y (x ∷ y ∷ ms) ≡ true
unfolding contains
second_contained x y ms = ground (arith, str_eq_refl y)

-- An index whose keys are all "/a/b" has one key at most.
length-le_one :
    (ms : List Bytes)
    → IsOrdered ms
    → ((k : Bytes) → contains k ms ≡ true → k ≡ pod)
    → length ms ≤ 1
length-le_one [] o h = omega arith
length-le_one (x ∷ []) o h = omega arith
length-le_one (x ∷ y ∷ ms) o h =
    let first = h x (first_contained x (y ∷ ms)) in
    let second = h y (second_contained x y ms) in
    let twice : str_lt pod pod ≡ true =
      ap (λ z. str_lt z pod) (sym first) ∙ (ap (str_lt x) (sym second) ∙ o.0.0) in
    absurd (ground (arith, twice, str_lt_irrefl pod))

after_put-only_pod : (k : Bytes) → is_some (after_put.at k) ≡ true → k ≡ pod
unfolding Mvcc.put
after_put-only_pod k h = elim (Bool-cases (str_eq pod k)) [
  | inl same ↦ sym ((str_eq_iff pod k).0 same)
  | inr other ↦ absurd (ground (arith, h, other))
]

after_put-few : length first_put.refines.shape.members ≤ 1
after_put-few =
    length-le_one first_put.refines.shape.members first_put.refines.agrees.ordered
      (λ k c. after_put-only_pod k (sym (first_put.refines.agrees.indexed k) ∙ c))

one_revision : after_put.revision ≡ 1
unfolding Mvcc.put
one_revision = refl

-- ["/a/", "/a0")
abbrev folder : DeleteRangeRequest
folder = record { key = b'/' ∷ b'a' ∷ b'/' ∷ []; range_end = b'/' ∷ b'a' ∷ b'0' ∷ [] }

folder-closed : folder.range_end ≢ from_key
folder-closed h = cc

delete_range-RangeDeleted_example :
    RangeDeleted in_memory world_after_put after_put
      (λ k. matches_watch k folder.key folder.range_end)
      (delete_range in_memory folder world_after_put)
delete_range-RangeDeleted_example =
    delete_range-RangeDeleted in_memory world_after_put after_put first_put.refines
      after_put-IsExact folder refl refl after_put-HasByteKeys
      (omega arith, (omega arith, (omega arith, tt))) folder-closed
      (omega (arith, one_revision, after_put-few))

-- version > 1
abbrev newer : Compare
newer = record { result = greater; target = on_version; key = pod; target_union = version (pos 1) }

eval_compares-AllHold_example :
    (holds : Bool) × ((eval_compares in_memory (newer ∷ []) world_after_put
        ≡ (ok holds, world_after_put))
      × ((holds ≡ true) ↔ AllHold after_put.at (newer ∷ [])))
eval_compares-AllHold_example =
    eval_compares-AllHold in_memory world_after_put after_put first_put.refines after_put-IsExact
      (newer ∷ []) refl

abbrev compactor : TxnRequest
compactor = record { compare = newer ∷ []; success = []; failure = [] }

compactor-is_create : is_create compactor ≡ none
unfolding is_create
compactor-is_create = refl

compactor-is_update : is_update compactor ≡ none
unfolding is_update
compactor-is_update = refl

compactor-fails : all_hold after_put.at compactor.compare ≡ false
unfolding all_hold compare_kv Mvcc.put Mvcc.next_kv str_eq
compactor-fails = refl

txn_request-refused_example : txn_request in_memory compactor world_after_put ≡ (
  ok (record { header = header_at (visible after_put); succeeded = false; responses = [] }),
  world_after_put,
)
txn_request-refused_example =
    txn_request-refused in_memory world_after_put after_put first_put.refines after_put-IsExact
      compactor refl compactor-is_create compactor-is_update refl compactor-fails
