-- ===== src/Server/Kv/Swap.antt =====
-- The two transactions that Kubernetes sends, create and update.
use retcd.Prelude.{
  ℕ, suc, ◌<◌, ◌^◌, ◌≡◌, refl, true, false, [], ◌∷◌, ◌++◌, none, some, arith, ap, Option-cases, ◌⊎◌,
  inl, inr, negsuc, length, map,
}
use retcd.Bytes.{Bytes}
use retcd.Redis.{Redis}
use retcd.Store.Blob.{KeyValue}
use retcd.Store.Event.{put_op}
use retcd.Store.Mvcc.{Mvcc, IsExact, next_kv, put_event, passes, mod_revision_of}
use retcd.Store.Mvcc
use retcd.Store.Refine.{Refines}
use retcd.Store.Client.{Result, ok, World, pure, txn}
use retcd.Store.Client.Swaps.{visible, Swapped, txn-Swapped}
use retcd.Server.Messages.{
  PutRequest, TxnRequest, TxnResponse, response_range, RangeRequest, TargetUnion, get_mod_revision,
  equal, on_mod, request_put, request_range, header_at, to_proto_kv,
}
use retcd.Server.Shown.{shown}
use retcd.Server.Kv.{list_of}
use retcd.Server.Kv.Txn.{
  Update, is_create, is_update, put_response_at, create_response, update_response, create, update,
  dispatch, txn_request,
}

-- A transaction that wrote: one put, one event, and the put's response.
pub record Wrote (R : Redis) (w : World R) (m : Mvcc) (key value : Bytes) (lease : ℕ)
    (out : Result TxnResponse × World R) : Type 0 where
  pub sid : Bytes
  pub returned :
      out.0
      ≡ ok (record {
        header = header_at (suc m.revision);
        succeeded = true;
        responses = put_response_at (suc m.revision) ∷ [];
      })
  pub emitted :
      out.1.emitted
      ≡ w.emitted
        ++ put_event key (next_kv key value lease (suc m.revision) (m.at key)) (m.at key) sid ∷ []
  pub refines : Refines R out.1.db (Mvcc.put key value lease sid m)

-- The answer to a refused create, and to a refused update.
abbrev pub refused_create : Mvcc → TxnResponse
refused_create m = record { header = header_at (visible m); succeeded = false; responses = [] }

abbrev pub refused_update : Mvcc → Bytes → TxnResponse
refused_update m key = record {
  header = header_at (visible m);
  succeeded = false;
  responses =
      response_range (record {
        header = header_at (visible m);
        count = length (list_of (m.at key));
        kvs = map shown (list_of (m.at key));
      })
      ∷ [];
}

module _ (R : Redis) (w : World R) (m : Mvcc) (r : Refines R w.db m) (x : IsExact m)
    (calm : w.fates ≡ []) (on : w.sink ≡ true) where
  create-Wrote :
      (put : PutRequest)
      → Swapped R w m put.key put.value put.lease
          (txn R put.key (negsuc 0) put_op put.value put.lease w)
      → Wrote R w m put.key put.value put.lease (create R put w)
  unfolding create create_response pure
  create-Wrote put s =
      rw s.returned
        (record { sid = s.sid; returned = refl; emitted = s.emitted; refines = s.refines })

  update-Wrote :
      (u : Update)
      → Swapped R w m u.key u.value u.lease (txn R u.key u.expected_rev put_op u.value u.lease w)
      → Wrote R w m u.key u.value u.lease (update R u w)
  unfolding update update_response pure
  update-Wrote u s =
      rw s.returned
        (record { sid = s.sid; returned = refl; emitted = s.emitted; refines = s.refines })

  create-cases :
      (put : PutRequest)
      → put.lease < 2 ^ 63
      → ((m.at put.key ≡ none) × Wrote R w m put.key put.value put.lease (create R put w))
        ⊎ ((prev : KeyValue) × ((m.at put.key ≡ some prev)
              × (create R put w ≡ (ok (refused_create m), w))))
  unfolding create create_response pure passes
  create-cases put fits =
      elim (txn-Swapped R w m r x put.key (negsuc 0) put.value put.lease fits calm on) [
        | inl (pass, s) ↦ elim (Option-cases (m.at put.key)) [
          | inl gone ↦ inl (gone, create-Wrote put s)
          | inr (prev, there) ↦ absurd (ground (arith, pass, there))
        ]
        | inr (fail, e) ↦ elim (Option-cases (m.at put.key)) [
          | inl gone ↦ absurd (ground (arith, fail, gone))
          | inr (prev, there) ↦ inr (prev, (there, rw e))
        ]
      ]

  update-cases :
      (u : Update)
      → u.lease < 2 ^ 63
      → ((passes u.expected_rev (m.at u.key) ≡ true)
          × Wrote R w m u.key u.value u.lease (update R u w))
        ⊎ ((passes u.expected_rev (m.at u.key) ≡ false)
            × (update R u w ≡ (ok (refused_update m u.key), w)))
  unfolding update update_response pure to_proto_kv
  update-cases u fits =
      elim (txn-Swapped R w m r x u.key u.expected_rev u.value u.lease fits calm on) [
        | inl (pass, s) ↦ inl (pass, update-Wrote u s)
        | inr (fail, e) ↦ inr (fail, rw e)
      ]

-- A request with the shape of a create is handled as one.
dispatch-create :
    (R : Redis) (req : TxnRequest) (put : PutRequest)
    → is_create req ≡ some put
    → txn_request R req ≡ create R put
unfolding txn_request
dispatch-create R req put h = ap (dispatch R req) h

dispatch-update :
    (R : Redis) (req : TxnRequest) (u : Update)
    → is_create req ≡ none
    → is_update req ≡ some u
    → txn_request R req ≡ update R u
unfolding txn_request
dispatch-update R req u h g = rw (h, g)

module _ (R : Redis) (w : World R) (m : Mvcc) (r : Refines R w.db m) (x : IsExact m)
    (req : TxnRequest) where
  -- A create transaction, if its call is answered, puts the value under an absent key: one revision,
  -- one event, and the response to a put; if the key is there, it changes and emits nothing, and the
  -- response says so with the revision that clients see.
  pub create-Wrote_or_refused :
      (put : PutRequest)
      → w.fates ≡ []
      → w.sink ≡ true
      → is_create req ≡ some put
      → put.lease < 2 ^ 63
      → ((m.at put.key ≡ none) × Wrote R w m put.key put.value put.lease (txn_request R req w))
        ⊎ ((prev : KeyValue) × ((m.at put.key ≡ some prev)
              × (txn_request R req w ≡ (ok (refused_create m), w))))
  create-Wrote_or_refused put calm on h fits =
      rw (dispatch-create R req put h) (create-cases R w m r x calm on put fits)

-- The transaction that Kubernetes sends as an update: one compare for an equal modification
-- revision, one put, and one range.
abbrev pub update_request : Bytes → TargetUnion → PutRequest → RangeRequest → TxnRequest
update_request key union put current = record {
  compare = record { result = equal; target = on_mod; key = key; target_union = union } ∷ [];
  success = request_put put ∷ [];
  failure = request_range current ∷ [];
}

update_request-is_update :
    (key : Bytes) (union : TargetUnion) (put : PutRequest) (current : RangeRequest)
    → (is_create (update_request key union put current) ≡ none)
      × (is_update (update_request key union put current)
          ≡ some (record {
            expected_rev = get_mod_revision union;
            key = key;
            value = put.value;
            lease = put.lease;
          }))
unfolding is_create is_update
update_request-is_update key union put current = (refl, refl)

module _ (R : Redis) (w : World R) (m : Mvcc) (r : Refines R w.db m) (x : IsExact m) where
  -- A transaction of the shape of an update, if its call is answered, puts the put's value and lease
  -- under the key of the compare, whatever key the put and the range name, exactly when the key's
  -- current version passes the compare's revision: one revision, one event, and the response to a put.
  -- Otherwise it changes and emits nothing, and the response holds the current version of the
  -- compare's key and the revision that clients see.
  pub update-Wrote_or_refused :
      (key : Bytes) (union : TargetUnion) (put : PutRequest) (current : RangeRequest)
      → w.fates ≡ []
      → w.sink ≡ true
      → put.lease < 2 ^ 63
      → ((passes (get_mod_revision union) (m.at key) ≡ true)
          × Wrote R w m key put.value put.lease
              (txn_request R (update_request key union put current) w))
        ⊎ ((passes (get_mod_revision union) (m.at key) ≡ false)
            × (txn_request R (update_request key union put current) w
                ≡ (ok (refused_update m key), w)))
  update-Wrote_or_refused key union put current calm on fits =
      let shape = update_request-is_update key union put current in
      let u : Update = record {
        expected_rev = get_mod_revision union;
        key = key;
        value = put.value;
        lease = put.lease;
      } in
      rw (dispatch-update R (update_request key union put current) u shape.0 shape.1)
        (update-cases R w m r x calm on u fits)
