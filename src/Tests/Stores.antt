-- ===== src/Tests/Stores.antt =====
-- The store on concrete inputs.
use retcd.Prelude.{
  ℕ, ◌<◌, take, suc, ◌≡◌, refl, true, false, ◌&&◌, List, [], ◌∷◌, none, some, ◌⊎◌, inl, inr,
  Bool-cases, arith, pos, negsuc,
}
use retcd.Bytes.{Bytes, str_eq, has_prefix}
use retcd.Bytes.Order.{str_eq_iff}
use retcd.Redis.{above, below}
use retcd.Redis.Memory.{in_memory}
use retcd.Store.Lex.{prefix_lex_range}
use retcd.Store.Lex.Exact.{prefix_lex_range-exact}
use retcd.Store.Blob.{KeyValue, decode_kv, make_blob}
use retcd.Store.Blob.RoundTrip.{decode_kv-make_blob}
use retcd.Store.Event.{put_op, delete_op, make_event, parse_stream_event}
use retcd.Store.Event.Agree.{parse_stream_event-make_event}
use retcd.Store.Script.{put_fields, delete_fields, or_blank}
use retcd.Store.Mvcc
use retcd.Store.Mvcc.{Mvcc, IsExact, next_kv, put_event, delete_event, passes}
use retcd.Store.Mvcc.Exact.{put-IsExact}
use retcd.Store.Client.{ok, put_failed, failed, World, put, delete, txn}
use retcd.Store.Client.Writes.{Writes, Lost, put-Writes, put-Lost, delete-Writes}
use retcd.Store.Client.Swaps.{visible, Swapped, txn-Swapped}
use retcd.Store.Client.Scan.{HasByteKeys}
use retcd.Store.Client.Runs.{perform_all-Logged}
use retcd.Store.Client.Log.{Write, putting, deleting, swapping, perform_all, Performed}
use retcd.Tests.{pod, value, world, nothing, opened-Refines, nothing-IsExact}

put-Writes_example :
    Writes in_memory world
      (λ sid. Mvcc.put pod value 7 sid nothing)
      (put_event pod (next_kv pod value 7 1 none) none)
      1
      none
      (put in_memory pod value 7 world)
put-Writes_example =
    put-Writes in_memory world nothing opened-Refines nothing-IsExact pod value 7 (omega arith) refl
      refl

-- The first call's reply is lost.
abbrev broken : World in_memory
broken = record world { fates = failed 1 ∷ [] }

put-Lost_example :
    Lost in_memory broken
      (λ sid. Mvcc.put pod value 7 sid nothing)
      put_failed
      (put in_memory pod value 7 broken)
put-Lost_example =
    put-Lost in_memory broken nothing opened-Refines nothing-IsExact pod value 7 [] (omega arith)
      refl

-- The state after one put.
pub first_put :
    Writes in_memory world
      (λ sid. Mvcc.put pod value 7 sid nothing)
      (put_event pod (next_kv pod value 7 1 none) none)
      1
      none
      (put in_memory pod value 7 world)
first_put =
    put-Writes in_memory world nothing opened-Refines nothing-IsExact pod value 7 (omega arith) refl
      refl

abbrev pub after_put : Mvcc
after_put = Mvcc.put pod value 7 first_put.sid nothing

abbrev pub world_after_put : World in_memory
world_after_put = record world { db = (put in_memory pod value 7 world).1.db }

pub after_put-IsExact : IsExact after_put
after_put-IsExact =
    put-IsExact nothing nothing-IsExact (omega arith) pod value 7 first_put.sid (omega arith)

pub after_put-HasByteKeys : HasByteKeys after_put
unfolding Mvcc.put
after_put-HasByteKeys k h = elim (Bool-cases (str_eq pod k)) [
  | inl same ↦
      rw⁻¹ ((str_eq_iff pod k).0 same)
        ((omega arith, (omega arith, (omega arith, (omega arith, tt)))))
  | inr other ↦ absurd (ground (arith, h, other))
]

delete-Writes_example :
    ((prev : KeyValue) × ((after_put.at pod ≡ some prev)
        × Writes in_memory world_after_put
            (λ sid. Mvcc.delete pod prev sid after_put)
            (delete_event pod (suc after_put.revision) prev)
            (suc after_put.revision)
            (some prev)
            (delete in_memory pod world_after_put)))
    ⊎ ((after_put.at pod ≡ none)
        × (delete in_memory pod world_after_put ≡ (ok (after_put.revision, none), world_after_put)))
delete-Writes_example =
    delete-Writes in_memory world_after_put after_put first_put.refines after_put-IsExact pod refl
      refl

txn-Swapped_example :
    ((passes (pos 1) (after_put.at pod) ≡ true)
      × Swapped in_memory world_after_put after_put pod value 0
          (txn in_memory pod (pos 1) put_op value 0 world_after_put))
    ⊎ ((passes (pos 1) (after_put.at pod) ≡ false)
        × (txn in_memory pod (pos 1) put_op value 0 world_after_put ≡ (
          ok (record {
            succeeded = false;
            revision = visible after_put;
            current = after_put.at pod;
          }),
          world_after_put,
        )))
txn-Swapped_example =
    txn-Swapped in_memory world_after_put after_put first_put.refines after_put-IsExact pod (pos 1)
      value 0 (omega arith) refl refl

-- "/a"
abbrev pub folder : Bytes
folder = b'/' ∷ b'a' ∷ []

abbrev three_writes : List Write
three_writes = putting pod value 7 ∷ deleting pod ∷ swapping pod (negsuc 0) [] 0 ∷ []

perform_all-Logged_example :
    Performed in_memory world nothing 3 (perform_all in_memory three_writes world)
perform_all-Logged_example =
    perform_all-Logged in_memory three_writes world nothing opened-Refines nothing-IsExact
      (omega arith, (tt, (omega arith, tt))) (omega arith) refl refl

abbrev blob : Bytes
unfolding make_blob
blob = make_blob 3 5 2 0 value

parse_stream_event-make_event_example :
    (parse_stream_event
        (record { id = b'1' ∷ b'-' ∷ b'0' ∷ []; values = put_fields pod 5 blob (some []) })
      ≡ some (make_event put_op pod 5 blob (or_blank (some [])) (b'1' ∷ b'-' ∷ b'0' ∷ [])))
    × (parse_stream_event
          (record { id = b'1' ∷ b'-' ∷ b'0' ∷ []; values = delete_fields pod 5 blob })
        ≡ some (make_event delete_op pod 5 [] blob (b'1' ∷ b'-' ∷ b'0' ∷ [])))
parse_stream_event-make_event_example =
    parse_stream_event-make_event pod 5 blob blob (b'1' ∷ b'-' ∷ b'0' ∷ []) (some []) (omega arith)

decode_kv-make_blob_example :
    (decode_kv pod (make_blob 3 5 2 0 value)
      ≡ some (record {
        key = pod;
        value = value;
        create_revision = 3;
        mod_revision = 5;
        version = 2;
        lease = 0;
      }))
    × ((n : ℕ) → n < 32 → decode_kv pod (take n (make_blob 3 5 2 0 value)) ≡ none)
decode_kv-make_blob_example =
    decode_kv-make_blob pod 3 5 2 0 value (omega arith) (omega arith) (omega arith) (omega arith)

-- A prefix that ends in the highest byte.
prefix_lex_range-exact_example :
    (above (prefix_lex_range (1 ∷ 255 ∷ [])).0 (1 ∷ 255 ∷ 9 ∷ [])
      && below (prefix_lex_range (1 ∷ 255 ∷ [])).1 (1 ∷ 255 ∷ 9 ∷ []))
    ≡ has_prefix (1 ∷ 255 ∷ []) (1 ∷ 255 ∷ 9 ∷ [])
prefix_lex_range-exact_example =
    prefix_lex_range-exact (1 ∷ 255 ∷ []) (1 ∷ 255 ∷ 9 ∷ []) (omega arith, (omega arith, tt))
      (omega arith, (omega arith, (omega arith, tt)))
