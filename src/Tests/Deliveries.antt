-- ===== src/Tests/Deliveries.antt =====
-- Writes, the dispatcher and a watch together, on concrete inputs.
use retcd.Prelude.{
  ℕ, suc, ◌+◌, ◌≤◌, ◌<◌, ◌≡◌, refl, true, false, List, [], ◌∷◌, ◌++◌, some, arith, All, length,
}
use retcd.Redis.Memory.{in_memory}
use retcd.Store.Client.Log.{Write, putting, deleting, perform_all}
use retcd.Store.Client.{put, run_script, call, emit, script_rev, pure, delete, run_times}
use retcd.Store.Script.{write_script, write_put, script_str, write_delete, attach, detach}
use retcd.Bytes.{str_eq}
use retcd.Decimal.{
  parse_int, decimal, decimal_fuel, in_int64, negated_in_int64, parse_digits, parse_unsigned,
}
use retcd.Store.Blob.{make_blob, dec64, dec_loop, decode_kv, enc64, enc_loop, uint64}
use retcd.Store.Event.{created_ms_of, index_byte, make_event}
use retcd.Server.Delivery.{event_at, writes-reach_subscriber}
use retcd.Prelude.Assoc.{lookup}
use retcd.Store.Mvcc
use retcd.Store.Mvcc.{Mvcc}
use retcd.Store.Refine.{Refines}
use retcd.Server.Dispatcher.{WatchSub, Dispatcher}
use retcd.Server.Dispatcher.Reorder.{contains}
use retcd.Server.Dispatcher.Reorder.Arrivals.{IsIdle, ingest_all}
use retcd.Server.Dispatcher.Fanout.{IsDistinct, matching}
use retcd.Tests.{pod, value}
use retcd.Tests.Stores.{after_put, after_put-IsExact, first_put, world_after_put}

program : Unit {0}
unfolding perform_all put run_script call write_script str_eq write_put emit script_str script_rev
    parse_int decimal pure delete write_delete attach detach make_blob decimal_fuel in_int64
    negated_in_int64 parse_digits parse_unsigned dec64 dec_loop decode_kv enc64 enc_loop uint64
    run_times created_ms_of index_byte make_event
program = tt

abbrev writes : List Write
writes = putting pod value 7 ∷ deleting pod ∷ putting pod [] 0 ∷ deleting [] ∷ []

-- The delete of an absent key makes no event.
three_emitted : length (perform_all in_memory writes world_after_put).1.emitted ≡ 3
unfolding program
three_emitted = refl

-- A watch of "/a/b".
abbrev sub : WatchSub
sub = record { key = pod; range_end = []; ch = []; cancelled = false }

-- Primed at revision 1, with that watch.
abbrev primed : Dispatcher
primed = record {
  feed = record {
    subs = (1, sub) ∷ [];
    cut = [];
    latest_rev = 1;
    ck_counter = 0;
    checkpoints = [];
  };
  next_id = 1;
  next_rev = 2;
  pending = [];
}

one_revision : after_put.revision ≡ 1
unfolding Mvcc.put
one_revision = refl

-- Revisions 2 to 4, out of order.
abbrev order : List ℕ
order = 4 ∷ 2 ∷ 3 ∷ 2 ∷ []

primed-IsIdle : IsIdle (suc after_put.revision) primed
primed-IsIdle = record { primed = omega arith; next_is = omega (arith, one_revision); empty = refl }

primed-IsDistinct : IsDistinct primed.subs
unfolding lookup
primed-IsDistinct = (refl, tt)

primed-has_sub : lookup 1 primed.subs ≡ some sub
unfolding lookup
primed-has_sub = refl

order_above : All (λ r. suc after_put.revision ≤ r) order
order_above = (
  omega (arith, one_revision),
  (omega (arith, one_revision), (omega (arith, one_revision), (omega (arith, one_revision), tt))),
)

abbrev end : ℕ
end = suc after_put.revision + length (perform_all in_memory writes world_after_put).1.emitted

end_lem : end ≡ 5
end_lem = omega (arith, one_revision, three_emitted)

order_below : All (λ r. r < end) order
order_below = (
  omega (arith, end_lem),
  (omega (arith, end_lem), (omega (arith, end_lem), (omega (arith, end_lem), tt))),
)

order_complete : (r : ℕ) → suc after_put.revision ≤ r → r < end → contains r order ≡ true
unfolding contains
order_complete r lo hi = ground (arith, one_revision, end_lem)

writes-reach_subscriber_example :
    (m' : Mvcc) × (let evs = (perform_all in_memory writes world_after_put).1.emitted in
      let d' = ingest_all (event_at (suc after_put.revision) evs) order primed in
      Refines in_memory (perform_all in_memory writes world_after_put).1.db m'
      × ((m'.history ≡ after_put.history ++ evs)
          × ((lookup 1 d'.subs ≡ some (record sub { ch = [] ++ matching pod [] evs }))
              × (d'.latest_rev ≡ m'.revision))))
writes-reach_subscriber_example =
    writes-reach_subscriber in_memory writes world_after_put after_put order primed 1 sub
      first_put.refines after_put-IsExact (omega arith, (tt, (omega arith, (tt, tt))))
      (omega (arith, one_revision)) refl refl refl primed-IsIdle (omega (arith, one_revision))
      primed-IsDistinct primed-has_sub (omega arith) order_above order_below order_complete
      (omega arith)
