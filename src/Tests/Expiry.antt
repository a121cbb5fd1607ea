-- ===== src/Tests/Expiry.antt =====
-- The life of a lease, and opening a store, on concrete inputs.
use retcd.Prelude.{
  ◌≡◌, refl, [], ◌∷◌, some, none, arith, pos, negsuc, if◌then◌else◌, inl, false, ◌∙◌, ap, ◌+◌, ◌<◌,
  ◌^◌,
}
use retcd.Bytes.{Bytes, str_eq}
use retcd.Decimal.{decimal, decimal_fuel}
use retcd.Redis.{absent, expiring, as_set, Value, set, aged}
use retcd.Redis.Memory.{in_memory, or_empty}
use retcd.Store.Event.{put_op}
use retcd.Store.Mvcc.{passes, next_kv}
use retcd.Store.Client.{World, ok, failed, txn, get_kv}
use retcd.Store.Lease.{
  start_lease_reaper, ticker_fires, context_done, lease_set_key, wait, lease_data_key, lease_grant,
  lease_time_to_live, lease_revoke, bury,
}
use retcd.Store.Lease.Linked.{on_lease}
use retcd.Store.Lease.Emptied.{IsSound}
use retcd.Store.Lease.Grant.{time_left}
use retcd.Store.Lease.Ticks.{Ticked, start_lease_reaper-Ticked}
use retcd.Store.Lease.Keys.{set_ne-data, lease_data_key-IsApart, lease_set_key-IsApart}
use retcd.Store.Lease.Reap.{load}
use retcd.Store.Script.{lease_keys_key}
use retcd.Bytes.Order.{str_eq_sym}
use retcd.Store.Lease.Life.{apart-IsSound, lease_grant-time_left}
use retcd.Store.Lease.Missed.{swapped-outlives, Orphaned, bury-Orphaned}
use retcd.Store.Open.Migrate.{first_state, Opened, open_store-Opened}
use retcd.Server.Lease.{keep_alive, receive_failed}
use retcd.Server.Lease.KeepAlive.{expected_answers, turns_of, lasting, keep_alive-expected}
use retcd.Tests.{pod, value, opened, world, nothing}
use retcd.Tests.Leases.{
  listed_world, listed-IsSound, leased_world, leased, leased-IsSound, leased-listed, kept, set_read,
  leased-room,
}

-- The second half of a minute.
lease_grant-time_left_example :
    ((lease_grant in_memory (pos 60) listed_world).0 ≡ ok 1)
    × (IsSound in_memory (lease_grant in_memory (pos 60) listed_world).1 nothing
        × ((lease_time_to_live in_memory
              (pos 1)
              (wait in_memory 30000 (lease_grant in_memory (pos 60) listed_world).1)).0
            ≡ ok (time_left 60 30000)))
unfolding opened str_eq
lease_grant-time_left_example =
    lease_grant-time_left in_memory listed_world nothing 0 60 (decimal 7 ∷ []) listed-IsSound refl
      (omega arith) refl (omega arith) (omega arith) 30000

swapped-outlives_example :
    ((lease_revoke in_memory (pos 7) (txn in_memory pod (negsuc 0) put_op value 7 listed_world).1).0
      ≡ ok tt)
    × (((get_kv in_memory pod
            (lease_revoke in_memory
              (pos 7)
              (txn in_memory pod (negsuc 0) put_op value 7 listed_world).1).1).0
          ≡ ok (some (next_kv pod value 7 1 none)))
        × ((lease_revoke in_memory
              (pos 7)
              (txn in_memory pod (negsuc 0) put_op value 7 listed_world).1).1.emitted
            ≡ (txn in_memory pod (negsuc 0) put_op value 7 listed_world).1.emitted))
unfolding passes on_lease str_eq
swapped-outlives_example =
    swapped-outlives in_memory listed_world nothing listed-IsSound pod value (negsuc 0) 7
      (decimal 7 ∷ []) (omega arith) refl (λ k. refl) refl (omega arith)

abbrev unread_world : World in_memory
unread_world = record leased_world { fates = failed 0 ∷ [] }

bury-Orphaned_example :
    Orphaned in_memory unread_world leased 7
      (decimal 7 ∷ [])
      (bury in_memory (decimal 7) (pos 7) unread_world)
bury-Orphaned_example =
    bury-Orphaned in_memory unread_world leased 7 (decimal 7 ∷ []) leased-IsSound.refines
      leased-listed refl

abbrev granted_world : World in_memory
granted_world = record world {
  db = λ k. if str_eq (lease_data_key (pos 7)) k then expiring 60000 (decimal 60) else absent;
}

-- The third request comes too late.
keep_alive-expected_example :
    (keep_alive in_memory (turns_of (pos 7) (20000 ∷ 59999 ∷ 60000 ∷ 1 ∷ [])) granted_world).0
    ≡ (expected_answers (pos 7) 60 60000 (20000 ∷ 59999 ∷ 60000 ∷ 1 ∷ []), receive_failed)
unfolding str_eq decimal decimal_fuel lasting
keep_alive-expected_example =
    keep_alive-expected in_memory (pos 7) 60 (omega arith) (omega arith)
      (20000 ∷ 59999 ∷ 60000 ∷ 1 ∷ []) granted_world 60000 refl refl

abbrev unopened : World in_memory
unopened = record world { db = λ k. absent }

open_store-Opened_example : Opened in_memory unopened first_state
open_store-Opened_example =
    open_store-Opened in_memory unopened first_state (inl ((λ k. refl), refl)) refl

-- The lease of `leased_world` has a minute left, and a minute passes.
abbrev timed_db : Bytes → Value
timed_db k =
    if str_eq (lease_data_key (pos 7)) k then expiring 60000 (decimal 60) else leased_world.db k

abbrev timed_world : World in_memory
timed_world = record leased_world { db = timed_db }

timed-frame :
    (k : Bytes) → str_eq (lease_data_key (pos 7)) k ≡ false → timed_db k ≡ leased_world.db k
timed-frame k other = rw other refl

timed-set : timed_db lease_set_key ≡ set (decimal 7 ∷ [])
timed-set =
    timed-frame lease_set_key
      (str_eq_sym (lease_data_key (pos 7)) lease_set_key ∙ set_ne-data (pos 7))
    ∙ (kept.frame lease_set_key lease_set_key-IsApart ∙ set_read)

timed-keys : timed_db (lease_keys_key 7) ≡ leased_world.db (lease_keys_key 7)
timed-keys = timed-frame (lease_keys_key 7) (
    str_eq_sym (lease_data_key (pos 7)) (lease_keys_key 7)
    ∙ (lease_data_key-IsApart (pos 7)).leases 7)

timed-load : leased.revision + load in_memory timed_db (7 ∷ []) + 1 < 2 ^ 63
unfolding load
timed-load = rw timed-keys (omega (arith, leased-room))

start_lease_reaper-Ticked_example :
    Ticked in_memory timed_world leased (7 ∷ []) (decimal 7 ∷ []) 60000 (
      start_lease_reaper in_memory
        (ticker_fires (wait in_memory 60000) ∷ context_done ∷ [])
        timed_world)
start_lease_reaper-Ticked_example =
    start_lease_reaper-Ticked in_memory 60000 (7 ∷ []) timed_world leased (decimal 7 ∷ []) []
      (apart-IsSound in_memory leased_world timed_db leased (lease_data_key (pos 7)) leased-IsSound
        (lease_data_key-IsApart (pos 7)) timed-frame)
      (ap (λ v. or_empty (as_set (aged 60000 v))) timed-set) (omega arith, tt) (ap as_set timed-set)
      timed-load
