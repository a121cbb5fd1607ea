-- ===== src/Store/Lease/Missed.antt =====
-- Keys that outlive their lease.
use retcd.Prelude.{
  ℕ, suc, ◌+◌, ◌<◌, ◌^◌, ◌≡◌, refl, true, false, List, [], ◌∷◌, some, arith, ap, ◌∙◌, sym, length,
  ℤ, pos,
}
use retcd.Bytes.{Bytes, str_eq}
use retcd.Bytes.Order.{str_eq_refl, str_eq_sym}
use retcd.Decimal.{decimal}
use retcd.Redis.{Redis, absent, as_set, contains, without}
use retcd.Store.Event.{put_op}
use retcd.Store.Script.{redis_key, lease_keys_key, txn_script, txn_put}
use retcd.Store.Mvcc
use retcd.Store.Mvcc.{Mvcc, IsExact, next_kv, passes}
use retcd.Store.Mvcc.Exact.{put-IsExact}
use retcd.Store.Refine.{Refines, encoded}
use retcd.Store.Refine.Txn.{txn_put-Has, txn_script-passed}
use retcd.Store.Refine.Write.Spec.{current_is}
use retcd.Store.Refine.Write.Spec
use retcd.Store.Client.{Result, ok, World, pure, call, failed, txn, get_kv, run_times}
use retcd.Store.Client.Swaps.{swaps, txn-swap}
use retcd.Store.Client.Reads.{get_kv-at}
use retcd.Store.Lease.{
  lease_set_key, lease_data_key, command, ignoring, delete_keys, try_delete_keys, lease_revoke,
  bury,
}
use retcd.Store.Lease.Keys.{lease_data_key-IsApart, lease_set_key-IsApart, set_ne-data}
use retcd.Store.Lease.Linked.{on_lease}
use retcd.Store.Lease.Emptied.{IsSound}
use retcd.Store.Lease.Revoke.{revoked_db, lease_revoke-run}
use retcd.Store.Lease.Forget.{apart-Refines, del_lease-Refines, set_value-law}

empty_of_contains : (ms : List Bytes) → ((k : Bytes) → contains k ms ≡ false) → ms ≡ []
unfolding contains
empty_of_contains [] h = refl
empty_of_contains (x ∷ ms) h = ground (arith, h x, str_eq_refl x)

empty_of_length : (ms : List Bytes) → length ms ≡ 0 → ms ≡ []
empty_of_length [] h = refl
empty_of_length (x ∷ ms) h = absurd (omega (arith, h))

module _ (R : Redis) where
  set_frame :
      (db : R.Db) (k : Bytes)
      → str_eq k lease_set_key ≡ false
      → R.value (R.del db k) lease_set_key ≡ R.value db lease_set_key
  set_frame db k other = R.value-del db k lease_set_key ∙ rw other refl

  -- The set of the leases loses a member.
  delisted-Refines :
      (db : R.Db) (m : Mvcc) (text : Bytes) (ids : List Bytes)
      → Refines R db m
      → as_set (R.value db lease_set_key) ≡ some ids
      → Refines R (R.srem db lease_set_key text) m
  delisted-Refines db m text ids r h =
      apart-Refines R db (R.srem db lease_set_key text) m lease_set_key lease_set_key-IsApart
        (λ j other. R.value-srem db lease_set_key text j ids h ∙ rw other refl) r

  revoked-Refines :
      (db : R.Db) (m : Mvcc) (id : ℕ) (ids : List Bytes)
      → Refines R db m
      → as_set (R.value db lease_set_key) ≡ some ids
      → Refines R (revoked_db R db id) m
  revoked-Refines db m id ids r h =
      let d = lease_data_key (pos id) in
      delisted-Refines (R.del (R.del db d) (lease_keys_key id)) m (decimal id) ids
        (del_lease-Refines R (R.del db d) m id (
          apart-Refines R db (R.del db d) m d (lease_data_key-IsApart (pos id))
            (λ j other. R.value-del db d j ∙ rw other refl) r))
        (ap as_set (
            set_frame (R.del db d) (lease_keys_key id) (lease_set_key-IsApart.leases id)
            ∙ set_frame db d (str_eq_sym d lease_set_key ∙ set_ne-data (pos id)))
          ∙ h)

  module _ (w : World R) (m : Mvcc) (i : IsSound R w m) (key value : Bytes) (expected : ℤ) (id : ℕ)
      (ids : List Bytes) (fits : id < 2 ^ 63) (pass : passes expected (m.at key) ≡ true)
      (free : (k : Bytes) → on_lease id (m.at k) ≡ false)
      (listed : as_set (R.value w.db lease_set_key) ≡ some ids)
      (room : m.revision + 2 < 2 ^ 63) where
    abbrev swapped_db : R.Db
    swapped_db = (txn_script R (redis_key key) expected value put_op id w.db).1

    abbrev s : Refines R w.db m
    s = i.refines

    no_keys : s.shape.leases id ≡ []
    no_keys =
        empty_of_contains (s.shape.leases id)
          (λ k. i.linked.linked id k (s.shape.leases id) fits (s.has.leases id) ∙ free k)

    room_is : suc s.shape.counter < 2 ^ 63
    room_is = Spec.room R w.db m s i.exact key

    put_db : swapped_db ≡ (txn_put R key (encoded (m.at key)) value id w.db).1
    put_db = ap (λ o. o.1) (txn_script-passed R w.db m s i.exact key expected value id pass)

    -- The transaction leaves the key sets as they were.
    keys_after : as_set (R.value swapped_db (lease_keys_key id)) ≡ some []
    keys_after = rw put_db (
        (txn_put-Has R w.db s.shape key value (encoded (m.at key)) id s.has room_is).leases id
        ∙ ap some no_keys)

    listed_after : as_set (R.value swapped_db lease_set_key) ≡ some ids
    listed_after = rw put_db (
        ap as_set (
          (txn_put-Has R w.db s.shape key value (encoded (m.at key)) id s.has room_is).others
            lease_set_key lease_set_key-IsApart
          ∙ sym (s.has.others lease_set_key lease_set_key-IsApart))
        ∙ listed)

    abbrev m1 : Mvcc
    m1 = Mvcc.put key value id (swaps R w m s i.exact key expected value id fits pass).sid m

    kv_at : m1.at key ≡ some (next_kv key value id (suc m.revision) (m.at key))
    unfolding Mvcc.put
    kv_at = rw (str_eq_refl key) refl

    revoke_after :
        (w1 : World R)
        → w1.db ≡ swapped_db
        → w1.fates ≡ []
        → lease_revoke R (pos id) w1 ≡ (ok tt, record w1 { db = revoked_db R w1.db id })
    unfolding delete_keys pure
    revoke_after w1 e calm =
        let none_there : R.smembers w1.db (lease_keys_key id) ≡ [] = empty_of_length _ (
          R.smembers-length w1.db (lease_keys_key id) []
            (ap (λ db. as_set (R.value db (lease_keys_key id))) e ∙ keys_after)) in
        lease_revoke-run R w1 w1 id calm (ap (λ ks. delete_keys R ks w1) none_there) calm

    still_there :
        (w2 : World R)
        → w2.db ≡ revoked_db R swapped_db id
        → w2.fates ≡ []
        → (get_kv R key w2).0 ≡ ok (some (next_kv key value id (suc m.revision) (m.at key)))
    still_there w2 e calm =
        ap (λ o. o.0)
          (get_kv-at R w2 m1
            (rw e (
              revoked-Refines swapped_db m1 id ids
                (swaps R w m s i.exact key expected value id fits pass).refines listed_after))
            (put-IsExact m i.exact room key value id _ fits) key calm)
        ∙ ap (λ o. ok o) kv_at

    -- A key that a compare-and-swap wrote under a lease that had no keys, if all calls are answered, is
    -- still there when the lease has been revoked, with the version that was written, and the sink hears
    -- of no deletion.
    pub swapped-outlives :
        ((lease_revoke R (pos id) (txn R key expected put_op value id w).1).0 ≡ ok tt)
        × (((get_kv R key (lease_revoke R (pos id) (txn R key expected put_op value id w).1).1).0
              ≡ ok (some (next_kv key value id (suc m.revision) (m.at key))))
            × ((lease_revoke R (pos id) (txn R key expected put_op value id w).1).1.emitted
                ≡ (txn R key expected put_op value id w).1.emitted))
    swapped-outlives =
        let t = txn-swap R w m s i.exact key expected value id fits pass i.calm i.on in
        let w1 = (txn R key expected put_op value id w).1 in
        let e : w1.db ≡ swapped_db = ap (λ o. o.1.db) t in
        let calm : w1.fates ≡ [] = ap (λ o. o.1.fates) t ∙ i.calm in
        rw (revoke_after w1 e calm) (
          refl,
          (
            still_there (record w1 { db = revoked_db R w1.db id }) (ap (λ db. revoked_db R db id) e)
                calm,
            refl,
          ),
        )

  del_here : (db : R.Db) (k : Bytes) → R.value (R.del db k) k ≡ absent
  del_here db k = R.value-del db k k ∙ rw (str_eq_refl k) refl

  srem_then :
      (db : R.Db) (text : Bytes) (ids : List Bytes)
      → as_set (R.value db lease_set_key) ≡ some ids
      → (j : Bytes) → str_eq lease_set_key j ≡ false
      → as_set (R.value (R.srem db lease_set_key text) j) ≡ as_set (R.value db j)
  srem_then db text ids h j other =
      ap as_set (R.value-srem db lease_set_key text j ids h ∙ rw other refl)

  srem_here :
      (db : R.Db) (text : Bytes) (ids : List Bytes)
      → as_set (R.value db lease_set_key) ≡ some ids
      → as_set (R.value (R.srem db lease_set_key text) lease_set_key) ≡ some (without text ids)
  srem_here db text ids h =
      ap as_set (
        R.value-srem db lease_set_key text lease_set_key ids h
        ∙ rw (str_eq_refl lease_set_key) refl)
      ∙ set_value-law R (without text ids)

  -- A lease that the reaper has forgotten, while its keys are as they were.
  pub record Orphaned (w : World R) (m : Mvcc) (id : ℕ) (ids : List Bytes)
      (out : Result (Unit {0}) × World R) : Type 0 where
    pub returned : out.0 ≡ ok tt
    pub refines : Refines R out.1.db m
    pub emitted : out.1.emitted ≡ w.emitted
    pub no_keys : as_set (R.value out.1.db (lease_keys_key id)) ≡ some []
    pub listed : as_set (R.value out.1.db lease_set_key) ≡ some (without (decimal id) ids)

  -- If the reaper cannot read the keys of an expired lease, and its other calls are answered, it deletes
  -- none of them, but the key set of the lease and the lease's place among the leases: no later run of
  -- the reaper finds them.
  pub bury-Orphaned :
      (w : World R) (m : Mvcc) (id : ℕ) (ids : List Bytes)
      → Refines R w.db m
      → as_set (R.value w.db lease_set_key) ≡ some ids
      → w.fates ≡ failed 0 ∷ []
      → Orphaned w m id ids (bury R (decimal id) (pos id) w)
  unfolding bury ignoring try_delete_keys pure command call run_times
  bury-Orphaned w m id ids r listed lost =
      let k = lease_keys_key id in
      let there : as_set (R.value (R.del w.db k) lease_set_key) ≡ some ids =
        ap as_set (set_frame w.db k (lease_set_key-IsApart.leases id)) ∙ listed in
      let gone : as_set (R.value (R.del w.db k) k) ≡ some [] = ap as_set (del_here w.db k) in
      rw lost (record {
        returned = refl;
        refines =
            delisted-Refines (R.del w.db k) m (decimal id) ids (del_lease-Refines R w.db m id r)
              there;
        emitted = refl;
        no_keys =
            srem_then (R.del w.db k) (decimal id) ids there k
              (str_eq_sym lease_set_key k ∙ lease_set_key-IsApart.leases id)
            ∙ gone;
        listed = srem_here (R.del w.db k) (decimal id) ids there;
      })
