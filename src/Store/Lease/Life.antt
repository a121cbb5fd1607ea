-- ===== src/Store/Lease/Life.antt =====
-- A lease from its grant on.
use retcd.Prelude.{
  ℕ, suc, ◌<◌, ◌^◌, ◌≡◌, refl, false, List, [], ◌∷◌, some, arith, ap, ◌∙◌, if◌then◌else◌, pos,
}
use retcd.Bytes.{Bytes, str_eq}
use retcd.Bytes.Order.{str_eq_refl, str_eq_sym}
use retcd.Decimal.{decimal}
use retcd.Redis.{Redis, set_value, as_set, as_counter, without, aged}
use retcd.Store.Keyspace.Apart.{IsApart}
use retcd.Store.Mvcc.{Mvcc}
use retcd.Store.Client.{lease_grant_failed, Result, ok, World, pure, call}
use retcd.Store.Lease.{
  wait, lease_id_counter, lease_set_key, lease_data_key, seconds, ◌⨟◌, lease_grant,
  lease_time_to_live,
}
use retcd.Store.Lease.Keys.{
  lease_data_key-IsApart, lease_set_key-IsApart, lease_id_counter-IsApart, set_ne-data,
  counter_ne-set,
}
use retcd.Store.Lease.Emptied.{IsSound}
use retcd.Store.Lease.Revoke.{command-answered}
use retcd.Store.Lease.Forget.{apart-Refines, apart-IsLinked}
use retcd.Store.Lease.Grant.{
  granted_value, seconds-NotKeep, set_with-granted, time_left, lease_time_to_live-time_left,
}

module _ (R : Redis) where
  -- A lease of `s` seconds that was granted.
  pub record Granted (w : World R) (m : Mvcc) (id s : ℕ) (ids : List Bytes)
      (out : Result ℕ × World R) : Type 0 where
    pub returned : out.0 ≡ ok id
    pub sound : IsSound R out.1 m
    pub stored : R.value out.1.db (lease_data_key (pos id)) ≡ granted_value s
    pub listed :
        as_set (R.value out.1.db lease_set_key) ≡ some (decimal id ∷ without (decimal id) ids)

  pub apart-IsSound :
      (w : World R) (db' : R.Db) (m : Mvcc) (k : Bytes)
      → IsSound R w m
      → IsApart k
      → ((j : Bytes) → str_eq k j ≡ false → R.value db' j ≡ R.value w.db j)
      → IsSound R (record w { db = db' }) m
  apart-IsSound w db' m k i a frame = record {
    refines = apart-Refines R w.db db' m k a frame i.refines;
    exact = i.exact;
    linked = apart-IsLinked R w.db db' m k a frame i.linked;
    calm = i.calm;
    on = i.on;
  }

  module _ (w : World R) (m : Mvcc) (n s : ℕ) (ids : List Bytes) (i : IsSound R w m)
      (counted : as_counter (R.value w.db lease_id_counter) ≡ some n) (room : suc n < 2 ^ 63)
      (listed : as_set (R.value w.db lease_set_key) ≡ some ids) (p : 0 < s)
      (h : s < 18446744074) where
    abbrev db1 : R.Db
    db1 = (R.incr w.db lease_id_counter).1

    abbrev db2 : R.Db
    db2 = R.set_for db1 (lease_data_key (pos (suc n))) (decimal s) (seconds (pos s))

    abbrev db3 : R.Db
    db3 = R.sadd db2 lease_set_key (decimal (suc n))

    lease_grant-run : lease_grant R (pos s) w ≡ (ok (suc n), record w { db = db3 })
    unfolding lease_grant ◌⨟◌ pure call
    lease_grant-run =
        rw (i.calm, R.incr-value w.db lease_id_counter n counted room)
          (rw
            (
              command-answered R lease_grant_failed
                  (λ db. R.set_for db (lease_data_key (pos (suc n))) (decimal s) (seconds (pos s)))
                  (record w { db = db1; fates = [] }) refl,
              command-answered R lease_grant_failed
                  (λ db. R.sadd db lease_set_key (decimal (suc n)))
                  (record w { db = db2; fates = [] }) refl,
            )
            refl)

    abbrev lease_data : Bytes
    lease_data = lease_data_key (pos (suc n))

    incr_frame : (j : Bytes) → str_eq lease_id_counter j ≡ false → R.value db1 j ≡ R.value w.db j
    incr_frame j other = R.value-incr w.db lease_id_counter j n counted room ∙ rw other refl

    set_law :
        (j : Bytes)
        → R.value db2 j ≡ (if str_eq lease_data j then granted_value s else R.value db1 j)
    set_law j =
        R.value-set_for db1 lease_data (decimal s) j (seconds (pos s)) (seconds-NotKeep s p h)
        ∙ rw (set_with-granted s p h) refl

    set_frame : (j : Bytes) → str_eq lease_data j ≡ false → R.value db2 j ≡ R.value db1 j
    set_frame j other = set_law j ∙ rw other refl

    still_listed : as_set (R.value db2 lease_set_key) ≡ some ids
    still_listed =
        ap as_set (
          set_frame lease_set_key (str_eq_sym lease_data lease_set_key ∙ set_ne-data (pos (suc n)))
          ∙ incr_frame lease_set_key counter_ne-set)
        ∙ listed

    sadd_law :
        (j : Bytes)
        → R.value db3 j ≡ (
            if str_eq lease_set_key j
            then set_value (decimal (suc n) ∷ without (decimal (suc n)) ids)
            else R.value db2 j)
    sadd_law j = R.value-sadd db2 lease_set_key (decimal (suc n)) j ids still_listed

    stored_here : R.value db2 lease_data ≡ granted_value s
    stored_here = set_law lease_data ∙ rw (str_eq_refl lease_data) refl

    sadd_here :
        R.value db3 lease_set_key ≡ set_value (decimal (suc n) ∷ without (decimal (suc n)) ids)
    sadd_here = sadd_law lease_set_key ∙ rw (str_eq_refl lease_set_key) refl

    pub lease_grant-Granted : Granted w m (suc n) s ids (lease_grant R (pos s) w)
    lease_grant-Granted = rw lease_grant-run (record {
      returned = refl;
      sound =
          apart-IsSound (record w { db = db2 }) db3 m lease_set_key
            (apart-IsSound (record w { db = db1 }) db2 m lease_data
              (apart-IsSound w db1 m lease_id_counter i lease_id_counter-IsApart incr_frame)
              (lease_data_key-IsApart (pos (suc n))) set_frame)
            lease_set_key-IsApart (λ j other. sadd_law j ∙ rw other refl);
      stored = sadd_law lease_data ∙ rw (set_ne-data (pos (suc n))) stored_here;
      listed = rw sadd_here refl;
    })

    -- `LeaseGrant` of a positive number of seconds below 18446744074, if its calls are answered, returns
    -- the next ID and changes nothing of the keys; so many milliseconds later `LeaseTimeToLive` reports
    -- the granted seconds and the rest of them, rounded to seconds, or 0 and -1 when the time is over. A
    -- lease of more than 9223372036 seconds, whose duration in nanoseconds wraps around, never ends.
    pub lease_grant-time_left :
        (t : ℕ)
        → ((lease_grant R (pos s) w).0 ≡ ok (suc n))
          × (IsSound R (lease_grant R (pos s) w).1 m
              × ((lease_time_to_live R (pos (suc n)) (wait R t (lease_grant R (pos s) w).1)).0
                  ≡ ok (time_left s t)))
    lease_grant-time_left t =
        let g = lease_grant-Granted in
        let w' = (lease_grant R (pos s) w).1 in
        (
          g.returned,
          (
            g.sound,
            ap (λ o. o.0)
                (lease_time_to_live-time_left R (wait R t w') (pos (suc n)) s t
                  (R.value-elapse w'.db t lease_data ∙ ap (aged t) g.stored) (omega (arith, h))
                  g.sound.calm),
          ),
        )
