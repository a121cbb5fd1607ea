-- ===== src/Store/Lease/Revoke.antt =====
-- LeaseRevoke, and what the reaper does of one lease.
use retcd.Prelude.{
  ℕ, ◌+◌, ◌≤◌, ◌<◌, ◌^◌, ◌≡◌, refl, false, List, [], none, some, arith, ap, ◌∙◌, if◌then◌else◌,
  length, pos, ◌==◌,
}
use retcd.Bytes.{Bytes, str_eq}
use retcd.Bytes.Order.{str_eq_sym, str_eq_refl}
use retcd.Decimal.{decimal}
use retcd.Redis.{Redis, absent, as_set, contains, without}
use retcd.Store.Script.{lease_keys_key}
use retcd.Store.Mvcc.{Mvcc}
use retcd.Store.Client.Reads.{call-read}
use retcd.Store.Client.{lease_keys_failed, lease_revoke_failed, Error, Result, ok, World, call}
use retcd.Store.Client.Log.{Logged}
use retcd.Store.Lease.{lease_set_key, lease_data_key, command, ◌⨟◌, delete_keys, lease_revoke}
use retcd.Store.Lease.Keys.{lease_data_key-IsApart, lease_set_key-IsApart, set_ne-data, data_ne}
use retcd.Store.Lease.Linked.{on_lease, IsLinked}
use retcd.Store.Lease.Emptied.{IsSound, Emptied, set_size, delete_keys-Emptied}
use retcd.Store.Lease.Forget.{==_false, apart-IsLinked, apart-Refines, forget, on_lease-gone}

module _ (R : Redis) where
  -- A lease that was revoked or reaped: exactly the keys that were written under it are gone, each
  -- with its event, and its key set and its place among the leases. The other leases are as before.
  pub record Ended (w : World R) (m : Mvcc) (id : ℕ) (ids : List Bytes) (w' : World R)
      : Type 0 where
    pub logged : Logged R w m w'
    pub gone : (k : Bytes) → logged.state.at k ≡ (if on_lease id (m.at k) then none else m.at k)
    pub few : length logged.new ≤ set_size (R.value w.db (lease_keys_key id))
    pub linked : IsLinked R w'.db logged.state
    pub listed : as_set (R.value w'.db lease_set_key) ≡ some (without (decimal id) ids)
    pub others :
        (n : ℕ)
        → n < 2 ^ 63
        → (n == id) ≡ false
        → R.value w'.db (lease_data_key (pos n)) ≡ R.value w.db (lease_data_key (pos n))
    pub shrinks :
        (n : ℕ)
        → n < 2 ^ 63
        → set_size (R.value w'.db (lease_keys_key n)) ≤ set_size (R.value w.db (lease_keys_key n))

  -- The keys that SMEMBERS returns of a lease.
  pub keys_are :
      (w : World R) (m : Mvcc) (i : IsSound R w m) (id : ℕ)
      → id < 2 ^ 63
      → (k : Bytes) → contains k (R.smembers w.db (lease_keys_key id)) ≡ on_lease id (m.at k)
  keys_are w m i id hi k =
      R.smembers-value w.db (lease_keys_key id) k (i.refines.shape.leases id)
        (i.refines.has.leases id)
      ∙ i.linked.linked id k (i.refines.shape.leases id) hi (i.refines.has.leases id)

  pub keys_count :
      (w : World R) (m : Mvcc) (i : IsSound R w m) (id : ℕ)
      → length (R.smembers w.db (lease_keys_key id)) ≡ set_size (R.value w.db (lease_keys_key id))
  keys_count w m i id =
      R.smembers-length w.db (lease_keys_key id) (i.refines.shape.leases id)
        (i.refines.has.leases id)
      ∙ rw (i.refines.has.leases id) refl

  -- From the deletes of the lease's keys and what then becomes of its Redis keys.
  pub ended :
      (w : World R) (m : Mvcc) (i : IsSound R w m) (id : ℕ) (ids : List Bytes) (w' : World R)
      (hi : id < 2 ^ 63) (e : Emptied R w m (R.smembers w.db (lease_keys_key id)) w')
      (db' db'' : R.Db)
      → ((k : Bytes) → str_eq (lease_data_key (pos id)) k ≡ false → R.value db' k ≡ R.value w'.db k)
      → as_set (R.value w.db lease_set_key) ≡ some ids
      → db'' ≡ R.srem (R.del db' (lease_keys_key id)) lease_set_key (decimal id)
      → Ended w m id ids (record w' { db = db'' })
        × (R.value db'' (lease_data_key (pos id)) ≡ R.value db' (lease_data_key (pos id)))
  ended w m i id ids w' hi e db' db'' frame h same =
      let s = e.logged.state in
      let a = lease_data_key-IsApart (pos id) in
      let gone : (k : Bytes) → s.at k ≡ (if on_lease id (m.at k) then none else m.at k) =
        λ k. e.gone k ∙ ap (λ b. if b then none else m.at k) (keys_are w m i id hi k) in
      let f =
        forget R db' s id ids
          (apart-Refines R w'.db db' s (lease_data_key (pos id)) a frame e.logged.refines)
          (apart-IsLinked R w'.db db' s (lease_data_key (pos id)) a frame e.linked) hi
          (λ k. ap (on_lease id) (gone k) ∙ on_lease-gone id (m.at k))
          (ap as_set (
              frame lease_set_key
                (str_eq_sym (lease_data_key (pos id)) lease_set_key ∙ set_ne-data (pos id))
              ∙ e.frame lease_set_key lease_set_key-IsApart)
            ∙ h) in
      rw same (
        record {
          logged = record {
            new = e.logged.new;
            state = s;
            emitted = e.logged.emitted;
            history = e.logged.history;
            numbered = e.logged.numbered;
            revision = e.logged.revision;
            refines = f.refines;
            exact = e.logged.exact;
            calm = e.logged.calm;
            on = e.logged.on;
          };
          gone = gone;
          few = omega (arith, e.few, keys_count w m i id);
          linked = f.linked;
          listed = f.listed;
          others = λ n hn other.
              f.others (lease_data_key (pos n)) (lease_data_key-IsApart (pos n))
                (set_ne-data (pos n))
              ∙ (frame (lease_data_key (pos n)) (data_ne id n hi hn ∙ ==_false id n other)
                  ∙ e.frame (lease_data_key (pos n)) (lease_data_key-IsApart (pos n)));
          shrinks = λ n hn. omega (
            arith,
            f.shrinks n hn,
            e.shrinks n hn,
            ap set_size (
                frame (lease_keys_key n)
                  (str_eq_sym (lease_data_key (pos id)) (lease_keys_key n) ∙ a.leases n)),
          );
        },
        f.others (lease_data_key (pos id)) a (set_ne-data (pos id)),
      )

  pub command-answered :
      (e : Error) (f : R.Db → R.Db) (w : World R)
      → w.fates ≡ []
      → command R e f w ≡ (ok tt, record w { db = f w.db })
  unfolding command call
  command-answered e f w calm = rw calm refl

  -- What a revocation comes to.
  pub record Revoked (w : World R) (m : Mvcc) (id : ℕ) (ids : List Bytes)
      (out : Result (Unit {0}) × World R) : Type 0 where
    pub returned : out.0 ≡ ok tt
    pub ended : Ended w m id ids out.1
    pub withdrawn : R.value out.1.db (lease_data_key (pos id)) ≡ absent

  abbrev pub revoked_db : R.Db → ℕ → R.Db
  revoked_db db id =
      R.srem (R.del (R.del db (lease_data_key (pos id))) (lease_keys_key id)) lease_set_key
        (decimal id)

  pub lease_revoke-run :
      (w w' : World R) (id : ℕ)
      → w.fates ≡ []
      → delete_keys R (R.smembers w.db (lease_keys_key id)) w ≡ (ok tt, w')
      → w'.fates ≡ []
      → lease_revoke R (pos id) w ≡ (ok tt, record w' { db = revoked_db w'.db id })
  unfolding lease_revoke ◌⨟◌
  lease_revoke-run w w' id calm done calm' =
      rw
        (
          call-read R lease_keys_failed (λ db. R.smembers db (lease_keys_key id)) w calm,
          done,
          command-answered lease_revoke_failed (λ db. R.del db (lease_data_key (pos id))) w' calm',
          command-answered lease_revoke_failed (λ db. R.del db (lease_keys_key id))
              (record w' { db = R.del w'.db (lease_data_key (pos id)) }) calm',
          command-answered lease_revoke_failed (λ db. R.srem db lease_set_key (decimal id))
              (record w' { db = R.del (R.del w'.db (lease_data_key (pos id))) (lease_keys_key id) })
              calm',
        )
        refl

  -- `LeaseRevoke`, if its calls are answered, the key sets of the leases are those of the state, and the
  -- counter has room for a deletion of each of the lease's keys: it reports no error, exactly the keys
  -- whose current version was written under the lease are gone, with an event and a revision for each
  -- deletion, and so are the lease's string, its key set and its place among the leases. The other keys
  -- and the other leases are as before, and the key sets are again those of the state.
  pub lease_revoke-Revoked :
      (w : World R) (m : Mvcc) (id : ℕ) (ids : List Bytes)
      → IsSound R w m
      → id < 2 ^ 63
      → as_set (R.value w.db lease_set_key) ≡ some ids
      → m.revision + set_size (R.value w.db (lease_keys_key id)) + 1 < 2 ^ 63
      → Revoked w m id ids (lease_revoke R (pos id) w)
  lease_revoke-Revoked w m id ids i hi listed room =
      let ks = R.smembers w.db (lease_keys_key id) in
      let (done, e) = delete_keys-Emptied R ks w m i (omega (arith, room, keys_count w m i id)) in
      let w' = (delete_keys R ks w).1 in
      let frame = λ (k : Bytes) (other : str_eq (lease_data_key (pos id)) k ≡ false).
        R.value-del w'.db (lease_data_key (pos id)) k ∙ rw other refl in
      let last =
        ended w m i id ids w' hi e (R.del w'.db (lease_data_key (pos id))) (revoked_db w'.db id)
          frame listed refl in
      rw (lease_revoke-run w w' id i.calm (ap (λ r. (r, w')) done) e.logged.calm) (record {
        returned = refl;
        ended = last.0;
        withdrawn =
            last.1
            ∙ (R.value-del w'.db (lease_data_key (pos id)) (lease_data_key (pos id))
                ∙ rw (str_eq_refl (lease_data_key (pos id))) refl);
      })
