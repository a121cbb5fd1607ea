-- ===== src/Store/Open/Migrate.antt =====
-- Opening a database: an empty one, one with the index of an older version, and one that is as it
-- should be.
use retcd.Prelude.{
  ◌≡◌, refl, true, false, List, [], ◌∷◌, none, some, arith, ap, ◌∙◌, sym, ◌⊎◌, inl, inr,
  if◌then◌else◌,
}
use retcd.Bytes.{Bytes, str_eq}
use retcd.Decimal.{decimal, decimal_fuel}
use retcd.Redis.{
  Redis, Value, absent, string, as_zset, as_set, as_stream, contains, is_present, is_set,
}
use retcd.Store.Script.{revision_key, key_index, event_stream, redis_key, lease_keys_key}
use retcd.Store.Keyspace.{Shape, Has}
use retcd.Store.Mvcc.{Mvcc}
use retcd.Store.Refine.{parse_all, Refines}
use retcd.Store.Client.{revision_failed, ok, World}
use retcd.Store.Lease.{ignoring}
use retcd.Store.Lease.Revoke.{command-answered}
use retcd.Store.Open.{migrate_key_index, open_store}
use retcd.Store.Open.Rebuild.{IsLegacy, migrate-idle, migrate-run, rebuilt, rebuilt-Refines}

-- Nothing has been written.
abbrev pub first_state : Mvcc
first_state = record { revision = 0; at = λ k. none; history = [] }

module _ (R : Redis) where
  same-Has :
      (db db' : R.Db) (s : Shape)
      → ((k : Bytes) → R.value db' k ≡ R.value db k)
      → Has R db s
      → Has R db' s
  same-Has db db' s same h = record {
    counter = same revision_key ∙ h.counter;
    blobs = λ k. same (redis_key k) ∙ h.blobs k;
    index = ap as_zset (same key_index) ∙ h.index;
    log = ap as_stream (same event_stream) ∙ h.log;
    leases = λ n. ap as_set (same (lease_keys_key n)) ∙ h.leases n;
    others = λ k a. same k ∙ h.others k a;
  }

  -- A database with the same values.
  same-Refines :
      (db db' : R.Db) (m : Mvcc)
      → ((k : Bytes) → R.value db' k ≡ R.value db k)
      → Refines R db m
      → Refines R db' m
  same-Refines db db' m same r = record {
    shape = r.shape;
    has = same-Has db db' r.shape same r.has;
    agrees = r.agrees;
  }

  abbrev counted : R.Db → R.Db
  counted db = R.set_nx db revision_key (b'0' ∷ [])

  counted-same :
      (db : R.Db)
      → is_present (R.value db revision_key) ≡ true
      → (k : Bytes) → R.value (counted db) k ≡ R.value db k
  counted-same db there k = R.value-set_nx db revision_key (b'0' ∷ []) k ∙ rw there (ground arith)

  open-run :
      (w w' : World R)
      → w.fates ≡ []
      → migrate_key_index R (record w { db = counted w.db }) ≡ (ok tt, w')
      → open_store R w ≡ (ok tt, w')
  unfolding open_store ignoring
  open-run w w' calm done =
      rw
        (
          command-answered R revision_failed (λ db. R.set_nx db revision_key (b'0' ∷ [])) w calm,
          done,
        )
        refl

  -- What opening does of a database, if the calls are answered.
  pub record Opened (w : World R) (m : Mvcc) : Type 0 where
    pub returned : (open_store R w).0 ≡ ok tt
    pub refines : Refines R (open_store R w).1.db m
    pub emitted : (open_store R w).1.emitted ≡ w.emitted
    pub fates : (open_store R w).1.fates ≡ []

  from_run :
      (w w' : World R) (m : Mvcc)
      → open_store R w ≡ (ok tt, w')
      → Refines R w'.db m
      → w'.emitted ≡ w.emitted
      → w'.fates ≡ []
      → Opened w m
  from_run w w' m run r e f = record {
    returned = ap (λ o. o.0) run;
    refines = rw run r;
    emitted = ap (λ o. o.1.emitted) run ∙ e;
    fates = ap (λ o. o.1.fates) run ∙ f;
  }

  empty_Refines :
      (db : R.Db) → ((k : Bytes) → R.value db k ≡ absent) → Refines R (counted db) first_state
  unfolding parse_all contains decimal decimal_fuel str_eq
  empty_Refines db h =
      let law : (k : Bytes)
          → R.value (counted db) k
            ≡ (if str_eq revision_key k then string (b'0' ∷ []) else absent) =
        λ k.
          R.value-set_nx db revision_key (b'0' ∷ []) k ∙ rw (h revision_key, h k) (ground arith) in
      record {
        shape = record {
          counter = 0;
          blobs = λ k. none;
          members = [];
          entries = [];
          leases = λ n. [];
          others = λ k. R.value (counted db) k;
        };
        has = record {
          counter = law revision_key;
          blobs = λ k. law (redis_key k);
          index = ap as_zset (law key_index);
          log = ap as_stream (law event_stream);
          leases = λ n. ap as_set (law (lease_keys_key n));
          others = λ k a. refl;
        };
        agrees = record {
          revision = refl;
          blobs = λ k. refl;
          indexed = λ k. refl;
          ordered = tt;
          history = refl;
        };
      }

  key_apart : (v : Value) → (if str_eq key_index revision_key then absent else v) ≡ v
  unfolding str_eq
  key_apart v = refl

  counted-IsLegacy : (db : R.Db) (m : Mvcc) → IsLegacy R db m → IsLegacy R (counted db) m
  counted-IsLegacy db m l =
      let same = counted-same db (
        ap is_present (
          sym (R.value-del db key_index revision_key ∙ key_apart (R.value db revision_key))
          ∙ l.has.counter)) in
      record {
        shape = l.shape;
        has =
            same-Has (R.del db key_index) (R.del (counted db) key_index) l.shape
              (λ k.
                R.value-del (counted db) key_index k
                ∙ (ap (λ v. if str_eq key_index k then absent else v) (same k)
                    ∙ sym (R.value-del db key_index k)))
              l.has;
        revision = l.revision;
        blobs = l.blobs;
        history = l.history;
        members = l.members;
        index = same key_index ∙ l.index;
        indexed = l.indexed;
      }

  zset_is_no_set : (v : Value) (zs : List Bytes) → as_zset v ≡ some zs → is_set v ≡ false
  zset_is_no_set v zs h = ground arith

  -- Opening a database, if the calls are answered: an empty one stands for the first state from then
  -- on, one with the key index of an older version, a set, for the state that it stood for, with the
  -- index in order, and one that stands for a state still does. No event is emitted.
  pub open_store-Opened :
      (w : World R) (m : Mvcc)
      → (((k : Bytes) → R.value w.db k ≡ absent) × (m ≡ first_state))
        ⊎ (IsLegacy R w.db m ⊎ Refines R w.db m)
      → w.fates ≡ []
      → Opened w m
  open_store-Opened w m (inl (empty, e)) calm =
      let r = empty_Refines w.db empty in
      from_run w (record w { db = counted w.db }) m
        (open-run w _ calm
          (migrate-idle R (record w { db = counted w.db }) (zset_is_no_set _ _ r.has.index) calm))
        (rw e r) refl calm
  open_store-Opened w m (inr (inl l)) calm =
      let l' = counted-IsLegacy w.db m l in
      from_run w (record w { db = rebuilt R (counted w.db) }) m
        (open-run w _ calm
          (migrate-run R (record w { db = counted w.db }) l'.members l'.index calm))
        (rebuilt-Refines R (counted w.db) m l') refl calm
  open_store-Opened w m (inr (inr r)) calm =
      let same = counted-same w.db (ap is_present r.has.counter) in
      let r' = same-Refines w.db (counted w.db) m same r in
      from_run w (record w { db = counted w.db }) m
        (open-run w _ calm
          (migrate-idle R (record w { db = counted w.db }) (zset_is_no_set _ _ r'.has.index) calm))
        r' refl calm
