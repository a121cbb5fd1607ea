-- ===== src/Store/Lease/Emptied.antt =====
-- The deletes of a lease's keys, by LeaseRevoke and by the reaper.
use retcd.Prelude.{
  ℕ, suc, ◌+◌, ◌≤◌, ◌<◌, ◌^◌, ◌≡◌, refl, true, List, [], ◌∷◌, Option, none, some, arith, ap, ◌∙◌,
  sym, if◌then◌else◌, length, length-append, ◌==◌, ==_iff, Bool-cases, Option-cases, inl, inr,
}
use retcd.Bytes.{Bytes, str_eq}
use retcd.Bytes.Order.{str_eq_iff}
use retcd.Redis.{Redis, Value, as_set, contains, without}
use retcd.Store.Blob.{KeyValue}
use retcd.Store.Event.{delete_op}
use retcd.Store.Script.{redis_key, lease_keys_key, write_script, blob_field}
use retcd.Store.Keyspace.Apart.{IsApart}
use retcd.Store.Mvcc.{Mvcc, IsExact}
use retcd.Store.Refine.{Refines, encode, encoded}
use retcd.Store.Refine.Write.{detached, write_delete-Has}
use retcd.Store.Refine.Write.Spec.{room, current_is}
use retcd.Store.Client.{ok, World, delete, pure}
use retcd.Store.Client.Writes.{delete-absent}
use retcd.Store.Client.Runs.{no_writes}
use retcd.Store.Client.Log.{Logged, joined}
use retcd.Store.Client.Removal.{delete-Deleted}
use retcd.Store.Lease.{delete_keys, try_delete_keys, ignoring, rewrap}
use retcd.Store.Lease.Linked.{IsLinked, delete-IsLinked, update_lease_at, fits, cur_is}

-- The number of members of a set.
abbrev pub set_size : Value → ℕ
set_size v = size_of (as_set v)
  where
    size_of : Option (List Bytes) → ℕ
    size_of none = 0
    size_of (some ms) = length ms

pub length-without : (m : Bytes) (ms : List Bytes) → length (without m ms) ≤ length ms
unfolding without
length-without m [] = omega arith
length-without m (x ∷ ms) = ground (arith, length-without m ms)

pub length-detached :
    (key : Bytes) (cur n : ℕ) (ls : ℕ → List Bytes)
    → cur < 2 ^ 63
    → n < 2 ^ 63
    → length (detached key cur ls n) ≤ length (ls n)
length-detached key cur n ls hc hn = elim (Bool-cases (cur == 0)) [
  | inl e ↦ rw e (omega arith)
  | inr e ↦ rw e (
      rw (update_lease_at ls cur n (without key (ls cur)) hc hn) (elim (Bool-cases (cur == n)) [
        | inl same ↦ rw same (rw ((==_iff cur n).0 same) (length-without key (ls n)))
        | inr other ↦ rw other (omega arith)
      ]))
]

module _ (R : Redis) where
  -- A world whose calls will be answered and whose events are heard, with a database that stands for
  -- a state and keeps the sets of the leases.
  pub record IsSound (w : World R) (m : Mvcc) : Type 0 where
    pub refines : Refines R w.db m
    pub exact : IsExact m
    pub linked : IsLinked R w.db m
    pub calm : w.fates ≡ []
    pub on : w.sink ≡ true

  -- The keys `ks` are gone, each that was there with an event, and nothing else has changed.
  pub record Emptied (w : World R) (m : Mvcc) (ks : List Bytes) (w' : World R) : Type 0 where
    pub logged : Logged R w m w'
    pub linked : IsLinked R w'.db logged.state
    pub gone : (k : Bytes) → logged.state.at k ≡ (if contains k ks then none else m.at k)
    pub few : length logged.new ≤ length ks
    pub shrinks :
        (n : ℕ)
        → n < 2 ^ 63
        → set_size (R.value w'.db (lease_keys_key n)) ≤ set_size (R.value w.db (lease_keys_key n))
    pub frame : (k : Bytes) → IsApart k → R.value w'.db k ≡ R.value w.db k

  pub Emptied-IsSound :
      (w : World R) (m : Mvcc) (ks : List Bytes) (w' : World R) (e : Emptied w m ks w')
      → IsSound w' e.logged.state
  Emptied-IsSound w m ks w' e = record {
    refines = e.logged.refines;
    exact = e.logged.exact;
    linked = e.linked;
    calm = e.logged.calm;
    on = e.logged.on;
  }

  -- The script that deletes does not touch a key apart from its own.
  delete-frame :
      (db : R.Db) (m : Mvcc) (r : Refines R db m) (x : IsExact m) (key : Bytes) (prev : KeyValue)
      → m.at key ≡ some prev
      → (k : Bytes) → IsApart k
      → R.value (write_script R (redis_key key) delete_op [] 0 db).1 k ≡ R.value db k
  unfolding write_script str_eq
  delete-frame db m r x key prev there k a =
      rw (current_is R db m r x key, there)
        ((write_delete-Has R db r.shape key (encode prev) r.has (room R db m r x key)).others k a
          ∙ sym (r.has.others k a))

  delete-shrinks :
      (db : R.Db) (m : Mvcc) (r : Refines R db m) (x : IsExact m) (l : IsLinked R db m)
      (key : Bytes) (prev : KeyValue)
      → m.at key ≡ some prev
      → (n : ℕ) → n < 2 ^ 63
      → set_size (R.value (write_script R (redis_key key) delete_op [] 0 db).1 (lease_keys_key n))
        ≤ set_size (R.value db (lease_keys_key n))
  unfolding write_script str_eq
  delete-shrinks db m r x l key prev there n hn =
      rw (current_is R db m r x key, there)
        (rw
          (
            (write_delete-Has R db r.shape key (encode prev) r.has (room R db m r x key)).leases n,
            r.has.leases n,
          )
          (length-detached key (blob_field (some (encode prev)) 24) n r.shape.leases
            (rw (ap (λ o. blob_field (encoded o) 24) (sym there) ∙ cur_is R db m r x l key)
              (fits R db m r x l key))
            hn))

  none_Emptied : (w : World R) (m : Mvcc) → IsSound w m → Emptied w m [] w
  unfolding contains
  none_Emptied w m i = record {
    logged = no_writes R w m i.refines i.exact i.calm i.on;
    linked = i.linked;
    gone = λ k. refl;
    few = omega arith;
    shrinks = λ n h. omega arith;
    frame = λ k a. refl;
  }

  -- One delete, of a key that is there or not.
  pub delete_one :
      (w : World R) (m : Mvcc) (i : IsSound w m) (key : Bytes)
      → m.revision + 2 < 2 ^ 63
      → ((v : ℕ × Option KeyValue) × ((delete R key w).0 ≡ ok v))
        × Emptied w m (key ∷ []) (delete R key w).1
  unfolding contains
  delete_one w m i key space = elim (Option-cases (m.at key)) [
    | inl absent ↦ rw (delete-absent R w m i.refines i.exact key absent i.calm) (
      ((m.revision, none), refl),
      record {
        logged = no_writes R w m i.refines i.exact i.calm i.on;
        linked = i.linked;
        gone = λ k. ground (arith, str_eq_iff key k, absent, ap m.at);
        few = omega arith;
        shrinks = λ n h. omega arith;
        frame = λ k a. refl;
      },
    )
    | inr (prev, there) ↦
        let (done, d) = delete-Deleted R w m key prev i.refines i.exact there space i.calm i.on in
        (
          ((suc m.revision, some prev), done),
          record {
            logged = d.logged;
            linked =
                rw (d.db_is, d.state_is)
                  (delete-IsLinked R w.db m i.refines i.exact i.linked key prev d.sid there);
            gone = λ k. d.gone k ∙ ground arith;
            few = omega (arith, d.one);
            shrinks = λ n h.
                rw d.db_is (delete-shrinks w.db m i.refines i.exact i.linked key prev there n h);
            frame = λ k a.
                ap (λ db. R.value db k) d.db_is
                ∙ delete-frame w.db m i.refines i.exact key prev there k a;
          },
        )
  ]

  -- One delete before the others.
  both_Emptied :
      (w : World R) (m : Mvcc) (key : Bytes) (ks : List Bytes) (w' w'' : World R)
      (a : Emptied w m (key ∷ []) w')
      → Emptied w' a.logged.state ks w''
      → Emptied w m (key ∷ ks) w''
  unfolding contains
  both_Emptied w m key ks w' w'' a b = record {
    logged = joined R w m w' a.logged w'' b.logged;
    linked = b.linked;
    gone = λ k. b.gone k ∙ (ap (λ o. if contains k ks then none else o) (a.gone k) ∙ ground arith);
    few = omega (arith, a.few, b.few, length-append a.logged.new b.logged.new);
    shrinks = λ n h. omega (arith, a.shrinks n h, b.shrinks n h);
    frame = λ k p. b.frame k p ∙ a.frame k p;
  }

  delete_keys-cons :
      (key : Bytes) (ks : List Bytes) (w : World R) (v : ℕ × Option KeyValue)
      → (delete R key w).0 ≡ ok v
      → delete_keys R (key ∷ ks) w ≡ delete_keys R ks (delete R key w).1
  unfolding delete_keys rewrap
  delete_keys-cons key ks w v e = rw e refl

  try_delete_keys-cons :
      (key : Bytes) (ks : List Bytes) (w : World R)
      → try_delete_keys R (key ∷ ks) w ≡ try_delete_keys R ks (delete R key w).1
  unfolding try_delete_keys ignoring
  try_delete_keys-cons key ks w = refl

  pub delete_keys-Emptied :
      (ks : List Bytes) (w : World R) (m : Mvcc)
      → IsSound w m
      → m.revision + length ks + 1 < 2 ^ 63
      → ((delete_keys R ks w).0 ≡ ok tt) × Emptied w m ks (delete_keys R ks w).1
  unfolding delete_keys pure
  delete_keys-Emptied [] w m i space = (refl, none_Emptied w m i)
  delete_keys-Emptied (key ∷ ks) w m i space =
      let ((v, done), a) = delete_one w m i key (omega (arith, space)) in
      let (returned, b) =
        delete_keys-Emptied ks (delete R key w).1 a.logged.state
          (Emptied-IsSound w m (key ∷ []) (delete R key w).1 a)
          (omega (arith, space, a.few, a.logged.revision)) in
      rw (delete_keys-cons key ks w v done) (
        returned,
        both_Emptied w m key ks (delete R key w).1 (delete_keys R ks (delete R key w).1).1 a b,
      )

  pub try_delete_keys-Emptied :
      (ks : List Bytes) (w : World R) (m : Mvcc)
      → IsSound w m
      → m.revision + length ks + 1 < 2 ^ 63
      → ((try_delete_keys R ks w).0 ≡ ok tt) × Emptied w m ks (try_delete_keys R ks w).1
  unfolding try_delete_keys pure
  try_delete_keys-Emptied [] w m i space = (refl, none_Emptied w m i)
  try_delete_keys-Emptied (key ∷ ks) w m i space =
      let ((v, done), a) = delete_one w m i key (omega (arith, space)) in
      let (returned, b) =
        try_delete_keys-Emptied ks (delete R key w).1 a.logged.state
          (Emptied-IsSound w m (key ∷ []) (delete R key w).1 a)
          (omega (arith, space, a.few, a.logged.revision)) in
      rw (try_delete_keys-cons key ks w) (
        returned,
        both_Emptied w m key ks (delete R key w).1 (try_delete_keys R ks (delete R key w).1).1 a b,
      )
