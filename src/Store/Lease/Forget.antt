-- ===== src/Store/Lease/Forget.antt =====
-- What forgetting a lease leaves: its key set is gone, and it is no longer listed.
use retcd.Prelude.{
  ℕ, ◌≤◌, ◌<◌, ◌^◌, ◌≡◌, refl, false, List, [], ◌∷◌, Option, none, some, arith, ap, ◌∙◌, sym,
  if◌then◌else◌, Bool-cases, inl, inr, ◌==◌, ==_iff,
}
use retcd.Bytes.{Bytes, str_eq}
use retcd.Bytes.Order.{str_eq_sym, str_eq_refl}
use retcd.Decimal.{decimal}
use retcd.Redis.{Redis, set_value, as_set, contains, without}
use retcd.Store.Blob.{KeyValue}
use retcd.Store.Script.{lease_keys_key}
use retcd.Store.Keyspace.{update_lease, apart-Has, del_lease-Has}
use retcd.Store.Keyspace.Apart.{IsApart}
use retcd.Store.Mvcc.{Mvcc}
use retcd.Store.Refine.{Refines}
use retcd.Store.Lease.{lease_set_key}
use retcd.Store.Lease.Keys.{lease_set_key-IsApart}
use retcd.Store.Lease.Linked.{on_lease, IsLinked, update_lease_at}
use retcd.Store.Lease.Emptied.{set_size}

pub on_lease-gone :
    (id : ℕ) (o : Option KeyValue) → on_lease id (if on_lease id o then none else o) ≡ false
on_lease-gone id o = elim (Bool-cases (on_lease id o)) [
  | inl held ↦ rw held (unfold on_lease in refl)
  | inr free ↦ rw free free
]

pub ==_false : (m n : ℕ) → (n == m) ≡ false → (m == n) ≡ false
==_false m n h = ground arith

module _ (R : Redis) where
  -- A database that differs only in a key apart from those of the write scripts, or in the key set of
  -- a lease that no version has.
  pub apart-Refines :
      (db db' : R.Db) (m : Mvcc) (k : Bytes)
      → IsApart k
      → ((j : Bytes) → str_eq k j ≡ false → R.value db' j ≡ R.value db j)
      → Refines R db m
      → Refines R db' m
  apart-Refines db db' m k a frame r = record {
    shape = record r.shape { others = λ j. R.value db' j };
    has = apart-Has R db db' r.shape k a frame r.has;
    agrees = record {
      revision = r.agrees.revision;
      blobs = r.agrees.blobs;
      indexed = r.agrees.indexed;
      ordered = r.agrees.ordered;
      history = r.agrees.history;
    };
  }

  pub apart-IsLinked :
      (db db' : R.Db) (m : Mvcc) (k : Bytes)
      → IsApart k
      → ((j : Bytes) → str_eq k j ≡ false → R.value db' j ≡ R.value db j)
      → IsLinked R db m
      → IsLinked R db' m
  apart-IsLinked db db' m k a frame l = record {
    linked = λ n j ms hn e. l.linked n j ms hn (
        ap as_set (sym (frame (lease_keys_key n) (str_eq_sym k (lease_keys_key n) ∙ a.leases n)))
        ∙ e);
  }

  pub del_lease-Refines :
      (db : R.Db) (m : Mvcc) (id : ℕ) → Refines R db m → Refines R (R.del db (lease_keys_key id)) m
  del_lease-Refines db m id r = record {
    shape = record r.shape { leases = update_lease r.shape.leases id [] };
    has = del_lease-Has R db r.shape id r.has;
    agrees = record {
      revision = r.agrees.revision;
      blobs = r.agrees.blobs;
      indexed = r.agrees.indexed;
      ordered = r.agrees.ordered;
      history = r.agrees.history;
    };
  }

  del_lease-IsLinked :
      (db : R.Db) (m : Mvcc) (id : ℕ) (r : Refines R db m)
      → id < 2 ^ 63
      → ((k : Bytes) → on_lease id (m.at k) ≡ false)
      → IsLinked R db m
      → IsLinked R (R.del db (lease_keys_key id)) m
  unfolding contains
  del_lease-IsLinked db m id r hi free l = record {
    linked = λ n k ms hn e.
        ap (contains k) (some_inj (sym e ∙ (del_lease-Has R db r.shape id r.has).leases n))
        ∙ (ap (contains k) (update_lease_at r.shape.leases id n [] hi hn)
            ∙ elim (Bool-cases (id == n)) [
              | inl same ↦
                  rw same
                    (sym (ap (λ j. on_lease j (m.at k)) (sym ((==_iff id n).0 same)) ∙ free k))
              | inr other ↦ rw other (l.linked n k (r.shape.leases n) hn (r.has.leases n))
            ]);
  }
    where
      some_inj : {a b : List Bytes} → some a ≡ some b → a ≡ b
      some_inj e = cc

  -- The lease is forgotten: its key set, and its place among the leases.
  pub record Forgotten (db : R.Db) (m : Mvcc) (id : ℕ) (ids : List Bytes) (db' : R.Db)
      : Type 0 where
    pub refines : Refines R db' m
    pub linked : IsLinked R db' m
    pub listed : as_set (R.value db' lease_set_key) ≡ some (without (decimal id) ids)
    pub others :
        (k : Bytes) → IsApart k → str_eq lease_set_key k ≡ false → R.value db' k ≡ R.value db k
    pub shrinks :
        (n : ℕ)
        → n < 2 ^ 63
        → set_size (R.value db' (lease_keys_key n)) ≤ set_size (R.value db (lease_keys_key n))

  pub set_value-law : (ms : List Bytes) → as_set (set_value ms) ≡ some ms
  set_value-law [] = refl
  set_value-law (m ∷ ms) = refl

  pub forget :
      (db : R.Db) (m : Mvcc) (id : ℕ) (ids : List Bytes)
      → Refines R db m
      → IsLinked R db m
      → id < 2 ^ 63
      → ((k : Bytes) → on_lease id (m.at k) ≡ false)
      → as_set (R.value db lease_set_key) ≡ some ids
      → Forgotten db m id ids (R.srem (R.del db (lease_keys_key id)) lease_set_key (decimal id))
  forget db m id ids r l hi free h =
      let db1 = R.del db (lease_keys_key id) in
      let a = lease_set_key-IsApart in
      let there : as_set (R.value db1 lease_set_key) ≡ some ids =
        ap as_set (R.value-del db (lease_keys_key id) lease_set_key ∙ rw (a.leases id) refl) ∙ h in
      let law : (j : Bytes)
          → R.value (R.srem db1 lease_set_key (decimal id)) j ≡ (
              if str_eq lease_set_key j
              then set_value (without (decimal id) ids)
              else R.value db1 j) =
        λ j. R.value-srem db1 lease_set_key (decimal id) j ids there in
      let frame : (j : Bytes)
          → str_eq lease_set_key j ≡ false
          → R.value (R.srem db1 lease_set_key (decimal id)) j ≡ R.value db1 j =
        λ j other. law j ∙ rw other refl in
      record {
        refines = apart-Refines db1 _ m lease_set_key a frame (del_lease-Refines db m id r);
        linked =
            apart-IsLinked db1 _ m lease_set_key a frame (del_lease-IsLinked db m id r hi free l);
        listed =
            ap as_set (law lease_set_key ∙ rw (str_eq_refl lease_set_key) refl)
            ∙ set_value-law (without (decimal id) ids);
        others = λ k b other.
            frame k other ∙ (R.value-del db (lease_keys_key id) k ∙ rw (b.leases id) refl);
        shrinks = λ n hn.
            rw (frame (lease_keys_key n) (str_eq_sym lease_set_key (lease_keys_key n) ∙ a.leases n))
              (rw (R.value-del db (lease_keys_key id) (lease_keys_key n))
                (elim (Bool-cases (str_eq (lease_keys_key id) (lease_keys_key n))) [
                  | inl same ↦ rw same (omega arith)
                  | inr other ↦ rw other (omega arith)
                ]));
      }
