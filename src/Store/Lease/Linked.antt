-- ===== src/Store/Lease/Linked.antt =====
-- The key set of a lease holds the keys whose version has the lease, as long as they are written by
-- store/write.lua.
use retcd.Prelude.{
  ℕ, ◌<◌, ◌^◌, ◌≡◌, refl, Bool, true, false, not, ◌&&◌, List, [], ◌∷◌, Option, none, some, ◌==◌,
  arith, ap, ◌∙◌, sym, if◌then◌else◌, Bool-cases, inl, inr, Option-cases, ==_iff, suc,
}
use retcd.Bytes.{Bytes, str_eq}
use retcd.Bytes.Order.{str_eq_iff}
use retcd.Redis.{Redis, as_set, contains, without}
use retcd.Store.Blob.{KeyValue}
use retcd.Store.Event.{put_op, delete_op}
use retcd.Store.Script.{redis_key, lease_keys_key, blob_field, write_script}
use retcd.Store.Keyspace.{update_lease}
use retcd.Store.Mvcc
use retcd.Store.Mvcc.{Mvcc, IsExact, next_kv, update_at}
use retcd.Store.Refine.{encode, encoded, Refines}
use retcd.Store.Refine.Codec.{contains-without, dec64_lease, length-encode}
use retcd.Store.Refine.Events.{StoredOption, exact-StoredOption}
use retcd.Store.Refine.Write.{detached, attached, relinked, write_delete-Has, write_put-Has}
use retcd.Store.Refine.Write.Spec.{room, current_is}
use retcd.Store.Lease.Keys.{decimal_ne}

-- A version is written under a lease; 0 is none.
unfoldable pub on_lease : ℕ → Option KeyValue → Bool
on_lease n none = false
on_lease n (some kv) = not (n == 0) && kv.lease == n

-- The key sets of the leases are those of the state's versions.
pub record IsLinked (R : Redis) (db : R.Db) (m : Mvcc) : Type 0 where
  pub linked :
      (n : ℕ) (k : Bytes) (ms : List Bytes)
      → n < 2 ^ 63
      → as_set (R.value db (lease_keys_key n)) ≡ some ms
      → contains k ms ≡ on_lease n (m.at k)

abbrev pub lease_of : Option KeyValue → ℕ
lease_of none = 0
lease_of (some kv) = kv.lease

pub blob_lease :
    (key : Bytes) (o : Option KeyValue)
    → StoredOption key o
    → blob_field (encoded o) 24 ≡ lease_of o
blob_lease key none h = refl
blob_lease key (some kv) h = ground (arith, length-encode kv, dec64_lease kv h.fits)

lease-next_kv :
    (key value : Bytes) (lease rev : ℕ) (o : Option KeyValue)
    → (next_kv key value lease rev o).lease ≡ lease
unfolding next_kv
lease-next_kv key value lease rev none = refl
lease-next_kv key value lease rev (some prev) = refl

-- The sets, as they should be for some versions.
abbrev pub AreLinked : (ℕ → List Bytes) → (Bytes → Option KeyValue) → Type 0
AreLinked ls at = (n : ℕ) (k : Bytes) → n < 2 ^ 63 → contains k (ls n) ≡ on_lease n (at k)

pub update_lease_at :
    (ls : ℕ → List Bytes) (id n : ℕ) (ms : List Bytes)
    → id < 2 ^ 63
    → n < 2 ^ 63
    → update_lease ls id ms n ≡ (if id == n then ms else ls n)
unfolding str_eq
update_lease_at ls id n ms hi hn = rw (decimal_ne id n hi hn) refl

contains-detached :
    (key k : Bytes) (cur n : ℕ) (ls : ℕ → List Bytes)
    → cur < 2 ^ 63
    → n < 2 ^ 63
    → contains k (detached key cur ls n)
      ≡ (if not (cur == 0) && (cur == n && str_eq key k) then false else contains k (ls n))
contains-detached key k cur n ls hc hn = elim (Bool-cases (cur == 0)) [
  | inl e ↦ rw e refl
  | inr e ↦ rw e (
      rw (update_lease_at ls cur n (without key (ls cur)) hc hn) (elim (Bool-cases (cur == n)) [
        | inl same ↦ rw same (rw ((==_iff cur n).0 same) (contains-without k key (ls n)))
        | inr other ↦ rw other refl
      ]))
]

contains-attached :
    (key k : Bytes) (lease n : ℕ) (ls : ℕ → List Bytes)
    → lease < 2 ^ 63
    → n < 2 ^ 63
    → contains k (attached key lease ls n)
      ≡ (if not (lease == 0) && (lease == n && str_eq key k) then true else contains k (ls n))
unfolding contains
contains-attached key k lease n ls hc hn = elim (Bool-cases (lease == 0)) [
  | inl e ↦ rw e refl
  | inr e ↦ rw e (
      rw (update_lease_at ls lease n (key ∷ without key (ls lease)) hc hn)
        (elim (Bool-cases (lease == n)) [
          | inl same ↦
              rw same (rw ((==_iff lease n).0 same) (ground (arith, contains-without k key (ls n))))
          | inr other ↦ rw other refl
        ]))
]

module _ (key : Bytes) (at : Bytes → Option KeyValue) (ls : ℕ → List Bytes) (h : AreLinked ls at)
    (fits : lease_of (at key) < 2 ^ 63) where
  detached-AreLinked : AreLinked (detached key (lease_of (at key)) ls) (update_at at key none)
  unfolding on_lease
  detached-AreLinked n k hn =
      contains-detached key k (lease_of (at key)) n ls fits hn ∙ elim (Bool-cases (str_eq key k)) [
        | inl same ↦
            rw (same, (str_eq_iff key k).0 same)
              (elim (Option-cases (at k)) [
                | inl gone ↦ ground (arith, h n k hn, gone)
                | inr (kv, there) ↦ ground (arith, h n k hn, there)
              ])
        | inr other ↦ rw other (ground (arith, h n k hn))
      ]

  relinked-AreLinked :
      (kv : KeyValue) (lease : ℕ)
      → lease < 2 ^ 63
      → kv.lease ≡ lease
      → AreLinked (relinked key (lease_of (at key)) lease ls) (update_at at key (some kv))
  unfolding on_lease
  relinked-AreLinked kv lease hl e n k hn = elim (Bool-cases (lease_of (at key) == lease)) [
    | inl kept ↦ rw kept (
        contains-attached key k lease n ls hl hn ∙ elim (Bool-cases (str_eq key k)) [
          | inl same ↦
              let here = ap at ((str_eq_iff key k).0 same) in
              rw same (elim (Option-cases (at k)) [
                | inl gone ↦ ground (arith, h n k hn, gone, here ∙ gone, e, kept)
                | inr (prev, there) ↦ ground (arith, h n k hn, there, here ∙ there, e, kept)
              ])
          | inr other ↦ rw other (ground (arith, h n k hn))
        ])
    | inr moved ↦ rw moved (
        contains-attached key k lease n (detached key (lease_of (at key)) ls) hl hn
        ∙ (ap (λ b. if not (lease == 0) && (lease == n && str_eq key k) then true else b)
              (detached-AreLinked n k hn)
            ∙ elim (Bool-cases (str_eq key k)) [
              | inl same ↦ rw same (ground (arith, e))
              | inr other ↦ rw other (ground arith)
            ]))
  ]

module _ (R : Redis) (db : R.Db) (m : Mvcc) (r : Refines R db m) (x : IsExact m)
    (l : IsLinked R db m) (key : Bytes) where
  pub fits : lease_of (m.at key) < 2 ^ 63
  fits = lease_fits (m.at key) refl
    where
      lease_fits : (o : Option KeyValue) → m.at key ≡ o → lease_of o < 2 ^ 63
      lease_fits none e = omega arith
      lease_fits (some kv) e = x.lease_lt key kv e

  shaped : AreLinked r.shape.leases m.at
  shaped n k hn = l.linked n k (r.shape.leases n) hn (r.has.leases n)

  pub cur_is : blob_field (encoded (m.at key)) 24 ≡ lease_of (m.at key)
  cur_is = blob_lease key (m.at key) (exact-StoredOption m key x)

  -- From the sets of a database's shape.
  from_shape :
      (db' : R.Db) (m' : Mvcc) (ls : ℕ → List Bytes)
      → ((n : ℕ) → as_set (R.value db' (lease_keys_key n)) ≡ some (ls n))
      → AreLinked ls m'.at
      → IsLinked R db' m'
  from_shape db' m' ls has a = record {
    linked = λ n k ms hn e. ap (contains k) (some_inj (sym e ∙ has n)) ∙ a n k hn;
  }
    where
      some_inj : {a b : List Bytes} → some a ≡ some b → a ≡ b
      some_inj e = cc

  -- After a delete of a key that is there, and after a put.
  pub delete-IsLinked :
      (prev : KeyValue) (sid : Bytes)
      → m.at key ≡ some prev
      → IsLinked R (write_script R (redis_key key) delete_op [] 0 db).1 (Mvcc.delete key prev sid m)
  unfolding write_script str_eq Mvcc.delete
  delete-IsLinked prev sid there =
      rw (current_is R db m r x key, there)
        (from_shape _ _ (detached key (blob_field (some (encode prev)) 24) r.shape.leases)
          (write_delete-Has R db r.shape key (encode prev) r.has (room R db m r x key)).leases
          (λ n k hn.
            ap (λ c. contains k (detached key c r.shape.leases n))
              (ap (λ o. blob_field (encoded o) 24) (sym there) ∙ cur_is)
            ∙ detached-AreLinked key m.at r.shape.leases shaped fits n k hn))

  pub put-IsLinked :
      (value : Bytes) (lease : ℕ) (sid : Bytes)
      → lease < 2 ^ 63
      → IsLinked R
          (write_script R (redis_key key) put_op value lease db).1
          (Mvcc.put key value lease sid m)
  unfolding write_script str_eq Mvcc.put
  put-IsLinked value lease sid hl = rw (current_is R db m r x key) (
      from_shape _ _ (relinked key (blob_field (encoded (m.at key)) 24) lease r.shape.leases)
        (write_put-Has R db r.shape key value (encoded (m.at key)) lease r.has
          (room R db m r x key)).leases
        (rw cur_is (
          relinked-AreLinked key m.at r.shape.leases shaped fits
            (next_kv key value lease (suc m.revision) (m.at key)) lease hl
            (lease-next_kv key value lease (suc m.revision) (m.at key)))))
