-- ===== src/Store/Mvcc/Exact.antt =====
-- A write keeps the versions within the counter.
use retcd.Prelude.{
  ℕ, suc, ◌+◌, ◌≤◌, ◌<◌, ◌^◌, ◌≡◌, refl, some, arith, Bool-cases, inl, inr, Option-cases,
}
use retcd.Bytes.{Bytes, str_eq}
use retcd.Bytes.Order.{str_eq_iff}
use retcd.Store.Blob.{KeyValue}
use retcd.Store.Mvcc
use retcd.Store.Mvcc.{Mvcc, IsExact, next_kv, update_at}

-- What `IsExact` asks of one version.
pub record Fits (revision : ℕ) (k : Bytes) (kv : KeyValue) : Type 0 where
  pub key_is : kv.key ≡ k
  pub create_le : kv.create_revision ≤ kv.mod_revision
  pub mod_le : kv.mod_revision ≤ revision
  pub version_le : kv.version ≤ revision
  pub lease_lt : kv.lease < 2 ^ 63

exact-Fits :
    (m : Mvcc) → IsExact m → (k : Bytes) (kv : KeyValue) → m.at k ≡ some kv → Fits m.revision k kv
exact-Fits m x k kv h = record {
  key_is = x.key_is k kv h;
  create_le = x.create_le k kv h;
  mod_le = x.mod_le k kv h;
  version_le = x.version_le k kv h;
  lease_lt = x.lease_lt k kv h;
}

Fits-IsExact :
    (m : Mvcc)
    → m.revision + 1 < 2 ^ 63
    → ((k : Bytes) (kv : KeyValue) → m.at k ≡ some kv → Fits m.revision k kv)
    → IsExact m
Fits-IsExact m room fits = record {
  room = room;
  key_is = λ k kv h. (fits k kv h).key_is;
  create_le = λ k kv h. (fits k kv h).create_le;
  mod_le = λ k kv h. (fits k kv h).mod_le;
  version_le = λ k kv h. (fits k kv h).version_le;
  lease_lt = λ k kv h. (fits k kv h).lease_lt;
}

Fits-later : (n : ℕ) (k : Bytes) (kv : KeyValue) → Fits n k kv → Fits (suc n) k kv
Fits-later n k kv f = record {
  key_is = f.key_is;
  create_le = f.create_le;
  mod_le = omega (arith, f.mod_le);
  version_le = omega (arith, f.version_le);
  lease_lt = f.lease_lt;
}

next_kv-Fits :
    (m : Mvcc) (key value : Bytes) (lease : ℕ)
    → IsExact m
    → lease < 2 ^ 63
    → Fits (suc m.revision) key (next_kv key value lease (suc m.revision) (m.at key))
next_kv-Fits m key value lease x fits = elim (Option-cases (m.at key)) [
  | inl gone ↦ rw gone (
      unfold next_kv in
      record {
        key_is = refl;
        create_le = omega arith;
        mod_le = omega arith;
        version_le = omega arith;
        lease_lt = fits;
      })
  | inr (prev, there) ↦
      let old = exact-Fits m x key prev there in
      rw there (
        unfold next_kv in
        record {
          key_is = refl;
          create_le = omega (arith, old.create_le, old.mod_le);
          mod_le = omega arith;
          version_le = omega (arith, old.version_le);
          lease_lt = fits;
        })
]

module _ (m : Mvcc) (x : IsExact m) (room : m.revision + 2 < 2 ^ 63) (key : Bytes) where
  pub put-IsExact :
      (value : Bytes) (lease : ℕ) (sid : Bytes)
      → lease < 2 ^ 63
      → IsExact (Mvcc.put key value lease sid m)
  unfolding Mvcc.put
  put-IsExact value lease sid fits =
      Fits-IsExact (Mvcc.put key value lease sid m) (omega arith) (λ k kv h.
        elim (Bool-cases (str_eq key k)) [
          | inl same ↦
              let e = (str_eq_iff key k).0 same in
              let made : next_kv key value lease (suc m.revision) (m.at key) ≡ kv =
                ground (arith, h, same) in
              rw⁻¹ made (rw⁻¹ e (next_kv-Fits m key value lease x fits))
          | inr other ↦ Fits-later m.revision k kv (exact-Fits m x k kv (ground (arith, h, other)))
        ])

  pub delete-IsExact : (prev : KeyValue) (sid : Bytes) → IsExact (Mvcc.delete key prev sid m)
  unfolding Mvcc.delete
  delete-IsExact prev sid = Fits-IsExact (Mvcc.delete key prev sid m) (omega arith) (λ k kv h.
      elim (Bool-cases (str_eq key k)) [
        | inl same ↦ absurd (ground (arith, h, same))
        | inr other ↦ Fits-later m.revision k kv (exact-Fits m x k kv (ground (arith, h, other)))
      ])
