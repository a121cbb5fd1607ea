-- ===== src/Store/Client/Scan.antt =====
-- Range of the store: the scan of a prefix, with the counter in the same pipeline.
use retcd.Prelude.{
  ℕ, ◌≡◌, refl, Bool, true, ◌&&◌, List, [], ◌∷◌, is_some, arith, ap, sym, ◌∙◌, if◌then◌else◌, leb,
  Bool-cases, inl, inr,
}
use retcd.Bytes.{Bytes, IsBytes, str_eq, has_prefix}
use retcd.Bytes.Order.{str_eq_iff, str_eq_refl}
use retcd.Redis.{Redis, contains, select}
use retcd.Store.Lex.{prefix_lex_range}
use retcd.Store.Lex.Exact.{prefix_lex_range-exact}
use retcd.Store.Blob.{KeyValue}
use retcd.Store.Script.{key_index}
use retcd.Store.Mvcc.{Mvcc, IsExact}
use retcd.Store.Refine.{Refines}
use retcd.Store.Refine.Index.{IsOrdered, select-IsOrdered}
use retcd.Store.Client.{
  range_failed, Result, ok, World, pure, call, found_values, range_commands, fetch, range,
}
use retcd.Store.Client.Swaps.{visible}
use retcd.Store.Client.Reads.{call-read, versions, read_key, raw_is}

pub contains-select :
    (p : Bytes → Bool) (k : Bytes) (ms : List Bytes)
    → contains k (select p ms) ≡ (p k && contains k ms)
unfolding contains select
contains-select p k [] = ground arith
contains-select p k (m ∷ ms) = elim (Bool-cases (str_eq m k)) [
  | inl same ↦
      let e = (str_eq_iff m k).0 same in
      rw e (ground (arith, contains-select p k ms, str_eq_refl k))
  | inr other ↦ ground (arith, contains-select p k ms)
]

-- Two tests that agree on the members select the same.
pub select-agree :
    (p q : Bytes → Bool) (ms : List Bytes)
    → ((k : Bytes) → contains k ms ≡ true → p k ≡ q k)
    → select p ms ≡ select q ms
unfolding contains select
select-agree p q [] h = refl
select-agree p q (m ∷ ms) h =
    let rest = select-agree p q ms (λ k c. h k (ground arith)) in
    let here = h m (ground (arith, str_eq_refl m)) in ground (arith, rest, here)

-- The versions of the keys that are there and covered, in the order of the keys.
pub record Listing (m : Mvcc) (covers : Bytes → Bool) (kvs : List KeyValue) : Type 0 where
  pub keys : List Bytes
  pub ordered : IsOrdered keys
  pub complete : (k : Bytes) → contains k keys ≡ (covers k && is_some (m.at k))
  pub listed : kvs ≡ versions m.at keys

-- Every key that is there consists of bytes.
abbrev pub HasByteKeys : Mvcc → Type 0
HasByteKeys m = (k : Bytes) → is_some (m.at k) ≡ true → IsBytes k

-- What a scan found.
pub record Scanned (R : Redis) (w : World R) (m : Mvcc) (covers : Bytes → Bool)
    (out : Result (ℕ × List KeyValue) × World R) : Type 0 where
  pub kvs : List KeyValue
  pub returned : out ≡ (ok (visible m, kvs), w)
  pub listing : Listing m covers kvs

module _ (R : Redis) (w : World R) (m : Mvcc) (r : Refines R w.db m) (x : IsExact m) where
  found-versions : (ks : List Bytes) → found_values R ks w.db ≡ versions m.at ks
  unfolding found_values versions
  found-versions [] = refl
  found-versions (k ∷ ks) = rw (read_key R w m r x k, found-versions ks)

  fetch-found :
      (ks : List Bytes) (rev : ℕ)
      → w.fates ≡ []
      → fetch R ks rev w ≡ (ok (rev, versions m.at ks), w)
  unfolding pure call versions found_values
  fetch-found [] rev calm = refl
  fetch-found (k ∷ ks) rev calm = rw (calm, read_key R w m r x k, found-versions ks)

  module _ (prefix : Bytes) (b : IsBytes prefix) (bytes : HasByteKeys m) where
    scanned :
        R.zrange_by_lex w.db key_index (prefix_lex_range prefix).0 (prefix_lex_range prefix).1
        ≡ select (has_prefix prefix) r.shape.members
    scanned =
        R.zrange_by_lex-value w.db key_index (prefix_lex_range prefix).0 (prefix_lex_range prefix).1
          r.shape.members r.has.index
        ∙ select-agree _ (has_prefix prefix) r.shape.members
            (λ k c. prefix_lex_range-exact prefix k b (bytes k (sym (r.agrees.indexed k) ∙ c)))

    pub range-run :
        w.fates ≡ []
        → range R prefix w
          ≡ (ok (visible m, versions m.at (select (has_prefix prefix) r.shape.members)), w)
    unfolding range
    range-run calm =
        rw
          (
            call-read R range_failed (λ db. (range_commands R prefix db).0) w calm,
            scanned,
            raw_is R w m r x,
            fetch-found (select (has_prefix prefix) r.shape.members)
                (if leb 1 m.revision then m.revision else 1) calm,
          )
          (ground arith)

    -- `Range` of the store, if its calls are answered, returns the versions of exactly the keys that
    -- begin with the prefix, in the order of the keys, each once, and the revision that clients see;
    -- the keys have to consist of bytes.
    pub range-Scanned : w.fates ≡ [] → Scanned R w m (has_prefix prefix) (range R prefix w)
    range-Scanned calm = record {
      kvs = versions m.at (select (has_prefix prefix) r.shape.members);
      returned = range-run calm;
      listing = record {
        keys = select (has_prefix prefix) r.shape.members;
        ordered = select-IsOrdered (has_prefix prefix) r.shape.members r.agrees.ordered;
        complete = λ k.
            contains-select (has_prefix prefix) k r.shape.members
            ∙ ap (λ z. has_prefix prefix k && z) (r.agrees.indexed k);
        listed = refl;
      };
    }
