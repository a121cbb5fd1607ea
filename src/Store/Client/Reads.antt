-- ===== src/Store/Client/Reads.antt =====
-- Get and Range of the store: what a read returns of the state.
use retcd.Prelude.{
  ℕ, ◌<◌, ◌^◌, ◌≡◌, refl, List, [], ◌∷◌, Option, none, some, arith, ap, ◌∙◌, if◌then◌else◌, ltb,
}
use retcd.Bytes.{Bytes}
use retcd.Decimal.{decimal}
use retcd.Decimal.RoundTrip.{parse_int-decimal}
use retcd.Redis.{Redis}
use retcd.Store.Blob.{KeyValue}
use retcd.Store.Script.{redis_key, revision_key}
use retcd.Store.Keyspace.{get-Has, get_revision-Has}
use retcd.Store.Mvcc.{Mvcc, IsExact}
use retcd.Store.Refine.{encoded, Refines}
use retcd.Store.Refine.Events.{StoredOption, exact-StoredOption, decode-IsStored}
use retcd.Store.Client.{
  Error, ok, World, pure, call, keep, decode_found, get_kv, current_revision, clamp_revision,
  clamp_parsed, raw_revision, raw_or_zero,
}
use retcd.Store.Client.Swaps.{visible}

decode_found-encoded :
    (key : Bytes) (o : Option KeyValue) → StoredOption key o → decode_found key (encoded o) ≡ o
decode_found-encoded key none h = refl
decode_found-encoded key (some kv) h = decode-IsStored key kv h

clamp-decimal :
    (R : Redis) (n : ℕ)
    → n < 2 ^ 63
    → clamp_revision R (some (decimal n)) ≡ pure R (if ltb n 1 then 1 else n)
clamp-decimal R n h = ap (clamp_parsed R) (parse_int-decimal n h)

-- A call that reads, and is answered.
pub call-read :
    (R : Redis) {A : Type 0} (e : Error) (f : R.Db → A) (w : World R)
    → w.fates ≡ []
    → call R e (λ db. (f db, db)) w ≡ (ok (f w.db), w)
unfolding call
call-read R e f w calm = rw calm refl

-- The versions of the given keys, absent ones left out.
unfoldable pub versions : (Bytes → Option KeyValue) → List Bytes → List KeyValue
versions at [] = []
versions at (k ∷ ks) = keep (at k) (versions at ks)

module _ (R : Redis) (w : World R) (m : Mvcc) (r : Refines R w.db m) (x : IsExact m) where
  pub read_key : (key : Bytes) → decode_found key (R.get w.db (redis_key key)) ≡ m.at key
  read_key key =
      ap (decode_found key) (get-Has R w.db r.shape key r.has ∙ r.agrees.blobs key)
      ∙ decode_found-encoded key (m.at key) (exact-StoredOption m key x)

  -- `Get`, if its call is answered, returns the key's current version, and changes nothing.
  pub get_kv-at : (key : Bytes) → w.fates ≡ [] → get_kv R key w ≡ (ok (m.at key), w)
  unfolding get_kv call pure
  get_kv-at key calm = rw (calm, read_key key)

  rev_text : R.get w.db revision_key ≡ some (decimal m.revision)
  rev_text = get_revision-Has R w.db r.shape r.has ∙ ap (λ n. some (decimal n)) r.agrees.revision

  pub raw_is : raw_or_zero R (R.get w.db revision_key) ≡ m.revision
  raw_is = rw rev_text (ground (arith, parse_int-decimal m.revision, x.room))

  -- If their calls are answered, `CurrentRevision` returns the counter, but 1 where that is 0, and
  -- `RawRevision` returns the counter; neither changes anything.
  pub revisions :
      w.fates ≡ []
      → (current_revision R w ≡ (ok (visible m), w)) × (raw_revision R w ≡ (ok m.revision, w))
  unfolding current_revision raw_revision call pure
  revisions calm =
      (rw (calm, rev_text, clamp-decimal R m.revision (omega (arith, x.room))), rw (calm, raw_is))
