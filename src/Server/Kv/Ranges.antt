-- ===== src/Server/Kv/Ranges.antt =====
-- What a range request returns.
use retcd.Prelude.{
  ℕ, true, false, length, map, ◌≡◌, ◌≢◌, refl, Bool, ◌&&◌, List, [], ◌∷◌, is_some, arith, ap, ◌∙◌,
  Bool-cases, inl, inr, Option-cases,
}
use retcd.Bytes.{Bytes, IsBytes, str_eq, has_prefix, common_prefix}
use retcd.Bytes.Order.{str_eq_iff}
use retcd.Redis.{Redis, contains, select}
use retcd.Store.Blob.{KeyValue}
use retcd.Store.Mvcc.{Mvcc, IsExact}
use retcd.Store.Refine.{Refines}
use retcd.Store.Refine.Index.{select-IsOrdered}
use retcd.Store.Client.{Result, ok, World, pure, range}
use retcd.Store.Client.Swaps.{visible}
use retcd.Store.Client.Reads.{versions, get_kv-at, revisions}
use retcd.Store.Client.Scan.{Listing, HasByteKeys, Scanned, contains-select, range-Scanned}
use retcd.Server.Match.{from_key, in_range, matches_watch}
use retcd.Server.Match.Scan.{in_range-has_prefix, matches_watch-in_range}
use retcd.Server.Messages.{RangeRequest, RangeResponse, ProtoKeyValue, header_at, to_proto_kv}
use retcd.Server.Shown.{shown}
use retcd.Server.Kv.{
  filter_range, list_of, mod_revision_or_zero, max_rev, range_response, revision_or_zero,
  lookup_single, scan, range_request,
}

pub common_prefix-IsBytes : (a b : Bytes) → IsBytes a → IsBytes (common_prefix a b)
unfolding common_prefix
common_prefix-IsBytes [] b h = tt
common_prefix-IsBytes (x ∷ a) [] h = tt
common_prefix-IsBytes (x ∷ a) (y ∷ b) h = ground (arith, common_prefix-IsBytes a b h.1)

-- The filter over versions is a selection of their keys.
filter_range-versions :
    (m : Mvcc) (x : IsExact m) (key range_end : Bytes) (ks : List Bytes)
    → filter_range key range_end (versions m.at ks)
      ≡ versions m.at (select (in_range key range_end) ks)
unfolding filter_range versions select
filter_range-versions m x key range_end [] = refl
filter_range-versions m x key range_end (k ∷ ks) = elim (Option-cases (m.at k)) [
  | inl gone ↦ ground (arith, gone, filter_range-versions m x key range_end ks)
  | inr (kv, there) ↦
      ground (arith, there, x.key_is k kv there, filter_range-versions m x key range_end ks)
]

-- What a listing comes to in a response: a `count_only` request has the number and no versions.
abbrev pub listed_kvs : Bool → List KeyValue → List ProtoKeyValue
listed_kvs true kvs = []
listed_kvs false kvs = map shown kvs

response-listed :
    (count_only : Bool) (rev : ℕ) (kvs : List KeyValue)
    → range_response count_only rev kvs
      ≡ record { header = header_at rev; count = length kvs; kvs = listed_kvs count_only kvs }
unfolding range_response to_proto_kv
response-listed true rev kvs = refl
response-listed false rev kvs = refl

-- The response to a range request of the keys that a test covers.
pub record Listed (R : Redis) (w : World R) (m : Mvcc) (covers : Bytes → Bool) (count_only : Bool)
    (out : Result RangeResponse × World R) : Type 0 where
  pub kvs : List KeyValue
  pub listing : Listing m covers kvs
  pub returned : out ≡ (
    ok (record {
      header = header_at (visible m);
      count = length kvs;
      kvs = listed_kvs count_only kvs;
    }),
    w,
  )

module _ (R : Redis) (w : World R) (m : Mvcc) (r : Refines R w.db m) (x : IsExact m)
    (calm : w.fates ≡ []) where
  pub revision_or_zero-visible : revision_or_zero R w ≡ (ok (visible m), w)
  unfolding revision_or_zero
  revision_or_zero-visible = rw ((revisions R w m r x calm).0)

  max_rev-visible :
      (key : Bytes) → max_rev (mod_revision_or_zero (m.at key)) (visible m) ≡ visible m
  max_rev-visible key = elim (Option-cases (m.at key)) [
    | inl gone ↦ ground (arith, gone)
    | inr (kv, there) ↦ ground (arith, there, x.mod_le key kv there)
  ]

  single-run : (key : Bytes) → lookup_single R key w ≡ (ok (visible m, list_of (m.at key)), w)
  unfolding pure
  single-run key = rw (get_kv-at R w m r x key calm, revision_or_zero-visible, max_rev-visible key)

  single-Listing : (key : Bytes) → Listing m (λ k. matches_watch k key []) (list_of (m.at key))
  unfolding matches_watch contains versions str_eq
  single-Listing key = elim (Option-cases (m.at key)) [
    | inl gone ↦ record {
      keys = [];
      ordered = tt;
      complete = λ k. ground (arith, gone, str_eq_iff k key);
      listed = rw gone refl;
    }
    | inr (kv, there) ↦ record {
      keys = key ∷ [];
      ordered = (tt, tt);
      complete = λ k. ground (arith, there, str_eq_iff k key, str_eq_iff key k);
      listed = rw there refl;
    }
  ]

  module _ (bytes : HasByteKeys m) (key range_end : Bytes) (b : IsBytes key)
      (closed : range_end ≢ from_key) (ranged : range_end ≢ []) where
    scanned :
        Scanned R w m
          (has_prefix (common_prefix key range_end))
          (range R (common_prefix key range_end) w)
    scanned =
        range-Scanned R w m r x (common_prefix key range_end)
          (common_prefix-IsBytes key range_end b) bytes calm

    covered :
        (k : Bytes)
        → (in_range key range_end k
            && (has_prefix (common_prefix key range_end) k && is_some (m.at k)))
          ≡ (matches_watch k key range_end && is_some (m.at k))
    covered k = ground (
      arith,
      in_range-has_prefix key range_end k closed,
      matches_watch-in_range key range_end k ranged,
    )

    scan-Listing :
        Listing m (λ k. matches_watch k key range_end) (filter_range key range_end scanned.kvs)
    scan-Listing = record {
      keys = select (in_range key range_end) scanned.listing.keys;
      ordered =
          select-IsOrdered (in_range key range_end) scanned.listing.keys scanned.listing.ordered;
      complete = λ k.
          contains-select (in_range key range_end) k scanned.listing.keys
          ∙ (ap (λ z. in_range key range_end k && z) (scanned.listing.complete k) ∙ covered k);
      listed =
          ap (filter_range key range_end) scanned.listing.listed
          ∙ filter_range-versions m x key range_end scanned.listing.keys;
    }

    scan-run : scan R key range_end w ≡ (ok (visible m, filter_range key range_end scanned.kvs), w)
    unfolding pure
    scan-run = rw scanned.returned

module _ (R : Redis) (w : World R) (m : Mvcc) (r : Refines R w.db m) (x : IsExact m) where
  -- A range request, if its calls are answered, returns the versions of exactly the keys that a watch
  -- of the same range covers and that are there, in the order of the keys, each once (with
  -- `count_only` their number alone), and the revision that clients see; the keys have to consist of
  -- bytes, and the range end must not be the open one, "\x00".
  pub range_request-Listed :
      (req : RangeRequest)
      → w.fates ≡ []
      → HasByteKeys m
      → IsBytes req.key
      → req.range_end ≢ from_key
      → Listed R w m
          (λ k. matches_watch k req.key req.range_end)
          req.count_only
          (range_request R req w)
  unfolding range_request pure
  range_request-Listed req calm bytes b closed = elim (Bool-cases (str_eq req.range_end [])) [
    | inl single ↦
        let e = (str_eq_iff req.range_end []).0 single in
        record {
          kvs = list_of (m.at req.key);
          listing = rw e (single-Listing R w m r x calm req.key);
          returned = rw single (
              rw
                (
                  single-run R w m r x calm req.key,
                  response-listed req.count_only (visible m) (list_of (m.at req.key)),
                )
                refl);
        }
    | inr other ↦
        let ranged : req.range_end ≢ [] =
          λ e. ground (arith, other, str_eq_iff req.range_end [], e) in
        let s = scanned R w m r x calm bytes req.key req.range_end b closed ranged in
        record {
          kvs = filter_range req.key req.range_end s.kvs;
          listing = scan-Listing R w m r x calm bytes req.key req.range_end b closed ranged;
          returned = rw other (
              rw
                (
                  scan-run R w m r x calm bytes req.key req.range_end b closed ranged,
                  response-listed req.count_only (visible m)
                      (filter_range req.key req.range_end s.kvs),
                )
                refl);
        }
  ]
