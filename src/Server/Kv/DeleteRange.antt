-- ===== src/Server/Kv/DeleteRange.antt =====
-- DeleteRange as its clients see it.
use retcd.Prelude.{
  ℕ, ◌+◌, ◌≤◌, ◌<◌, ◌^◌, ◌≡◌, ◌≢◌, refl, Bool, true, ◌&&◌, List, [], ◌∷◌, none, is_some, arith, ap,
  ◌∙◌, if◌then◌else◌, length, Bool-cases, inl, inr, Option-cases,
}
use retcd.Bytes.{Bytes, IsBytes, str_eq, has_prefix, common_prefix}
use retcd.Bytes.Order.{str_eq_iff}
use retcd.Redis.{Redis, contains, select}
use retcd.Store.Mvcc.{Mvcc, IsExact}
use retcd.Store.Refine.{Refines}
use retcd.Store.Refine.Index.{select-IsOrdered}
use retcd.Store.Client.{Result, ok, World, ◌>>=◌, pure}
use retcd.Store.Client.Writes.{delete-absent}
use retcd.Store.Client.Runs.{no_writes}
use retcd.Store.Client.Log.{Logged}
use retcd.Store.Client.Scan.{HasByteKeys, contains-select, range-run}
use retcd.Store.Client.Swaps.{visible}
use retcd.Server.Match.{from_key, matches_watch}
use retcd.Server.Match.Scan.{in_range-has_prefix, matches_watch-in_range}
use retcd.Server.Messages.{DeleteRangeRequest, DeleteRangeResponse, header_at}
use retcd.Server.Kv.{delete_single, delete_scanned, header, delete_range}
use retcd.Server.Kv.Ranges.{common_prefix-IsBytes, revision_or_zero-visible}
use retcd.Store.Client.Removal.{delete-Deleted}
use retcd.Server.Kv.Deletes.{hit, Removed, Unread, delete_each-Removed}

-- A delete request that is done: the covered keys are gone, the others are as before, and every key
-- that was there has one event.
pub record RangeDeleted (R : Redis) (w : World R) (m : Mvcc) (covers : Bytes → Bool)
    (out : Result DeleteRangeResponse × World R) : Type 0 where
  pub logged : Logged R w m out.1
  pub returned :
      out.0 ≡ ok (record { header = header_at (visible logged.state); deleted = length logged.new })
  pub gone : (k : Bytes) → logged.state.at k ≡ (if covers k then none else m.at k)

length-select-le : (p : Bytes → Bool) (ms : List Bytes) → length (select p ms) ≤ length ms
unfolding select
length-select-le p [] = omega arith
length-select-le p (x ∷ xs) = ground (arith, length-select-le p xs)

module _ (R : Redis) (w : World R) (m : Mvcc) (r : Refines R w.db m) (x : IsExact m)
    (calm : w.fates ≡ []) (on : w.sink ≡ true) where
  single-Removed :
      (key : Bytes)
      → m.revision + 2 < 2 ^ 63
      → Removed R w m (λ k. matches_watch k key []) 0 (delete_single R key w)
  unfolding pure matches_watch str_eq
  single-Removed key room = elim (Option-cases (m.at key)) [
    | inl none_there ↦ rw (delete-absent R w m r x key none_there calm) (record {
      logged = no_writes R w m r x calm on;
      returned = refl;
      gone = λ k. ground (arith, none_there, str_eq_iff k key, ap m.at);
    })
    | inr (kv, there) ↦
        let (done, d) = delete-Deleted R w m key kv r x there room calm on in
        let counted : 1 ≡ 0 + length d.logged.new = omega (arith, d.one) in
        rw done (record {
          logged = d.logged;
          returned = ap (λ n. ok n) counted;
          gone = λ k. d.gone k ∙ ground (arith, str_eq_iff k key, str_eq_iff key k);
        })
  ]

  module _ (key range_end : Bytes) (b : IsBytes key) (bytes : HasByteKeys m)
      (closed : range_end ≢ from_key) (ranged : range_end ≢ []) where
    abbrev found : List Bytes
    found = select (has_prefix (common_prefix key range_end)) r.shape.members

    contains-found :
        (k : Bytes)
        → contains k found ≡ (has_prefix (common_prefix key range_end) k && is_some (m.at k))
    contains-found k =
        contains-select (has_prefix (common_prefix key range_end)) k r.shape.members
        ∙ ap (λ z. has_prefix (common_prefix key range_end) k && z) (r.agrees.indexed k)

    found-Unread : Unread R key range_end m m.at found
    found-Unread = record {
      ordered =
          select-IsOrdered (has_prefix (common_prefix key range_end)) r.shape.members
            r.agrees.ordered;
      agree = λ k c. refl;
      present = λ k c. ground (arith, c, contains-found k);
    }

    hit-covered :
        (k : Bytes)
        → (if hit key range_end found k then none else m.at k)
          ≡ (if matches_watch k key range_end then none else m.at k)
    hit-covered k = elim (Option-cases (m.at k)) [
      | inl none_there ↦ ground (arith, none_there)
      | inr (kv, there) ↦ ground (
        arith,
        there,
        contains-found k,
        in_range-has_prefix key range_end k closed,
        matches_watch-in_range key range_end k ranged,
      )
    ]

    scanned-Removed :
        m.revision + length r.shape.members + 2 < 2 ^ 63
        → Removed R w m (λ k. matches_watch k key range_end) 0 (delete_scanned R key range_end w)
    scanned-Removed room =
        let removed =
          delete_each-Removed R key range_end found m.at w m 0 found-Unread r x
            (omega (
              arith,
              room,
              length-select-le (has_prefix (common_prefix key range_end)) r.shape.members,
            ))
            calm on in
        rw
          (range-run R w m r x (common_prefix key range_end) (common_prefix-IsBytes key range_end b)
            bytes calm)
          (record {
            logged = removed.logged;
            returned = removed.returned;
            gone = λ k. removed.gone k ∙ hit-covered k;
          })

answer :
    (R : Redis) (w : World R) (m : Mvcc) (covers : Bytes → Bool)
    (deleting : World R → Result ℕ × World R)
    → Removed R w m covers 0 (deleting w)
    → RangeDeleted R w m covers (
        ((deleting >>= λ deleted.
        header R >>= λ h. pure R (record { header = h; deleted = deleted })))
          w)
unfolding header pure
answer R w m covers deleting removed =
    let l = removed.logged in
    let whole : 0 + length l.new ≡ length l.new = omega arith in
    rw removed.returned (
      rw (revision_or_zero-visible R (deleting w).1 l.state l.refines l.exact l.calm) (record {
        logged = l;
        returned =
            ap (λ n. ok (record { header = header_at (visible l.state); deleted = n })) whole;
        gone = removed.gone;
      }))

module _ (R : Redis) (w : World R) (m : Mvcc) (r : Refines R w.db m) (x : IsExact m) where
  -- A delete request, if its calls are answered and the counter has room for one revision for each
  -- key of the index: every key that a watch of the same range covers is gone afterwards, every other
  -- key is as before, and the history has gained one event for each key that was there, with the
  -- revisions that follow the counter, and the sink has heard exactly these events. The response
  -- holds their number and the revision that clients then see. The keys have to consist of bytes, and
  -- the range end must not be the open one, "\x00".
  pub delete_range-RangeDeleted :
      (req : DeleteRangeRequest)
      → w.fates ≡ []
      → w.sink ≡ true
      → HasByteKeys m
      → IsBytes req.key
      → req.range_end ≢ from_key
      → m.revision + length r.shape.members + 2 < 2 ^ 63
      → RangeDeleted R w m (λ k. matches_watch k req.key req.range_end) (delete_range R req w)
  unfolding delete_range str_eq
  delete_range-RangeDeleted req calm on bytes b closed room =
      elim (Bool-cases (str_eq req.range_end [])) [
        | inl single ↦
            let e = (str_eq_iff req.range_end []).0 single in
            rw e (
              answer R w m (λ k. matches_watch k req.key []) (delete_single R req.key)
                (single-Removed R w m r x calm on req.key (omega (arith, room))))
        | inr other ↦
            let ranged : req.range_end ≢ [] =
              λ e. ground (arith, other, str_eq_iff req.range_end [], e) in
            rw other (
              answer R w m (λ k. matches_watch k req.key req.range_end)
                (delete_scanned R req.key req.range_end)
                (scanned-Removed R w m r x calm on req.key req.range_end b bytes closed ranged
                  room))
      ]
