-- ===== src/Store/Lease/Reap.antt =====
-- The reaper: it ends the leases that have expired, and no other.
use retcd.Prelude.{
  ℕ, ◌+◌, ◌≤◌, ◌<◌, ◌^◌, ◌≡◌, refl, Bool, true, false, not, ◌&&◌, ◌||◌, List, [], ◌∷◌, Option, none,
  some, arith, ap, ◌∙◌, if◌then◌else◌, Bool-cases, inl, inr, pos, ◌==◌, ==_iff, map, All,
}
use retcd.Bytes.{Bytes}
use retcd.Decimal.{decimal}
use retcd.Decimal.RoundTrip.{parse_int-decimal}
use retcd.Redis.{Redis, as_set, without, is_present}
use retcd.Store.Blob.{KeyValue}
use retcd.Store.Script.{lease_keys_key}
use retcd.Store.Mvcc.{Mvcc}
use retcd.Store.Client.{lease_keys_failed, lease_revoke_failed, ttl_failed, Result, ok, World, pure}
use retcd.Store.Client.Reads.{call-read}
use retcd.Store.Client.Runs.{no_writes}
use retcd.Store.Client.Log.{Logged, joined}
use retcd.Store.Lease.{
  lease_set_key, lease_data_key, ignoring, try_delete_keys, bury, reap_leases, reap_expired_leases,
}
use retcd.Store.Lease.Keys.{lease_data_key-IsApart}
use retcd.Store.Lease.Linked.{on_lease, IsLinked}
use retcd.Store.Lease.Emptied.{IsSound, set_size, try_delete_keys-Emptied}
use retcd.Store.Lease.Revoke.{Ended, ended, keys_count, command-answered}

-- The version is under one of the leases `ns` that is not alive.
unfoldable pub doomed : (ℕ → Bool) → List ℕ → Option KeyValue → Bool
doomed alive [] o = false
doomed alive (n ∷ ns) o = not (alive n) && on_lease n o || doomed alive ns o

merged :
    (d : Option KeyValue → Bool) (p : Bool) (o : Option KeyValue)
    → (if d (if p then none else o) then none else (if p then none else o))
      ≡ (if p || d o then none else o)
merged d true o = elim (Bool-cases (d none)) [ inl e ↦ rw e refl | inr e ↦ rw e refl ]
merged d false o = refl

-- The leases that are left of `ids`.
unfoldable pub left_over : (ℕ → Bool) → List ℕ → List Bytes → List Bytes
left_over alive [] ids = ids
left_over alive (n ∷ ns) ids =
    if alive n then left_over alive ns ids else left_over alive ns (without (decimal n) ids)

module _ (R : Redis) where
  -- The lease has not expired.
  abbrev pub alive : R.Db → ℕ → Bool
  alive db n = is_present (R.value db (lease_data_key (pos n)))

  -- How many keys the leases `ns` have.
  unfoldable pub load : R.Db → List ℕ → ℕ
  load db [] = 0
  load db (n ∷ ns) = set_size (R.value db (lease_keys_key n)) + load db ns

  bury-run :
      (w w' : World R) (id : ℕ)
      → w.fates ≡ []
      → try_delete_keys R (R.smembers w.db (lease_keys_key id)) w ≡ (ok tt, w')
      → w'.fates ≡ []
      → bury R (decimal id) (pos id) w ≡ (
        ok tt,
        record w' { db = R.srem (R.del w'.db (lease_keys_key id)) lease_set_key (decimal id) },
      )
  unfolding bury ignoring
  bury-run w w' id calm done calm' =
      rw
        (
          call-read R lease_keys_failed (λ db. R.smembers db (lease_keys_key id)) w calm,
          done,
          command-answered R lease_revoke_failed (λ db. R.del db (lease_keys_key id)) w' calm',
          command-answered R lease_revoke_failed (λ db. R.srem db lease_set_key (decimal id))
              (record w' { db = R.del w'.db (lease_keys_key id) }) calm',
        )
        refl

  -- The reaper's work on one expired lease.
  bury-Ended :
      (w : World R) (m : Mvcc) (id : ℕ) (ids : List Bytes)
      → IsSound R w m
      → id < 2 ^ 63
      → as_set (R.value w.db lease_set_key) ≡ some ids
      → m.revision + set_size (R.value w.db (lease_keys_key id)) + 1 < 2 ^ 63
      → ((bury R (decimal id) (pos id) w).0 ≡ ok tt)
        × (Ended R w m id ids (bury R (decimal id) (pos id) w).1
            × ((n : ℕ) → n < 2 ^ 63 → alive (bury R (decimal id) (pos id) w).1.db n ≡ alive w.db n))
  bury-Ended w m id ids i hi listed room =
      let ks = R.smembers w.db (lease_keys_key id) in
      let (done, e) =
        try_delete_keys-Emptied R ks w m i (omega (arith, room, keys_count R w m i id)) in
      let w' = (try_delete_keys R ks w).1 in
      let (over, kept) =
        ended R w m i id ids w' hi e w'.db
          (R.srem (R.del w'.db (lease_keys_key id)) lease_set_key (decimal id)) (λ k other. refl)
          listed refl in
      rw (bury-run w w' id i.calm (ap (λ r. (r, w')) done) e.logged.calm) (
        refl,
        (
          over,
          λ n hn. elim (Bool-cases (n == id)) [
            | inl same ↦ rw ((==_iff n id).0 same) (
                ap is_present
                  (kept ∙ e.frame (lease_data_key (pos id)) (lease_data_key-IsApart (pos id))))
            | inr other ↦ ap is_present (over.others n hn other)
          ],
        ),
      )

  reap_leases-alive :
      (n : ℕ) (ids : List Bytes) (w : World R)
      → n < 2 ^ 63
      → w.fates ≡ []
      → alive w.db n ≡ true
      → reap_leases R (decimal n ∷ ids) w ≡ reap_leases R ids w
  unfolding reap_leases pure
  reap_leases-alive n ids w hn calm a =
      rw
        (
          parse_int-decimal n hn,
          call-read R ttl_failed (λ db. R.exists_at db (lease_data_key (pos n))) w calm,
          R.exists_at-value w.db (lease_data_key (pos n)),
          a,
        )
        refl

  reap_leases-expired :
      (n : ℕ) (ids : List Bytes) (w w' : World R)
      → n < 2 ^ 63
      → w.fates ≡ []
      → alive w.db n ≡ false
      → bury R (decimal n) (pos n) w ≡ (ok tt, w')
      → reap_leases R (decimal n ∷ ids) w ≡ reap_leases R ids w'
  unfolding reap_leases pure
  reap_leases-expired n ids w w' hn calm a done =
      rw
        (
          parse_int-decimal n hn,
          call-read R ttl_failed (λ db. R.exists_at db (lease_data_key (pos n))) w calm,
          R.exists_at-value w.db (lease_data_key (pos n)),
          a,
          done,
        )
        refl

  -- A run of the reaper: exactly the keys that were written under an expired lease are gone, each with
  -- its event, and the expired leases are no longer listed.
  pub record Reaped (w : World R) (m : Mvcc) (ns : List ℕ) (ids : List Bytes)
      (out : Result (Unit {0}) × World R) : Type 0 where
    pub returned : out.0 ≡ ok tt
    pub logged : Logged R w m out.1
    pub gone :
        (k : Bytes) → logged.state.at k ≡ (if doomed (alive w.db) ns (m.at k) then none else m.at k)
    pub linked : IsLinked R out.1.db logged.state
    pub listed : as_set (R.value out.1.db lease_set_key) ≡ some (left_over (alive w.db) ns ids)

  same_lives :
      (f g : ℕ → Bool) (ns : List ℕ)
      → All (λ n. n < 2 ^ 63) ns
      → ((n : ℕ) → n < 2 ^ 63 → f n ≡ g n)
      → ((o : Option KeyValue) → doomed f ns o ≡ doomed g ns o)
        × ((ids : List Bytes) → left_over f ns ids ≡ left_over g ns ids)
  unfolding doomed left_over
  same_lives f g [] a h = (λ o. refl, λ ids. refl)
  same_lives f g (n ∷ ns) a h =
      let rest = same_lives f g ns a.1 h in
      (
        λ o. rw (h n a.0, rest.0 o) refl,
        λ ids. rw (h n a.0, rest.1 ids, rest.1 (without (decimal n) ids)) refl,
      )

  load-shrinks :
      (db db' : R.Db) (ns : List ℕ)
      → All (λ n. n < 2 ^ 63) ns
      → ((n : ℕ)
          → n < 2 ^ 63
          → set_size (R.value db' (lease_keys_key n)) ≤ set_size (R.value db (lease_keys_key n)))
      → load db' ns ≤ load db ns
  unfolding load
  load-shrinks db db' [] a h = omega arith
  load-shrinks db db' (n ∷ ns) a h = omega (arith, load-shrinks db db' ns a.1 h, h n a.0)

  reap_leases-Reaped :
      (ns : List ℕ) (w : World R) (m : Mvcc) (ids : List Bytes)
      → IsSound R w m
      → All (λ n. n < 2 ^ 63) ns
      → as_set (R.value w.db lease_set_key) ≡ some ids
      → m.revision + load w.db ns + 1 < 2 ^ 63
      → Reaped w m ns ids (reap_leases R (map decimal ns) w)
  unfolding reap_leases pure doomed left_over load
  reap_leases-Reaped [] w m ids i a listed room = record {
    returned = refl;
    logged = no_writes R w m i.refines i.exact i.calm i.on;
    gone = λ k. refl;
    linked = i.linked;
    listed = listed;
  }
  reap_leases-Reaped (n ∷ ns) w m ids i a listed room = elim (Bool-cases (alive w.db n)) [
    | inl there ↦
        let rest = reap_leases-Reaped ns w m ids i a.1 listed (omega (arith, room)) in
        rw (reap_leases-alive n (map decimal ns) w a.0 i.calm there) (record {
          returned = rest.returned;
          logged = rest.logged;
          gone = λ k. rw there (rest.gone k);
          linked = rest.linked;
          listed = rw there rest.listed;
        })
    | inr expired ↦
        let (done, (over, lives)) = bury-Ended w m n ids i a.0 listed (omega (arith, room)) in
        let w' = (bury R (decimal n) (pos n) w).1 in
        let l = over.logged in
        let rest =
          reap_leases-Reaped ns w' l.state (without (decimal n) ids)
            (record {
              refines = l.refines;
              exact = l.exact;
              linked = over.linked;
              calm = l.calm;
              on = l.on;
            })
            a.1 over.listed
            (omega
              (arith, room, l.revision, over.few, load-shrinks w.db w'.db ns a.1 over.shrinks)) in
        let same = same_lives (alive w'.db) (alive w.db) ns a.1 lives in
        rw (reap_leases-expired n (map decimal ns) w w' a.0 i.calm expired (ap (λ r. (r, w')) done))
          (record {
            returned = rest.returned;
            logged = joined R w m w' l (reap_leases R (map decimal ns) w').1 rest.logged;
            gone = λ k. rw expired (
                rest.gone k
                ∙ (ap (λ o. if doomed (alive w'.db) ns o then none else o) (over.gone k)
                    ∙ (merged (doomed (alive w'.db) ns) (on_lease n (m.at k)) (m.at k)
                        ∙ ap (λ b. if on_lease n (m.at k) || b then none else m.at k)
                            (same.0 (m.at k)))));
            linked = rest.linked;
            listed = rw expired (rest.listed ∙ ap some (same.1 (without (decimal n) ids)));
          })
  ]

  -- `reapExpiredLeases`, if its calls are answered, the key sets of the leases are those of the state,
  -- the listed leases are numbers below 2^63, and the counter has room for a deletion of each of their
  -- keys: exactly the keys whose current version was written under a listed lease whose string has
  -- expired are gone, with an event and a revision for each deletion, and of the listed leases those
  -- are left whose string is there. The key sets are again those of the state.
  pub reap_expired_leases-Reaped :
      (ns : List ℕ) (w : World R) (m : Mvcc) (ids : List Bytes)
      → IsSound R w m
      → R.smembers w.db lease_set_key ≡ map decimal ns
      → All (λ n. n < 2 ^ 63) ns
      → as_set (R.value w.db lease_set_key) ≡ some ids
      → m.revision + load w.db ns + 1 < 2 ^ 63
      → Reaped w m ns ids (reap_expired_leases R w)
  unfolding reap_expired_leases
  reap_expired_leases-Reaped ns w m ids i members a listed room =
      rw (call-read R lease_keys_failed (λ db. R.smembers db lease_set_key) w i.calm, members)
        (reap_leases-Reaped ns w m ids i a listed room)
