-- ===== src/Store/Lease/Ticks.antt =====
-- The reaper's ticks: time passes, and the keys of the leases that are over go.
use retcd.Prelude.{
  ℕ, ◌+◌, ◌<◌, ◌^◌, ◌≡◌, refl, Bool, true, false, not, ◌&&◌, ◌||◌, List, [], ◌∷◌, Option, none,
  some, arith, ap, ◌∙◌, if◌then◌else◌, leb, ◌==◌, pos, map, All, Bool-cases, inl, inr, sym, length,
}
use retcd.Bytes.{Bytes}
use retcd.Decimal.{decimal}
use retcd.Redis.{
  Redis, Value, absent, string, expiring, zset, set, stream, aged, as_set, as_zset, as_stream,
  is_present,
}
use retcd.Store.Blob.{KeyValue}
use retcd.Store.Script.{revision_key, redis_key, key_index, event_stream, lease_keys_key}
use retcd.Store.Keyspace.{Shape, Has, blob_value}
use retcd.Store.Mvcc.{Mvcc}
use retcd.Store.Refine.{Refines}
use retcd.Store.Client.{World}
use retcd.Store.Client.Log.{Logged}
use retcd.Store.Event.{XMessage}
use retcd.Store.Lease.{
  wait, lease_set_key, lease_data_key, ReaperTurn, ticker_fires, context_done, start_lease_reaper,
}
use retcd.Store.Lease.Linked.{on_lease, IsLinked}
use retcd.Store.Lease.Emptied.{IsSound, set_size}
use retcd.Store.Lease.Reap.{doomed, left_over, alive, load, reap_expired_leases-Reaped}

-- Time does nothing to a value that does not expire.
as_set-aged : (t : ℕ) (v : Value) (x : List Bytes) → as_set v ≡ some x → as_set (aged t v) ≡ some x
as_set-aged t (expiring left text) x h = absurd cc
as_set-aged t absent x h = h
as_set-aged t (string text) x h = h
as_set-aged t (zset ms) x h = h
as_set-aged t (set ms) x h = h
as_set-aged t (stream es) x h = h

as_zset-aged :
    (t : ℕ) (v : Value) (x : List Bytes) → as_zset v ≡ some x → as_zset (aged t v) ≡ some x
as_zset-aged t (expiring left text) x h = absurd cc
as_zset-aged t absent x h = h
as_zset-aged t (string text) x h = h
as_zset-aged t (zset ms) x h = h
as_zset-aged t (set ms) x h = h
as_zset-aged t (stream es) x h = h

as_stream-aged :
    (t : ℕ) (v : Value) (x : List XMessage) → as_stream v ≡ some x → as_stream (aged t v) ≡ some x
as_stream-aged t (expiring left text) x h = absurd cc
as_stream-aged t absent x h = h
as_stream-aged t (string text) x h = h
as_stream-aged t (zset ms) x h = h
as_stream-aged t (set ms) x h = h
as_stream-aged t (stream es) x h = h

aged-blob_value : (t : ℕ) (o : Option Bytes) → aged t (blob_value o) ≡ blob_value o
aged-blob_value t none = refl
aged-blob_value t (some raw) = refl

set_size-is : (v : Value) (ms : List Bytes) → as_set v ≡ some ms → set_size v ≡ length ms
set_size-is v ms h = rw h refl

-- A number is among the leases.
unfoldable pub among : ℕ → List ℕ → Bool
among j [] = false
among j (n ∷ ns) = n == j || among j ns

on_lease_unique :
    (n j : ℕ) (o : Option KeyValue) → on_lease j o ≡ true → on_lease n o ≡ true → n ≡ j
unfolding on_lease
on_lease_unique n j none h g = absurd cc
on_lease_unique n j (some kv) h g = ground (arith, h, g)

-- The keys of a lease go with it.
doomed-on_lease :
    (live : ℕ → Bool) (j : ℕ) (ns : List ℕ) (o : Option KeyValue)
    → on_lease j o ≡ true
    → doomed live ns o ≡ (among j ns && not (live j))
unfolding doomed among
doomed-on_lease live j [] o h = refl
doomed-on_lease live j (n ∷ ns) o h =
    let rest = doomed-on_lease live j ns o h in
    elim (Bool-cases (n == j)) [
      | inl same ↦
          let equal : n ≡ j = ground (arith, same) in rw (rest, same, equal, h) (ground arith)
      | inr other ↦ elim (Bool-cases (on_lease n o)) [
        | inl on ↦ absurd (ground (arith, other, on_lease_unique n j o h on))
        | inr off ↦ rw (off, rest, other) (ground arith)
      ]
    ]

module _ (R : Redis) where
  elapse-Has :
      (t : ℕ) (db : R.Db) (s : Shape)
      → Has R db s
      → Has R (R.elapse t db) (record s { others = λ j. R.value (R.elapse t db) j })
  elapse-Has t db s h = record {
    counter = R.value-elapse db t revision_key ∙ ap (aged t) h.counter;
    blobs = λ k.
        R.value-elapse db t (redis_key k)
        ∙ (ap (aged t) (h.blobs k) ∙ aged-blob_value t (s.blobs k));
    index = ap as_zset (R.value-elapse db t key_index) ∙ as_zset-aged t _ s.members h.index;
    log = ap as_stream (R.value-elapse db t event_stream) ∙ as_stream-aged t _ s.entries h.log;
    leases = λ n.
        ap as_set (R.value-elapse db t (lease_keys_key n))
        ∙ as_set-aged t _ (s.leases n) (h.leases n);
    others = λ k a. refl;
  }

  elapse-Refines : (t : ℕ) (db : R.Db) (m : Mvcc) → Refines R db m → Refines R (R.elapse t db) m
  elapse-Refines t db m r = record {
    shape = record r.shape { others = λ j. R.value (R.elapse t db) j };
    has = elapse-Has t db r.shape r.has;
    agrees = record {
      revision = r.agrees.revision;
      blobs = r.agrees.blobs;
      indexed = r.agrees.indexed;
      ordered = r.agrees.ordered;
      history = r.agrees.history;
    };
  }

  load-elapse :
      (t : ℕ) (db : R.Db) (m : Mvcc)
      → Refines R db m
      → (ns : List ℕ) → load R (R.elapse t db) ns ≡ load R db ns
  unfolding load
  load-elapse t db m r [] = refl
  load-elapse t db m r (n ∷ ns) =
      let set_there = r.has.leases n in
      let same : set_size (R.value (R.elapse t db) (lease_keys_key n))
          ≡ set_size (R.value db (lease_keys_key n)) =
        set_size-is _ _ ((elapse-Has t db r.shape r.has).leases n)
        ∙ sym (set_size-is _ _ set_there) in
      rw (same, load-elapse t db m r ns) refl

  -- The state and the key sets of the leases do not change with time.
  wait-IsSound : (t : ℕ) (w : World R) (m : Mvcc) → IsSound R w m → IsSound R (wait R t w) m
  wait-IsSound t w m i = record {
    refines = elapse-Refines t w.db m i.refines;
    exact = i.exact;
    linked = record {
      linked = λ n k ms hn e. i.linked.linked n k ms hn (
          i.refines.has.leases n
          ∙ (sym (
                ap as_set (R.value-elapse w.db t (lease_keys_key n))
                ∙ as_set-aged t _ (i.refines.shape.leases n) (i.refines.has.leases n))
              ∙ e));
    };
    calm = i.calm;
    on = i.on;
  }

  alive-elapsed :
      (t j left : ℕ) (text : Bytes) (db : R.Db)
      → R.value db (lease_data_key (pos j)) ≡ expiring left text
      → alive R (R.elapse t db) j ≡ not (leb left t)
  alive-elapsed t j left text db h =
      ap is_present (R.value-elapse db t (lease_data_key (pos j)) ∙ ap (aged t) h)
      ∙ elim (Bool-cases (leb left t)) [ inl over ↦ rw over refl | inr lasts ↦ rw lasts refl ]

  -- What a tick does, so many milliseconds on: it deletes, with events, exactly the keys of the listed
  -- leases that have ended, among them every lease that had no more time left.
  pub record Ticked (w : World R) (m : Mvcc) (ns : List ℕ) (ids : List Bytes) (t : ℕ)
      (out : World R) : Type 0 where
    pub logged : Logged R (wait R t w) m out
    pub gone :
        (k : Bytes)
        → logged.state.at k
          ≡ (if doomed (alive R (R.elapse t w.db)) ns (m.at k) then none else m.at k)
    pub timely :
        (j left : ℕ) (text k : Bytes)
        → R.value w.db (lease_data_key (pos j)) ≡ expiring left text
        → among j ns ≡ true
        → on_lease j (m.at k) ≡ true
        → logged.state.at k ≡ (if leb left t then none else m.at k)
    pub linked : IsLinked R out.db logged.state
    pub listed :
        as_set (R.value out.db lease_set_key) ≡ some (left_over (alive R (R.elapse t w.db)) ns ids)

  -- Let a database stand for a state and keep the key sets of its leases, and let so many milliseconds
  -- pass before the reaper's next tick. If the tick's calls are answered, the listed leases are numbers
  -- below 2^63 and the counter has room, the tick deletes, with an event each, exactly the keys whose
  -- lease is listed and has ended by then: a key of a listed lease is gone if the lease had no more
  -- time left than that, and has its version if it had more. The leases that have ended are no longer
  -- listed. When the context ends, the reaper does nothing more.
  pub start_lease_reaper-Ticked :
      (t : ℕ) (ns : List ℕ) (w : World R) (m : Mvcc) (ids : List Bytes)
      (turns : List (ReaperTurn R))
      → IsSound R w m
      → R.smembers (R.elapse t w.db) lease_set_key ≡ map decimal ns
      → All (λ n. n < 2 ^ 63) ns
      → as_set (R.value w.db lease_set_key) ≡ some ids
      → m.revision + load R w.db ns + 1 < 2 ^ 63
      → Ticked w m ns ids t
          (start_lease_reaper R (ticker_fires (wait R t) ∷ context_done ∷ turns) w)
  unfolding start_lease_reaper
  start_lease_reaper-Ticked t ns w m ids turns i members a listed room =
      let r =
        reap_expired_leases-Reaped R ns (wait R t w) m ids (wait-IsSound t w m i) members a
          (ap as_set (R.value-elapse w.db t lease_set_key) ∙ as_set-aged t _ ids listed)
          (rw (load-elapse t w.db m i.refines ns) room) in
      record {
        logged = r.logged;
        gone = r.gone;
        timely = λ j left text k there member on.
            r.gone k
            ∙ ap (λ b. if b then none else m.at k)
                (doomed-on_lease (alive R (R.elapse t w.db)) j ns (m.at k) on
                  ∙ rw (member, alive-elapsed t j left text w.db there) (not_not (leb left t)));
        linked = r.linked;
        listed = r.listed;
      }
    where
      not_not : (b : Bool) → (true && not (not b)) ≡ b
      not_not b = ground arith
