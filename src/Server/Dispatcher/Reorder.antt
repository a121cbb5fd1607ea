-- ===== src/Server/Dispatcher/Reorder.antt =====
-- The reorder buffer of `ingest`: whatever the order in which the writers' events arrive, they are
-- released in the order of their revisions, without a gap.
pub mod Arrivals
use retcd.Prelude.{
  ℕ, zero, suc, ◌+◌, ◌≤◌, ◌<◌, ◌≡◌, refl, ◌≢◌, Bool, true, false, ◌&&◌, ◌||◌, List, [], ◌∷◌, Option,
  none, some, inl, inr, arith, ltb, leb, ◌==◌, if◌then◌else◌, length, Bool-cases, Option-cases,
}
use retcd.Prelude.Assoc.{
  lookup, remove, insert, lookup-remove, lookup-insert, length-remove-le, length-remove-lt,
  lookup_of_empty, length-insert-le,
}
use retcd.Store.Event.{Event}
use retcd.Server.Dispatcher.{
  Feed, Dispatcher, max_pending_events, release_locked, release_next, drain, flush_if_over, accept,
  ingest,
}

unfoldable pub contains : ℕ → List ℕ → Bool
contains r [] = false
contains r (x ∷ xs) = x == r || contains r xs

-- A primed buffer drops what it has released, and takes in the rest.
pub ingest-old :
    (ev : Event) (d : Dispatcher) → 0 < d.next_rev → ev.rev < d.next_rev → ingest ev d ≡ d
unfolding ingest
ingest-old ev d primed h = ground arith

pub ingest-new :
    (ev : Event) (d : Dispatcher) → 0 < d.next_rev → d.next_rev ≤ ev.rev → ingest ev d ≡ accept ev d
unfolding ingest
ingest-new ev d primed h = ground arith

-- The events in revision order: `event r` is the event of revision `r`.
module _ (event : ℕ → Event) where
  -- The feed after the `m` events from revision `n` on.
  unfoldable pub release_range : ℕ → ℕ → Feed → Feed
  release_range zero n f = f
  release_range (suc m) n f = release_locked (event (n + m)) (release_range m n f)

  -- The buffer between two calls, or inside the loop: `m` events are released, and what has arrived
  -- beyond them is pending.
  pub record Buffers (n : ℕ) (arrived : List ℕ) (f : Feed) (m : ℕ) (d : Dispatcher) : Type 0 where
    pub feed_released : d.feed ≡ release_range m n f
    pub next_released : d.next_rev ≡ n + m
    pub bounded : length d.pending ≤ length arrived
    pub waiting :
        (r : ℕ)
        → lookup r d.pending
          ≡ (if leb (n + m) r && contains r arrived then some (event r) else none)
    pub complete : (r : ℕ) → n ≤ r → r < n + m → contains r arrived ≡ true

  -- Between two calls the loop has ended: the next revision has not arrived.
  pub record Tracks (n : ℕ) (arrived : List ℕ) (f : Feed) (d : Dispatcher) : Type 0 where
    pub released : ℕ
    pub buffers : Buffers n arrived f released d
    pub next_missing : contains (n + released) arrived ≡ false

  module _ (n : ℕ) (arrived : List ℕ) (f : Feed) where
    release_next-Buffers :
        (m : ℕ) (d : Dispatcher) (next : Event)
        → Buffers n arrived f m d
        → lookup d.next_rev d.pending ≡ some next
        → Buffers n arrived f (suc m) (release_next next d)
    unfolding release_next release_range
    release_next-Buffers m d next b e = record {
      feed_released = cc (b.feed_released, next_is_event);
      next_released = omega arith;
      bounded = omega (arith, length-remove-le d.next_rev d.pending);
      waiting = λ r. ground (arith, lookup-remove d.next_rev r d.pending, b.waiting r);
      complete = λ r lo hi. ground (arith, b.complete r, b.waiting r);
    }
      where
        next_is_event : next ≡ event (n + m)
        next_is_event = rw (← b.next_released) (ground (arith, b.waiting d.next_rev))

    -- The loop ends at a revision that has not arrived, if it has a round for each pending event.
    pub drain-Tracks :
        (fuel m : ℕ) (d : Dispatcher)
        → Buffers n arrived f m d
        → length d.pending ≤ fuel
        → Tracks n arrived f (drain fuel d)
    unfolding drain
    drain-Tracks zero m d b h = record {
      released = m;
      buffers = b;
      next_missing = ground (arith, b.waiting (n + m), lookup_of_empty (n + m) d.pending);
    }
    drain-Tracks (suc fuel) m d b h = elim (Option-cases (lookup d.next_rev d.pending)) [
      | inl e ↦
          rw (e, drain)
            (record {
              released = m;
              buffers = b;
              next_missing = ground (arith, b.waiting d.next_rev, b.next_released);
            })
      | inr (next, e) ↦
          rw (e, drain)
            (drain-Tracks fuel (suc m) (release_next next d) (release_next-Buffers m d next b e)
              (unfold release_next in omega (arith, length-remove-lt d.next_rev d.pending next e)))
    ]

  -- An arrival at or past `n` is put into the buffer.
  insert-Buffers :
      (n : ℕ) (arrived : List ℕ) (f : Feed) (m r : ℕ) (d : Dispatcher)
      → Buffers n arrived f m d
      → n + m ≤ r
      → (event r).rev ≡ r
      → Buffers n
          (r ∷ arrived)
          f
          m
          (record d { pending = insert (event r).rev (event r) d.pending })
  unfolding contains
  insert-Buffers n arrived f m r d b h e = record {
    feed_released = b.feed_released;
    next_released = b.next_released;
    bounded = omega (arith, b.bounded, length-insert-le (event r).rev (event r) d.pending);
    waiting = λ q. ground (arith, lookup-insert (event r).rev q (event r) d.pending, b.waiting q);
    complete = λ q lo hi. ground (arith, b.complete q);
  }

  flush_if_over-small :
      (d : Dispatcher) → length d.pending ≤ max_pending_events → flush_if_over d ≡ d
  unfolding flush_if_over
  flush_if_over-small d h = ground arith

  accept-Tracks :
      (n : ℕ) (arrived : List ℕ) (f : Feed) (m r : ℕ) (d : Dispatcher)
      → Buffers n arrived f m d
      → n + m ≤ r
      → (event r).rev ≡ r
      → length arrived < max_pending_events
      → Tracks n (r ∷ arrived) f (accept (event r) d)
  unfolding accept
  accept-Tracks n arrived f m r d b h e few =
      let d' : Dispatcher = record d { pending = insert (event r).rev (event r) d.pending } in
      let t : Tracks n (r ∷ arrived) f (drain (length d'.pending) d') =
        drain-Tracks n (r ∷ arrived) f (length d'.pending) m d'
          (insert-Buffers n arrived f m r d b h e) (omega arith) in
      rw (flush_if_over-small (drain (length d'.pending) d') (omega (arith, t.buffers.bounded))) t

  -- A second arrival of a released revision changes nothing.
  duplicate-Tracks :
      (n : ℕ) (arrived : List ℕ) (f : Feed) (r : ℕ) (d : Dispatcher)
      → (t : Tracks n arrived f d) → n ≤ r
      → r < n + t.released
      → Tracks n (r ∷ arrived) f d
  unfolding contains
  duplicate-Tracks n arrived f r d t lo hi = record {
    released = t.released;
    buffers = record {
      feed_released = t.buffers.feed_released;
      next_released = t.buffers.next_released;
      bounded = omega (arith, t.buffers.bounded);
      waiting = λ q. ground (arith, t.buffers.waiting q);
      complete = λ q lo hi. ground (arith, t.buffers.complete q);
    };
    next_missing = ground (arith, t.next_missing);
  }

  -- One call of `ingest`, with the next arrival in whatever order.
  pub ingest-Tracks :
      (n : ℕ) (arrived : List ℕ) (f : Feed) (r : ℕ) (d : Dispatcher)
      → 0 < n
      → n ≤ r
      → (event r).rev ≡ r
      → length arrived < max_pending_events
      → Tracks n arrived f d
      → Tracks n (r ∷ arrived) f (ingest (event r) d)
  ingest-Tracks n arrived f r d primed h e few t = elim (Bool-cases (ltb r d.next_rev)) [
    | inl old ↦
        rw (ingest-old (event r) d (omega (arith, t.buffers.next_released)) (ground arith))
          (duplicate-Tracks n arrived f r d t h (ground (arith, t.buffers.next_released)))
    | inr new ↦
        rw (ingest-new (event r) d (omega (arith, t.buffers.next_released)) (ground arith)) (
          accept-Tracks n arrived f t.released r d t.buffers
            (ground (arith, t.buffers.next_released)) e few)
  ]
