-- ===== src/Server/Dispatcher/Reorder/Arrivals.antt =====
-- Sequences of arrivals.
use retcd.Prelude.{
  ℕ, ◌+◌, ◌≤◌, ◌<◌, ◌≡◌, refl, true, List, [], ◌∷◌, none, inl, inr, arith, length, All, Bool-cases,
}
use retcd.Prelude.Assoc.{lookup, empty_of_lookup}
use retcd.Store.Event.{Event}
use retcd.Server.Dispatcher.{Feed, Dispatcher, max_pending_events, ingest}
use retcd.Server.Dispatcher.Reorder.{contains, release_range, Tracks, ingest-Tracks}

-- The events of the revisions in `rs`, handed to `ingest` one after the other.
unfoldable pub ingest_all : (ℕ → Event) → List ℕ → Dispatcher → Dispatcher
ingest_all event [] d = d
ingest_all event (r ∷ rs) d = ingest_all event rs (ingest (event r) d)

-- The arrivals so far, the latest first.
abbrev pub arrivals : List ℕ → List ℕ → List ℕ
arrivals rs [] = rs
arrivals rs (x ∷ xs) = arrivals (x ∷ rs) xs

abbrev pub IsNumbered : (ℕ → Event) → Type 0
IsNumbered event = (r : ℕ) → (event r).rev ≡ r

module _ (event : ℕ → Event) (numbered : IsNumbered event) (n : ℕ) (primed : 0 < n) (f : Feed) where
  ingest_all-Tracks_from :
      (arrived rs : List ℕ) (d : Dispatcher)
      → All (λ r. n ≤ r) rs
      → length arrived + length rs ≤ max_pending_events
      → Tracks event n arrived f d
      → Tracks event n (arrivals arrived rs) f (ingest_all event rs d)
  unfolding ingest_all
  ingest_all-Tracks_from arrived [] d h few t = t
  ingest_all-Tracks_from arrived (r ∷ rs) d h few t =
      ingest_all-Tracks_from (r ∷ arrived) rs (ingest (event r) d) h.1 (omega arith)
        (ingest-Tracks event n arrived f r d primed h.0 (numbered r) (omega arith) t)

module _ (r : ℕ) where
  contains-arrivals_left :
      (rs xs : List ℕ) → contains r rs ≡ true → contains r (arrivals rs xs) ≡ true
  unfolding contains
  contains-arrivals_left rs [] h = h
  contains-arrivals_left rs (x ∷ xs) h = contains-arrivals_left (x ∷ rs) xs (ground arith)

  contains-arrivals_right :
      (rs xs : List ℕ) → contains r xs ≡ true → contains r (arrivals rs xs) ≡ true
  unfolding contains
  contains-arrivals_right rs [] h = cc
  contains-arrivals_right rs (x ∷ xs) h = elim (Bool-cases (contains r xs)) [
    | inl later ↦ contains-arrivals_right (x ∷ rs) xs later
    | inr first ↦ contains-arrivals_left (x ∷ rs) xs (ground arith)
  ]

  contains_below : (k : ℕ) (rs : List ℕ) → All (λ x. x < k) rs → contains r rs ≡ true → r < k
  unfolding contains
  contains_below k [] h c = cc
  contains_below k (x ∷ rs) h c = ground (arith, contains_below k rs)

  pub contains_above : (k : ℕ) (rs : List ℕ) → All (λ x. k < x) rs → contains r rs ≡ true → k < r
  unfolding contains
  contains_above k [] h c = cc
  contains_above k (x ∷ rs) h c = ground (arith, contains_above k rs)

pub All-arrivals {κ} :
    (P : ℕ → Type κ) (rs xs : List ℕ) → All P rs → All P xs → All P (arrivals rs xs)
All-arrivals P rs [] h k = h
All-arrivals P rs (x ∷ xs) h k = All-arrivals P (x ∷ rs) xs (k.0, h) k.1

-- A primed dispatcher with an empty buffer.
pub record IsIdle (n : ℕ) (d : Dispatcher) : Type 0 where
  pub primed : 0 < n
  pub next_is : d.next_rev ≡ n
  pub empty : d.pending ≡ []

idle-Tracks : (event : ℕ → Event) (n : ℕ) (d : Dispatcher) → IsIdle n d → Tracks event n [] d.feed d
unfolding contains release_range lookup
idle-Tracks event n d i = record {
  released = 0;
  buffers = record {
    feed_released = refl;
    next_released = omega (arith, i.next_is);
    bounded = rw i.empty (omega arith);
    waiting = λ r. rw i.empty (ground arith);
    complete = λ r lo hi. absurd (omega arith);
  };
  next_missing = refl;
}

-- After arrivals in any order, with gaps and repetitions, at a primed dispatcher with an empty buffer,
-- at most as many as the buffer holds, exactly the events up to the first missing revision have been
-- released, in the order of their revisions, and the others wait.
pub ingest_all-Tracks :
    (event : ℕ → Event) (n : ℕ) (rs : List ℕ) (d : Dispatcher)
    → IsNumbered event
    → IsIdle n d
    → All (λ r. n ≤ r) rs
    → length rs ≤ max_pending_events
    → Tracks event n (arrivals [] rs) d.feed (ingest_all event rs d)
ingest_all-Tracks event n rs d numbered i h few =
    ingest_all-Tracks_from event numbered n i.primed d.feed [] rs d h (omega arith)
      (idle-Tracks event n d i)

module _ (event : ℕ → Event) (n k : ℕ) (rs : List ℕ) (f : Feed) (d : Dispatcher)
    (t : Tracks event n (arrivals [] rs) f d) (within : All (λ r. r < n + k) rs)
    (all_there : (r : ℕ) → n ≤ r → r < n + k → contains r rs ≡ true) where
  arrived_below : (r : ℕ) → contains r (arrivals [] rs) ≡ true → r < n + k
  arrived_below r =
      contains_below r (n + k) (arrivals [] rs) (All-arrivals (λ x. x < n + k) [] rs tt within)

  all_released : t.released ≡ k
  all_released = ground (
    arith,
    contains-arrivals_right (n + t.released) [] rs,
    all_there (n + t.released),
    t.next_missing,
    t.buffers.complete (n + k),
    arrived_below (n + k),
  )

  none_waiting : (r : ℕ) → lookup r d.pending ≡ none
  none_waiting r = ground (arith, t.buffers.waiting r, arrived_below r, all_released)

  all_there-released :
      (d.feed ≡ release_range event k n f) × (d.next_rev ≡ n + k) × (d.pending ≡ [])
  all_there-released = (
    cc (t.buffers.feed_released, all_released),
    omega (arith, t.buffers.next_released, all_released),
    empty_of_lookup d.pending none_waiting,
  )

-- In whatever order the events of the revisions `n` to `n + k - 1` arrive at a dispatcher that is
-- primed at `n` and has an empty buffer, repetitions included, with at most as many arrivals as the
-- buffer holds, the dispatcher ends as if they had been released in the order of their revisions,
-- each once, and nothing is left waiting.
pub ingest_all-any_order :
    (event : ℕ → Event) (n k : ℕ) (rs : List ℕ) (d : Dispatcher)
    → IsNumbered event
    → IsIdle n d
    → All (λ r. n ≤ r) rs
    → All (λ r. r < n + k) rs
    → ((r : ℕ) → n ≤ r → r < n + k → contains r rs ≡ true)
    → length rs ≤ max_pending_events
    → ((ingest_all event rs d).feed ≡ release_range event k n d.feed)
      × ((ingest_all event rs d).next_rev ≡ n + k)
      × ((ingest_all event rs d).pending ≡ [])
ingest_all-any_order event n k rs d numbered i above below all_there few =
    all_there-released event n k rs d.feed (ingest_all event rs d)
      (ingest_all-Tracks event n rs d numbered i above few) below all_there
