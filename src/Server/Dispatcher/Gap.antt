-- ===== src/Server/Dispatcher/Gap.antt =====
-- A revision whose event never arrives: live delivery stops behind it, until the buffer overflows.
use retcd.Prelude.{
  ℕ, ◌+◌, ◌≤◌, ◌<◌, ◌≡◌, refl, true, false, List, [], ◌∷◌, arith, length, All, none, leb,
  if◌then◌else◌, is_some, ◌∙◌, ◌&&◌, ◌⊎◌, inl, inr, sym,
}
use retcd.Prelude.Assoc.{lookup, remove, lookup-remove, empty_of_lookup}
use retcd.Store.Event.{Event}
use retcd.Server.Dispatcher.{
  Feed, Dispatcher, max_pending_events, release_locked, insert_rev, sorted_revs, flush_loop,
  flush_pending_locked, or_zero_event,
}
use retcd.Server.Dispatcher.Reorder.{contains, release_range, Tracks}
use retcd.Server.Dispatcher.Reorder.Arrivals.{
  ingest_all, arrivals, IsNumbered, IsIdle, ingest_all-Tracks, contains_above, All-arrivals,
}

weaken : (n : ℕ) (rs : List ℕ) → All (λ r. n < r) rs → All (λ r. n ≤ r) rs
weaken n [] h = tt
weaken n (r ∷ rs) h = (omega arith, weaken n rs h.1)

Tracks-stalled :
    (event : ℕ → Event) (n : ℕ) (arrived : List ℕ) (f : Feed) (d : Dispatcher)
    → All (λ r. n < r) arrived
    → Tracks event n arrived f d
    → d.feed ≡ f
unfolding release_range
Tracks-stalled event n arrived f d above t = cc (t.buffers.feed_released, nothing_released)
  where
    nothing_released : t.released ≡ 0
    nothing_released = ground (arith, t.buffers.complete n, contains_above n n arrived above)

-- While the event of the next revision is missing, no subscriber receives anything, whatever else
-- arrives: the feed stays as it was, up to the capacity of the buffer.
pub ingest_all-stalled :
    (event : ℕ → Event) (n : ℕ) (rs : List ℕ) (d : Dispatcher)
    → IsNumbered event
    → IsIdle n d
    → All (λ r. n < r) rs
    → length rs ≤ max_pending_events
    → (ingest_all event rs d).feed ≡ d.feed
ingest_all-stalled event n rs d numbered i above few =
    Tracks-stalled event n (arrivals [] rs) d.feed (ingest_all event rs d)
      (All-arrivals (λ r. n < r) [] rs tt above)
      (ingest_all-Tracks event n rs d numbered i (weaken n rs above) few)

-- The revisions of a flush: ascending, and those that are pending.
abbrev pub IsAscending : List ℕ → Type 0
IsAscending [] = Unit {0}
IsAscending (x ∷ []) = Unit {0}
IsAscending (x ∷ y ∷ l) = (x ≤ y) × IsAscending (y ∷ l)

insert_rev-IsAscending : (r : ℕ) (l : List ℕ) → IsAscending l → IsAscending (insert_rev r l)
unfolding insert_rev
insert_rev-IsAscending r [] h = tt
insert_rev-IsAscending r (x ∷ []) h = ground arith
insert_rev-IsAscending r (x ∷ y ∷ l) h = ground (arith, insert_rev-IsAscending r (y ∷ l) h.1)

sorted_revs-IsAscending : (m : List (ℕ × Event)) → IsAscending (sorted_revs m)
unfolding sorted_revs
sorted_revs-IsAscending [] = tt
sorted_revs-IsAscending ((r, ev) ∷ m) =
    insert_rev-IsAscending r (sorted_revs m) (sorted_revs-IsAscending m)

contains-insert_rev : (q r : ℕ) (l : List ℕ) → contains q (insert_rev r l) ≡ contains q (r ∷ l)
unfolding contains insert_rev
contains-insert_rev q r [] = refl
contains-insert_rev q r (x ∷ l) = ground (arith, contains-insert_rev q r l)

contains-sorted_revs :
    (q : ℕ) (m : List (ℕ × Event)) → contains q (sorted_revs m) ≡ is_some (lookup q m)
unfolding contains lookup sorted_revs
contains-sorted_revs q [] = refl
contains-sorted_revs q ((r, ev) ∷ m) =
    ground (arith, contains-insert_rev q r (sorted_revs m), contains-sorted_revs q m)

-- The releases of a flush, in the order of the list.
unfoldable pub release_revs : List ℕ → List (ℕ × Event) → Feed → Feed
release_revs [] m f = f
release_revs (r ∷ revs) m f =
    release_revs revs (remove r m) (release_locked (or_zero_event (lookup r m)) f)

flush_loop-feed :
    (revs : List ℕ) (d : Dispatcher) → (flush_loop revs d).feed ≡ release_revs revs d.pending d.feed
unfolding flush_loop release_revs
flush_loop-feed [] d = refl
flush_loop-feed (r ∷ revs) d = flush_loop-feed revs _

flush_loop-lookup :
    (q : ℕ) (revs : List ℕ) (d : Dispatcher)
    → lookup q (flush_loop revs d).pending ≡ (if contains q revs then none else lookup q d.pending)
unfolding flush_loop contains
flush_loop-lookup q [] d = refl
flush_loop-lookup q (r ∷ revs) d =
    flush_loop-lookup q revs _ ∙ ground (arith, lookup-remove r q d.pending)

-- `nextRev` behind the loop.
past : List ℕ → ℕ → ℕ
past [] n = n
past (r ∷ revs) n = past revs (r + 1)

flush_loop-past :
    (revs : List ℕ) (d : Dispatcher) → (flush_loop revs d).next_rev ≡ past revs d.next_rev
unfolding flush_loop past
flush_loop-past [] d = refl
flush_loop-past (r ∷ revs) d = flush_loop-past revs _

lt-past : (q n : ℕ) (revs : List ℕ) → IsAscending revs → contains q revs ≡ true → q < past revs n
unfolding past contains
lt-past q n [] h c = cc
lt-past q n (r ∷ []) h c = ground arith
lt-past q n (r ∷ s ∷ revs) h c =
    ground (arith, lt-past q (r + 1) (s ∷ revs) h.1, lt-past s (r + 1) (s ∷ revs) h.1)

past-last :
    (n : ℕ) (revs : List ℕ)
    → ((revs ≡ []) × (past revs n ≡ n))
      ⊎ ((q : ℕ) × (contains q revs ≡ true) × (past revs n ≡ q + 1))
unfolding past contains
past-last n [] = inl (refl, refl)
past-last n (r ∷ revs) = elim (past-last (r + 1) revs) [
  | inl (e, last) ↦ inr (r, ground arith, last)
  | inr (q, there, last) ↦ inr (q, ground (arith, there), last)
]

-- The safety valve: a flush releases what is pending in ascending order of the revisions, empties
-- the buffer, and sets the next revision past every revision that was pending, to one more than the
-- last of them; with nothing pending it stays.
pub flush_pending_locked_lem :
    (d : Dispatcher)
    → ((flush_pending_locked d).feed ≡ release_revs (sorted_revs d.pending) d.pending d.feed)
      × IsAscending (sorted_revs d.pending)
      × ((q : ℕ) → contains q (sorted_revs d.pending) ≡ is_some (lookup q d.pending))
      × ((flush_pending_locked d).pending ≡ [])
      × ((q : ℕ)
          → (is_some (lookup q d.pending) && leb (flush_pending_locked d).next_rev q) ≡ false)
      × (((sorted_revs d.pending ≡ []) × ((flush_pending_locked d).next_rev ≡ d.next_rev))
          ⊎ ((q : ℕ) × (is_some (lookup q d.pending) ≡ true)
              × ((flush_pending_locked d).next_rev ≡ q + 1)))
unfolding flush_pending_locked
flush_pending_locked_lem d = (
  flush_loop-feed (sorted_revs d.pending) d,
  sorted_revs-IsAscending d.pending,
  λ q. contains-sorted_revs q d.pending,
  empty_of_lookup _ (λ q.
      ground
        (arith, flush_loop-lookup q (sorted_revs d.pending) d, contains-sorted_revs q d.pending)),
  λ q. rw (flush_loop-past (sorted_revs d.pending) d) (
      ground (
        arith,
        lt-past q d.next_rev (sorted_revs d.pending) (sorted_revs-IsAscending d.pending),
        contains-sorted_revs q d.pending,
      )),
  rw (flush_loop-past (sorted_revs d.pending) d)
      (elim (past-last d.next_rev (sorted_revs d.pending)) [
        | inl e ↦ inl e
        | inr (q, there, last) ↦ inr (q, sym (contains-sorted_revs q d.pending) ∙ there, last)
      ]),
)
