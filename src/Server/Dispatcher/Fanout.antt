-- ===== src/Server/Dispatcher/Fanout.antt =====
-- What a subscriber receives, and the watermarks of the feed.
use retcd.Prelude.{
  ℕ, zero, suc, ◌+◌, ◌≤◌, ◌<◌, ◌≡◌, refl, true, List, [], ◌∷◌, ◌++◌, Option, none, some, arith,
  length, if◌then◌else◌, length-append, ◌∙◌, ap, All,
}
use mathlib.Core.List.{append-nil, append_assoc}
use retcd.Prelude.Assoc.{lookup}
use retcd.Bytes.{Bytes}
use retcd.Store.Event.{Event}
use retcd.Server.Match.{matches_watch}
use retcd.Server.Dispatcher.Reorder.{contains, release_range}
use retcd.Server.Dispatcher.Reorder.Arrivals.{ingest_all, IsNumbered, IsIdle, ingest_all-any_order}
use Prim.Native.Nat.{max}
use retcd.Server.Dispatcher.{
  Feed, Dispatcher, WatchSub, max_pending_events, sub_chan_buffer, offer, fan_out, maybe_checkpoint,
  release_locked,
}

-- The subscriber of a given id after the fan-out of one event: it has been offered the event, and is
-- gone if its buffer was full.
abbrev offered : Event → Option WatchSub → Option WatchSub
offered ev none = none
offered ev (some sub) = offer ev sub

abbrev pub IsDistinct : List (ℕ × WatchSub) → Type 0
IsDistinct [] = Unit {0}
IsDistinct ((id, sub) ∷ rest) = (lookup id rest ≡ none) × IsDistinct rest

lookup-fan_out :
    (id : ℕ) (ev : Event) (subs : List (ℕ × WatchSub))
    → IsDistinct subs
    → lookup id (fan_out ev subs).0 ≡ offered ev (lookup id subs)
unfolding lookup fan_out
lookup-fan_out id ev [] h = refl
lookup-fan_out id ev ((j, sub) ∷ rest) h = ground (arith, lookup-fan_out id ev rest h.1)

subs-release_locked : (ev : Event) (f : Feed) → (release_locked ev f).subs ≡ (fan_out ev f.subs).0
unfolding release_locked maybe_checkpoint
subs-release_locked ev f = ground arith

fan_out-IsDistinct :
    (ev : Event) (subs : List (ℕ × WatchSub)) → IsDistinct subs → IsDistinct (fan_out ev subs).0
unfolding fan_out
fan_out-IsDistinct ev [] h = tt
fan_out-IsDistinct ev ((j, sub) ∷ rest) h =
    ground (arith, lookup-fan_out j ev rest h.1, fan_out-IsDistinct ev rest h.1)

-- The events that a watch of the range is to see, in order.
unfoldable pub matching : Bytes → Bytes → List Event → List Event
matching key range_end [] = []
matching key range_end (ev ∷ evs) =
    let rest = matching key range_end evs in
    if matches_watch ev.key key range_end then ev ∷ rest else rest

pub matching-append :
    (key range_end : Bytes) (xs ys : List Event)
    → matching key range_end (xs ++ ys) ≡ matching key range_end xs ++ matching key range_end ys
unfolding matching
matching-append key range_end [] ys = refl
matching-append key range_end (x ∷ xs) ys = ground (arith, matching-append key range_end xs ys)

pub length-matching-le :
    (key range_end : Bytes) (xs : List Event) → length (matching key range_end xs) ≤ length xs
unfolding matching
length-matching-le key range_end [] = omega arith
length-matching-le key range_end (x ∷ xs) = ground (arith, length-matching-le key range_end xs)

offer-matching :
    (ev : Event) (sub : WatchSub)
    → length sub.ch < sub_chan_buffer
    → offer ev sub ≡ some (record sub { ch = sub.ch ++ matching sub.key sub.range_end (ev ∷ []) })
unfolding offer matching
offer-matching ev sub h = ground (arith, append-nil sub.ch)

module _ (event : ℕ → Event) where
  -- The events of the `m` revisions from `n` on.
  unfoldable pub events_from : ℕ → ℕ → List Event
  events_from zero n = []
  events_from (suc m) n = events_from m n ++ event (n + m) ∷ []

  pub length-events_from : (m n : ℕ) → length (events_from m n) ≡ m
  unfolding events_from
  length-events_from zero n = refl
  length-events_from (suc m) n =
      omega (arith, length-append (events_from m n) (event (n + m) ∷ []), length-events_from m n)

  release_range-IsDistinct :
      (m n : ℕ) (f : Feed) → IsDistinct f.subs → IsDistinct (release_range event m n f).subs
  unfolding release_range
  release_range-IsDistinct zero n f h = h
  release_range-IsDistinct (suc m) n f h =
      rw (subs-release_locked (event (n + m)) (release_range event m n f)) (
        fan_out-IsDistinct (event (n + m)) (release_range event m n f).subs
          (release_range-IsDistinct m n f h))

  -- A subscriber that has been sent what it watches of the given events.
  abbrev pub after_events : WatchSub → List Event → WatchSub
  after_events sub evs = record sub { ch = sub.ch ++ matching sub.key sub.range_end evs }

  offer-after_events :
      (ev : Event) (sub : WatchSub) (evs : List Event)
      → length sub.ch + length evs < sub_chan_buffer
      → offer ev (after_events sub evs) ≡ some (after_events sub (evs ++ ev ∷ []))
  offer-after_events ev sub evs room =
      rw (offer-matching ev (after_events sub evs) fits)
        (rw (matching-append sub.key sub.range_end evs (ev ∷ [])) (rw append_assoc))
    where
      fits : length (sub.ch ++ matching sub.key sub.range_end evs) < sub_chan_buffer
      fits = omega (
        arith,
        length-append sub.ch (matching sub.key sub.range_end evs),
        length-matching-le sub.key sub.range_end evs,
      )

  -- A subscriber with room for the events keeps its place and has every matching one, in order.
  pub lookup-release_range :
      (id m n : ℕ) (f : Feed) (sub : WatchSub)
      → IsDistinct f.subs
      → lookup id f.subs ≡ some sub
      → length sub.ch + m ≤ sub_chan_buffer
      → lookup id (release_range event m n f).subs ≡ some (after_events sub (events_from m n))
  unfolding release_range events_from
  lookup-release_range id zero n f sub h e room =
      unfold matching in ground (arith, append-nil sub.ch)
  lookup-release_range id (suc m) n f sub h e room =
      rw (subs-release_locked (event (n + m)) (release_range event m n f)) (
        rw
          (lookup-fan_out id (event (n + m)) (release_range event m n f).subs
            (release_range-IsDistinct m n f h))
          (rw (lookup-release_range id m n f sub h e (omega arith)) (
            offer-after_events (event (n + m)) sub (events_from m n)
              (omega (arith, length-events_from m n)))))

-- The watermark is the highest revision released, and never falls.
pub latest_rev-release_locked :
    (ev : Event) (f : Feed) → (release_locked ev f).latest_rev ≡ max f.latest_rev ev.rev
unfolding release_locked maybe_checkpoint
latest_rev-release_locked ev f = ground arith

pub latest_rev-release_range :
    (event : ℕ → Event) (m n : ℕ) (f : Feed)
    → ((r : ℕ) → (event r).rev ≡ r)
    → f.latest_rev + 1 ≡ n
    → (release_range event m n f).latest_rev + 1 ≡ n + m
unfolding release_range
latest_rev-release_range event zero n f numbered h = omega arith
latest_rev-release_range event (suc m) n f numbered h = omega (
  arith,
  latest_rev-release_locked (event (n + m)) (release_range event m n f),
  latest_rev-release_range event m n f numbered h,
  numbered (n + m),
)

-- Let the events of `k` revisions arrive at a primed dispatcher with an empty reorder buffer, in any
-- order, repetitions included, all of them and at most as many arrivals as the buffer holds. Then a
-- subscriber with room for them finds in its channel every event of its range, each once, in the
-- order of the revisions, and the watermark is the last of these revisions.
pub subscriber_receives :
    (event : ℕ → Event) (n k : ℕ) (rs : List ℕ) (d : Dispatcher) (id : ℕ) (sub : WatchSub)
    → IsNumbered event
    → IsIdle n d
    → d.latest_rev + 1 ≡ n
    → IsDistinct d.subs
    → lookup id d.subs ≡ some sub
    → length sub.ch + k ≤ sub_chan_buffer
    → All (λ r. n ≤ r) rs
    → All (λ r. r < n + k) rs
    → ((r : ℕ) → n ≤ r → r < n + k → contains r rs ≡ true)
    → length rs ≤ max_pending_events
    → (lookup id (ingest_all event rs d).subs
        ≡ some (after_events event sub (events_from event k n)))
      × ((ingest_all event rs d).latest_rev + 1 ≡ n + k)
subscriber_receives event n k rs d id sub numbered i latest distinct e room above below all_there
      few =
    let t = ingest_all-any_order event n k rs d numbered i above below all_there few in
    (
      ap (λ (f : Feed). lookup id f.subs) t.0
          ∙ lookup-release_range event id k n d.feed sub distinct e room,
      ap (λ (f : Feed). f.latest_rev + 1) t.0
          ∙ latest_rev-release_range event k n d.feed numbered latest,
    )
