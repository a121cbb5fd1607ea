-- ===== src/Tests/Watches.antt =====
-- The dispatcher and the watches on concrete inputs.
use retcd.Prelude.{
  ℕ, ◌+◌, ◌≤◌, ◌<◌, ◌≡◌, refl, true, false, ◌&&◌, List, [], ◌∷◌, ◌++◌, none, some, is_some, All,
  arith, leb, pos, ◌⊎◌,
}
use retcd.Prelude.Assoc.{lookup}
use retcd.Bytes.{str_eq}
use retcd.Store.Event.{Event, put_op}
use retcd.Server.Match.{matches_watch}
use retcd.Server.Dispatcher.{WatchSub, Dispatcher, sorted_revs, flush_pending_locked, ingest}
use retcd.Server.Dispatcher.Reorder.{contains, release_range, Tracks}
use retcd.Server.Dispatcher.Reorder.Arrivals.{
  ingest_all, arrivals, IsNumbered, IsIdle, ingest_all-Tracks, ingest_all-any_order,
}
use retcd.Server.Dispatcher.Gap
use retcd.Server.Dispatcher.Gap.{ingest_all-stalled, release_revs, flush_pending_locked_lem}
use retcd.Server.Dispatcher.Fanout.{
  IsDistinct, matching, events_from, after_events, subscriber_receives,
}
use retcd.Server.Watch.{WatchResponse, WatchSpec, Tail, returned, replay, collect_events}
use retcd.Server.Watch.CatchUp.{Batch, IsRead, all_events, turns_of}
use retcd.Server.Watch.Live.{IsBounded, receives, receives-drain}
use retcd.Server.Watch.Wanted.{IsAscending, events_of}
use retcd.Server.Watch.Collect.{wanted_live}
use retcd.Server.Watch.Once.{wanted, exactly_once}
use retcd.Server.Watch.Fresh.{registered, first_event-dropped}
use retcd.Tests.{pod}

abbrev pub event : ℕ → Event
event r = record {
  kind = put_op;
  key = pod;
  rev = r;
  kv = none;
  prev_kv = none;
  created_ms = pos 0;
  id = b'1' ∷ [];
}

event-IsNumbered : IsNumbered event
event-IsNumbered r = refl

-- A watch of "/a/b".
abbrev sub : WatchSub
sub = record { key = pod; range_end = []; ch = []; cancelled = false }

-- Primed at revision 4, with that watch.
abbrev idle : Dispatcher
idle = record {
  feed = record {
    subs = (1, sub) ∷ [];
    cut = [];
    latest_rev = 4;
    ck_counter = 0;
    checkpoints = [];
  };
  next_id = 1;
  next_rev = 5;
  pending = [];
}

idle-IsIdle : IsIdle 5 idle
idle-IsIdle = record { primed = omega arith; next_is = refl; empty = refl }

-- Out of order, and the last one twice.
abbrev shuffled : List ℕ
shuffled = 7 ∷ 5 ∷ 6 ∷ 7 ∷ []

shuffled-above : All (λ r. 5 ≤ r) shuffled
shuffled-above = (omega arith, (omega arith, (omega arith, (omega arith, tt))))

shuffled-below : All (λ r. r < 5 + 3) shuffled
shuffled-below = (omega arith, (omega arith, (omega arith, (omega arith, tt))))

shuffled_complete : (r : ℕ) → 5 ≤ r → r < 5 + 3 → contains r shuffled ≡ true
unfolding contains
shuffled_complete r lo hi = ground arith

idle-IsDistinct : IsDistinct idle.subs
unfolding lookup
idle-IsDistinct = (refl, tt)

idle-has_sub : lookup 1 idle.subs ≡ some sub
unfolding lookup
idle-has_sub = refl

subscriber_receives_example :
    (lookup 1 (ingest_all event shuffled idle).subs
      ≡ some (after_events event sub (events_from event 3 5)))
    × ((ingest_all event shuffled idle).latest_rev + 1 ≡ 5 + 3)
subscriber_receives_example =
    subscriber_receives event 5 3 shuffled idle 1 sub event-IsNumbered idle-IsIdle (omega arith)
      idle-IsDistinct idle-has_sub (omega arith) shuffled-above shuffled-below shuffled_complete
      (omega arith)

ingest_all-any_order_example :
    ((ingest_all event shuffled idle).feed ≡ release_range event 3 5 idle.feed)
    × ((ingest_all event shuffled idle).next_rev ≡ 5 + 3)
    × ((ingest_all event shuffled idle).pending ≡ [])
ingest_all-any_order_example =
    ingest_all-any_order event 5 3 shuffled idle event-IsNumbered idle-IsIdle shuffled-above
      shuffled-below shuffled_complete (omega arith)

ingest_all-Tracks_example :
    Tracks event 5 (arrivals [] (5 ∷ 7 ∷ [])) idle.feed (ingest_all event (5 ∷ 7 ∷ []) idle)
ingest_all-Tracks_example =
    ingest_all-Tracks event 5 (5 ∷ 7 ∷ []) idle event-IsNumbered idle-IsIdle
      (omega arith, (omega arith, tt)) (omega arith)

ingest_all-stalled_example : (ingest_all event (6 ∷ 7 ∷ []) idle).feed ≡ idle.feed
ingest_all-stalled_example =
    ingest_all-stalled event 5 (6 ∷ 7 ∷ []) idle event-IsNumbered idle-IsIdle
      (omega arith, (omega arith, tt)) (omega arith)

abbrev waiting : Dispatcher
waiting = record idle { pending = (7, event 7) ∷ (6, event 6) ∷ [] }

flush_pending_locked_lem_example :
    ((flush_pending_locked waiting).feed
      ≡ release_revs (sorted_revs waiting.pending) waiting.pending waiting.feed)
    × Gap.IsAscending (sorted_revs waiting.pending)
    × ((q : ℕ) → contains q (sorted_revs waiting.pending) ≡ is_some (lookup q waiting.pending))
    × ((flush_pending_locked waiting).pending ≡ [])
    × ((q : ℕ)
        → (is_some (lookup q waiting.pending) && leb (flush_pending_locked waiting).next_rev q)
          ≡ false)
    × (((sorted_revs waiting.pending ≡ [])
          × ((flush_pending_locked waiting).next_rev ≡ waiting.next_rev))
        ⊎ ((q : ℕ) × (is_some (lookup q waiting.pending) ≡ true)
            × ((flush_pending_locked waiting).next_rev ≡ q + 1)))
flush_pending_locked_lem_example = flush_pending_locked_lem waiting

-- From revision 2 on, live behind revision 4.
abbrev spec : WatchSpec
spec = record { id = 9; key = pod; range_end = []; start_revision = 2; boundary = 4 }

abbrev batches : List Batch
batches =
    record { failures = 2; events = event 1 ∷ event 2 ∷ []; new_id = []; current_rev = 4 }
    ∷ record {
      failures = 0;
      events = event 3 ∷ event 4 ∷ event 5 ∷ [];
      new_id = [];
      current_rev = 5;
    }
    ∷ []

batches-IsAscending : IsAscending (all_events batches)
batches-IsAscending = (
  (omega arith, (omega arith, (omega arith, (omega arith, tt)))),
  (
    (omega arith, (omega arith, (omega arith, tt))),
    ((omega arith, (omega arith, tt)), ((omega arith, tt), (tt, tt))),
  ),
)

batches-IsRead : All IsRead batches
batches-IsRead = (
  record { few = omega arith; full = omega arith },
  (record { few = omega arith; full = omega arith }, tt),
)

-- The queue of a watch that was registered at revision 4.
abbrev tail : Tail
tail = record { queue = event 4 ∷ event 5 ∷ event 6 ∷ []; sent = []; ended = false }

tail-queued : tail.queue ≡ matching pod [] ((event 4 ∷ []) ++ (event 5 ∷ event 6 ∷ []))
unfolding matching matches_watch str_eq
tail-queued = refl

receives-drain_example :
    (new : List WatchResponse) × (((receives spec (6 ∷ 6 ∷ 6 ∷ []) tail).queue ≡ [])
      × (((receives spec (6 ∷ 6 ∷ 6 ∷ []) tail).sent ≡ tail.sent ++ new)
          × ((events_of new ≡ wanted_live spec tail.queue)
              × (All IsBounded new × ((receives spec (6 ∷ 6 ∷ 6 ∷ []) tail).ended ≡ false)))))
receives-drain_example = receives-drain spec (6 ∷ 6 ∷ 6 ∷ []) tail (omega arith)

exactly_once_example :
    (replayed new : List WatchResponse) × ((replay spec (b'0' ∷ []) (turns_of batches)
        ≡ returned true replayed)
      × (((receives spec (6 ∷ 6 ∷ 6 ∷ []) tail).sent ≡ tail.sent ++ new)
          × (((receives spec (6 ∷ 6 ∷ 6 ∷ []) tail).queue ≡ [])
              × (events_of replayed ++ events_of new
                  ≡ wanted spec
                      ((event 1 ∷ event 2 ∷ event 3 ∷ event 4 ∷ []) ++ (event 5 ∷ event 6 ∷ []))))))
exactly_once_example =
    exactly_once spec (b'0' ∷ []) batches (event 1 ∷ event 2 ∷ event 3 ∷ event 4 ∷ [])
      (event 5 ∷ []) (event 4 ∷ []) (event 5 ∷ event 6 ∷ []) (6 ∷ 6 ∷ 6 ∷ []) tail batches-IsRead
      batches-IsAscending refl (omega arith, (omega arith, (omega arith, (omega arith, tt))))
      (omega arith, tt) (omega arith, tt) (omega arith, (omega arith, tt)) tail-queued (omega arith)

pod-watched : matches_watch (event 1).key pod [] ≡ true
unfolding matches_watch str_eq
pod-watched = refl

first_event-dropped_example :
    (lookup 1 (ingest (event 1) (registered pod []).1).subs
      ≡ some (record { key = pod; range_end = []; ch = event 1 ∷ []; cancelled = false }))
    × (collect_events (event 1) [] (registered pod []).0.1 1 ≡ ([], []))
first_event-dropped_example = first_event-dropped pod [] 1 (event 1) refl pod-watched
