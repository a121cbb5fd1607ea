-- ===== src/Server/Watch/Once.antt =====
-- The catch-up and the live feed together.
use retcd.Prelude.{
  ℕ, ◌≤◌, ◌<◌, ◌≡◌, refl, true, ◌&&◌, List, [], ◌∷◌, ◌++◌, leb, if◌then◌else◌, arith, Bool-cases,
  inl, inr, ap, sym, ◌∙◌, All, length,
}
use mathlib.Core.List.{append-nil}
use retcd.Bytes.{Bytes}
use retcd.Store.Event.{Event}
use retcd.Server.Match.{matches_watch}
use retcd.Server.Dispatcher.Fanout.{matching, matching-append}
use retcd.Server.Watch.Told.{told}
use retcd.Server.Watch.{ProtoEvent, prepend, WatchResponse, WatchSpec, returned, replay, Tail}
use retcd.Server.Watch.Wanted.{
  wanted_past, wanted_past-append, IsAscending, events_of, prepend-append,
}
use retcd.Server.Watch.Collect.{wanted_live, wanted_live-append}
use retcd.Server.Watch.CatchUp.{Batch, IsRead, all_events, turns_of, catch_up-CaughtUp}
use retcd.Server.Watch.Live.{receives, receives-drain}

-- The events that a client is owed: those of its range from the start revision on, in order.
unfoldable pub wanted : WatchSpec → List Event → List ProtoEvent
wanted s [] = []
wanted s (ev ∷ evs) =
    let rest = wanted s evs in
    if leb s.start_revision ev.rev && matches_watch ev.key s.key s.range_end
    then prepend (told ev) rest
    else rest

pub wanted-append :
    (s : WatchSpec) (xs ys : List Event) → wanted s (xs ++ ys) ≡ wanted s xs ++ wanted s ys
unfolding wanted
wanted-append s [] ys = refl
wanted-append s (x ∷ xs) ys =
    ground (arith, wanted-append s xs ys, prepend-append (told x) (wanted s xs) (wanted s ys))

past-wanted :
    (s : WatchSpec) (evs : List Event)
    → All (λ e. e.rev ≤ s.boundary) evs
    → wanted_past s evs ≡ wanted s evs
unfolding wanted wanted_past
past-wanted s [] a = refl
past-wanted s (ev ∷ evs) a = ground (arith, past-wanted s evs a.1, a.0)

past-beyond :
    (s : WatchSpec) (evs : List Event) → All (λ e. s.boundary < e.rev) evs → wanted_past s evs ≡ []
unfolding wanted_past
past-beyond s [] a = refl
past-beyond s (ev ∷ evs) a = ground (arith, past-beyond s evs a.1, a.0)

pub late-wanted :
    (s : WatchSpec) (evs : List Event)
    → s.boundary < s.start_revision
    → All (λ e. e.rev ≤ s.boundary) evs
    → wanted s evs ≡ []
unfolding wanted
late-wanted s [] h a = refl
late-wanted s (ev ∷ evs) h a = ground (arith, late-wanted s evs h a.1, a.0)

live-wanted :
    (s : WatchSpec) (evs : List Event)
    → All (λ e. s.boundary < e.rev) evs
    → wanted_live s (matching s.key s.range_end evs) ≡ wanted s evs
unfolding wanted wanted_live matching
live-wanted s [] a = refl
live-wanted s (ev ∷ evs) a = ground (arith, live-wanted s evs a.1, a.0)

live-early :
    (s : WatchSpec) (evs : List Event)
    → All (λ e. e.rev ≤ s.boundary) evs
    → wanted_live s (matching s.key s.range_end evs) ≡ []
unfolding wanted_live matching
live-early s [] a = refl
live-early s (ev ∷ evs) a = ground (arith, live-early s evs a.1, a.0)

module _ (s : WatchSpec) (past beyond early live : List Event)
    (p : All (λ e. e.rev ≤ s.boundary) past) (b : All (λ e. s.boundary < e.rev) beyond)
    (e : All (λ ev. ev.rev ≤ s.boundary) early) (l : All (λ ev. s.boundary < ev.rev) live) where
  pub wanted_past-read : wanted_past s (past ++ beyond) ≡ wanted s past
  wanted_past-read =
      wanted_past-append s past beyond
      ∙ (ap (λ z. wanted_past s past ++ z) (past-beyond s beyond b)
          ∙ (append-nil (wanted_past s past) ∙ past-wanted s past p))

  pub wanted_live-queued :
      wanted_live s (matching s.key s.range_end (early ++ live)) ≡ wanted s live
  wanted_live-queued =
      ap (wanted_live s) (matching-append s.key s.range_end early live)
      ∙ (wanted_live-append s (matching s.key s.range_end early) (matching s.key s.range_end live)
          ∙ (ap (λ z. z ++ wanted_live s (matching s.key s.range_end live)) (live-early s early e)
              ∙ live-wanted s live l))

-- The replay: what is wanted of the past, whether there is something to catch up on or not.
replay-wanted :
    (s : WatchSpec) (first_id : Bytes) (bs : List Batch) (past beyond : List Event)
    → All IsRead bs
    → IsAscending (all_events bs)
    → all_events bs ≡ past ++ beyond
    → All (λ e. e.rev ≤ s.boundary) past
    → All (λ e. s.boundary < e.rev) beyond
    → (replayed : List WatchResponse) × (replay s first_id (turns_of bs) ≡ returned true replayed)
      × (events_of replayed ≡ wanted s past)
unfolding replay events_of
replay-wanted s first_id bs past beyond reads ascending split p b =
    elim (Bool-cases (leb s.start_revision s.boundary)) [
      | inl early ↦
          let c = catch_up-CaughtUp s first_id bs reads ascending in
          (
            c.sent,
            rw early c.finished,
            c.complete
                ∙ (ap (wanted_past s) split ∙ wanted_past-read s past beyond [] [] p b tt tt),
          )
      | inr late ↦ ([], rw late refl, sym (late-wanted s past (ground (arith, late)) p))
    ]

-- A watch whose Sends succeed misses nothing and repeats nothing. Let its catch-up, if its start is
-- not past the boundary, read the stream's events up to the boundary and any number of events beyond,
-- in the order of the revisions and with fewer than thirty failures in a row; and let the dispatcher
-- have queued what matches of the events past the boundary, behind any number of events up to it.
-- Then the replay returns true, and when the queue has been received the responses hold every event
-- of the watch's range from its start revision on, each once, in order.
pub exactly_once :
    (s : WatchSpec) (first_id : Bytes) (bs : List Batch) (past beyond early live : List Event)
    (revs : List ℕ) (t : Tail)
    → All IsRead bs
    → IsAscending (all_events bs)
    → all_events bs ≡ past ++ beyond
    → All (λ e. e.rev ≤ s.boundary) past
    → All (λ e. s.boundary < e.rev) beyond
    → All (λ e. e.rev ≤ s.boundary) early
    → All (λ e. s.boundary < e.rev) live
    → t.queue ≡ matching s.key s.range_end (early ++ live)
    → length t.queue ≤ length revs
    → (replayed new : List WatchResponse) × ((replay s first_id (turns_of bs)
          ≡ returned true replayed)
        × (((receives s revs t).sent ≡ t.sent ++ new)
            × (((receives s revs t).queue ≡ [])
                × (events_of replayed ++ events_of new ≡ wanted s (past ++ live)))))
exactly_once s first_id bs past beyond early live revs t reads ascending split p b e l queued
      enough =
    let (replayed, finished, old) =
      replay-wanted s first_id bs past beyond reads ascending split p b in
    let (new, (none_left, (sent, (complete, rest)))) = receives-drain s revs t enough in
    let feed =
      complete
      ∙ (ap (wanted_live s) queued ∙ wanted_live-queued s past beyond early live p b e l) in
    (
      replayed,
      new,
      (
        finished,
        (
          sent,
          (
            none_left,
            ap (λ z. z ++ events_of new) old
                ∙ (ap (λ z. wanted s past ++ z) feed ∙ sym (wanted-append s past live)),
          ),
        ),
      ),
    )
