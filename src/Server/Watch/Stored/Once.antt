-- ===== src/Server/Watch/Stored/Once.antt =====
-- A watch on the store's own stream, from its creation on.
use retcd.Prelude.{
  ℕ, suc, ◌≤◌, ◌<◌, ◌≡◌, refl, true, List, [], ◌++◌, leb, arith, Bool-cases, inl, inr, ap, sym, ◌∙◌,
  All, length,
}
use retcd.Bytes.{Bytes}
use retcd.Redis.{Redis, is_start}
use retcd.Store.Event.{Event, XMessage}
use retcd.Store.Mvcc.{Mvcc}
use retcd.Store.Refine.{parse_all}
use retcd.Store.Client.{World}
use retcd.Store.Stream.Pages.{last_id}
use retcd.Server.Dispatcher.Fanout.{matching}
use retcd.Server.Watch.{WatchResponse, WatchSpec, returned, Tail}
use retcd.Server.Watch.Wanted.{wanted_past, events_of}
use retcd.Server.Watch.Collect.{wanted_live}
use retcd.Server.Watch.Live.{receives, receives-drain}
use retcd.Server.Watch.Once.{
  wanted, wanted-append, late-wanted, wanted_past-read, wanted_live-queued,
}
use retcd.Server.Watch.Stored.{stored_replay}
use retcd.Server.Watch.Stored.Replay.{Readable, stored_catch_up-Replayed}

-- The replay on the store: what is wanted of the past, whether there is something to catch up on or
-- not.
stored_replay-wanted :
    (R : Redis) (w : World R) (m : Mvcc) (es pre rest : List XMessage) (start : Bytes)
    (past beyond : List Event) (s : WatchSpec) (rev f : ℕ)
    → Readable R w m es
    → is_start start ≡ true
    → es ≡ pre ++ rest
    → All (λ ev. ev.rev < s.start_revision) (parse_all pre)
    → length rest ≤ f
    → m.history ≡ past ++ beyond
    → All (λ e. e.rev ≤ s.boundary) past
    → All (λ e. s.boundary < e.rev) beyond
    → (replayed : List WatchResponse) × (stored_replay R (suc f) s rev (last_id start pre) w
        ≡ (returned true replayed, w))
      × (events_of replayed ≡ wanted s past)
unfolding stored_replay events_of
stored_replay-wanted R w m es pre rest start past beyond s rev f readable st split early enough
      parts p b =
    elim (Bool-cases (leb s.start_revision s.boundary)) [
      | inl behind ↦
          let c =
            stored_catch_up-Replayed R w m es pre rest start readable st split s rev f early
              enough in
          (
            c.sent,
            rw behind c.finished,
            c.complete
                ∙ (ap (wanted_past s) parts ∙ wanted_past-read s past beyond [] [] p b tt tt),
          )
      | inr late ↦ ([], rw late refl, sym (late-wanted s past (ground (arith, late)) p))
    ]

-- A watch over the store misses nothing and repeats nothing, if the calls and Sends succeed. Let the
-- store's stream be readable, and let its history be the events up to the watch's boundary and any
-- number beyond; let the watch read it from the beginning, or from behind entries whose events are
-- older than its start; and let the dispatcher have queued what matches of the events past the
-- boundary, behind any number of events up to it. Then the replay returns true, and when the queue
-- has been received the responses hold every event of the watch's range from its start revision on,
-- each once, in order.
pub stored_exactly_once :
    (R : Redis) (w : World R) (m : Mvcc) (es pre rest : List XMessage) (start : Bytes)
    (past beyond early live : List Event) (revs : List ℕ) (t : Tail) (s : WatchSpec) (rev f : ℕ)
    → Readable R w m es
    → is_start start ≡ true
    → es ≡ pre ++ rest
    → All (λ ev. ev.rev < s.start_revision) (parse_all pre)
    → length rest ≤ f
    → m.history ≡ past ++ beyond
    → All (λ e. e.rev ≤ s.boundary) past
    → All (λ e. s.boundary < e.rev) beyond
    → All (λ e. e.rev ≤ s.boundary) early
    → All (λ e. s.boundary < e.rev) live
    → t.queue ≡ matching s.key s.range_end (early ++ live)
    → length t.queue ≤ length revs
    → (replayed new : List WatchResponse) × (stored_replay R (suc f) s rev (last_id start pre) w
        ≡ (returned true replayed, w))
      × ((receives s revs t).sent ≡ t.sent ++ new)
      × ((receives s revs t).queue ≡ [])
      × (events_of replayed ++ events_of new ≡ wanted s (past ++ live))
stored_exactly_once R w m es pre rest start past beyond early live revs t s rev f readable st split
      old enough parts p b e l queued drained =
    let (replayed, finished, of_past) =
      stored_replay-wanted R w m es pre rest start past beyond s rev f readable st split old enough
        parts p b in
    let (new, (none_left, (sent, (complete, bounded)))) = receives-drain s revs t drained in
    let feed =
      complete
      ∙ (ap (wanted_live s) queued ∙ wanted_live-queued s past beyond early live p b e l) in
    (
      replayed,
      new,
      finished,
      sent,
      none_left,
      ap (λ z. z ++ events_of new) of_past
          ∙ (ap (λ z. wanted s past ++ z) feed ∙ sym (wanted-append s past live)),
    )
