-- ===== src/Store/Stream.antt =====
-- The reads of the event stream: ReadEvents and BlockReadEvents of store/redis.go. The client sends a
-- BLOCK for every duration that is not negative, and BLOCK 0 waits until there is an entry.
pub mod Pages
use retcd.Prelude.{ℕ, List, [], ◌∷◌, Option, none, some}
use retcd.Bytes.{Bytes}
use retcd.Redis.{Redis}
use retcd.Store.Event.{Event, XMessage, parse_stream_event}
use retcd.Store.Script.{event_stream}
use retcd.Store.Refine.{and_then}
use retcd.Store.Client.{read_failed, Io, ◌>>=◌, pure, call}

-- The loop over the messages: entries that do not parse are skipped, but their IDs count.
unfoldable pub read_messages : Bytes → List XMessage → List Event × Bytes
read_messages last_id [] = ([], last_id)
read_messages last_id (msg ∷ msgs) =
    let (events, new_last_id) = read_messages msg.id msgs in
    (and_then (parse_stream_event msg) events, new_last_id)

-- What a read comes to: it returns events and the ID to read on from, or it still waits.
pub data Reading : Type 0 where
  events_read : List Event → Bytes → Reading
  waiting : Reading

module _ (R : Redis) where
  -- `BlockReadEvents`: half a second without an entry is no error, and returns no events.
  unfoldable pub block_read_events : Bytes → ℕ → Io R (List Event × Bytes)
  block_read_events last_id max_count = do
    msgs ← call R read_failed (λ db. (R.xread db event_stream last_id max_count, db))
    pure R (read_messages last_id msgs)

  abbrev waiting_if_none : Bytes → List XMessage → Reading
  waiting_if_none last_id [] = waiting
  waiting_if_none last_id (msg ∷ msgs) =
      let (events, new_last_id) = read_messages last_id (msg ∷ msgs) in
      events_read events new_last_id

  -- `ReadEvents`: its argument `blockMs` is not used.
  unfoldable pub read_events : Bytes → ℕ → ℕ → Io R Reading
  read_events last_id block_ms max_count = do
    msgs ← call R read_failed (λ db. (R.xread db event_stream last_id max_count, db))
    pure R (waiting_if_none last_id msgs)
