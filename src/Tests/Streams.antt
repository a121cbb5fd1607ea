-- ===== src/Tests/Streams.antt =====
-- Reading and replaying the stream of a store, on concrete inputs.
use retcd.Prelude.{◌++◌, List, true, All, sym, ◌≤◌, ◌≡◌, refl, [], ◌∷◌, some, none, arith, false}
use retcd.Bytes.{str_eq}
use retcd.Decimal.{decimal, parse_int}
use retcd.Redis.{as_stream}
use retcd.Redis.Memory.{in_memory, entry_id}
use retcd.Redis.{has_id}
use retcd.Store.Refine.{encode, parse_all}
use retcd.Store.Client.{run_script, call, emit, pure, script_rev}
use retcd.Store.Event.{XMessage, parse_stream_event, field}
use retcd.Store.Script.{
  event_stream, put_fields, script_str, write_script, write_put, attach, detach,
}
use retcd.Store.Mvcc
use retcd.Store.Mvcc.{passes, next_kv}
use retcd.Store.Client.{ok, put}
use retcd.Store.Stream.{block_read_events}
use retcd.Store.Stream.Pages.{last_id, pages, pages-history}
use retcd.Server.Watch.Stored.{stored_replay}
use retcd.Server.Watch.Stored.Rounds.{AllParse}
use retcd.Server.Watch.Stored.Replay.{Readable}
use retcd.Server.Watch.Stored.Once.{stored_exactly_once}
use retcd.Server.Watch.{WatchSpec, WatchResponse, Tail, returned}
use retcd.Server.Watch.Live.{receives}
use retcd.Server.Watch.Once.{wanted}
use retcd.Server.Watch.Wanted.{events_of}
use retcd.Server.Dispatcher.Fanout.{matching}
use retcd.Server.Match.{matches_watch}
use retcd.Tests.Watches.{event}
use mathlib.Core.List.{append-nil}
use retcd.Tests.{pod, value, opened}
use retcd.Tests.Stores.{first_put, after_put, world_after_put}

-- The stream after the first put.
abbrev entry : XMessage
entry = record {
  id = entry_id [];
  values = put_fields pod 1 (encode (next_kv pod value 7 1 none)) none;
}

one_entry : as_stream (world_after_put.db event_stream) ≡ some (entry ∷ [])
unfolding put run_script call emit pure attach detach write_script write_put opened str_eq parse_int
    encode next_kv script_str script_rev decimal
one_entry = refl

pages-history_example :
    (pages in_memory 1 (b'0' ∷ []) 500 world_after_put ≡ (ok after_put.history, world_after_put))
    × (block_read_events in_memory (last_id (b'0' ∷ []) (entry ∷ [])) 500 world_after_put
        ≡ (ok ([], last_id (b'0' ∷ []) (entry ∷ [])), world_after_put))
unfolding str_eq has_id
pages-history_example =
    pages-history in_memory world_after_put after_put (entry ∷ []) (b'0' ∷ []) 500 1
      first_put.refines one_entry ((refl, refl), tt) refl refl (omega arith)

abbrev pods : WatchSpec
pods = record { id = 9; key = pod; range_end = []; start_revision = 1; boundary = 1 }

entry-parses : AllParse (entry ∷ [])
unfolding encode next_kv parse_stream_event field str_eq parse_int decimal
entry-parses = (refl, tt)

-- The watch's boundary is 1, and the second write is live.
abbrev later : Tail
later = record { queue = event 2 ∷ []; sent = []; ended = false }

later-queued : later.queue ≡ matching pod [] ([] ++ (event 2 ∷ []))
unfolding matching matches_watch str_eq
later-queued = refl

readable : Readable in_memory world_after_put after_put (entry ∷ [])
unfolding str_eq has_id Mvcc.put
readable = record {
  refines = first_put.refines;
  entries = one_entry;
  distinct = ((refl, refl), tt);
  parse = entry-parses;
  ascending = (tt, tt);
  calm = refl;
}

first-past : All (λ e. e.rev ≤ 1) after_put.history
unfolding Mvcc.put next_kv
first-past = (omega arith, tt)

stored_exactly_once_example :
    (replayed new : List WatchResponse) × (stored_replay in_memory 2 pods 1
        (last_id (b'0' ∷ []) [])
        world_after_put
      ≡ (returned true replayed, world_after_put))
    × ((receives pods (2 ∷ []) later).sent ≡ later.sent ++ new)
    × ((receives pods (2 ∷ []) later).queue ≡ [])
    × (events_of replayed ++ events_of new ≡ wanted pods (after_put.history ++ (event 2 ∷ [])))
unfolding str_eq parse_all
stored_exactly_once_example =
    stored_exactly_once in_memory world_after_put after_put (entry ∷ []) [] (entry ∷ []) (b'0' ∷ [])
      after_put.history [] [] (event 2 ∷ []) (2 ∷ []) later pods 1 1 readable refl refl tt
      (omega arith) (sym (append-nil after_put.history)) first-past tt tt (omega arith, tt)
      later-queued (omega arith)
