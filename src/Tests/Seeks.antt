-- ===== src/Tests/Seeks.antt =====
-- Seeking in a stream of three entries.
use retcd.Prelude.{ℕ, ◌≡◌, refl, List, [], ◌∷◌, none, arith, All, pos}
use retcd.Bytes.{str_eq}
use retcd.Decimal.{decimal, parse_int}
use retcd.Store.Event.{
  Event, XMessage, parse_stream_event, field, delete_op, created_ms_of, index_byte,
}
use retcd.Store.Blob.{decode_kv}
use retcd.Store.Script.{delete_fields}
use retcd.Store.Refine.{parse_all}
use retcd.Server.Dispatcher.{Feed, Checkpoint, seek_stream_id, seek_loop}
use retcd.Server.Dispatcher.Seek.{IsIndexed}
use retcd.Server.Dispatcher.Sought.{Recorded, Sought, seek_stream_id-Sought}
use retcd.Server.Watch.Wanted.{IsAscending}
use retcd.Tests.{pod}

abbrev entry_at : ℕ → ℕ → XMessage
entry_at rev digit = record { id = digit ∷ []; values = delete_fields pod rev [] }

abbrev entries : List XMessage
entries = entry_at 1 b'1' ∷ entry_at 2 b'2' ∷ entry_at 3 b'3' ∷ []

abbrev gone_at : ℕ → ℕ → Event
gone_at rev digit = record {
  kind = delete_op;
  key = pod;
  rev = rev;
  kv = none;
  prev_kv = none;
  created_ms = pos 0;
  id = digit ∷ [];
}

abbrev point : ℕ → ℕ → Checkpoint
point rev digit = record { rev = rev; id = digit ∷ [] }

abbrev indexed : Feed
indexed = record {
  subs = [];
  cut = [];
  latest_rev = 3;
  ck_counter = 0;
  checkpoints = point 1 b'1' ∷ point 2 b'2' ∷ point 3 b'3' ∷ [];
}

indexed-IsIndexed : IsIndexed indexed
indexed-IsIndexed = record {
  sorted = ((omega arith, (omega arith, tt)), ((omega arith, tt), (tt, tt)));
  at_most = (omega arith, (omega arith, (omega arith, tt)));
}

indexed-Recorded : All (Recorded entries) indexed.checkpoints
unfolding parse_stream_event field str_eq parse_int decimal decode_kv created_ms_of index_byte
indexed-Recorded = (
  record {
    older = [];
    entry = entry_at 1 b'1';
    newer = entry_at 2 b'2' ∷ entry_at 3 b'3' ∷ [];
    ev = gone_at 1 b'1';
    split = refl;
    same_id = refl;
    parses = refl;
    same_rev = refl;
  },
  (
    record {
      older = entry_at 1 b'1' ∷ [];
      entry = entry_at 2 b'2';
      newer = entry_at 3 b'3' ∷ [];
      ev = gone_at 2 b'2';
      split = refl;
      same_id = refl;
      parses = refl;
      same_rev = refl;
    },
    (
      record {
        older = entry_at 1 b'1' ∷ entry_at 2 b'2' ∷ [];
        entry = entry_at 3 b'3';
        newer = [];
        ev = gone_at 3 b'3';
        split = refl;
        same_id = refl;
        parses = refl;
        same_rev = refl;
      },
      tt,
    ),
  ),
)

entries-IsAscending : IsAscending (parse_all entries)
unfolding parse_all parse_stream_event field str_eq parse_int decimal decode_kv created_ms_of
    index_byte
entries-IsAscending = ((omega arith, (omega arith, tt)), ((omega arith, tt), (tt, tt)))

third-seek : seek_stream_id 3 indexed ≡ b'1' ∷ []
unfolding seek_stream_id seek_loop
third-seek = refl

seek_stream_id-Sought_example : Sought entries indexed.checkpoints 3 (seek_stream_id 3 indexed)
seek_stream_id-Sought_example =
    seek_stream_id-Sought 3 indexed entries indexed-IsIndexed indexed-Recorded entries-IsAscending
