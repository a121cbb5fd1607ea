-- ===== src/Store/Event/Agree.antt =====
-- The two ways in which a write reaches a watch: the event that `makeEvent` builds in-process, and
-- the one that a catch-up parses from the stream entry of the same write.
use retcd.Prelude.{ℕ, ◌^◌, ◌<◌, ◌≡◌, [], ◌∷◌, Option, none, some, arith}
use retcd.Bytes.{Bytes, str_eq}
use retcd.Decimal.RoundTrip.{parse_int-decimal}
use retcd.Store.Blob.RoundTrip.{decode_kv-short}
use retcd.Store.Event.{put_op, delete_op, field, make_event, parse_stream_event}
use retcd.Store.Script.{put_fields, delete_fields, or_blank}

-- A PUT's entry parses to the event that is sent in-process, whatever was overwritten.
pub parse-put_fields :
    (key : Bytes) (rev : ℕ) (blob sid : Bytes) (current : Option Bytes)
    → rev < 2 ^ 63
    → parse_stream_event (record { id = sid; values = put_fields key rev blob current })
      ≡ some (make_event put_op key rev blob (or_blank current) sid)
unfolding parse_stream_event make_event field str_eq
parse-put_fields key rev blob sid none h =
    ground (arith, parse_int-decimal rev h, decode_kv-short key blob)
parse-put_fields key rev blob sid (some []) h =
    ground (arith, parse_int-decimal rev h, decode_kv-short key blob)
parse-put_fields key rev blob sid (some (c ∷ raw)) h =
    ground (arith, parse_int-decimal rev h, decode_kv-short key blob, decode_kv-short key (c ∷ raw))

-- So does a DELETE's entry.
pub parse-delete_fields :
    (key : Bytes) (rev : ℕ) (raw sid : Bytes)
    → rev < 2 ^ 63
    → parse_stream_event (record { id = sid; values = delete_fields key rev raw })
      ≡ some (make_event delete_op key rev [] raw sid)
unfolding parse_stream_event make_event field str_eq
parse-delete_fields key rev [] sid h = ground (arith, parse_int-decimal rev h)
parse-delete_fields key rev (c ∷ raw) sid h =
    ground (arith, parse_int-decimal rev h, decode_kv-short key (c ∷ raw))

-- The stream entries of a PUT, whatever it overwrote, and of a DELETE parse to the events that are
-- sent in-process for the same write, if the revision is below 2^63.
pub parse_stream_event-make_event :
    (key : Bytes) (rev : ℕ) (blob raw sid : Bytes) (current : Option Bytes)
    → rev < 2 ^ 63
    → (parse_stream_event (record { id = sid; values = put_fields key rev blob current })
        ≡ some (make_event put_op key rev blob (or_blank current) sid))
      × (parse_stream_event (record { id = sid; values = delete_fields key rev raw })
          ≡ some (make_event delete_op key rev [] raw sid))
parse_stream_event-make_event key rev blob raw sid current h =
    (parse-put_fields key rev blob sid current h, parse-delete_fields key rev raw sid h)
