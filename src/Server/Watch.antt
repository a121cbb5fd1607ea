-- ===== src/Server/Watch.antt =====
-- One watch: `eventToProto`, `collectEvents`, `catchUp` and the loop of `tailWatch`, of
-- server/watch.go. What the store's reads, the context and the stream's Send do is an explicit
-- sequence of turns.
pub mod Told
pub mod Wanted
pub mod CatchUp
pub mod Collect
pub mod Live
pub mod Once
pub mod Fresh
pub mod Stored
use retcd.Prelude.{
  ℕ, zero, suc, ◌+◌, Bool, true, false, not, ◌&&◌, ◌||◌, List, [], ◌∷◌, ◌++◌, Option, none, some,
  ltb, leb, ◌==◌, if◌then◌else◌, length, map, ℤ, pos, negsuc,
}
use retcd.Bytes.{Bytes, str_eq}
use retcd.Store.Blob.{KeyValue}
use retcd.Store.Event.{Event, put_op, delete_op}
use retcd.Server.Match.{matches_watch}
use retcd.Server.Messages.{ProtoKeyValue, to_proto_kv}

pub data EventType : Type 0 where
  put_type delete_type : EventType

-- mvccpb.Event
pub record ProtoEvent : Type 0 where
  pub typ : EventType
  pub kv : Option ProtoKeyValue
  pub prev_kv : Option ProtoKeyValue

abbrev pub option_proto : Option KeyValue → Option ProtoKeyValue
option_proto none = none
option_proto (some kv) = some (to_proto_kv kv)

-- The key and the revision alone; the other fields have the zero values.
abbrev pub tombstone : Event → ProtoKeyValue
tombstone ev = record {
  key = ev.key;
  value = [];
  create_revision = 0;
  mod_revision = ev.rev;
  version = 0;
  lease = 0;
}

unfoldable pub event_to_proto : Event → Option ProtoEvent
event_to_proto ev =
    if str_eq ev.kind put_op
    then some
        (record { typ = put_type; kv = option_proto ev.kv; prev_kv = option_proto ev.prev_kv })
    else if str_eq ev.kind delete_op
    then some
        (record { typ = delete_type; kv = some (tombstone ev); prev_kv = option_proto ev.prev_kv })
    else none

-- pb.WatchResponse; the reason of a cancel is there or not.
pub record WatchResponse : Type 0 where
  pub revision : ℕ
  pub watch_id : ℤ
  pub created : Bool
  pub canceled : Bool
  pub backend_unavailable : Bool
  pub events : List ProtoEvent

abbrev pub events_response : ℕ → ℕ → List ProtoEvent → WatchResponse
events_response id rev evs = record {
  revision = rev;
  watch_id = pos id;
  created = false;
  canceled = false;
  backend_unavailable = false;
  events = evs;
}

abbrev pub unavailable_response : ℕ → ℕ → WatchResponse
unavailable_response id rev = record {
  revision = rev;
  watch_id = pos id;
  created = false;
  canceled = true;
  backend_unavailable = true;
  events = [];
}

abbrev pub prepend : Option ProtoEvent → List ProtoEvent → List ProtoEvent
prepend none evs = evs
prepend (some e) evs = e ∷ evs

abbrev pub max_send_batch : ℕ
max_send_batch = 1000

-- `add` of `collectEvents`. The creation times, which only the metrics read, are left out.
unfoldable pub add : ℕ → ℕ → List ProtoEvent → Event → List ProtoEvent
add boundary start matched ev =
    if leb ev.rev boundary || ltb ev.rev start
    then matched
    else matched ++ prepend (event_to_proto ev) []

-- The loop takes what is queued, and stops at a full batch; the rest of the queue is left.
unfoldable pub collect_loop : ℕ → ℕ → List ProtoEvent → List Event → List ProtoEvent × List Event
collect_loop boundary start matched [] = (matched, [])
collect_loop boundary start matched (ev ∷ ch) =
    let rest = collect_loop boundary start (add boundary start matched ev) ch in
    if ltb (length matched) max_send_batch then rest else (matched, ev ∷ ch)

unfoldable pub collect_events : Event → List Event → ℕ → ℕ → List ProtoEvent × List Event
collect_events first ch boundary start =
    collect_loop boundary start (add boundary start [] first) ch

abbrev pub max_reader_errors : ℕ
max_reader_errors = 30

-- What a watch is asked for, and where its live feed begins.
pub record WatchSpec : Type 0 where
  pub id : ℕ
  pub key : Bytes
  pub range_end : Bytes
  pub start_revision : ℕ
  pub boundary : ℕ

-- The loop over one batch of events: those that match, and whether the boundary was passed.
unfoldable pub scan_batch : WatchSpec → List Event → List ProtoEvent × Bool
scan_batch s [] = ([], false)
scan_batch s (ev ∷ evs) =
    let (matched, reached) = scan_batch s evs in
    if ltb s.boundary ev.rev
    then ([], true)
    else if ltb ev.rev s.start_revision || not (matches_watch ev.key s.key s.range_end)
    then (matched, reached)
    else (prepend (event_to_proto ev) matched, reached)

-- What happens in one round: the context has ended, the read fails, or it returns events and the ID
-- to read on from.
pub data Outcome : Type 0 where
  context_done read_failed : Outcome
  read_events : List Event → Bytes → Outcome

-- `current_rev` is the dispatcher's, and `sends` says whether Send succeeds.
pub record Turn : Type 0 where
  pub outcome : Outcome
  pub current_rev : ℕ
  pub sends : Bool

pub record Reader : Type 0 where
  pub last_id : Bytes
  pub consec_err : ℕ
  pub sent : List WatchResponse

-- `catchUp` reads on, or has returned.
pub data Progress : Type 0 where
  reading : Reader → Progress
  returned : Bool → List WatchResponse → Progress

abbrev finish_if : Bool → Reader → Progress
finish_if true r = returned true r.sent
finish_if false r = reading r

abbrev send_matched : WatchSpec → Turn → List ProtoEvent → Bool → Reader → Progress
send_matched s t [] reached r = finish_if reached r
send_matched s t (e ∷ es) reached r =
    if t.sends
    then finish_if reached
        (record r { sent = r.sent ++ events_response s.id t.current_rev (e ∷ es) ∷ [] })
    else returned false r.sent

abbrev pub deliver : WatchSpec → Turn → List ProtoEvent × Bool → Reader → Progress
deliver s t (matched, reached) r = send_matched s t matched reached r

-- One round of the loop.
unfoldable pub read_round : WatchSpec → Turn → Reader → Progress
read_round s t r = elim t.outcome [
  | context_done ↦ returned false r.sent
  | read_failed ↦
      if leb max_reader_errors (r.consec_err + 1)
      then returned false
          (if t.sends then r.sent ++ unavailable_response s.id t.current_rev ∷ [] else r.sent)
      else reading (record r { consec_err = r.consec_err + 1 })
  | read_events evs new_id ↦ elim evs [
    | [] ↦ returned true r.sent
    | ev ∷ rest ↦
        deliver s t (scan_batch s (ev ∷ rest)) (record r { last_id = new_id; consec_err = 0 })
  ]
]

-- The loop, over the turns that it gets.
unfoldable pub read_rounds : WatchSpec → List Turn → Progress → Progress
read_rounds s turns (returned ok sent) = returned ok sent
read_rounds s [] (reading r) = reading r
read_rounds s (t ∷ turns) (reading r) = read_rounds s turns (read_round s t r)

unfoldable pub catch_up : WatchSpec → Bytes → List Turn → Progress
catch_up s first_id turns =
    read_rounds s turns (reading (record { last_id = first_id; consec_err = 0; sent = [] }))

-- The first part of `tailWatch`: a watch that starts behind the boundary has nothing to catch up on.
unfoldable pub replay : WatchSpec → Bytes → List Turn → Progress
replay s first_id turns =
    if leb s.start_revision s.boundary then catch_up s first_id turns else returned true []

-- `tailWatch` behind the catch-up: the queue of its channel, and what it has sent.
pub record Tail : Type 0 where
  pub queue : List Event
  pub sent : List WatchResponse
  pub ended : Bool

pub data TailInput : Type 0 where
  done cut_loose receive tick : TailInput

abbrev send : Bool → WatchResponse → Tail → Tail
send true resp t = record t { sent = t.sent ++ resp ∷ [] }
send false resp t = record t { ended = true }

abbrev pub send_events : WatchSpec → ℕ → Bool → List ProtoEvent × List Event → Tail → Tail
send_events s rev sends ([], queue) t = record t { queue = queue }
send_events s rev sends (e ∷ es, queue) t =
    send sends (events_response s.id rev (e ∷ es)) (record t { queue = queue })

-- The channel's case of the select, which waits while the queue is empty.
abbrev pub on_receive : WatchSpec → ℕ → Bool → List Event → Tail → Tail
on_receive s rev sends [] t = t
on_receive s rev sends (ev ∷ queue) t =
    send_events s rev sends (collect_events ev queue s.boundary s.start_revision) t

-- One case of the select: the context has ended, the dispatcher cut the watch loose, the channel has
-- an event, or the progress interval is over.
unfoldable pub tail_step : WatchSpec → TailInput → ℕ → Bool → Tail → Tail
tail_step s input rev sends t = elim input [
  | done ↦ record t { ended = true }
  | cut_loose ↦ record (if sends then send true (unavailable_response s.id rev) t else t) {
    ended = true;
  }
  | receive ↦ on_receive s rev sends t.queue t
  | tick ↦ send sends (events_response s.id rev []) t
]

unfoldable pub effective_start_revision : ℤ → ℕ → ℤ
effective_start_revision (pos zero) current = pos (current + 1)
effective_start_revision (pos (suc n)) current = pos (suc n)
effective_start_revision (negsuc n) current = pos (current + 1)

-- "(empty)"
abbrev empty_label : Bytes
empty_label = b'(' ∷ b'e' ∷ b'm' ∷ b'p' ∷ b't' ∷ b'y' ∷ b')' ∷ []

-- The loop over the bytes, with the slashes seen: the bytes before the third slash.
unfoldable pub label_loop : ℕ → Bytes → Bytes
label_loop n [] = []
label_loop n (c ∷ s) =
    let here = c ∷ label_loop n s in
    let next = c ∷ label_loop (n + 1) s in
    if c == b'/' then if n + 1 == 3 then [] else next else here

unfoldable pub watch_prefix_label : Bytes → Bytes
watch_prefix_label s = if str_eq s [] then empty_label else label_loop 0 s
