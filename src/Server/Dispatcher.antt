-- ===== src/Server/Dispatcher.antt =====
-- `eventDispatcher` of server/dispatcher.go. Each method is a function of the state, since each runs
-- under the mutex `mu`; the atomics are fields like the others.
pub mod Reorder
pub mod Gap
pub mod Fanout
pub mod Seek
pub mod Linear
pub mod Sought
use retcd.Prelude.{
  ℕ, zero, suc, ◌+◌, ◌/◌, Bool, true, false, ◌&&◌, ◌||◌, List, [], ◌∷◌, ◌++◌, Option, none, some,
  ltb, leb, ◌==◌, if◌then◌else◌, length, get_elem?, pos,
}
use retcd.Prelude.Assoc.{lookup, remove, insert}
use retcd.Bytes.{Bytes, str_eq}
use retcd.Store.Event.{Event}
use retcd.Server.Match.{matches_watch}

abbrev pub sub_chan_buffer : ℕ
sub_chan_buffer = 8192

abbrev pub checkpoint_every : ℕ
checkpoint_every = 512

abbrev pub max_pending_events : ℕ
max_pending_events = 4096

pub record Checkpoint : Type 0 where
  pub rev : ℕ
  pub id : Bytes

-- `ch` is what the buffered channel holds, oldest first; `cancelled`, that `cancelCh` is closed.
pub record WatchSub : Type 0 where
  pub key : Bytes
  pub range_end : Bytes
  pub ch : List Event
  pub cancelled : Bool

-- What the release of an event reads and writes. `cut` holds the subscribers that were dropped from
-- the map: their watches still hold them, and see the closed `cancelCh`.
pub record Feed : Type 0 where
  pub subs : List (ℕ × WatchSub)
  pub cut : List (ℕ × WatchSub)
  pub latest_rev : ℕ
  pub ck_counter : ℕ
  pub checkpoints : List Checkpoint

pub record Dispatcher : Type 0 where
  pub feed : Feed
  pub open feed use *
  pub next_id : ℕ
  pub next_rev : ℕ
  pub pending : List (ℕ × Event)

abbrev pub new_event_dispatcher : Dispatcher
new_event_dispatcher = record {
  feed = record { subs = []; cut = []; latest_rev = 0; ck_counter = 0; checkpoints = [] };
  next_id = 0;
  next_rev = 0;
  pending = [];
}

abbrev pub signal_cancel : WatchSub → WatchSub
signal_cancel sub = record sub { cancelled = true }

-- The non-blocking send: `none` when the buffer is full.
unfoldable pub offer : Event → WatchSub → Option WatchSub
offer ev sub =
    if matches_watch ev.key sub.key sub.range_end
    then if ltb (length sub.ch) sub_chan_buffer
      then some (record sub { ch = sub.ch ++ ev ∷ [] })
      else none
    else some sub

abbrev place :
    ℕ
    → WatchSub
    → Option WatchSub
    → List (ℕ × WatchSub) × List (ℕ × WatchSub)
    → List (ℕ × WatchSub) × List (ℕ × WatchSub)
place id sub (some sub') (kept, dropped) = ((id, sub') ∷ kept, dropped)
place id sub none (kept, dropped) = (kept, (id, signal_cancel sub) ∷ dropped)

-- The loop over `d.subs`: those that stay, and those that are cut loose.
unfoldable pub fan_out : Event → List (ℕ × WatchSub) → List (ℕ × WatchSub) × List (ℕ × WatchSub)
fan_out ev [] = ([], [])
fan_out ev ((id, sub) ∷ rest) = place id sub (offer ev sub) (fan_out ev rest)

-- The revision of the last checkpoint.
unfoldable pub last_rev : List Checkpoint → Option ℕ
last_rev [] = none
last_rev (c ∷ []) = some c.rev
last_rev (c ∷ c' ∷ cs) = last_rev (c' ∷ cs)

-- n == 0 || ev.Rev > d.checkpoints[n-1].rev
abbrev pub is_newer : ℕ → Option ℕ → Bool
is_newer rev none = true
is_newer rev (some last) = ltb last rev

unfoldable pub maybe_checkpoint : Event → Feed → Feed
maybe_checkpoint ev f =
    let counter = f.ck_counter + 1 in
    if str_eq ev.id []
    then f
    else if ltb 0 (length f.checkpoints) && ltb counter checkpoint_every
    then record f { ck_counter = counter }
    else if is_newer ev.rev (last_rev f.checkpoints)
    then record f {
      ck_counter = 0;
      checkpoints = f.checkpoints ++ record { rev = ev.rev; id = ev.id } ∷ [];
    }
    else record f { ck_counter = 0 }

unfoldable pub release_locked : Event → Feed → Feed
release_locked ev f =
    let latest = if ltb f.latest_rev ev.rev then ev.rev else f.latest_rev in
    let f' = maybe_checkpoint ev (record f { latest_rev = latest }) in
    let (kept, dropped) = fan_out ev f'.subs in record f' { subs = kept; cut = f'.cut ++ dropped }

-- One round of the loop in `ingest`.
unfoldable pub release_next : Event → Dispatcher → Dispatcher
release_next next d = record d {
  pending = remove d.next_rev d.pending;
  feed = release_locked next d.feed;
  next_rev = d.next_rev + 1;
}

-- The loop, which ends at a revision that is not pending. Each round takes an entry away, so there
-- are at most as many rounds as entries.
unfoldable pub drain : ℕ → Dispatcher → Dispatcher
drain zero d = d
drain (suc fuel) d = elim (lookup d.next_rev d.pending) [
  | none ↦ d
  | some next ↦ drain fuel (release_next next d)
]

-- sort.Slice on the pending revisions
unfoldable pub insert_rev : ℕ → List ℕ → List ℕ
insert_rev r [] = r ∷ []
insert_rev r (x ∷ xs) = let rest = insert_rev r xs in if leb r x then r ∷ x ∷ xs else x ∷ rest

unfoldable pub sorted_revs : List (ℕ × Event) → List ℕ
unfolding insert_rev
sorted_revs [] = []
sorted_revs ((r, ev) ∷ m) = insert_rev r (sorted_revs m)

-- The zero value that a Go map gives for a missing key.
abbrev pub zero_event : Event
zero_event = record {
  kind = [];
  key = [];
  rev = 0;
  kv = none;
  prev_kv = none;
  created_ms = pos 0;
  id = [];
}

abbrev pub or_zero_event : Option Event → Event
or_zero_event none = zero_event
or_zero_event (some ev) = ev

-- The loop over the sorted revisions; `nextRev` is set past the last of them.
unfoldable pub flush_loop : List ℕ → Dispatcher → Dispatcher
flush_loop [] d = d
flush_loop (r ∷ revs) d = flush_loop revs (record d {
  pending = remove r d.pending;
  feed = release_locked (or_zero_event (lookup r d.pending)) d.feed;
  next_rev = r + 1;
})

unfoldable pub flush_pending_locked : Dispatcher → Dispatcher
flush_pending_locked d = flush_loop (sorted_revs d.pending) d

unfoldable pub flush_if_over : Dispatcher → Dispatcher
flush_if_over d = if ltb max_pending_events (length d.pending) then flush_pending_locked d else d

-- The part of `ingest` behind the test for a duplicate.
unfoldable pub accept : Event → Dispatcher → Dispatcher
accept ev d =
    let d' = record d { pending = insert ev.rev ev d.pending } in
    flush_if_over (drain (length d'.pending) d')

unfoldable pub ingest : Event → Dispatcher → Dispatcher
ingest ev d =
    if ev.rev == 0
    then d
    else let d' = if d.next_rev == 0 then record d { next_rev = ev.rev } else d in
      if ltb ev.rev d'.next_rev then d' else accept ev d'

-- The subscriber's id, and the boundary beside it.
unfoldable pub register : Bytes → Bytes → Dispatcher → (ℕ × ℕ) × Dispatcher
register key range_end d =
    let id = d.next_id + 1 in
    let sub : WatchSub = record { key = key; range_end = range_end; ch = []; cancelled = false } in
    (
      (id, d.latest_rev),
      record d { next_id = id; feed = record d.feed { subs = insert id sub d.subs } },
    )

unfoldable pub deregister : ℕ → Dispatcher → Dispatcher
deregister id d = record d { feed = record d.feed { subs = remove id d.subs } }

-- `prime`: what `CurrentRevision` returned (`none` is an error), and what `RawRevision` did where
-- the store has that method.
abbrev pub latest_of : Option ℕ → ℕ
latest_of none = 1
latest_of (some rev) = if ltb rev 1 then 1 else rev

abbrev pub next_of : Option ℕ → Option (Option ℕ) → ℕ
next_of current (some (some raw)) = raw + 1
next_of none _ = 1
next_of (some rev) _ = rev + 1

unfoldable pub prime : Option ℕ → Option (Option ℕ) → Dispatcher → Dispatcher
prime current raw d =
    let next = next_of current raw in
    record d {
      feed = record d.feed { latest_rev = latest_of current };
      next_rev = if ltb next 1 then 1 else next;
    }

-- d.checkpoints[mid], which the search reads in range only
abbrev pub rev_at : List Checkpoint → ℕ → ℕ
rev_at cs i = elim (get_elem? cs i) [ none ↦ 0 | some c ↦ c.rev ]

-- The binary search; `none` is the index -1. The interval shrinks in each round.
unfoldable pub seek_loop : ℕ → List Checkpoint → ℕ → ℕ → ℕ → Option ℕ → Option ℕ
seek_loop zero cs start lo hi idx = idx
seek_loop (suc fuel) cs start lo hi idx =
    let mid = (lo + hi) / 2 in
    elim (ltb lo hi) [
      | false ↦ idx
      | true ↦ elim (ltb (rev_at cs mid) start) [
        | true ↦ seek_loop fuel cs start (mid + 1) hi (some mid)
        | false ↦ seek_loop fuel cs start lo mid idx
      ]
    ]

-- "0"
abbrev pub stream_start : Bytes
stream_start = b'0' ∷ []

abbrev pub id_at : List Checkpoint → ℕ → Bytes
id_at cs i = elim (get_elem? cs i) [ none ↦ stream_start | some c ↦ c.id ]

-- One checkpoint back as a safety margin.
abbrev pub step_back : List Checkpoint → Option ℕ → Bytes
step_back cs none = stream_start
step_back cs (some zero) = stream_start
step_back cs (some (suc i)) = id_at cs i

unfoldable pub seek_stream_id : ℕ → Feed → Bytes
seek_stream_id start f =
    step_back f.checkpoints
      (seek_loop (length f.checkpoints) f.checkpoints start 0 (length f.checkpoints) none)
