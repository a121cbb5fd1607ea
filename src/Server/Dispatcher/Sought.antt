-- ===== src/Server/Dispatcher/Sought.antt =====
-- Where `seekStreamID` lets a catch-up start.
use retcd.Prelude.{
  ℕ, zero, suc, ◌<◌, ◌≤◌, ◌≡◌, refl, List, [], ◌∷◌, ◌++◌, some, arith, ap, sym, ◌∙◌, ltb, All,
  All-append, ◌+◌, Bool-cases, inl, inr,
}
use mathlib.Core.List.{append_assoc}
use retcd.Bytes.{Bytes}
use retcd.Store.Event.{Event, XMessage, parse_stream_event}
use retcd.Store.Refine.{parse_all}
use retcd.Store.Refine.Codec.{parse_all-append, parse_all-snoc}
use retcd.Store.Stream.Pages.{last_id, last_id-append}
use retcd.Server.Dispatcher.{Feed, Checkpoint, stream_start, seek_stream_id, release_locked}
use retcd.Server.Dispatcher.Reorder.{release_range}
use retcd.Server.Dispatcher.Seek.{
  IsIndexed, seek-IsLargestBefore, checkpoint_of, raised, checkpoints-maybe_checkpoint,
}
use retcd.Server.Watch.Wanted.{IsAscending}
use retcd.Server.Dispatcher.Linear.{last_but_one, step_back-before, those_before}

-- A checkpoint is that of an entry of the stream: it has the entry's ID, and the revision of its
-- event.
pub record Recorded (es : List XMessage) (c : Checkpoint) : Type 0 where
  pub older : List XMessage
  pub entry : XMessage
  pub newer : List XMessage
  pub ev : Event
  pub split : es ≡ older ++ entry ∷ newer
  pub same_id : entry.id ≡ c.id
  pub parses : parse_stream_event entry ≡ some ev
  pub same_rev : ev.rev ≡ c.rev

-- Where a catch-up from revision `start` on begins to read: behind the entries `skipped`, whose events
-- are all older.
pub record Sought (es : List XMessage) (cs : List Checkpoint) (start : ℕ) (id : Bytes)
    : Type 0 where
  pub exact : id ≡ last_but_one (those_before start cs)
  pub skipped : List XMessage
  pub rest : List XMessage
  pub split : es ≡ skipped ++ rest
  pub stands : id ≡ last_id stream_start skipped
  pub older : All (λ ev. ev.rev < start) (parse_all skipped)

-- The events in front of an event are older.
ascending-older :
    (evs : List Event) (ev : Event) (later : List Event) (start : ℕ)
    → IsAscending (evs ++ ev ∷ later)
    → ev.rev < start
    → All (λ e. e.rev < start) (evs ++ ev ∷ [])
ascending-older [] ev later start a h = (h, tt)
ascending-older (x ∷ evs) ev later start a h =
    let rest = ascending-older evs ev later start a.1 h in
    (omega (arith, h, last_of evs ev later x.rev a.0), rest)
  where
    last_of :
        (evs : List Event) (ev : Event) (later : List Event) (n : ℕ)
        → All (λ e. n < e.rev) (evs ++ ev ∷ later)
        → n < ev.rev
    last_of [] ev later n a = a.0
    last_of (x ∷ evs) ev later n a = last_of evs ev later n a.1

parse_all-parsed :
    (e : XMessage) (es : List XMessage) (ev : Event)
    → parse_stream_event e ≡ some ev
    → parse_all (e ∷ es) ≡ ev ∷ parse_all es
unfolding parse_all
parse_all-parsed e es ev h = rw h refl

-- From a checkpoint that is older than the start, nothing is skipped that is not.
Recorded-Sought :
    (es : List XMessage) (cs : List Checkpoint) (start : ℕ) (id : Bytes) (c : Checkpoint)
    → IsAscending (parse_all es)
    → Recorded es c
    → c.rev < start
    → id ≡ c.id
    → id ≡ last_but_one (those_before start cs)
    → Sought es cs start id
unfolding last_id
Recorded-Sought es cs start id c asc r h at exact = record {
  exact = exact;
  skipped = r.older ++ r.entry ∷ [];
  rest = r.newer;
  split = r.split ∙ sym (append_assoc r.older (r.entry ∷ []) r.newer);
  stands = at ∙ (sym r.same_id ∙ sym (last_id-append stream_start r.older (r.entry ∷ [])));
  older = rw (parse_all-snoc r.older r.entry r.ev r.parses) (
      ascending-older (parse_all r.older) r.ev (parse_all r.newer) start (rw⁻¹ parts asc)
        (omega (arith, h, r.same_rev)));
}
  where
    parts : parse_all es ≡ parse_all r.older ++ r.ev ∷ parse_all r.newer
    parts =
        ap parse_all r.split
        ∙ (parse_all-append r.older (r.entry ∷ r.newer)
            ∙ ap (λ l. parse_all r.older ++ l) (parse_all-parsed r.entry r.newer r.ev r.parses))

-- The last checkpoint but one of those before the start is a checkpoint that is older.
before-All :
    (es : List XMessage) (start : ℕ) (cs : List Checkpoint)
    → All (Recorded es) cs
    → All (λ c. Recorded es c × (c.rev < start)) (those_before start cs)
unfolding those_before
before-All es start [] a = tt
before-All es start (c ∷ cs) a = elim (Bool-cases (ltb c.rev start)) [
  | inl before ↦ rw before ((a.0, ground (arith, before)), before-All es start cs a.1)
  | inr after ↦ rw after (before-All es start cs a.1)
]

start-Sought :
    (es : List XMessage) (cs : List Checkpoint) (start : ℕ) (id : Bytes)
    → id ≡ stream_start
    → id ≡ last_but_one (those_before start cs)
    → Sought es cs start id
unfolding last_id parse_all
start-Sought es cs start id at exact = record {
  exact = exact;
  skipped = [];
  rest = es;
  split = refl;
  stands = at;
  older = tt;
}

last-Sought :
    (es : List XMessage) (cs before : List Checkpoint) (start : ℕ) (id : Bytes)
    → IsAscending (parse_all es)
    → All (λ c. Recorded es c × (c.rev < start)) before
    → id ≡ last_but_one before
    → id ≡ last_but_one (those_before start cs)
    → Sought es cs start id
unfolding last_but_one
last-Sought es cs [] start id asc a at exact = start-Sought es cs start id at exact
last-Sought es cs (c ∷ []) start id asc a at exact = start-Sought es cs start id at exact
last-Sought es cs (c ∷ d ∷ []) start id asc a at exact =
    Recorded-Sought es cs start id c asc a.0.0 a.0.1 at exact
last-Sought es cs (c ∷ d ∷ e ∷ before) start id asc a at exact =
    last-Sought es cs (d ∷ e ∷ before) start id asc a.1 at exact

-- Releasing events of the stream keeps the index one of the stream's entries.
release_locked-Recorded :
    (es : List XMessage) (ev : Event) (f : Feed)
    → Recorded es (checkpoint_of ev)
    → All (Recorded es) f.checkpoints
    → All (Recorded es) (release_locked ev f).checkpoints
unfolding release_locked
release_locked-Recorded es ev f r a = elim (checkpoints-maybe_checkpoint ev (raised ev f)) [
  | inl same ↦ rw same a
  | inr (newer, grown) ↦
      rw grown (All-append (Recorded es) f.checkpoints (checkpoint_of ev ∷ []) a (r, tt))
]

pub release_range-Recorded :
    (es : List XMessage) (event : ℕ → Event) (m n : ℕ) (f : Feed)
    → ((r : ℕ) → n ≤ r → r < n + m → Recorded es (checkpoint_of (event r)))
    → All (Recorded es) f.checkpoints
    → All (Recorded es) (release_range event m n f).checkpoints
unfolding release_range
release_range-Recorded es event zero n f r a = a
release_range-Recorded es event (suc m) n f r a =
    release_locked-Recorded es (event (n + m)) (release_range event m n f)
      (r (n + m) (omega arith) (omega arith))
      (release_range-Recorded es event m n f (λ q lo hi. r q lo (omega (arith, hi))) a)

-- Let the checkpoint index be sorted, let each checkpoint have the ID and the revision of an entry of
-- the stream, and let the stream's events stand in the order of their revisions. Then the search
-- returns the ID of the last checkpoint but one of those with a revision below the start, or the start
-- of the stream if there are fewer than two: the entries that a read from there skips hold only events
-- below the start.
pub seek_stream_id-Sought :
    (start : ℕ) (f : Feed) (es : List XMessage)
    → IsIndexed f
    → All (Recorded es) f.checkpoints
    → IsAscending (parse_all es)
    → Sought es f.checkpoints start (seek_stream_id start f)
unfolding seek_stream_id
seek_stream_id-Sought start f es i recorded asc =
    let found =
      step_back-before start f.checkpoints _ i.sorted
        (seek-IsLargestBefore f.checkpoints start i.sorted) in
    last-Sought es f.checkpoints (those_before start f.checkpoints) start _ asc
      (before-All es start f.checkpoints recorded) found found
