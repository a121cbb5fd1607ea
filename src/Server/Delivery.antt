-- ===== src/Server/Delivery.antt =====
-- From the writes to a watch's channel: the store's writes, the sink, and the dispatcher, whose
-- `ingest` is the sink (NewWatchServer of server/watch.go).
use retcd.Prelude.{
  ℕ, zero, suc, ◌+◌, ◌≤◌, ◌<◌, ◌^◌, ◌≡◌, refl, true, List, [], ◌∷◌, ◌++◌, some, arith, ap, sym, ◌∙◌,
  ◌==◌, if◌then◌else◌, All, length,
}
use retcd.Prelude.Assoc.{lookup}
use retcd.Redis.{Redis}
use retcd.Store.Event.{Event}
use retcd.Store.Mvcc.{Mvcc, IsExact}
use retcd.Store.Refine.{Refines}
use retcd.Store.Client.{World}
use retcd.Store.Client.Runs.{perform_all-Logged}
use retcd.Store.Client.Log.{Write, FitsLease, perform_all, IsConsecutive}
use retcd.Server.Dispatcher.{WatchSub, Dispatcher, max_pending_events, sub_chan_buffer, zero_event}
use retcd.Server.Dispatcher.Reorder.{contains}
use retcd.Server.Dispatcher.Reorder.Arrivals.{ingest_all, IsNumbered, IsIdle}
use retcd.Server.Dispatcher.Fanout.{IsDistinct, matching, events_from, subscriber_receives}

-- The event of a revision, of events that have the revisions from `n` on.
unfoldable pub event_at : ℕ → List Event → ℕ → Event
event_at n [] r = record zero_event { rev = r }
event_at n (ev ∷ evs) r = let later = event_at (suc n) evs r in if r == n then ev else later

event_at-IsNumbered :
    (n : ℕ) (evs : List Event) → IsConsecutive n evs → IsNumbered (event_at (suc n) evs)
unfolding event_at
event_at-IsNumbered n [] c r = refl
event_at-IsNumbered n (ev ∷ evs) c r = ground (arith, event_at-IsNumbered (suc n) evs c.1 r, c.0)

events_from-cons :
    (event : ℕ → Event) (m n : ℕ)
    → events_from event (suc m) n ≡ event n ∷ events_from event m (suc n)
unfolding events_from
events_from-cons event zero n = ground arith
events_from-cons event (suc m) n =
    let shifted : n + suc m ≡ suc n + m = omega arith in
    ap (λ (l : List Event). l ++ event (n + suc m) ∷ []) (events_from-cons event m n)
    ∙ ap (λ r. event n ∷ (events_from event m (suc n) ++ event r ∷ [])) shifted

events_from-agree :
    (f g : ℕ → Event) (m n : ℕ)
    → ((r : ℕ) → n ≤ r → f r ≡ g r)
    → events_from f m n ≡ events_from g m n
unfolding events_from
events_from-agree f g zero n h = refl
events_from-agree f g (suc m) n h = rw (events_from-agree f g m n h, h (n + m) (omega arith))

event_at-first : (n : ℕ) (ev : Event) (evs : List Event) → event_at n (ev ∷ evs) n ≡ ev
unfolding event_at
event_at-first n ev evs = ground arith

event_at-later :
    (n r : ℕ) (ev : Event) (evs : List Event)
    → suc n ≤ r
    → event_at n (ev ∷ evs) r ≡ event_at (suc n) evs r
unfolding event_at
event_at-later n r ev evs h = ground arith

events_from-event_at :
    (n : ℕ) (evs : List Event) → events_from (event_at n evs) (length evs) n ≡ evs
events_from-event_at n [] = unfold events_from in refl
events_from-event_at n (ev ∷ evs) =
    events_from-cons (event_at n (ev ∷ evs)) (length evs) n
    ∙ (ap (λ e. e ∷ events_from (event_at n (ev ∷ evs)) (length evs) (suc n))
          (event_at-first n ev evs)
        ∙ ap (λ (l : List Event). ev ∷ l)
            (events_from-agree (event_at n (ev ∷ evs)) (event_at (suc n) evs) (length evs) (suc n)
                (λ r h. event_at-later n r ev evs h)
              ∙ events_from-event_at (suc n) evs))

-- From a write to the watches. Let any number of puts, deletes and compare-and-swaps run, with
-- their calls answered and room in the counter, and let the sink's events reach a dispatcher that
-- is level with the store in any order, repetitions included, all of them and at most as many
-- arrivals as the buffer holds. Then the store's history has grown by exactly these events; a
-- subscriber with room for them has in its channel every event of its range, each once, in the
-- order of the revisions; and the dispatcher's watermark is the store's revision.
pub writes-reach_subscriber :
    (R : Redis) (ops : List Write) (w : World R) (m : Mvcc) (rs : List ℕ) (d : Dispatcher) (id : ℕ)
    (sub : WatchSub)
    → Refines R w.db m
    → IsExact m
    → All FitsLease ops
    → m.revision + length ops + 1 < 2 ^ 63
    → w.fates ≡ []
    → w.sink ≡ true
    → w.emitted ≡ []
    → IsIdle (suc m.revision) d
    → d.latest_rev ≡ m.revision
    → IsDistinct d.subs
    → lookup id d.subs ≡ some sub
    → length sub.ch + length ops ≤ sub_chan_buffer
    → All (λ r. suc m.revision ≤ r) rs
    → All (λ r. r < suc m.revision + length (perform_all R ops w).1.emitted) rs
    → ((r : ℕ)
        → suc m.revision ≤ r
        → r < suc m.revision + length (perform_all R ops w).1.emitted
        → contains r rs ≡ true)
    → length rs ≤ max_pending_events
    → (m' : Mvcc) × (let evs = (perform_all R ops w).1.emitted in
        let d' = ingest_all (event_at (suc m.revision) evs) rs d in
        Refines R (perform_all R ops w).1.db m'
        × ((m'.history ≡ m.history ++ evs)
            × ((lookup id d'.subs
                  ≡ some (record sub { ch = sub.ch ++ matching sub.key sub.range_end evs }))
                × (d'.latest_rev ≡ m'.revision))))
writes-reach_subscriber R ops w m rs d id sub r x fits room calm on quiet idle level distinct there
      space above below complete few =
    let run = perform_all-Logged R ops w m r x fits room calm on in
    let l = run.logged in
    let evs = (perform_all R ops w).1.emitted in
    let same : evs ≡ l.new = l.emitted ∙ ap (λ (e : List Event). e ++ l.new) quiet in
    let numbered = event_at-IsNumbered m.revision evs (rw same l.numbered) in
    let got =
      subscriber_receives (event_at (suc m.revision) evs) (suc m.revision) (length evs) rs d id sub
        numbered idle (omega (arith, level)) distinct there
        (omega (arith, space, run.few, ap (λ (e : List Event). length e) same)) above below complete
        few in
    (
      l.state,
      (
        l.refines,
        (
          l.history ∙ ap (λ e. m.history ++ e) (sym same),
          (
            got.0
                ∙ ap (λ e. some (record sub { ch = sub.ch ++ matching sub.key sub.range_end e }))
                    (events_from-event_at (suc m.revision) evs),
            omega (arith, got.1, l.revision, ap (λ (e : List Event). length e) same),
          ),
        ),
      ),
    )
