-- ===== src/Server/Watch/Fresh.antt =====
-- A watch on a fresh store: the dispatcher is primed with the clamped revision 1 as the latest, and
-- with the raw revision 0.
use retcd.Prelude.{ℕ, ◌≡◌, true, false, [], ◌∷◌, some, arith}
use retcd.Prelude.Assoc.{lookup, insert, remove}
use retcd.Bytes.{Bytes}
use retcd.Store.Event.{Event}
use retcd.Server.Match.{matches_watch}
use retcd.Server.Dispatcher.{
  Dispatcher, new_event_dispatcher, prime, register, ingest, offer, fan_out, maybe_checkpoint,
  release_locked, release_next, drain, flush_if_over, accept,
}
use retcd.Server.Watch.{add, collect_loop, collect_events}

-- The dispatcher of a store whose counter is 0.
unfoldable pub fresh : Dispatcher
unfolding prime
fresh = prime (some 1) (some (some 0)) new_event_dispatcher

unfoldable pub registered : Bytes → Bytes → (ℕ × ℕ) × Dispatcher
unfolding register
registered key range_end = register key range_end fresh

-- On a fresh store the first event, of revision 1, reaches the channel of a watch that was registered
-- before it; but the boundary of that watch is 1 already, and the watch drops the event as one that
-- the catch-up has delivered, whatever its start revision.
pub first_event-dropped :
    (key range_end : Bytes) (start : ℕ) (ev : Event)
    → ev.rev ≡ 1
    → matches_watch ev.key key range_end ≡ true
    → (lookup 1 (ingest ev (registered key range_end).1).subs
        ≡ some (record { key = key; range_end = range_end; ch = ev ∷ []; cancelled = false }))
      × (collect_events ev [] (registered key range_end).0.1 start ≡ ([], []))
unfolding registered fresh prime register ingest accept drain release_next release_locked
    maybe_checkpoint fan_out offer flush_if_over lookup insert remove add collect_loop
    collect_events
first_event-dropped key range_end start ev h m =
    (rw h (ground (arith, m)), rw h (ground (arith, h)))
