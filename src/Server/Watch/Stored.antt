-- ===== src/Server/Watch/Stored.antt =====
-- The catch-up on the store's stream: `catchUp` of server/watch.go with BlockReadEvents of
-- store/redis.go behind it.
pub mod Rounds
pub mod Replay
pub mod Once
use retcd.Prelude.{ℕ, zero, suc, true, List, [], leb, if◌then◌else◌}
use retcd.Bytes.{Bytes}
use retcd.Redis.{Redis}
use retcd.Store.Event.{Event}
use retcd.Store.Client.{Result, ok, err, World}
use retcd.Store.Stream.{block_read_events}
use retcd.Server.Watch.{
  WatchSpec, Outcome, read_failed, read_events, Turn, Progress, reading, returned, read_round,
}

abbrev pub read_batch_size : ℕ
read_batch_size = 1000

-- What BlockReadEvents returned, as the loop of catchUp distinguishes it.
abbrev pub outcome_of : Result (List Event × Bytes) → Outcome
outcome_of (ok (evs, new_id)) = read_events evs new_id
outcome_of (err e) = read_failed

abbrev pub stored_turn : ℕ → Result (List Event × Bytes) → Turn
stored_turn rev res = record { outcome = outcome_of res; current_rev = rev; sends = true }

module _ (R : Redis) where
  -- The loop of catchUp, for at most so many rounds; the dispatcher is at revision `rev`, and every
  -- Send succeeds.
  unfoldable pub stored_rounds : ℕ → WatchSpec → ℕ → Progress → World R → Progress × World R
  stored_rounds zero s rev p w = (p, w)
  stored_rounds (suc f) s rev (returned done sent) w = (returned done sent, w)
  stored_rounds (suc f) s rev (reading r) w =
      let (res, w') = block_read_events R r.last_id read_batch_size w in
      stored_rounds f s rev (read_round s (stored_turn rev res) r) w'

  unfoldable pub stored_catch_up : ℕ → WatchSpec → ℕ → Bytes → World R → Progress × World R
  stored_catch_up f s rev first_id w =
      stored_rounds f s rev (reading (record { last_id = first_id; consec_err = 0; sent = [] })) w

  -- The first part of `tailWatch`, with the catch-up on the store.
  unfoldable pub stored_replay : ℕ → WatchSpec → ℕ → Bytes → World R → Progress × World R
  stored_replay f s rev first_id w =
      if leb s.start_revision s.boundary
      then stored_catch_up f s rev first_id w
      else (returned true [], w)
