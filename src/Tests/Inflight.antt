-- ===== src/Tests/Inflight.antt =====
-- Two requests whose steps interleave.
use retcd.Prelude.{◌≡◌, refl, List, [], ◌∷◌, length, arith}
use retcd.Server.Inflight.{Move, arrives, takes, move, advance, advance_at, move_all, idle}
use retcd.Server.Inflight.Peak.{HighWater, move_all-HighWater}
use retcd.Server.Inflight.Steps.{in_flight}
use retcd.Server.Inflight.Retry.{turns, Recorded, arrival-Recorded}

-- Both load 0; the second request swaps first, and the first one has to load again.
abbrev moves : List Move
moves = arrives ∷ arrives ∷ takes 0 ∷ takes 1 ∷ takes 1 ∷ takes 0 ∷ takes 0 ∷ takes 1 ∷ takes 0 ∷ []

moves-maximum : (move_all moves idle).counters.inflight_max ≡ 2
unfolding move_all move advance advance_at
moves-maximum = refl

move_all-HighWater_example : HighWater moves (move_all moves idle)
move_all-HighWater_example = move_all-HighWater moves

-- The second request comes in when one is in flight.
abbrev after : List Move
after = takes 0 ∷ takes 1 ∷ takes 0 ∷ takes 1 ∷ takes 1 ∷ takes 1 ∷ takes 1 ∷ []

arrival-Recorded_example :
    Recorded
      (length (move_all (arrives ∷ []) idle).phases)
      (move_all (arrives ∷ after) (move_all (arrives ∷ []) idle))
unfolding move_all move in_flight turns
arrival-Recorded_example = arrival-Recorded (arrives ∷ []) after (omega arith)
