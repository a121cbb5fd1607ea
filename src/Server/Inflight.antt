-- ===== src/Server/Inflight.antt =====
-- The counters of requests in flight: `inflightCur`, `inflightMax` and UnaryMetricsInterceptor of
-- server/metrics.go. Every atomic operation of a request is a step of its own, and the order of the
-- requests' steps is an explicit sequence. The counters are 64 bits wide; there are never 2^63
-- requests at once.
pub mod Steps
pub mod Peak
pub mod Retry
use retcd.Prelude.{ℕ, zero, suc, ◌+◌, ◌-◌, List, [], ◌∷◌, ◌++◌, ◌==◌, leb, if◌then◌else◌}

pub record Counters : Type 0 where
  pub inflight_cur : ℕ
  pub inflight_max : ℕ

-- Where a request stands. The first two carry `cur`, the number that Add returned.
pub data Phase : Type 0 where
  -- before Load
  loading : ℕ → Phase
  -- before CompareAndSwap, with the maximum that Load returned
  swapping : ℕ → ℕ → Phase
  -- in the handler
  serving : Phase
  -- behind the deferred function
  finished : Phase

abbrev after_load : ℕ → ℕ → Phase
after_load cur m = if leb cur m then serving else swapping cur m

abbrev after_swap : ℕ → ℕ → Counters → Phase × Counters
after_swap cur m k =
    if k.inflight_max == m then (serving, record k { inflight_max = cur }) else (loading cur, k)

-- The next atomic operation of a request.
unfoldable pub advance : Phase → Counters → Phase × Counters
advance (loading cur) k = (after_load cur k.inflight_max, k)
advance (swapping cur m) k = after_swap cur m k
advance serving k = (finished, record k { inflight_cur = k.inflight_cur - 1 })
advance finished k = (finished, k)

pub record Requests : Type 0 where
  pub phases : List Phase
  pub counters : Counters

unfoldable pub advance_at : ℕ → List Phase → Counters → List Phase × Counters
advance_at i [] k = ([], k)
advance_at zero (p ∷ ps) k = let (p', k') = advance p k in (p' ∷ ps, k')
advance_at (suc i) (p ∷ ps) k = let (ps', k') = advance_at i ps k in (p ∷ ps', k')

pub data Move : Type 0 where
  -- a request comes in, and adds itself
  arrives : Move
  -- the request with this number takes its next step
  takes : ℕ → Move

unfoldable pub move : Move → Requests → Requests
move arrives s =
    let cur = s.counters.inflight_cur + 1 in
    record {
      phases = s.phases ++ loading cur ∷ [];
      counters = record s.counters { inflight_cur = cur };
    }
move (takes i) s =
    let (ps, k) = advance_at i s.phases s.counters in record { phases = ps; counters = k }

unfoldable pub move_all : List Move → Requests → Requests
move_all [] s = s
move_all (m ∷ ms) s = move_all ms (move m s)

abbrev pub idle : Requests
idle = record { phases = []; counters = record { inflight_cur = 0; inflight_max = 0 } }
