-- ===== src/Server/Inflight/Retry.antt =====
-- The loop around CompareAndSwap among other requests.
use retcd.Prelude.{
  ℕ, zero, suc, ◌+◌, ◌-◌, ◌*◌, ◌≤◌, ◌<◌, ◌≡◌, refl, List, [], ◌∷◌, ◌++◌, arith, leb, ◌==◌, false,
  if◌then◌else◌, ap, length, Bool-cases, inl, inr,
}
use retcd.Server.Inflight.{
  Counters, Phase, loading, swapping, serving, finished, advance, Requests, advance_at, Move,
  arrives, takes, move, move_all, idle,
}
use retcd.Server.Inflight.Peak.{AllSeen-append, HasRecorded, idle-IsCounted, move_all-IsCounted}
use retcd.Server.Inflight.Steps.{HasSeen, AllSeen, advance_at-AllSeen, in_flight}

-- The request with this number stands there.
abbrev pub StandsAt : ℕ → List Phase → Phase → Type 0
StandsAt i [] p = ⊥
StandsAt zero (q ∷ ps) p = q ≡ p
StandsAt (suc i) (q ∷ ps) p = StandsAt i ps p

StandsAt-append :
    (i : ℕ) (ps qs : List Phase) (p : Phase) → StandsAt i ps p → StandsAt i (ps ++ qs) p
StandsAt-append i [] qs p h = elim h [ ]
StandsAt-append zero (q ∷ ps) qs p h = h
StandsAt-append (suc i) (q ∷ ps) qs p h = StandsAt-append i ps qs p h

StandsAt-last : (ps : List Phase) (p : Phase) → StandsAt (length ps) (ps ++ p ∷ []) p
StandsAt-last [] p = refl
StandsAt-last (q ∷ ps) p = StandsAt-last ps p

StandsAt-advance :
    (i : ℕ) (ps : List Phase) (k : Counters) (p : Phase)
    → StandsAt i ps p
    → StandsAt i (advance_at i ps k).0 (advance p k).0 × ((advance_at i ps k).1 ≡ (advance p k).1)
unfolding advance_at
StandsAt-advance i [] k p h = elim h [ ]
StandsAt-advance zero (q ∷ ps) k p h = (ap (λ r. (advance r k).0) h, ap (λ r. (advance r k).1) h)
StandsAt-advance (suc i) (q ∷ ps) k p h = StandsAt-advance i ps k p h

StandsAt-other :
    (i j : ℕ) (ps : List Phase) (k : Counters) (p : Phase)
    → (j == i) ≡ false
    → StandsAt i ps p
    → StandsAt i (advance_at j ps k).0 p
unfolding advance_at
StandsAt-other i j [] k p n h = elim h [ ]
StandsAt-other zero zero (q ∷ ps) k p n h = absurd (ground (arith, n))
StandsAt-other zero (suc j) (q ∷ ps) k p n h = h
StandsAt-other (suc i) zero (q ∷ ps) k p n h = h
StandsAt-other (suc i) (suc j) (q ∷ ps) k p n h = StandsAt-other i j ps k p (ground (arith, n)) h

advance-rises :
    (p : Phase) (k : Counters) → HasSeen p → k.inflight_max ≤ (advance p k).1.inflight_max
unfolding advance
advance-rises (loading cur) k h = omega arith
advance-rises (swapping cur m) k h = ground (arith, h)
advance-rises serving k h = omega arith
advance-rises finished k h = omega arith

advance_at-rises :
    (i : ℕ) (ps : List Phase) (k : Counters)
    → AllSeen ps
    → k.inflight_max ≤ (advance_at i ps k).1.inflight_max
unfolding advance_at
advance_at-rises i [] k h = omega arith
advance_at-rises zero (p ∷ ps) k h = advance-rises p k h.0
advance_at-rises (suc i) (p ∷ ps) k h = advance_at-rises i ps k h.1

-- A maximum that a request has loaded is no larger than the maximum is.
abbrev Loaded : Phase → ℕ → Type 0
Loaded (loading cur) top = Unit {0}
Loaded (swapping cur m) top = (m < cur) × (m ≤ top)
Loaded serving top = Unit {0}
Loaded finished top = Unit {0}

-- So many of its own steps a request needs at most to leave its loop.
abbrev need : Phase → ℕ → ℕ
need (loading cur) top = suc ((cur - top) * 2)
need (swapping cur m) top = (cur - m) * 2
need serving top = 0
need finished top = 0

Loaded-rises : (p : Phase) (top top' : ℕ) → top ≤ top' → Loaded p top → Loaded p top'
Loaded-rises (loading cur) top top' h l = tt
Loaded-rises (swapping cur m) top top' h l = (l.0, omega (arith, l.1, h))
Loaded-rises serving top top' h l = tt
Loaded-rises finished top top' h l = tt

need-rises : (p : Phase) (top top' : ℕ) → top ≤ top' → need p top' ≤ need p top
need-rises (loading cur) top top' h = omega (arith, h)
need-rises (swapping cur m) top top' h = omega arith
need-rises serving top top' h = omega arith
need-rises finished top top' h = omega arith

-- Its own step brings a request closer to the end of the loop: when CompareAndSwap fails, the
-- maximum has grown.
need-advance :
    (p : Phase) (k : Counters)
    → Loaded p k.inflight_max
    → Loaded (advance p k).0 (advance p k).1.inflight_max
      × (need (advance p k).0 (advance p k).1.inflight_max ≤ need p k.inflight_max - 1)
unfolding advance
need-advance (loading cur) k l = elim (Bool-cases (leb cur k.inflight_max)) [
  | inl done ↦ rw done (tt, omega arith)
  | inr more ↦ rw more ((ground (arith, more), omega arith), omega arith)
]
need-advance (swapping cur m) k l = elim (Bool-cases (k.inflight_max == m)) [
  | inl done ↦ rw done (tt, omega arith)
  | inr more ↦ rw more (tt, ground (arith, more, l.0, l.1))
]
need-advance serving k l = (tt, omega arith)
need-advance finished k l = (tt, omega arith)

need-HasRecorded : (p : Phase) (top : ℕ) → Loaded p top → need p top ≤ 0 → HasRecorded p
need-HasRecorded (loading cur) top l h = absurd (omega (arith, h))
need-HasRecorded (swapping cur m) top l h = absurd (omega (arith, h, l.0))
need-HasRecorded serving top l h = tt
need-HasRecorded finished top l h = tt

-- The steps that a request takes over a run.
unfoldable pub turns : ℕ → List Move → ℕ
turns i [] = 0
turns i (arrives ∷ ms) = turns i ms
turns i (takes j ∷ ms) = if j == i then suc (turns i ms) else turns i ms

-- The request with this number has left its loop.
abbrev pub Recorded : ℕ → Requests → Type 0
Recorded i s = (q : Phase) × StandsAt i s.phases q × HasRecorded q

-- A request that has as many steps as it needs has left its loop.
enough_turns :
    (i : ℕ) (ms : List Move) (s : Requests) (p : Phase)
    → AllSeen s.phases
    → StandsAt i s.phases p
    → Loaded p s.counters.inflight_max
    → need p s.counters.inflight_max ≤ turns i ms
    → Recorded i (move_all ms s)
unfolding move move_all turns
enough_turns i [] s p a at l h = (p, at, need-HasRecorded p s.counters.inflight_max l h)
enough_turns i (arrives ∷ ms) s p a at l h =
    let cur = s.counters.inflight_cur + 1 in
    enough_turns i ms (move arrives s) p (AllSeen-append cur s.phases a)
      (StandsAt-append i s.phases (loading cur ∷ []) p at) l h
enough_turns i (takes j ∷ ms) s p a at l h =
    let a' = advance_at-AllSeen j s.phases s.counters a in
    let rises = advance_at-rises j s.phases s.counters a in
    elim (Bool-cases (j == i)) [
      | inl own ↦
          let same : j ≡ i = ground (arith, own) in
          let (at', k) = StandsAt-advance i s.phases s.counters p at in
          let (l', less) = need-advance p s.counters l in
          enough_turns i ms (move (takes j) s) (advance p s.counters).0 a' (rw same at')
            (rw (same, k) l') (rw (same, k) (ground (arith, less, h, own)))
      | inr other ↦
          enough_turns i ms (move (takes j) s) p a'
            (StandsAt-other i j s.phases s.counters p other at)
            (Loaded-rises p s.counters.inflight_max _ rises l)
            (ground (arith, need-rises p s.counters.inflight_max _ rises, h, other))
    ]

-- A request that comes in leaves the loop around CompareAndSwap within two steps for each request
-- then in flight, itself included, and one more, whatever the other requests do in between.
pub arrival-Recorded :
    (before after : List Move)
    → suc ((in_flight (move_all before idle).phases + 1) * 2)
      ≤ turns (length (move_all before idle).phases) after
    → Recorded
        (length (move_all before idle).phases)
        (move_all (arrives ∷ after) (move_all before idle))
unfolding move_all move
arrival-Recorded before after h =
    let s : Requests = move_all before idle in
    let cur = s.counters.inflight_cur + 1 in
    let c = (move_all-IsCounted before idle idle-IsCounted).0 in
    enough_turns (length s.phases) after (move arrives s) (loading cur)
      (AllSeen-append cur s.phases c.seen) (StandsAt-last s.phases (loading cur)) tt
      (omega (arith, h, c.number))
