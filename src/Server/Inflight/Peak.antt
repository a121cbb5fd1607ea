-- ===== src/Server/Inflight/Peak.antt =====
-- The high-water mark of the requests in flight.
use retcd.Prelude.{ℕ, ◌+◌, ◌≤◌, ◌≡◌, refl, List, [], ◌∷◌, ◌++◌, arith, ap, sym, ◌∙◌, All}
use retcd.Server.Inflight.{
  Phase, loading, swapping, serving, finished, Requests, advance_at, Move, arrives, takes, move,
  move_all, idle,
}
use retcd.Server.Inflight.Steps.{
  AllSeen, advance_at-AllSeen, advance_at-Keeps, claim, claimed, in_flight, larger, larger_assoc,
  tracked,
}

-- The largest number of requests in flight over a run.
unfoldable pub highest : List Move → Requests → ℕ
highest [] s = in_flight s.phases
highest (m ∷ ms) s = larger (in_flight s.phases) (highest ms (move m s))

claimed-append :
    (cur : ℕ) (ps : List Phase) → claimed (ps ++ loading cur ∷ []) ≡ larger (claimed ps) cur
unfolding claimed
claimed-append cur [] = ground arith
claimed-append cur (p ∷ ps) =
    ap (larger (claim p)) (claimed-append cur ps) ∙ sym (larger_assoc (claim p) (claimed ps) cur)

in_flight-append :
    (cur : ℕ) (ps : List Phase) → in_flight (ps ++ loading cur ∷ []) ≡ in_flight ps + 1
unfolding in_flight
in_flight-append cur [] = refl
in_flight-append cur (p ∷ ps) = omega (arith, in_flight-append cur ps)

pub AllSeen-append : (cur : ℕ) (ps : List Phase) → AllSeen ps → AllSeen (ps ++ loading cur ∷ [])
AllSeen-append cur [] h = (tt, tt)
AllSeen-append cur (p ∷ ps) h = (h.0, AllSeen-append cur ps h.1)

pub record IsCounted (s : Requests) : Type 0 where
  pub seen : AllSeen s.phases
  pub number : s.counters.inflight_cur ≡ in_flight s.phases
  within : in_flight s.phases ≤ tracked s

-- A step leaves the counters in order, and they account for what was in flight then and is now.
pub move-IsCounted :
    (m : Move) (s : Requests)
    → IsCounted s
    → IsCounted (move m s) × (tracked (move m s) ≡ larger (tracked s) (in_flight (move m s).phases))
unfolding move
move-IsCounted arrives s c =
    let cur = s.counters.inflight_cur + 1 in
    let now : in_flight (s.phases ++ loading cur ∷ []) ≡ cur =
      omega (arith, in_flight-append cur s.phases, c.number) in
    let top : tracked (move arrives s)
        ≡ larger (tracked s) (in_flight (s.phases ++ loading cur ∷ [])) =
      ap (larger s.counters.inflight_max) (claimed-append cur s.phases)
      ∙ (sym (larger_assoc s.counters.inflight_max (claimed s.phases) cur)
          ∙ ap (larger (tracked s)) (sym now)) in
    (
      record {
        seen = AllSeen-append cur s.phases c.seen;
        number = sym now;
        within = ground (arith, top);
      },
      top,
    )
move-IsCounted (takes i) s c =
    let k = advance_at-Keeps i s.phases s.counters c.seen in
    let (ps, counters) = advance_at i s.phases s.counters in
    let number : counters.inflight_cur ≡ in_flight ps =
      omega (arith, k.number 0 (omega (arith, c.number))) in
    let top : tracked (move (takes i) s) ≡ tracked s = ground (arith, k.top 0) in
    let fewer : in_flight ps ≤ tracked s = omega (arith, k.fewer, number, c.number, c.within) in
    (
      record {
        seen = advance_at-AllSeen i s.phases s.counters c.seen;
        number = number;
        within = rw top fewer;
      },
      top ∙ ground (arith, fewer),
    )

in_flight-highest : (ms : List Move) (s : Requests) → in_flight s.phases ≤ highest ms s
unfolding highest
in_flight-highest [] s = omega arith
in_flight-highest (m ∷ ms) s = ground arith

larger_run : (t a b h : ℕ) → a ≤ t → b ≤ h → larger (larger t b) h ≡ larger t (larger a h)
larger_run t a b h x y = ground (arith, x, y)

pub move_all-IsCounted :
    (ms : List Move) (s : Requests)
    → IsCounted s
    → IsCounted (move_all ms s) × (tracked (move_all ms s) ≡ larger (tracked s) (highest ms s))
unfolding move_all highest
move_all-IsCounted [] s c = (c, ground (arith, c.within))
move_all-IsCounted (m ∷ ms) s c =
    let (c', top) = move-IsCounted m s c in
    let (end, all) = move_all-IsCounted ms (move m s) c' in
    (
      end,
      all
          ∙ (ap (λ t. larger t (highest ms (move m s))) top
              ∙ larger_run (tracked s) (in_flight s.phases) (in_flight (move m s).phases)
                  (highest ms (move m s)) c.within (in_flight-highest ms (move m s))),
    )

pub idle-IsCounted : IsCounted idle
unfolding claimed in_flight
idle-IsCounted = record { seen = tt; number = refl; within = omega arith }

-- A request that has left its loop.
abbrev pub HasRecorded : Phase → Type 0
HasRecorded (loading cur) = ⊥
HasRecorded (swapping cur m) = ⊥
HasRecorded serving = Unit {0}
HasRecorded finished = Unit {0}

claimed-none : (ps : List Phase) → All HasRecorded ps → claimed ps ≡ 0
unfolding claimed
claimed-none [] h = refl
claimed-none (loading cur ∷ ps) h = elim h.0 [ ]
claimed-none (swapping cur m ∷ ps) h = elim h.0 [ ]
claimed-none (serving ∷ ps) h = rw (claimed-none ps h.1) refl
claimed-none (finished ∷ ps) h = rw (claimed-none ps h.1) refl

-- What the counters say after a run.
pub record HighWater (ms : List Move) (s : Requests) : Type 0 where
  pub number : s.counters.inflight_cur ≡ in_flight s.phases
  pub below : s.counters.inflight_max ≤ highest ms idle
  pub settled : All HasRecorded s.phases → s.counters.inflight_max ≡ highest ms idle

-- However the atomic operations of the requests follow one another, the counter is the number of
-- requests in flight, the maximum is never larger than the largest number of them so far, and it is
-- that number whenever no request is in the loop that records it: no concurrent update is lost.
pub move_all-HighWater : (ms : List Move) → HighWater ms (move_all ms idle)
unfolding claimed in_flight
move_all-HighWater ms =
    let (c, top) = move_all-IsCounted ms idle idle-IsCounted in
    record {
      number = c.number;
      below = ground (arith, top);
      settled = λ past. ground (arith, top, claimed-none (move_all ms idle).phases past);
    }
