-- ===== src/Server/Inflight/Steps.antt =====
-- What one step of a request keeps.
use retcd.Prelude.{
  ℕ, zero, suc, ◌+◌, ◌≤◌, ◌<◌, ◌≡◌, refl, List, [], ◌∷◌, arith, ltb, leb, ◌==◌, if◌then◌else◌, ap,
  sym, ◌∙◌, Bool-cases, inl, inr,
}
use retcd.Server.Inflight.{
  Counters, Phase, loading, swapping, serving, finished, advance, Requests, advance_at,
}

abbrev pub larger : ℕ → ℕ → ℕ
larger a b = if ltb a b then b else a

-- Whether a request is counted.
abbrev pub counted : Phase → ℕ
counted (loading cur) = 1
counted (swapping cur m) = 1
counted serving = 1
counted finished = 0

unfoldable pub in_flight : List Phase → ℕ
in_flight [] = 0
in_flight (p ∷ ps) = counted p + in_flight ps

-- The number that a request in its loop would raise the maximum to.
abbrev pub claim : Phase → ℕ
claim (loading cur) = cur
claim (swapping cur m) = cur
claim serving = 0
claim finished = 0

unfoldable pub claimed : List Phase → ℕ
claimed [] = 0
claimed (p ∷ ps) = larger (claim p) (claimed ps)

-- A request that swaps has seen a smaller maximum.
abbrev pub HasSeen : Phase → Type 0
HasSeen (loading cur) = Unit {0}
HasSeen (swapping cur m) = m < cur
HasSeen serving = Unit {0}
HasSeen finished = Unit {0}

abbrev pub AllSeen : List Phase → Type 0
AllSeen [] = Unit {0}
AllSeen (p ∷ ps) = HasSeen p × AllSeen ps

-- What the requests' counter and maximum account for.
abbrev pub tracked : Requests → ℕ
tracked s = larger s.counters.inflight_max (claimed s.phases)

pub larger_assoc : (a b c : ℕ) → larger (larger a b) c ≡ larger a (larger b c)
larger_assoc a b c = ground arith

larger_left : (a b c : ℕ) → larger (larger a b) c ≡ larger b (larger a c)
larger_left a b c = ground arith

-- What a step keeps, whatever the other requests claim and however many of them are counted.
pub record Keeps (k k' : Counters) (claim claim' count count' : ℕ) : Type 0 where
  pub top :
      (others : ℕ)
      → larger k'.inflight_max (larger claim' others) ≡ larger k.inflight_max (larger claim others)
  pub fewer : k'.inflight_cur ≤ k.inflight_cur
  pub number : (others : ℕ) → k.inflight_cur ≡ count + others → k'.inflight_cur ≡ count' + others

advance-Keeps :
    (p : Phase) (k : Counters)
    → HasSeen p
    → (let (p', k') = advance p k in Keeps k k' (claim p) (claim p') (counted p) (counted p'))
unfolding advance
advance-Keeps (loading cur) k h = record {
  top = λ others. ground arith;
  fewer = ground arith;
  number = λ others e. ground (arith, e);
}
advance-Keeps (swapping cur m) k h = record {
  top = λ others. ground (arith, h);
  fewer = ground arith;
  number = λ others e. ground (arith, e);
}
advance-Keeps serving k h = record {
  top = λ others. refl;
  fewer = omega arith;
  number = λ others e. omega (arith, e);
}
advance-Keeps finished k h = record {
  top = λ others. refl;
  fewer = omega arith;
  number = λ others e. e;
}

pub advance-HasSeen : (p : Phase) (k : Counters) → HasSeen p → HasSeen (advance p k).0
unfolding advance
advance-HasSeen (loading cur) k h = elim (Bool-cases (leb cur k.inflight_max)) [
  | inl done ↦ rw done tt
  | inr more ↦ rw more (ground (arith, more))
]
advance-HasSeen (swapping cur m) k h = elim (Bool-cases (k.inflight_max == m)) [
  | inl done ↦ rw done tt
  | inr more ↦ rw more tt
]
advance-HasSeen serving k h = tt
advance-HasSeen finished k h = tt

pub advance_at-Keeps :
    (i : ℕ) (ps : List Phase) (k : Counters)
    → AllSeen ps
    → (let (ps', k') = advance_at i ps k in
        Keeps k k' (claimed ps) (claimed ps') (in_flight ps) (in_flight ps'))
unfolding advance_at claimed in_flight
advance_at-Keeps i [] k h = record {
  top = λ others. refl;
  fewer = omega arith;
  number = λ others e. e;
}
advance_at-Keeps zero (p ∷ ps) k h =
    let a = advance-Keeps p k h.0 in
    let (p', k') = advance p k in
    record {
      top = λ others.
          ap (larger k'.inflight_max) (larger_assoc (claim p') (claimed ps) others)
          ∙ (a.top (larger (claimed ps) others)
              ∙ ap (larger k.inflight_max) (sym (larger_assoc (claim p) (claimed ps) others)));
      fewer = a.fewer;
      number = λ others e. omega (arith, a.number (in_flight ps + others), e);
    }
advance_at-Keeps (suc i) (p ∷ ps) k h =
    let a = advance_at-Keeps i ps k h.1 in
    let (ps', k') = advance_at i ps k in
    record {
      top = λ others.
          ap (larger k'.inflight_max) (larger_left (claim p) (claimed ps') others)
          ∙ (a.top (larger (claim p) others)
              ∙ ap (larger k.inflight_max) (sym (larger_left (claim p) (claimed ps) others)));
      fewer = a.fewer;
      number = λ others e. omega (arith, a.number (counted p + others), e);
    }

pub advance_at-AllSeen :
    (i : ℕ) (ps : List Phase) (k : Counters) → AllSeen ps → AllSeen (advance_at i ps k).0
unfolding advance_at
advance_at-AllSeen i [] k h = tt
advance_at-AllSeen zero (p ∷ ps) k h = (advance-HasSeen p k h.0, h.1)
advance_at-AllSeen (suc i) (p ∷ ps) k h = (h.0, advance_at-AllSeen i ps k h.1)
