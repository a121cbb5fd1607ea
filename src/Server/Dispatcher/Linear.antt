-- ===== src/Server/Dispatcher/Linear.antt =====
-- The binary search of `seekStreamID` and a scan of the whole checkpoint index.
use retcd.Prelude.{
  ℕ, zero, suc, ◌<◌, ◌≤◌, ◌≡◌, refl, List, [], ◌∷◌, Option, none, some, arith, ap, sym, ◌∙◌, length,
  take, ltb, if◌then◌else◌,
}
use retcd.Bytes.{Bytes}
use retcd.Server.Dispatcher.{Checkpoint, rev_at, step_back, stream_start}
use retcd.Server.Dispatcher.Seek.{IsSorted, IsLargestBefore, rev_at_mono}

-- The checkpoints with a revision below the start, in order.
unfoldable pub those_before : ℕ → List Checkpoint → List Checkpoint
those_before start [] = []
those_before start (c ∷ cs) =
    let rest = those_before start cs in if ltb c.rev start then c ∷ rest else rest

-- The ID of the last checkpoint but one; the start of the stream if there are fewer than two.
unfoldable pub last_but_one : List Checkpoint → Bytes
last_but_one [] = stream_start
last_but_one (c ∷ []) = stream_start
last_but_one (c ∷ d ∷ []) = c.id
last_but_one (c ∷ d ∷ e ∷ cs) = last_but_one (d ∷ e ∷ cs)

none_before :
    (start : ℕ) (cs : List Checkpoint)
    → ((j : ℕ) → j < length cs → start ≤ rev_at cs j)
    → those_before start cs ≡ []
unfolding those_before
none_before start [] h = refl
none_before start (c ∷ cs) h =
    ground (arith, h 0 (omega arith), none_before start cs (λ j hj. h (suc j) (omega (arith, hj))))

before-take :
    (start : ℕ) (cs : List Checkpoint) (i : ℕ)
    → IsSorted cs
    → IsLargestBefore cs start (some i)
    → those_before start cs ≡ take (suc i) cs
unfolding those_before
before-take start [] i s l = absurd (omega (arith, l.0))
before-take start (c ∷ cs) zero s l =
    ground
      (arith, l.1, none_before start cs (λ j hj. l.2 (suc j) (omega arith) (omega (arith, hj))))
before-take start (c ∷ cs) (suc i) s l =
    let rest =
      before-take start cs i s.1
        (omega (arith, l.0), l.1, λ j hj lj. l.2 (suc j) (omega (arith, hj)) (omega (arith, lj))) in
    ground (arith, rest, rev_at_mono (c ∷ cs) 0 (suc i) s (omega arith) l.0, l.1)

last_but_one-take :
    (cs : List Checkpoint) (i : ℕ)
    → i < length cs
    → last_but_one (take (suc i) cs) ≡ step_back cs (some i)
unfolding last_but_one
last_but_one-take [] i h = absurd (omega (arith, h))
last_but_one-take (c ∷ cs) zero h = refl
last_but_one-take (c ∷ []) (suc i) h = absurd (omega (arith, h))
last_but_one-take (c ∷ d ∷ cs) (suc zero) h = refl
last_but_one-take (c ∷ d ∷ []) (suc (suc i)) h = absurd (omega (arith, h))
last_but_one-take (c ∷ d ∷ e ∷ cs) (suc (suc i)) h =
    last_but_one-take (d ∷ e ∷ cs) (suc i) (omega (arith, h))

pub step_back-before :
    (start : ℕ) (cs : List Checkpoint) (idx : Option ℕ)
    → IsSorted cs
    → IsLargestBefore cs start idx
    → step_back cs idx ≡ last_but_one (those_before start cs)
unfolding last_but_one
step_back-before start cs none s l = rw (none_before start cs l) refl
step_back-before start cs (some i) s l =
    sym (last_but_one-take cs i l.0) ∙ ap last_but_one (sym (before-take start cs i s l))
