-- ===== src/Server/Dispatcher/Seek.antt =====
-- The checkpoint index: its order, which `maybeCheckpoint` is to keep, and the loop of the binary
-- search of `seekStreamID`.
use retcd.Prelude.{
  ℕ, zero, suc, ◌+◌, ◌/◌, ◌≤◌, ◌<◌, ◌≡◌, refl, true, List, [], ◌∷◌, ◌++◌, Option, none, some, inl,
  inr, ◌⊎◌, arith, length, ltb, if◌then◌else◌, All, All-append, Bool-cases, tests,
}
use retcd.Store.Event.{Event}
use retcd.Server.Dispatcher.{
  Feed, Checkpoint, last_rev, is_newer, maybe_checkpoint, release_locked, rev_at, seek_loop,
}
use retcd.Server.Dispatcher.Reorder.{release_range}

abbrev pub IsSorted : List Checkpoint → Type 0
IsSorted [] = Unit {0}
IsSorted (c ∷ cs) = All (λ (c' : Checkpoint). c.rev < c'.rev) cs × IsSorted cs

abbrev pub AllAtMost : ℕ → List Checkpoint → Type 0
AllAtMost n cs = All (λ (c : Checkpoint). c.rev ≤ n) cs

-- The index of a feed: sorted strictly by revision, and not past the watermark.
pub record IsIndexed (f : Feed) : Type 0 where
  pub sorted : IsSorted f.checkpoints
  pub at_most : AllAtMost f.latest_rev f.checkpoints

AllAtMost-mono : (m n : ℕ) (cs : List Checkpoint) → m ≤ n → AllAtMost m cs → AllAtMost n cs
AllAtMost-mono m n [] h a = tt
AllAtMost-mono m n (c ∷ cs) h a = (omega arith, AllAtMost-mono m n cs h a.1)

last_rev-AllAtMost :
    (l : ℕ) (cs : List Checkpoint) → IsSorted cs → last_rev cs ≡ some l → AllAtMost l cs
unfolding last_rev
last_rev-AllAtMost l [] s e = tt
last_rev-AllAtMost l (c ∷ []) s e = ground arith
last_rev-AllAtMost l (c ∷ c' ∷ cs) s e = ground (arith, last_rev-AllAtMost l (c' ∷ cs) s.1)

IsSorted-snoc :
    (l : ℕ) (c : Checkpoint) (cs : List Checkpoint)
    → IsSorted cs
    → AllAtMost l cs
    → l < c.rev
    → IsSorted (cs ++ c ∷ [])
IsSorted-snoc l c [] s a h = (tt, tt)
IsSorted-snoc l c (x ∷ cs) s a h = (
  All-append (λ (c' : Checkpoint). x.rev < c'.rev) cs (c ∷ []) s.0 (omega arith, tt),
  IsSorted-snoc l c cs s.1 a.1 h,
)

last_rev-cons : (c : Checkpoint) (cs : List Checkpoint) → (l : ℕ) × (last_rev (c ∷ cs) ≡ some l)
unfolding last_rev
last_rev-cons c [] = (c.rev, refl)
last_rev-cons c (c' ∷ cs) = last_rev-cons c' cs

append_newer-IsSorted :
    (c : Checkpoint) (cs : List Checkpoint)
    → IsSorted cs
    → is_newer c.rev (last_rev cs) ≡ true
    → IsSorted (cs ++ c ∷ [])
append_newer-IsSorted c [] s h = (tt, tt)
append_newer-IsSorted c (x ∷ cs) s h =
    let (l, e) = last_rev-cons x cs in
    IsSorted-snoc l c (x ∷ cs) s (last_rev-AllAtMost l (x ∷ cs) s e) (ground (arith, e))

abbrev pub checkpoint_of : Event → Checkpoint
checkpoint_of ev = record { rev = ev.rev; id = ev.id }

pub checkpoints-maybe_checkpoint :
    (ev : Event) (f : Feed)
    → ((maybe_checkpoint ev f).checkpoints ≡ f.checkpoints)
      ⊎ ((is_newer ev.rev (last_rev f.checkpoints) ≡ true)
          × ((maybe_checkpoint ev f).checkpoints ≡ f.checkpoints ++ checkpoint_of ev ∷ []))
unfolding maybe_checkpoint
checkpoints-maybe_checkpoint ev f = ground arith

latest_rev-maybe_checkpoint :
    (ev : Event) (f : Feed) → (maybe_checkpoint ev f).latest_rev ≡ f.latest_rev
unfolding maybe_checkpoint
latest_rev-maybe_checkpoint ev f = ground arith

-- Recording a checkpoint, with the watermark already raised to the event's revision.
maybe_checkpoint-IsIndexed :
    (ev : Event) (f : Feed)
    → IsIndexed f
    → ev.rev ≤ f.latest_rev
    → IsIndexed (maybe_checkpoint ev f)
maybe_checkpoint-IsIndexed ev f i h = elim (checkpoints-maybe_checkpoint ev f) [
  | inl e ↦ record {
    sorted = rw e i.sorted;
    at_most = rw e (rw (latest_rev-maybe_checkpoint ev f) i.at_most);
  }
  | inr (newer, e) ↦ record {
    sorted = rw e (append_newer-IsSorted (checkpoint_of ev) f.checkpoints i.sorted newer);
    at_most = rw e (
        rw (latest_rev-maybe_checkpoint ev f) (
          All-append (λ (c : Checkpoint). c.rev ≤ f.latest_rev) f.checkpoints
            (checkpoint_of ev ∷ []) i.at_most (h, tt)));
  }
]

abbrev pub raised : Event → Feed → Feed
raised ev f = record f { latest_rev = if ltb f.latest_rev ev.rev then ev.rev else f.latest_rev }

raised-IsIndexed : (ev : Event) (f : Feed) → IsIndexed f → IsIndexed (raised ev f)
raised-IsIndexed ev f i = record {
  sorted = i.sorted;
  at_most =
      AllAtMost-mono f.latest_rev (raised ev f).latest_rev f.checkpoints (ground arith) i.at_most;
}

pub release_locked-IsIndexed :
    (ev : Event) (f : Feed) → IsIndexed f → IsIndexed (release_locked ev f)
unfolding release_locked
release_locked-IsIndexed ev f i =
    let i' = maybe_checkpoint-IsIndexed ev (raised ev f) (raised-IsIndexed ev f i) (ground arith) in
    record { sorted = i'.sorted; at_most = i'.at_most }

-- Any number of releases, of any events, keep the checkpoint index sorted strictly by revision, and
-- within the watermark.
pub release_range-IsIndexed :
    (event : ℕ → Event) (m n : ℕ) (f : Feed) → IsIndexed f → IsIndexed (release_range event m n f)
unfolding release_range
release_range-IsIndexed event zero n f i = i
release_range-IsIndexed event (suc m) n f i =
    release_locked-IsIndexed (event (n + m)) (release_range event m n f)
      (release_range-IsIndexed event m n f i)

-- The largest index whose revision lies before the start, or none.
abbrev pub IsLargestBefore : List Checkpoint → ℕ → Option ℕ → Type 0
IsLargestBefore cs start none = (j : ℕ) → j < length cs → start ≤ rev_at cs j
IsLargestBefore cs start (some i) =
    (i < length cs)
    × (rev_at cs i < start)
    × ((j : ℕ) → i < j → j < length cs → start ≤ rev_at cs j)

rev_at-All :
    (n : ℕ) (cs : List Checkpoint) (j : ℕ)
    → All (λ (c : Checkpoint). n < c.rev) cs
    → j < length cs
    → n < rev_at cs j
rev_at-All n [] j a h = elim h [ ]
rev_at-All n (c ∷ cs) zero a h = a.0
rev_at-All n (c ∷ cs) (suc j) a h = rev_at-All n cs j a.1 (omega arith)

pub rev_at_mono :
    (cs : List Checkpoint) (i j : ℕ)
    → IsSorted cs
    → i ≤ j
    → j < length cs
    → rev_at cs i ≤ rev_at cs j
rev_at_mono [] i j s h l = elim l [ ]
rev_at_mono (c ∷ cs) zero zero s h l = omega arith
rev_at_mono (c ∷ cs) zero (suc j) s h l = omega (arith, rev_at-All c.rev cs j s.0 (omega arith))
rev_at_mono (c ∷ cs) (suc i) zero s h l = absurd (omega arith)
rev_at_mono (c ∷ cs) (suc i) (suc j) s h l = rev_at_mono cs i j s.1 (omega arith) (omega arith)

-- Between the bounds of the search: what lies below `lo` is before the start, what lies from `hi` on
-- is not, and `idx` is the last index below `lo`.
abbrev IsIndexBelow : ℕ → Option ℕ → Type 0
IsIndexBelow lo none = lo ≡ 0
IsIndexBelow lo (some i) = lo ≡ suc i

module _ (cs : List Checkpoint) (start : ℕ) (s : IsSorted cs) where
  found :
      (lo hi : ℕ) (idx : Option ℕ)
      → hi ≤ lo
      → lo ≤ length cs
      → IsIndexBelow lo idx
      → ((j : ℕ) → j < lo → rev_at cs j < start)
      → ((j : ℕ) → hi ≤ j → j < length cs → start ≤ rev_at cs j)
      → IsLargestBefore cs start idx
  found lo hi none h l i below above = λ j hj. above j (omega arith) hj
  found lo hi (some k) h l i below above =
      (omega arith, below k (omega arith), λ j hj lj. above j (omega arith) lj)

  pub seek_loop-IsLargestBefore :
      (fuel lo hi : ℕ) (idx : Option ℕ)
      → hi ≤ lo + fuel
      → lo ≤ hi
      → hi ≤ length cs
      → IsIndexBelow lo idx
      → ((j : ℕ) → j < lo → rev_at cs j < start)
      → ((j : ℕ) → hi ≤ j → j < length cs → start ≤ rev_at cs j)
      → IsLargestBefore cs start (seek_loop fuel cs start lo hi idx)
  unfolding seek_loop
  seek_loop-IsLargestBefore zero lo hi idx f l h i below above =
      found lo hi idx (omega arith) (omega arith) i below above
  seek_loop-IsLargestBefore (suc fuel) lo hi idx f l h i below above =
      elim (Bool-cases (ltb lo hi)) [
        | inr done ↦
            rw (done, seek_loop) (found lo hi idx (ground arith) (omega arith) i below above)
        | inl more ↦ elim (Bool-cases (ltb (rev_at cs ((lo + hi) / 2)) start)) [
          | inl early ↦
              rw (more, early, seek_loop)
                (seek_loop-IsLargestBefore fuel ((lo + hi) / 2 + 1) hi (some ((lo + hi) / 2))
                  (omega tests) (omega tests) h (omega arith)
                  (λ j hj. let m = rev_at_mono cs j ((lo + hi) / 2) s in ground (arith, m)) above)
          | inr late ↦
              rw (more, late, seek_loop)
                (seek_loop-IsLargestBefore fuel lo ((lo + hi) / 2) idx (omega tests) (omega tests)
                  (omega tests) i below
                  (λ j hj lj. let m = rev_at_mono cs ((lo + hi) / 2) j s in ground (arith, m)))
        ]
      ]

pub seek-IsLargestBefore :
    (cs : List Checkpoint) (start : ℕ)
    → IsSorted cs
    → IsLargestBefore cs start (seek_loop (length cs) cs start 0 (length cs) none)
seek-IsLargestBefore cs start s =
    seek_loop-IsLargestBefore cs start s (length cs) 0 (length cs) none (omega arith) (omega arith)
      (omega arith) refl (λ j hj. absurd (omega arith)) (λ j hj lj. absurd (omega arith))
