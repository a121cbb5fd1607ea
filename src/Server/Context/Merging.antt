-- ===== src/Server/Context/Merging.antt =====
-- When the context of a watch has ended.
use retcd.Prelude.{◌≡◌, ◌≢◌, refl, Bool, true, ◌&&◌, ◌||◌, not, List, [], ◌∷◌, if◌then◌else◌, arith}
use retcd.Server.Context.{
  Channel, open_channel, closed_channel, panicked, is_ready, CancelCtxImpl, cancel_on_parent,
  cancel, done_called, merge, err, Call, parent_ends, calls_cancel, calls_done, calls_err,
  goroutine_runs, perform, perform_all,
}

-- Whether the parent has ended, or the cancel function has been called, by the end of a run.
unfoldable pub asked : Bool → List Call → Bool
asked b [] = b
asked b (parent_ends ∷ xs) = asked true xs
asked b (calls_cancel ∷ xs) = asked true xs
asked b (calls_done ∷ xs) = asked b xs
asked b (calls_err ∷ xs) = asked b xs
asked b (goroutine_runs ∷ xs) = asked b xs

abbrev channel : Bool → Channel
channel b = if b then closed_channel else open_channel

-- No channel is closed twice, and the goroutine waits from the first use of Done until it closes the
-- merged channel.
record IsMerging (b : Bool) (c : CancelCtxImpl) : Type 0 where
  cancelled : c.done ≡ channel c.once_cancel
  merged : c.merged ≡ channel (c.once_done && not c.waiting)
  started : c.waiting ≡ true → c.once_done ≡ true
  caused : is_ready c.merged ≡ true → b ≡ true
  ends : (c.parent_done || c.once_cancel) ≡ b

-- Whether the context has been asked to end, one call on.
abbrev asks : Bool → Call → Bool
asks b parent_ends = true
asks b calls_cancel = true
asks b calls_done = b
asks b calls_err = b
asks b goroutine_runs = b

cancel-IsMerging : (b : Bool) (c : CancelCtxImpl) → IsMerging b c → IsMerging true (cancel c)
cancel-IsMerging b c i = record {
  cancelled = ground (arith, i.cancelled);
  merged = ground (arith, i.merged);
  started = λ h. ground (arith, i.started, h);
  caused = λ h. refl;
  ends = ground arith;
}

done_called-IsMerging : (b : Bool) (c : CancelCtxImpl) → IsMerging b c → IsMerging b (done_called c)
done_called-IsMerging b c i = record {
  cancelled = ground (arith, i.cancelled);
  merged = ground (arith, i.merged, i.started);
  started = λ h. ground (arith, i.started, h);
  caused = λ h. ground (arith, i.caused, h);
  ends = ground (arith, i.ends);
}

merge-IsMerging : (b : Bool) (c : CancelCtxImpl) → IsMerging b c → IsMerging b (merge c)
merge-IsMerging b c i = record {
  cancelled = ground (arith, i.cancelled);
  merged = ground (arith, i.merged, i.started);
  started = λ h. ground (arith, i.started, h);
  caused = λ h. ground (arith, i.cancelled, i.caused, i.ends, h);
  ends = ground (arith, i.ends);
}

perform-IsMerging :
    (b : Bool) (x : Call) (c : CancelCtxImpl) → IsMerging b c → IsMerging (asks b x) (perform x c)
unfolding perform
perform-IsMerging b parent_ends c i = record {
  cancelled = i.cancelled;
  merged = i.merged;
  started = i.started;
  caused = λ h. refl;
  ends = refl;
}
perform-IsMerging b calls_cancel c i = cancel-IsMerging b c i
perform-IsMerging b calls_done c i = done_called-IsMerging b c i
perform-IsMerging b calls_err c i = done_called-IsMerging b c i
perform-IsMerging b goroutine_runs c i = merge-IsMerging b c i

asked-cons : (b : Bool) (x : Call) (xs : List Call) → asked b (x ∷ xs) ≡ asked (asks b x) xs
unfolding asked
asked-cons b parent_ends xs = refl
asked-cons b calls_cancel xs = refl
asked-cons b calls_done xs = refl
asked-cons b calls_err xs = refl
asked-cons b goroutine_runs xs = refl

perform_all-IsMerging :
    (b : Bool) (xs : List Call) (c : CancelCtxImpl)
    → IsMerging b c
    → IsMerging (asked b xs) (perform_all xs c)
unfolding perform_all
perform_all-IsMerging b [] c i = unfold asked in i
perform_all-IsMerging b (x ∷ xs) c i =
    rw (asked-cons b x xs)
      (perform_all-IsMerging (asks b x) xs (perform x c) (perform-IsMerging b x c i))

-- A channel that is ready stays so.
ready-stays :
    (x : Call) (c : CancelCtxImpl) → is_ready c.merged ≡ true → is_ready (perform x c).merged ≡ true
unfolding perform
ready-stays parent_ends c h = h
ready-stays calls_cancel c h = ground (arith, h)
ready-stays calls_done c h = ground (arith, h)
ready-stays calls_err c h = ground (arith, h)
ready-stays goroutine_runs c h = ground (arith, h)

err-stays :
    (ys : List Call) (c : CancelCtxImpl)
    → is_ready c.merged ≡ true
    → (err (perform_all ys c)).0 ≡ true
unfolding perform_all
err-stays [] c h = ground (arith, h)
err-stays (y ∷ ys) c h = err-stays ys (perform y c) (ready-stays y c h)

-- A context that has been used, and asked to end or not.
pub record Merges (b : Bool) (c : CancelCtxImpl) : Type 0 where
  pub unbroken : (c.done ≢ panicked) × (c.merged ≢ panicked)
  pub not_early : (err c).0 ≡ true → b ≡ true
  pub in_time : b ≡ true → (err (merge (done_called c))).0 ≡ true
  pub for_good : (err c).0 ≡ true → (ys : List Call) → (err (perform_all ys c)).0 ≡ true

channel-whole : (b : Bool) (ch : Channel) → ch ≡ channel b → ch ≢ panicked
channel-whole b ch h e = ground (arith, h, e)

-- Whatever calls are made of a context and its cancel function, and however its goroutine runs in
-- between: no channel is closed twice; Err is nil unless the parent has ended or the cancel function
-- was called; once one of them has, Err is Canceled as soon as Done has been used and the goroutine
-- has run; and from then on Err stays Canceled.
pub perform_all-Merges :
    (parent_done : Bool) (xs : List Call)
    → Merges (asked parent_done xs) (perform_all xs (cancel_on_parent parent_done))
perform_all-Merges parent_done xs =
    let c = perform_all xs (cancel_on_parent parent_done) in
    let i = perform_all-IsMerging parent_done xs (cancel_on_parent parent_done) (record {
      cancelled = refl;
      merged = refl;
      started = λ h. absurd cc;
      caused = λ h. absurd cc;
      ends = ground arith;
    }) in
    record {
      unbroken = (
        channel-whole c.once_cancel c.done i.cancelled,
        channel-whole (c.once_done && not c.waiting) c.merged i.merged,
      );
      not_early = λ h. i.caused (ready-err c h);
      in_time = λ h. ground (arith, i.cancelled, i.merged, i.ends, h);
      for_good = λ h ys. err-stays ys c (ready-err c h);
    }
  where
    ready-err : (c : CancelCtxImpl) → (err c).0 ≡ true → is_ready c.merged ≡ true
    ready-err c h = ground (arith, h)
