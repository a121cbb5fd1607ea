-- ===== src/Server/Context.antt =====
-- The context of a watch: `cancelOnParent` and `cancelCtxImpl` of server/watch.go. The calls of its
-- functions and the steps of its goroutine are an explicit sequence.
pub mod Merging
use retcd.Prelude.{Bool, true, false, ◌&&◌, ◌||◌, not, List, [], ◌∷◌, if◌then◌else◌}

-- A channel that is only ever closed; to close it twice panics.
pub data Channel : Type 0 where
  open_channel : Channel
  closed_channel : Channel
  panicked : Channel

abbrev pub close : Channel → Channel
close open_channel = closed_channel
close closed_channel = panicked
close panicked = panicked

-- Whether a receive from it returns.
abbrev pub is_ready : Channel → Bool
is_ready open_channel = false
is_ready closed_channel = true
is_ready panicked = true

-- `once_cancel` and `once_done` are the two sync.Once; `waiting`, that the goroutine is in its
-- select.
pub record CancelCtxImpl : Type 0 where
  pub parent_done : Bool
  pub done : Channel
  pub once_cancel : Bool
  pub merged : Channel
  pub once_done : Bool
  pub waiting : Bool

abbrev pub cancel_on_parent : Bool → CancelCtxImpl
cancel_on_parent parent_done = record {
  parent_done = parent_done;
  done = open_channel;
  once_cancel = false;
  merged = open_channel;
  once_done = false;
  waiting = false;
}

-- The cancel function.
abbrev pub cancel : CancelCtxImpl → CancelCtxImpl
cancel c = if c.once_cancel then c else record c { once_cancel = true; done = close c.done }

-- `Done`, which starts the goroutine when it is first called.
abbrev pub done_called : CancelCtxImpl → CancelCtxImpl
done_called c = if c.once_done then c else record c { once_done = true; waiting = true }

-- The select of the goroutine: it closes the channel of Done when the parent or the cancel function
-- has ended the context.
abbrev pub merge : CancelCtxImpl → CancelCtxImpl
merge c =
    if c.waiting && (c.parent_done || is_ready c.done)
    then record c { waiting = false; merged = close c.merged }
    else c

-- `Err`: whether it is Canceled.
abbrev pub err : CancelCtxImpl → Bool × CancelCtxImpl
err c = let c' = done_called c in (is_ready c'.merged, c')

pub data Call : Type 0 where
  parent_ends : Call
  calls_cancel : Call
  calls_done : Call
  calls_err : Call
  goroutine_runs : Call

unfoldable pub perform : Call → CancelCtxImpl → CancelCtxImpl
perform parent_ends c = record c { parent_done = true }
perform calls_cancel c = cancel c
perform calls_done c = done_called c
perform calls_err c = (err c).1
perform goroutine_runs c = merge c

unfoldable pub perform_all : List Call → CancelCtxImpl → CancelCtxImpl
perform_all [] c = c
perform_all (x ∷ xs) c = perform_all xs (perform x c)
