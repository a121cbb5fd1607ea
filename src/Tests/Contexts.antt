-- ===== src/Tests/Contexts.antt =====
-- The context of a watch on a sequence of calls.
use retcd.Prelude.{◌≡◌, refl, List, [], ◌∷◌, false, true}
use retcd.Server.Context.{
  Call, calls_err, calls_cancel, goroutine_runs, perform, perform_all, cancel_on_parent, err,
}
use retcd.Server.Context.Merging.{asked, Merges, perform_all-Merges}

-- The watch asks for its context's end, is cancelled twice, and asks again after the goroutine ran.
abbrev calls : List Call
calls = calls_err ∷ calls_cancel ∷ calls_cancel ∷ goroutine_runs ∷ calls_err ∷ []

calls-err : (err (perform_all calls (cancel_on_parent false))).0 ≡ true
unfolding perform_all perform
calls-err = refl

perform_all-Merges_example : Merges (asked false calls) (perform_all calls (cancel_on_parent false))
perform_all-Merges_example = perform_all-Merges false calls
