-- ===== src/Tests/Sessions.antt =====
-- A client's stream on concrete inputs.
use retcd.Prelude.{◌≡◌, false, List, [], ◌∷◌, All, pos}
use retcd.Prelude.Assoc.{lookup}
use retcd.Server.Session.{
  WatchCreateRequest, Input, create_request, cancel_request, progress_request, tail_returned,
  id_taken, disconnected, handle, handle_all, opened,
}
use retcd.Server.Session.Leaks.{
  is_live, IsOpen, IsTracked, handle_all-IsTracked, disconnected-none_live,
}
use retcd.Tests.{pod}

abbrev pod_watch : WatchCreateRequest
pod_watch = record { key = pod; range_end = []; start_revision = pos 0 }

-- Three watches: one is cancelled by the client, one returns, one is left.
abbrev inputs : List Input
inputs =
    create_request pod_watch 4
    ∷ id_taken
    ∷ create_request pod_watch 5
    ∷ cancel_request (pos 8)
    ∷ create_request pod_watch 5
    ∷ progress_request 6
    ∷ tail_returned 10
    ∷ cancel_request (pos 99)
    ∷ []

inputs-IsOpen : All IsOpen inputs
inputs-IsOpen = (tt, (tt, (tt, (tt, (tt, (tt, (tt, (tt, tt))))))))

handle_all-IsTracked_example : IsTracked (handle_all inputs (opened 7))
handle_all-IsTracked_example = handle_all-IsTracked 7 inputs inputs-IsOpen

disconnected-none_live_example :
    is_live (lookup 11 (handle disconnected (handle_all inputs (opened 7))).watches) ≡ false
disconnected-none_live_example = disconnected-none_live 7 inputs 11 inputs-IsOpen
