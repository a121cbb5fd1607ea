-- ===== src/Server/Session.antt =====
-- `Watch` of server/watch.go: one client's stream, the watches that it has started, and the map of
-- cancel functions. The requests, the ends of the watches and the other streams' use of the counter
-- of watch IDs are an explicit sequence of steps, each under the mutex.
pub mod Leaks
use retcd.Prelude.{
  ℕ, suc, ◌+◌, Bool, true, false, List, [], ◌∷◌, ◌++◌, Option, none, some, ◌==◌, if◌then◌else◌, ℤ,
  pos, negsuc,
}
use retcd.Prelude.Assoc.{lookup, remove, insert}
use retcd.Bytes.{Bytes}
use retcd.Server.Watch.{WatchResponse, effective_start_revision}

-- pb.WatchCreateRequest
pub record WatchCreateRequest : Type 0 where
  pub key : Bytes
  pub range_end : Bytes
  pub start_revision : ℤ

-- A goroutine that tails a watch; `cancelled`, that its context has ended.
pub record Started : Type 0 where
  pub req : WatchCreateRequest
  pub cancelled : Bool

-- `watch_id` is the global counter. A cancel function is written as the ID of the watch whose context
-- it ends.
pub record Session : Type 0 where
  pub watch_id : ℕ
  pub cancels : List (ℕ × ℕ)
  pub watches : List (ℕ × Started)
  pub sent : List WatchResponse
  pub closed : Bool

abbrev pub invalid_watch_id : ℤ
invalid_watch_id = negsuc 0

-- A response without events.
abbrev pub control : ℕ → ℤ → Bool → Bool → WatchResponse
control rev id created canceled = record {
  revision = rev;
  watch_id = id;
  created = created;
  canceled = canceled;
  backend_unavailable = false;
  events = [];
}

abbrev cancel_started : Started → Started
cancel_started w = record w { cancelled = true }

-- A call of the cancel function of a watch.
unfoldable pub cancel : ℕ → List (ℕ × Started) → List (ℕ × Started)
cancel id [] = []
cancel id ((j, w) ∷ ws) =
    let rest = cancel id ws in if j == id then (j, cancel_started w) ∷ rest else (j, w) ∷ rest

-- The loop over the map when the client is gone.
unfoldable pub cancel_all : List (ℕ × ℕ) → List (ℕ × Started) → List (ℕ × Started)
cancel_all [] ws = ws
cancel_all ((j, c) ∷ cs) ws = cancel c (cancel_all cs ws)

-- cancels[cr.WatchId]
unfoldable pub cancel_of : ℤ → List (ℕ × ℕ) → Option (ℕ × ℕ)
cancel_of (negsuc n) cs = none
cancel_of (pos id) cs = elim (lookup id cs) [ none ↦ none | some c ↦ some (id, c) ]

abbrev pub cancel_found : Option (ℕ × ℕ) → Session → Session
cancel_found none s = s
cancel_found (some (id, c)) s = record s {
  cancels = remove id s.cancels;
  watches = cancel c s.watches;
}

pub data Input : Type 0 where
  -- a request, with the revision that the store or the dispatcher gives for the response
  create_request : WatchCreateRequest → ℕ → Input
  cancel_request : ℤ → Input
  progress_request : ℕ → Input
  -- the deferred function of a goroutine
  tail_returned : ℕ → Input
  -- another stream takes a watch ID
  id_taken : Input
  -- Recv fails
  disconnected : Input

unfoldable pub handle : Input → Session → Session
handle (create_request cr rev) s =
    let id = s.watch_id + 1 in
    let req = record cr { start_revision = effective_start_revision cr.start_revision rev } in
    record s {
      watch_id = id;
      cancels = insert id id s.cancels;
      watches = (id, record { req = req; cancelled = false }) ∷ s.watches;
      sent = s.sent ++ control rev (pos id) true false ∷ [];
    }
handle (cancel_request id) s =
    let s' = cancel_found (cancel_of id s.cancels) s in
    record s' { sent = s'.sent ++ control 0 id false true ∷ [] }
handle (progress_request rev) s = record s {
  sent = s.sent ++ control rev invalid_watch_id false false ∷ [];
}
handle (tail_returned id) s = record s {
  cancels = remove id s.cancels;
  watches = cancel id s.watches;
}
handle id_taken s = record s { watch_id = s.watch_id + 1 }
handle disconnected s = record s { watches = cancel_all s.cancels s.watches; closed = true }

-- The requests that a stream gets up to its end.
unfoldable pub handle_all : List Input → Session → Session
handle_all [] s = s
handle_all (i ∷ is) s = handle_all is (handle i s)

abbrev pub opened : ℕ → Session
opened n = record { watch_id = n; cancels = []; watches = []; sent = []; closed = false }
