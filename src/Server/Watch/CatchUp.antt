-- ===== src/Server/Watch/CatchUp.antt =====
-- The catch-up: what it has sent when it returns.
use retcd.Prelude.{
  ℕ, zero, suc, ◌+◌, ◌<◌, ◌≡◌, refl, Bool, true, false, List, [], ◌∷◌, ◌++◌, arith, ap, sym, ◌∙◌,
  All, length, Bool-cases, inl, inr,
}
use mathlib.Core.List.{append-nil, append_assoc}
use retcd.Bytes.{Bytes}
use retcd.Store.Event.{Event}
use retcd.Server.Watch.{
  ProtoEvent, WatchResponse, events_response, unavailable_response, WatchSpec, scan_batch,
  max_reader_errors, read_failed, read_events, Turn, Reader, Progress, reading, returned, deliver,
  read_round, read_rounds, catch_up,
}
use retcd.Server.Watch.Wanted.{
  wanted_past, IsAscending, events_of, events_of-append, wanted_past-append, scan_batch-wanted,
  scan_batch-reached, IsAscending-right, IsAscending-left,
}

-- A read that succeeds after some that fail.
pub record Batch : Type 0 where
  pub failures : ℕ
  pub events : List Event
  pub new_id : Bytes
  pub current_rev : ℕ

abbrev pub failures_then : ℕ → ℕ → List Turn → List Turn
failures_then zero rev turns = turns
failures_then (suc n) rev turns =
    record { outcome = read_failed; current_rev = rev; sends = true } ∷ failures_then n rev turns

abbrev pub batch_turn : Batch → Turn
batch_turn b = record {
  outcome = read_events b.events b.new_id;
  current_rev = b.current_rev;
  sends = true;
}

abbrev pub turns_of : List Batch → List Turn
turns_of [] = record { outcome = read_events [] []; current_rev = 0; sends = true } ∷ []
turns_of (b ∷ bs) = failures_then b.failures b.current_rev (batch_turn b ∷ turns_of bs)

abbrev pub all_events : List Batch → List Event
all_events [] = []
all_events (b ∷ bs) = b.events ++ all_events bs

-- A read is not empty, and fewer reads than the limit fail before it.
pub record IsRead (b : Batch) : Type 0 where
  pub few : b.failures < max_reader_errors
  pub full : 0 < length b.events

pub record CaughtUp (s : WatchSpec) (before : List WatchResponse) (evs : List Event) (p : Progress)
    : Type 0 where
  pub sent : List WatchResponse
  pub finished : p ≡ returned true sent
  pub complete : events_of sent ≡ events_of before ++ wanted_past s evs

module _ (s : WatchSpec) where
  rounds-failures :
      (n rev : ℕ) (turns : List Turn) (r : Reader)
      → r.consec_err + n < max_reader_errors
      → read_rounds s (failures_then n rev turns) (reading r)
        ≡ read_rounds s turns (reading (record r { consec_err = r.consec_err + n }))
  unfolding read_rounds read_round
  rounds-failures zero rev turns r h = ground arith
  rounds-failures (suc n) rev turns r h = ground (
    arith,
    rounds-failures n rev turns (record r { consec_err = r.consec_err + 1 }) (omega arith),
  )

  -- What the delivery of a batch leaves, when Send succeeds.
  record Delivered (matched : List ProtoEvent) (reached : Bool) (r : Reader) (p : Progress)
      : Type 0 where
    next : Reader
    stops : reached ≡ true → p ≡ returned true next.sent
    goes_on : reached ≡ false → p ≡ reading next
    no_error : next.consec_err ≡ r.consec_err
    has_sent : events_of next.sent ≡ events_of r.sent ++ matched

  deliver-Delivered :
      (t : Turn) (matched : List ProtoEvent) (reached : Bool) (r : Reader)
      → t.sends ≡ true
      → Delivered matched reached r (deliver s t (matched, reached) r)
  deliver-Delivered t [] reached r h = record {
    next = r;
    stops = λ e. rw e refl;
    goes_on = λ e. rw e refl;
    no_error = refl;
    has_sent = sym (append-nil (events_of r.sent));
  }
  deliver-Delivered t (e ∷ es) reached r h = rw h (record {
    next = record r { sent = r.sent ++ events_response s.id t.current_rev (e ∷ es) ∷ [] };
    stops = λ e. rw e refl;
    goes_on = λ e. rw e refl;
    no_error = refl;
    has_sent =
        events_of-append r.sent (events_response s.id t.current_rev (e ∷ es) ∷ [])
        ∙ ap (λ l. events_of r.sent ++ l) (unfold events_of in append-nil (e ∷ es));
  })

  pub round-events :
      (evs : List Event) (id : Bytes) (rev : ℕ) (ok : Bool) (r : Reader)
      → 0 < length evs
      → (let t : Turn = record { outcome = read_events evs id; current_rev = rev; sends = ok } in
          read_round s t r
          ≡ deliver s t (scan_batch s evs) (record r { last_id = id; consec_err = 0 }))
  unfolding read_round
  round-events [] id rev ok r h = absurd (omega arith)
  round-events (ev ∷ rest) id rev ok r h = refl

  batch-run :
      (b : Batch) (turns : List Turn) (r : Reader)
      → IsRead b
      → r.consec_err ≡ 0
      → read_rounds s (failures_then b.failures b.current_rev (batch_turn b ∷ turns)) (reading r)
        ≡ read_rounds s turns (
            deliver s
              (batch_turn b)
              (scan_batch s b.events)
              (record r { last_id = b.new_id; consec_err = 0 }))
  unfolding read_rounds
  batch-run b turns r i z =
      rounds-failures b.failures b.current_rev (batch_turn b ∷ turns) r (omega (arith, z, i.few))
      ∙ ap (read_rounds s turns) (
          round-events b.events b.new_id b.current_rev true
            (record r { consec_err = r.consec_err + b.failures }) i.full)

  pub rounds-CaughtUp :
      (bs : List Batch) (r : Reader)
      → All IsRead bs
      → IsAscending (all_events bs)
      → r.consec_err ≡ 0
      → CaughtUp s r.sent (all_events bs) (read_rounds s (turns_of bs) (reading r))
  unfolding read_rounds read_round wanted_past
  rounds-CaughtUp [] r reads h z = record {
    sent = r.sent;
    finished = refl;
    complete = sym (append-nil (events_of r.sent));
  }
  rounds-CaughtUp (b ∷ bs) r reads h z =
      let r' : Reader = record r { last_id = b.new_id; consec_err = 0 } in
      let d =
        deliver-Delivered (batch_turn b) (scan_batch s b.events).0 (scan_batch s b.events).1 r'
          refl in
      let left = IsAscending-left b.events (all_events bs) h in
      let right = IsAscending-right b.events (all_events bs) h in
      let run = batch-run b (turns_of bs) r reads.0 z in
      let found = scan_batch-wanted s b.events left in
      elim (Bool-cases (scan_batch s b.events).1) [
        | inl reached ↦ record {
          sent = d.next.sent;
          finished = run ∙ ap (read_rounds s (turns_of bs)) (d.stops reached) ∙ refl;
          complete =
              d.has_sent
              ∙ (ap (λ l. events_of r.sent ++ l)
                  (found
                    ∙ (sym (append-nil (wanted_past s b.events))
                        ∙ (ap (λ l. wanted_past s b.events ++ l)
                              (sym (scan_batch-reached s b.events (all_events bs) h reached))
                            ∙ sym (wanted_past-append s b.events (all_events bs))))));
        }
        | inr more ↦
            let rest = rounds-CaughtUp bs d.next reads.1 right d.no_error in
            record {
              sent = rest.sent;
              finished = run ∙ (ap (read_rounds s (turns_of bs)) (d.goes_on more) ∙ rest.finished);
              complete =
                  rest.complete
                  ∙ (ap (λ l. l ++ wanted_past s (all_events bs)) d.has_sent
                      ∙ (append_assoc (events_of r.sent) (scan_batch s b.events).0
                            (wanted_past s (all_events bs))
                          ∙ ap (λ l. events_of r.sent ++ l)
                              (ap (λ l. l ++ wanted_past s (all_events bs)) found
                                ∙ sym (wanted_past-append s b.events (all_events bs)))));
            }
      ]

-- The catch-up over reads of a stream in the order of the revisions, fewer than thirty of them
-- failing in a row, and with no failing Send: it returns true, and what it has sent is every event of
-- the watch's range from the start revision up to the boundary, each once, in order, however the
-- reads cut the stream into batches.
pub catch_up-CaughtUp :
    (s : WatchSpec) (first_id : Bytes) (bs : List Batch)
    → All IsRead bs
    → IsAscending (all_events bs)
    → CaughtUp s [] (all_events bs) (catch_up s first_id (turns_of bs))
unfolding catch_up
catch_up-CaughtUp s first_id bs reads h =
    rounds-CaughtUp s bs (record { last_id = first_id; consec_err = 0; sent = [] }) reads h refl

-- Thirty failing reads in a row end the watch: the client is told that the backend is unavailable,
-- and nothing else is sent.
pub catch_up-outage :
    (s : WatchSpec) (first_id : Bytes) (rev : ℕ) (turns : List Turn)
    → catch_up s first_id (failures_then max_reader_errors rev turns)
      ≡ returned false (unavailable_response s.id rev ∷ [])
unfolding catch_up read_rounds read_round
catch_up-outage s first_id rev turns = refl
