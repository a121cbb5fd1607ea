-- ===== src/Server/Watch/Live.antt =====
-- The live feed of a watch: what it sends of the events in its channel.
use retcd.Prelude.{
  ℕ, ◌≤◌, ◌≡◌, refl, true, List, [], ◌∷◌, ◌++◌, arith, ap, sym, ◌∙◌, All, length, ◌⊎◌, inl, inr,
}
use mathlib.Core.List.{append-nil, append_assoc}
use retcd.Store.Event.{Event}
use retcd.Server.Watch.{
  ProtoEvent, WatchResponse, events_response, WatchSpec, max_send_batch, add, collect_loop,
  collect_events, Tail, receive, send_events, on_receive, tail_step,
}
use retcd.Server.Watch.Wanted.{events_of, events_of-append}
use retcd.Server.Watch.Collect.{
  wanted_live, wanted_live-append, Collected, collect_events-Collected,
}

-- As many receives as the revisions list stamps them with.
unfoldable pub receives : WatchSpec → List ℕ → Tail → Tail
receives s [] t = t
receives s (rev ∷ revs) t = receives s revs (tail_step s receive rev true t)

abbrev pub IsBounded : WatchResponse → Type 0
IsBounded r = length r.events ≤ max_send_batch

-- The tail after some receives: it has sent what is wanted of the events that it took off the queue.
pub record Received (s : WatchSpec) (t t' : Tail) : Type 0 where
  pub taken : List Event
  pub new : List WatchResponse
  pub split : t.queue ≡ taken ++ t'.queue
  pub sent : t'.sent ≡ t.sent ++ new
  pub complete : events_of new ≡ wanted_live s taken
  pub bounded : All IsBounded new
  pub goes_on : t'.ended ≡ t.ended

List-cases : (l : List Event) → (l ≡ []) ⊎ ((x : Event) × (xs : List Event) × (l ≡ x ∷ xs))
List-cases [] = inl refl
List-cases (x ∷ xs) = inr (x, xs, refl)

module _ (s : WatchSpec) where
  send-Received :
      (rev : ℕ) (t : Tail) (ev : Event) (ch : List Event) (out : List ProtoEvent × List Event)
      → t.queue ≡ ev ∷ ch
      → Collected s [] (ev ∷ ch) out
      → Received s t (send_events s rev true out t)
  unfolding events_of
  send-Received rev t ev ch ([], queue) e c = record {
    taken = c.taken;
    new = [];
    split = e ∙ c.split;
    sent = sym (append-nil t.sent);
    complete = c.kept;
    bounded = tt;
    goes_on = refl;
  }
  send-Received rev t ev ch (p ∷ ps, queue) e c = record {
    taken = c.taken;
    new = events_response s.id rev (p ∷ ps) ∷ [];
    split = e ∙ c.split;
    sent = refl;
    complete = append-nil (p ∷ ps) ∙ c.kept;
    bounded = (c.bounded, tt);
    goes_on = refl;
  }

  length-collect_loop :
      (matched : List ProtoEvent) (ch : List Event)
      → length (collect_loop s.boundary s.start_revision matched ch).1 ≤ length ch
  unfolding collect_loop
  length-collect_loop matched [] = omega arith
  length-collect_loop matched (ev ∷ ch) =
      ground (arith, length-collect_loop (add s.boundary s.start_revision matched ev) ch)

  queue-send_events :
      (rev : ℕ) (t : Tail) (out : List ProtoEvent × List Event)
      → (send_events s rev true out t).queue ≡ out.1
  queue-send_events rev t ([], queue) = refl
  queue-send_events rev t (p ∷ ps, queue) = refl

  receive-step :
      (rev : ℕ) (t : Tail) (q : List Event)
      → t.queue ≡ q
      → tail_step s receive rev true t ≡ on_receive s rev true q t
  unfolding tail_step
  receive-step rev t q e = ap (λ l. on_receive s rev true l t) e

  -- A receive from a queue that is not empty.
  receive-Received :
      (rev : ℕ) (t : Tail) (ev : Event) (ch : List Event)
      → t.queue ≡ ev ∷ ch
      → Received s t (tail_step s receive rev true t)
        × (length (tail_step s receive rev true t).queue ≤ length ch)
  unfolding collect_events
  receive-Received rev t ev ch e = rw (receive-step rev t (ev ∷ ch) e) (
    send-Received rev t ev ch (collect_events ev ch s.boundary s.start_revision) e
        (collect_events-Collected s ev ch),
    rw (queue-send_events rev t (collect_events ev ch s.boundary s.start_revision))
        (length-collect_loop (add s.boundary s.start_revision [] ev) ch),
  )

  nothing-Received : (t : Tail) → Received s t t
  unfolding events_of wanted_live
  nothing-Received t = record {
    taken = [];
    new = [];
    split = refl;
    sent = sym (append-nil t.sent);
    complete = refl;
    bounded = tt;
    goes_on = refl;
  }

  All-append-responses :
      (xs ys : List WatchResponse) → All IsBounded xs → All IsBounded ys → All IsBounded (xs ++ ys)
  All-append-responses [] ys a b = b
  All-append-responses (x ∷ xs) ys a b = (a.0, All-append-responses xs ys a.1 b)

  Received-trans : (t t' t'' : Tail) → Received s t t' → Received s t' t'' → Received s t t''
  Received-trans t t' t'' a b = record {
    taken = a.taken ++ b.taken;
    new = a.new ++ b.new;
    split =
        a.split ∙ (ap (λ l. a.taken ++ l) b.split ∙ sym (append_assoc a.taken b.taken t''.queue));
    sent = b.sent ∙ (ap (λ l. l ++ b.new) a.sent ∙ append_assoc t.sent a.new b.new);
    complete =
        events_of-append a.new b.new
        ∙ (ap (λ l. l ++ events_of b.new) a.complete
            ∙ (ap (λ l. wanted_live s a.taken ++ l) b.complete
                ∙ sym (wanted_live-append s a.taken b.taken)));
    bounded = All-append-responses a.new b.new a.bounded b.bounded;
    goes_on = b.goes_on ∙ a.goes_on;
  }

  receives-cons :
      (rev : ℕ) (revs : List ℕ) (t : Tail)
      → receives s (rev ∷ revs) t ≡ receives s revs (tail_step s receive rev true t)
  unfolding receives
  receives-cons rev revs t = refl

  receives-Received :
      (revs : List ℕ) (t : Tail)
      → length t.queue ≤ length revs
      → Received s t (receives s revs t) × ((receives s revs t).queue ≡ [])
  unfolding tail_step receives
  receives-Received [] t h = (nothing-Received t, empty t.queue h)
    where
      empty : (l : List Event) → length l ≤ 0 → l ≡ []
      empty [] h = refl
      empty (x ∷ xs) h = absurd (omega arith)
  receives-Received (rev ∷ revs) t h = elim (List-cases t.queue) [
    | inl e ↦
        rw (receives-cons rev revs t ∙ ap (receives s revs) (receive-step rev t [] e))
          (receives-Received revs t (rw e (omega arith)))
    | inr (ev, ch, e) ↦
        let first = receive-Received rev t ev ch e in
        let rest =
          receives-Received revs (tail_step s receive rev true t)
            (omega (arith, first.1, ap (λ (l : List Event). length l) e, h)) in
        (
          Received-trans t (tail_step s receive rev true t)
              (receives s revs (tail_step s receive rev true t)) first.0 rest.0,
          rest.1,
        )
  ]

-- A watch whose Sends succeed empties its channel in at most as many receives as there are events in
-- it. What it sends is every one of these events past the boundary and not before the start, each
-- once, in order, in responses of at most a thousand events; the watch goes on.
pub receives-drain :
    (s : WatchSpec) (revs : List ℕ) (t : Tail)
    → length t.queue ≤ length revs
    → (new : List WatchResponse) × (((receives s revs t).queue ≡ [])
        × (((receives s revs t).sent ≡ t.sent ++ new)
            × ((events_of new ≡ wanted_live s t.queue)
                × (All IsBounded new × ((receives s revs t).ended ≡ t.ended)))))
receives-drain s revs t h =
    let (r, none_left) = receives-Received s revs t h in
    let whole = r.split ∙ (ap (λ l. r.taken ++ l) none_left ∙ append-nil r.taken) in
    (
      r.new,
      (none_left, (r.sent, (r.complete ∙ ap (wanted_live s) (sym whole), (r.bounded, r.goes_on)))),
    )
