-- ===== src/Server/Watch/Collect.antt =====
-- One response of the live feed: what `collectEvents` takes off the channel and what it keeps of it.
use retcd.Prelude.{
  ◌+◌, ◌≤◌, ◌≡◌, refl, ◌&&◌, List, [], ◌∷◌, ◌++◌, Option, none, some, ltb, leb, if◌then◌else◌,
  arith, ap, sym, ◌∙◌, length, length-append, Bool-cases, inl, inr,
}
use mathlib.Core.List.{append-nil, append_assoc}
use retcd.Store.Event.{Event}
use retcd.Server.Watch.Told.{told, event_to_proto-told}
use retcd.Server.Watch.{
  ProtoEvent, event_to_proto, prepend, WatchSpec, max_send_batch, add, collect_loop, collect_events,
}
use retcd.Server.Watch.Wanted.{prepend-append}

-- The events past the boundary and not before the start, in order.
unfoldable pub wanted_live : WatchSpec → List Event → List ProtoEvent
wanted_live s [] = []
wanted_live s (ev ∷ evs) =
    let rest = wanted_live s evs in
    if ltb s.boundary ev.rev && leb s.start_revision ev.rev then prepend (told ev) rest else rest

pub wanted_live-append :
    (s : WatchSpec) (xs ys : List Event)
    → wanted_live s (xs ++ ys) ≡ wanted_live s xs ++ wanted_live s ys
unfolding wanted_live
wanted_live-append s [] ys = refl
wanted_live-append s (x ∷ xs) ys = ground (
  arith,
  wanted_live-append s xs ys,
  prepend-append (told x) (wanted_live s xs) (wanted_live s ys),
)

add-wanted :
    (s : WatchSpec) (matched : List ProtoEvent) (ev : Event)
    → add s.boundary s.start_revision matched ev ≡ matched ++ wanted_live s (ev ∷ [])
unfolding add wanted_live
add-wanted s matched ev = rw (event_to_proto-told ev) (ground (arith, append-nil matched))

length-prepend : (o : Option ProtoEvent) → length (prepend o []) ≤ 1
length-prepend none = omega arith
length-prepend (some e) = omega arith

length-add :
    (s : WatchSpec) (matched : List ProtoEvent) (ev : Event)
    → length (add s.boundary s.start_revision matched ev) ≤ length matched + 1
unfolding add
length-add s matched ev = ground (
  arith,
  length-prepend (event_to_proto ev),
  length-append matched (prepend (event_to_proto ev) []),
)

-- What the loop makes of a queue: it takes some of it, and keeps what is wanted of that.
pub record Collected (s : WatchSpec) (matched : List ProtoEvent) (ch : List Event)
    (out : List ProtoEvent × List Event) : Type 0 where
  pub taken : List Event
  pub split : ch ≡ taken ++ out.1
  pub kept : out.0 ≡ matched ++ wanted_live s taken
  pub bounded : length out.0 ≤ max_send_batch

pub collect_loop-Collected :
    (s : WatchSpec) (matched : List ProtoEvent) (ch : List Event)
    → length matched ≤ max_send_batch
    → Collected s matched ch (collect_loop s.boundary s.start_revision matched ch)
unfolding collect_loop
collect_loop-Collected s matched [] h = record {
  taken = [];
  split = refl;
  kept = unfold wanted_live in sym (append-nil matched);
  bounded = h;
}
collect_loop-Collected s matched (ev ∷ ch) h =
    elim (Bool-cases (ltb (length matched) max_send_batch)) [
      | inr full ↦ rw full (record {
        taken = [];
        split = refl;
        kept = unfold wanted_live in sym (append-nil matched);
        bounded = h;
      })
      | inl room ↦
          let rest =
            collect_loop-Collected s (add s.boundary s.start_revision matched ev) ch
              (ground (arith, room, length-add s matched ev)) in
          rw room (record {
            taken = ev ∷ rest.taken;
            split = ap (λ l. ev ∷ l) rest.split;
            kept =
                rest.kept
                ∙ (ap (λ l. l ++ wanted_live s rest.taken) (add-wanted s matched ev)
                    ∙ (append_assoc matched (wanted_live s (ev ∷ [])) (wanted_live s rest.taken)
                        ∙ ap (λ l. matched ++ l)
                            (sym (wanted_live-append s (ev ∷ []) rest.taken))));
            bounded = rest.bounded;
          })
    ]

pub collect_events-Collected :
    (s : WatchSpec) (first : Event) (ch : List Event)
    → Collected s [] (first ∷ ch) (collect_events first ch s.boundary s.start_revision)
unfolding collect_events
collect_events-Collected s first ch =
    let rest =
      collect_loop-Collected s (add s.boundary s.start_revision [] first) ch
        (omega (arith, length-add s [] first)) in
    record {
      taken = first ∷ rest.taken;
      split = ap (λ l. first ∷ l) rest.split;
      kept =
          rest.kept
          ∙ (ap (λ l. l ++ wanted_live s rest.taken) (add-wanted s [] first)
              ∙ sym (wanted_live-append s (first ∷ []) rest.taken));
      bounded = rest.bounded;
    }
