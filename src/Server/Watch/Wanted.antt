-- ===== src/Server/Watch/Wanted.antt =====
-- What a catch-up is to send, and what the scan of one batch finds of it.
use retcd.Prelude.{
  ℕ, ◌<◌, ◌≡◌, refl, true, ◌&&◌, List, [], ◌∷◌, ◌++◌, Option, none, some, ltb, leb, if◌then◌else◌,
  arith, ap, sym, ◌∙◌, All, Bool-cases, inl, inr,
}
use mathlib.Core.List.{append_assoc}
use retcd.Store.Event.{Event}
use retcd.Server.Match.{matches_watch}
use retcd.Server.Watch.Told.{told, event_to_proto-told}
use retcd.Server.Watch.{ProtoEvent, prepend, WatchResponse, WatchSpec, scan_batch}

-- The events of the window up to the boundary, in order.
unfoldable pub wanted_past : WatchSpec → List Event → List ProtoEvent
wanted_past s [] = []
wanted_past s (ev ∷ evs) =
    let rest = wanted_past s evs in
    if leb ev.rev s.boundary
      && (leb s.start_revision ev.rev && matches_watch ev.key s.key s.range_end)
    then prepend (told ev) rest
    else rest

abbrev pub IsAscending : List Event → Type 0
IsAscending [] = Unit {0}
IsAscending (ev ∷ evs) = All (λ e. ev.rev < e.rev) evs × IsAscending evs

unfoldable pub events_of : List WatchResponse → List ProtoEvent
events_of [] = []
events_of (r ∷ rs) = r.events ++ events_of rs

pub events_of-append :
    (xs ys : List WatchResponse) → events_of (xs ++ ys) ≡ events_of xs ++ events_of ys
unfolding events_of
events_of-append [] ys = refl
events_of-append (x ∷ xs) ys =
    ap (λ l. x.events ++ l) (events_of-append xs ys)
    ∙ sym (append_assoc x.events (events_of xs) (events_of ys))

pub prepend-append :
    (o : Option ProtoEvent) (xs ys : List ProtoEvent) → prepend o xs ++ ys ≡ prepend o (xs ++ ys)
prepend-append none xs ys = refl
prepend-append (some e) xs ys = refl

pub wanted_past-append :
    (s : WatchSpec) (xs ys : List Event)
    → wanted_past s (xs ++ ys) ≡ wanted_past s xs ++ wanted_past s ys
unfolding wanted_past
wanted_past-append s [] ys = refl
wanted_past-append s (x ∷ xs) ys = ground (
  arith,
  wanted_past-append s xs ys,
  prepend-append (told x) (wanted_past s xs) (wanted_past s ys),
)

-- Behind an event past the boundary nothing more is wanted.
wanted_past-beyond :
    (s : WatchSpec) (rev : ℕ) (evs : List Event)
    → s.boundary < rev
    → All (λ e. rev < e.rev) evs
    → wanted_past s evs ≡ []
unfolding wanted_past
wanted_past-beyond s rev [] h a = refl
wanted_past-beyond s rev (ev ∷ evs) h a = ground (arith, wanted_past-beyond s rev evs h a.1, a.0)

pub scan_batch-wanted :
    (s : WatchSpec) (evs : List Event) → IsAscending evs → (scan_batch s evs).0 ≡ wanted_past s evs
unfolding scan_batch wanted_past
scan_batch-wanted s [] h = refl
scan_batch-wanted s (ev ∷ evs) h = ground (
  arith,
  event_to_proto-told ev,
  scan_batch-wanted s evs h.1,
  wanted_past-beyond s ev.rev evs,
  h.0,
)

All-append-right : (p : Event → Type 0) (xs ys : List Event) → All p (xs ++ ys) → All p ys
All-append-right p [] ys a = a
All-append-right p (x ∷ xs) ys a = All-append-right p xs ys a.1

All-append-left : (p : Event → Type 0) (xs ys : List Event) → All p (xs ++ ys) → All p xs
All-append-left p [] ys a = tt
All-append-left p (x ∷ xs) ys a = (a.0, All-append-left p xs ys a.1)

pub IsAscending-right : (xs ys : List Event) → IsAscending (xs ++ ys) → IsAscending ys
IsAscending-right [] ys h = h
IsAscending-right (x ∷ xs) ys h = IsAscending-right xs ys h.1

pub IsAscending-left : (xs ys : List Event) → IsAscending (xs ++ ys) → IsAscending xs
IsAscending-left [] ys h = tt
IsAscending-left (x ∷ xs) ys h =
    (All-append-left (λ e. x.rev < e.rev) xs ys h.0, IsAscending-left xs ys h.1)

-- A batch that passed the boundary is the last one needed.
pub scan_batch-reached :
    (s : WatchSpec) (evs later : List Event)
    → IsAscending (evs ++ later)
    → (scan_batch s evs).1 ≡ true
    → wanted_past s later ≡ []
unfolding scan_batch
scan_batch-reached s [] later h r = absurd (ground arith)
scan_batch-reached s (ev ∷ evs) later h r = elim (Bool-cases (ltb s.boundary ev.rev)) [
  | inl past ↦
      wanted_past-beyond s ev.rev later (ground arith)
        (All-append-right (λ e. ev.rev < e.rev) evs later h.0)
  | inr within ↦ scan_batch-reached s evs later h.1 (ground (arith, within, r))
]
