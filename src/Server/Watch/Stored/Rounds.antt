-- ===== src/Server/Watch/Stored/Rounds.antt =====
-- The rounds of a catch-up on the stream, and the pages that it reads.
use retcd.Prelude.{
  ℕ, zero, suc, ◌≤◌, ◌<◌, ◌≡◌, refl, Bool, true, false, List, [], ◌∷◌, ◌++◌, some, arith, ap, sym,
  ◌∙◌, length, All, is_some,
}
use mathlib.Core.List.{append_assoc}
use retcd.Bytes.{Bytes}
use retcd.Redis.{Redis, is_start, at_most, as_stream}
use retcd.Store.Event.{XMessage, parse_stream_event}
use retcd.Store.Script.{event_stream}
use retcd.Store.Refine.{parse_all}
use retcd.Store.Refine.Codec.{parse_all-append}
use retcd.Store.Client.{ok, World}
use retcd.Store.Stream.Pages.{
  IsDistinct, last_id-append, last_id, leftover, length-leftover, at_most-leftover,
  block_read_events-page,
}
use retcd.Server.Watch.{
  WatchSpec, Turn, WatchResponse, Reader, Progress, reading, returned, read_round, read_rounds,
  deliver, scan_batch, ProtoEvent,
}
use retcd.Server.Watch.CatchUp.{Batch, IsRead, turns_of, all_events, round-events}
use retcd.Server.Watch.Stored.{read_batch_size, stored_turn, stored_rounds}

-- The pages of the entries that are left.
unfoldable pub batches : ℕ → Bytes → ℕ → List XMessage → List Batch
batches zero id rev es = []
batches (suc f) id rev [] = []
batches (suc f) id rev (e ∷ es) =
    record {
      failures = 0;
      events = parse_all (at_most read_batch_size (e ∷ es));
      new_id = last_id id (at_most read_batch_size (e ∷ es));
      current_rev = rev;
    }
    ∷ batches f (last_id id (at_most read_batch_size (e ∷ es))) rev
        (leftover read_batch_size (e ∷ es))

-- A reader that goes on does so from the ID of its last read.
unfoldable pub StandsAt : Bytes → Progress → Type 0
StandsAt id (returned done sent) = Unit {0}
StandsAt id (reading r) = r.last_id ≡ id

deliver-StandsAt :
    (s : WatchSpec) (t : Turn) (matched : List ProtoEvent) (reached : Bool) (r : Reader)
    → t.sends ≡ true
    → StandsAt r.last_id (deliver s t (matched, reached) r)
unfolding StandsAt
deliver-StandsAt s t [] true r h = tt
deliver-StandsAt s t [] false r h = refl
deliver-StandsAt s t (e ∷ es) true r h = rw h tt
deliver-StandsAt s t (e ∷ es) false r h = rw h refl

-- Every entry parses to an event.
abbrev pub AllParse : List XMessage → Type 0
AllParse = All (λ e. is_some (parse_stream_event e) ≡ true)

parse_all-full :
    (e : XMessage) (es : List XMessage)
    → is_some (parse_stream_event e) ≡ true
    → 0 < length (parse_all (e ∷ es))
unfolding parse_all
parse_all-full e es h = ground arith

pub AllParse-at : (xs ys : List XMessage) → xs ≡ ys → AllParse ys → AllParse xs
AllParse-at xs ys e h = rw e h

pub AllParse-right : (xs ys : List XMessage) → AllParse (xs ++ ys) → AllParse ys
AllParse-right [] ys a = a
AllParse-right (x ∷ xs) ys a = AllParse-right xs ys a.1

module _ (R : Redis) (w : World R) (es : List XMessage)
    (h : as_stream (R.value w.db event_stream) ≡ some es) (d : IsDistinct es) (calm : w.fates ≡ [])
    (start : Bytes) (st : is_start start ≡ true) (s : WatchSpec) (rev : ℕ) where
  stored-returned :
      (f : ℕ) (p : Progress) (done : Bool) (sent : List WatchResponse)
      → p ≡ returned done sent
      → stored_rounds R f s rev p w ≡ (returned done sent, w)
  unfolding stored_rounds
  stored-returned zero p done sent e = rw e refl
  stored-returned (suc f) p done sent e = rw e refl

  stored-step :
      (f : ℕ) (pre rest : List XMessage) (id : Bytes) (r : Reader)
      → es ≡ pre ++ rest
      → id ≡ last_id start pre
      → r.last_id ≡ id
      → stored_rounds R (suc f) s rev (reading r) w
        ≡ stored_rounds R f s rev
            (read_round s
              (stored_turn rev (
                ok (
                  parse_all (at_most read_batch_size rest),
                  last_id id (at_most read_batch_size rest),
                )))
              r)
            w
  unfolding stored_rounds
  stored-step f pre rest id r e here at =
      rw (at, here)
        (rw
          (
            block_read_events-page R w es h d calm start st read_batch_size pre rest e,
            last_id-append start pre (at_most read_batch_size rest),
          )
          refl)

  stored-end :
      (f : ℕ) (pre : List XMessage) (id : Bytes) (r : Reader)
      → es ≡ pre ++ []
      → id ≡ last_id start pre
      → r.last_id ≡ id
      → stored_rounds R (suc f) s rev (reading r) w ≡ (read_rounds s (turns_of []) (reading r), w)
  unfolding read_rounds read_round parse_all last_id
  stored-end f pre id r e here at =
      stored-step f pre [] id r e here at
      ∙ stored-returned f (returned true r.sent) true r.sent refl

  -- The round that reads a page goes on, if at all, from the page's last ID.
  page-StandsAt :
      (x : XMessage) (chunk : List XMessage) (id : Bytes) (r : Reader)
      → is_some (parse_stream_event x) ≡ true
      → StandsAt id (read_round s (stored_turn rev (ok (parse_all (x ∷ chunk), id))) r)
  page-StandsAt x chunk id r a =
      let evs = parse_all (x ∷ chunk) in
      rw (round-events s evs id rev true r (parse_all-full x chunk a)) (
        deliver-StandsAt s (stored_turn rev (ok (evs, id))) (scan_batch s evs).0
          (scan_batch s evs).1 (record r { last_id = id; consec_err = 0 }) refl)

  pub stored-batches :
      (f : ℕ) (pre rest : List XMessage) (id : Bytes) (p : Progress)
      → es ≡ pre ++ rest
      → length rest ≤ f
      → AllParse rest
      → id ≡ last_id start pre
      → StandsAt id p
      → stored_rounds R (suc f) s rev p w ≡ (read_rounds s (turns_of (batches f id rev rest)) p, w)
  unfolding batches read_rounds StandsAt
  stored-batches f pre rest id (returned done sent) e l a here at =
      stored-returned (suc f) (returned done sent) done sent refl
  stored-batches zero pre [] id (reading r) e l a here at = stored-end 0 pre id r e here at
  stored-batches zero pre (x ∷ rest) id (reading r) e l a here at = absurd (omega (arith, l))
  stored-batches (suc f) pre [] id (reading r) e l a here at = stored-end (suc f) pre id r e here at
  stored-batches (suc f) pre (x ∷ rest) id (reading r) e l a here at =
      let chunk = at_most read_batch_size (x ∷ rest) in
      let later = leftover read_batch_size (x ∷ rest) in
      let split : chunk ++ later ≡ x ∷ rest = at_most-leftover read_batch_size (x ∷ rest) in
      stored-step (suc f) pre (x ∷ rest) id r e here at
      ∙ stored-batches f (pre ++ chunk) later (last_id id chunk)
          (read_round s (stored_turn rev (ok (parse_all chunk, last_id id chunk))) r)
          (e ∙ (ap (λ l. pre ++ l) (sym split) ∙ sym (append_assoc pre chunk later)))
          (length-leftover read_batch_size f (x ∷ rest) l)
          (AllParse-right chunk later (AllParse-at (chunk ++ later) (x ∷ rest) split a))
          (ap (λ i. last_id i chunk) here ∙ sym (last_id-append start pre chunk))
          (page-StandsAt x _ (last_id id chunk) r a.0)

  pub batches-all_events :
      (f : ℕ) (id : Bytes) (rest : List XMessage)
      → length rest ≤ f
      → all_events (batches f id rev rest) ≡ parse_all rest
  unfolding batches
  batches-all_events zero id [] l = unfold parse_all in refl
  batches-all_events zero id (x ∷ rest) l = absurd (omega (arith, l))
  batches-all_events (suc f) id [] l = unfold parse_all in refl
  batches-all_events (suc f) id (x ∷ rest) l =
      let chunk = at_most read_batch_size (x ∷ rest) in
      let later = leftover read_batch_size (x ∷ rest) in
      ap (λ l. parse_all chunk ++ l)
        (batches-all_events f (last_id id chunk) later
          (length-leftover read_batch_size f (x ∷ rest) l))
      ∙ (sym (parse_all-append chunk later)
          ∙ ap parse_all (at_most-leftover read_batch_size (x ∷ rest)))

  pub batches-IsRead :
      (f : ℕ) (id : Bytes) (rest : List XMessage)
      → AllParse rest
      → All IsRead (batches f id rev rest)
  unfolding batches
  batches-IsRead zero id rest a = tt
  batches-IsRead (suc f) id [] a = tt
  batches-IsRead (suc f) id (x ∷ rest) a =
      let chunk = at_most read_batch_size (x ∷ rest) in
      let later = leftover read_batch_size (x ∷ rest) in
      let split : chunk ++ later ≡ x ∷ rest = at_most-leftover read_batch_size (x ∷ rest) in
      (
        record { few = omega arith; full = parse_all-full x _ a.0 },
        batches-IsRead f (last_id id chunk) later
            (AllParse-right chunk later (AllParse-at (chunk ++ later) (x ∷ rest) split a)),
      )
