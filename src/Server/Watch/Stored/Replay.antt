-- ===== src/Server/Watch/Stored/Replay.antt =====
-- What a catch-up on the stream has sent.
use retcd.Prelude.{
  ℕ, suc, ◌≤◌, ◌<◌, ◌≡◌, refl, true, List, [], ◌∷◌, ◌++◌, some, arith, ap, sym, ◌∙◌, length, All,
}
use retcd.Bytes.{Bytes}
use retcd.Redis.{Redis, is_start, as_stream}
use retcd.Store.Event.{Event, XMessage}
use retcd.Store.Script.{event_stream}
use retcd.Store.Mvcc.{Mvcc}
use retcd.Store.Refine.{parse_all, Refines}
use retcd.Store.Refine.Codec.{parse_all-append}
use retcd.Store.Client.{World}
use retcd.Store.Stream.Pages.{IsDistinct, last_id}
use retcd.Server.Watch.{WatchSpec, WatchResponse, Reader, Progress, reading, returned}
use retcd.Server.Watch.Wanted.{wanted_past, IsAscending, events_of, wanted_past-append}
use retcd.Server.Watch.CatchUp.{rounds-CaughtUp}
use retcd.Server.Watch.Stored.{stored_catch_up}
use retcd.Server.Watch.Stored.Rounds.{
  batches, StandsAt, AllParse, stored-batches, batches-all_events, batches-IsRead, AllParse-right,
  AllParse-at,
}

-- Nothing of a watch is older than its start.
wanted_past-early :
    (s : WatchSpec) (evs : List Event)
    → All (λ ev. ev.rev < s.start_revision) evs
    → wanted_past s evs ≡ []
unfolding wanted_past
wanted_past-early s [] a = refl
wanted_past-early s (ev ∷ evs) a = ground (arith, wanted_past-early s evs a.1, a.0)

IsAscending-tail : (xs ys : List Event) → IsAscending (xs ++ ys) → IsAscending ys
IsAscending-tail [] ys h = h
IsAscending-tail (x ∷ xs) ys h = IsAscending-tail xs ys h.1

-- What a catch-up on the store comes to: it returns true, the store is as it was, and what it has
-- sent is what the watch wants of the history.
pub record Replayed {R : Redis} (s : WatchSpec) (history : List Event) (w : World R)
    (run : Progress × World R) : Type 0 where
  pub sent : List WatchResponse
  pub finished : run ≡ (returned true sent, w)
  pub complete : events_of sent ≡ wanted_past s history

-- A database whose stream a watch can read: it stands for a state, and the stream's entries have
-- different IDs and parse to events in the order of their revisions.
pub record Readable (R : Redis) (w : World R) (m : Mvcc) (es : List XMessage) : Type 0 where
  pub refines : Refines R w.db m
  pub entries : as_stream (R.value w.db event_stream) ≡ some es
  pub distinct : IsDistinct es
  pub parse : AllParse es
  pub ascending : IsAscending m.history
  pub calm : w.fates ≡ []

-- Let the stream of a database be readable, and let the calls and Sends succeed. Started from the
-- beginning, or behind entries whose events are older than the watch's start, the catch-up reads the
-- stream in pages of 1000 entries and returns true within as many rounds as there are entries and one
-- more; what it has sent is every event of the history in the watch's range, from its start revision
-- up to the boundary, each once and in order.
pub stored_catch_up-Replayed :
    (R : Redis) (w : World R) (m : Mvcc) (es pre rest : List XMessage) (start : Bytes)
    → Readable R w m es
    → is_start start ≡ true
    → es ≡ pre ++ rest
    → (s : WatchSpec) (rev f : ℕ) → All (λ ev. ev.rev < s.start_revision) (parse_all pre)
    → length rest ≤ f
    → Replayed s m.history w (stored_catch_up R (suc f) s rev (last_id start pre) w)
unfolding stored_catch_up StandsAt events_of
stored_catch_up-Replayed R w m es pre rest start b st split s rev f early enough =
    let r = b.refines in
    let h = b.entries in
    let a = AllParse-right pre rest (AllParse-at (pre ++ rest) es (sym split) b.parse) in
    let first = last_id start pre in
    let reader : Reader = record { last_id = first; consec_err = 0; sent = [] } in
    let same : es ≡ r.shape.entries = entries_are (sym h ∙ r.has.log) in
    let parts : m.history ≡ parse_all pre ++ parse_all rest =
      sym r.agrees.history ∙ (ap parse_all (sym same ∙ split) ∙ parse_all-append pre rest) in
    let all = batches-all_events R w es h b.distinct b.calm start st s rev f first rest enough in
    let caught =
      rounds-CaughtUp s (batches f first rev rest) reader
        (batches-IsRead R w es h b.distinct b.calm start st s rev f first rest a)
        (rw all (IsAscending-tail (parse_all pre) (parse_all rest) (rw⁻¹ parts b.ascending)))
        refl in
    record {
      sent = caught.sent;
      finished =
          stored-batches R w es h b.distinct b.calm start st s rev f pre rest first (reading reader)
            split enough a refl refl
          ∙ ap (λ p. (p, w)) caught.finished;
      complete =
          caught.complete
          ∙ rw
              (
                all,
                parts,
                wanted_past-append s (parse_all pre) (parse_all rest),
                wanted_past-early s (parse_all pre) early,
              )
              refl;
    }
  where
    entries_are : {a b : List XMessage} → some a ≡ some b → a ≡ b
    entries_are e = cc
