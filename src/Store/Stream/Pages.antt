-- ===== src/Store/Stream/Pages.antt =====
-- Reading the stream page by page.
use retcd.Prelude.{
  ℕ, zero, suc, ◌≤◌, ◌≡◌, refl, true, false, ◌||◌, List, [], ◌∷◌, ◌++◌, some, arith, ap, ◌∙◌, sym,
  length, take, drop, if◌then◌else◌, ◌==◌,
}
use mathlib.Core.List.{append-nil, append_assoc}
use retcd.Bytes.{Bytes, str_eq}
use retcd.Bytes.Order.{str_eq_refl, str_eq_iff}
use retcd.Redis.{Redis, is_start, behind, has_id, entries_after, at_most, as_stream}
use retcd.Store.Event.{Event, XMessage}
use retcd.Store.Script.{event_stream}
use retcd.Store.Mvcc.{Mvcc}
use retcd.Store.Refine.{parse_all, Refines}
use retcd.Store.Refine.Codec.{parse_all-append}
use retcd.Store.Client.{read_failed, ok, World, Io, ◌>>=◌, pure}
use retcd.Store.Client.Reads.{call-read}
use retcd.Store.Stream.{read_messages, block_read_events}

-- The IDs of the entries are different, and none is the one that stands for the start.
abbrev pub IsDistinct : List XMessage → Type 0
IsDistinct [] = Unit {0}
IsDistinct (e ∷ es) = ((has_id e.id es ≡ false) × (is_start e.id ≡ false)) × IsDistinct es

-- The ID to read on from, behind some entries.
unfoldable pub last_id : Bytes → List XMessage → Bytes
last_id id [] = id
last_id id (e ∷ es) = last_id e.id es

read_messages-is :
    (id : Bytes) (es : List XMessage) → read_messages id es ≡ (parse_all es, last_id id es)
unfolding read_messages parse_all last_id
read_messages-is id [] = refl
read_messages-is id (e ∷ es) = rw (read_messages-is e.id es) refl

has_id-append :
    (id : Bytes) (xs ys : List XMessage) → has_id id xs ≡ true → has_id id (xs ++ ys) ≡ true
unfolding has_id
has_id-append id [] ys h = cc
has_id-append id (x ∷ xs) ys h = ground (arith, has_id-append id xs ys)

has_id-last : (e : XMessage) (es : List XMessage) → has_id (last_id e.id es) (e ∷ es) ≡ true
unfolding has_id last_id
has_id-last e [] = rw (str_eq_refl e.id) refl
has_id-last e (x ∷ es) = ground (arith, has_id-last x es)

distinct_ne :
    (e : XMessage) (es : List XMessage) (id : Bytes)
    → has_id id es ≡ true
    → IsDistinct (e ∷ es)
    → str_eq e.id id ≡ false
distinct_ne e es id h d =
    ground (arith, h, d.0.0, str_eq_iff e.id id, ap (λ i. has_id i es) {x = e.id} {y = id})

-- Behind the last of some entries stand the later ones.
behind-last :
    (e : XMessage) (es rest : List XMessage)
    → IsDistinct (e ∷ (es ++ rest))
    → behind (last_id e.id es) (e ∷ (es ++ rest)) ≡ rest
unfolding behind last_id
behind-last e [] rest d = rw (str_eq_refl e.id) refl
behind-last e (x ∷ es) rest d =
    rw
      (distinct_ne e (x ∷ (es ++ rest)) (last_id x.id es)
        (has_id-append (last_id x.id es) (x ∷ es) rest (has_id-last x es)) d)
      (behind-last x es rest d.1)

is_start-last :
    (e : XMessage) (es rest : List XMessage)
    → IsDistinct (e ∷ (es ++ rest))
    → is_start (last_id e.id es) ≡ false
unfolding last_id
is_start-last e [] rest d = d.0.1
is_start-last e (x ∷ es) rest d = is_start-last x es rest d.1

pub last_id-append :
    (id : Bytes) (xs ys : List XMessage) → last_id id (xs ++ ys) ≡ last_id (last_id id xs) ys
unfolding last_id
last_id-append id [] ys = refl
last_id-append id (x ∷ xs) ys = last_id-append x.id xs ys

-- What a read with a COUNT leaves.
abbrev pub leftover : ℕ → List XMessage → List XMessage
leftover n es = if n == 0 then [] else drop n es

suc_ne_zero : (n : ℕ) → (suc n == 0) ≡ false
suc_ne_zero n = ground arith

at_most-nil : (n : ℕ) → at_most n [] ≡ []
at_most-nil zero = refl
at_most-nil (suc n) = rw (suc_ne_zero n) refl

take-drop : (n : ℕ) (es : List XMessage) → take n es ++ drop n es ≡ es
take-drop zero es = refl
take-drop (suc n) [] = refl
take-drop (suc n) (e ∷ es) = ap (λ l. e ∷ l) (take-drop n es)

pub at_most-leftover : (n : ℕ) (es : List XMessage) → at_most n es ++ leftover n es ≡ es
at_most-leftover zero es = append-nil es
at_most-leftover (suc n) es = rw (suc_ne_zero n) (take-drop (suc n) es)

length-drop : (n : ℕ) (es : List XMessage) → length (drop n es) ≤ length es
length-drop zero es = omega arith
length-drop (suc n) [] = omega arith
length-drop (suc n) (e ∷ es) = omega (arith, length-drop n es)

pub length-leftover :
    (n f : ℕ) (es : List XMessage) → length es ≤ suc f → length (leftover n es) ≤ f
length-leftover zero f es h = omega arith
length-leftover (suc n) f [] h = rw (suc_ne_zero n) (omega arith)
length-leftover (suc n) f (e ∷ es) h = rw (suc_ne_zero n) (omega (arith, h, length-drop n es))

-- Where a reader stands that has read `pre`.
known :
    (start : Bytes) (pre rest : List XMessage)
    → is_start start ≡ true
    → IsDistinct (pre ++ rest)
    → (entries_after (last_id start pre) (pre ++ rest) ≡ rest)
      × ((is_start (last_id start pre) || has_id (last_id start pre) (pre ++ rest)) ≡ true)
unfolding last_id
known start [] rest s d = (rw s refl, rw s refl)
known start (e ∷ pre) rest s d = (
  rw (is_start-last e pre rest d) (behind-last e pre rest d),
  rw (is_start-last e pre rest d)
      (has_id-append (last_id e.id pre) (e ∷ pre) rest (has_id-last e pre)),
)

module _ (R : Redis) where
  -- So many reads, each from the ID that the one before returned.
  unfoldable pub pages : ℕ → Bytes → ℕ → Io R (List Event)
  pages zero id n = pure R []
  pages (suc f) id n = do
    page ← block_read_events R id n
    rest ← pages f page.1 n
    pure R (page.0 ++ rest)

  module _ (w : World R) (es : List XMessage) (h : as_stream (R.value w.db event_stream) ≡ some es)
      (d : IsDistinct es) (calm : w.fates ≡ []) (start : Bytes) (s : is_start start ≡ true)
      (n : ℕ) where
    pub block_read_events-page :
        (pre rest : List XMessage)
        → es ≡ pre ++ rest
        → block_read_events R (last_id start pre) n w
          ≡ (ok (parse_all (at_most n rest), last_id start (pre ++ at_most n rest)), w)
    unfolding block_read_events pure
    block_read_events-page pre rest e =
        let id = last_id start pre in
        let k = known start pre rest s (rw⁻¹ e d) in
        rw
          (
            call-read R read_failed (λ db. R.xread db event_stream id n) w calm,
            R.xread-value w.db event_stream id n es h (rw e k.1),
            e,
            k.0,
            read_messages-is id (at_most n rest),
            last_id-append start pre (at_most n rest),
          )
          refl

    pages-rest :
        (f : ℕ) (pre rest : List XMessage)
        → es ≡ pre ++ rest
        → length rest ≤ f
        → pages f (last_id start pre) n w ≡ (ok (parse_all rest), w)
    unfolding pages pure
    pages-rest zero pre [] e l = unfold parse_all in refl
    pages-rest zero pre (x ∷ rest) e l = absurd (omega (arith, l))
    pages-rest (suc f) pre rest e l =
        rw
          (
            block_read_events-page pre rest e,
            pages-rest f (pre ++ at_most n rest) (leftover n rest)
                (e
                  ∙ (ap (λ l. pre ++ l) (sym (at_most-leftover n rest))
                      ∙ sym (append_assoc pre (at_most n rest) (leftover n rest))))
                (length-leftover n f rest l),
            sym (parse_all-append (at_most n rest) (leftover n rest)),
            at_most-leftover n rest,
          )
          refl

  -- The stream of a database that stands for a state, with entries of different IDs, is read from its
  -- start in as many reads as it has entries, whatever their COUNT; if the calls are answered, they
  -- return the whole history in its order, and a read from its end returns nothing.
  pub pages-history :
      (w : World R) (m : Mvcc) (es : List XMessage) (start : Bytes) (n f : ℕ)
      → Refines R w.db m
      → as_stream (R.value w.db event_stream) ≡ some es
      → IsDistinct es
      → is_start start ≡ true
      → w.fates ≡ []
      → length es ≤ f
      → (pages f start n w ≡ (ok m.history, w))
        × (block_read_events R (last_id start es) n w ≡ (ok ([], last_id start es), w))
  unfolding last_id
  pages-history w m es start n f r h d s calm enough = (
    pages-rest w es h d calm start s n f [] es refl enough
        ∙ ap (λ evs. (ok evs, w))
            (ap parse_all (entries_are (sym h ∙ r.has.log)) ∙ r.agrees.history),
    block_read_events-page w es h d calm start s n es [] (sym (append-nil es))
        ∙ rw (at_most-nil n, append-nil es) (unfold parse_all in refl),
  )
    where
      entries_are : {a b : List XMessage} → some a ≡ some b → a ≡ b
      entries_are e = cc
