-- ===== src/Store/Client/Log.antt =====
-- Sequences of writes, and what a sequence leaves when all of it is logged.
use retcd.Prelude.{
  ℕ, suc, ◌+◌, ◌≤◌, ◌<◌, ◌^◌, ◌≡◌, refl, true, List, [], ◌∷◌, ◌++◌, Option, none, some, ℤ, arith,
  ap, ◌∙◌, length, length-append,
}
use mathlib.Core.List.{append_assoc}
use retcd.Bytes.{Bytes}
use retcd.Redis.{Redis}
use retcd.Store.Blob.{KeyValue}
use retcd.Store.Event.{Event, put_op}
use retcd.Store.Mvcc.{Mvcc, IsExact, next_kv, put_event, delete_event, passes}
use retcd.Store.Mvcc
use retcd.Store.Refine.{Refines}
use retcd.Store.Client.{Result, ok, World, Io, ◌>>=◌, pure, put, delete, txn}

pub data Write : Type 0 where
  putting : Bytes → Bytes → ℕ → Write
  deleting : Bytes → Write
  swapping : Bytes → ℤ → Bytes → ℕ → Write

abbrev pub FitsLease : Write → Type 0
FitsLease (putting key value lease) = lease < 2 ^ 63
FitsLease (deleting key) = Unit {0}
FitsLease (swapping key expected value lease) = lease < 2 ^ 63

-- A call whose result the caller does not look at.
abbrev pub discard : {R : Redis} {A : Type 0} → Io R A → Io R (Unit {0})
discard {R} m = m >>= λ a. pure R tt

abbrev pub perform : (R : Redis) → Write → Io R (Unit {0})
perform R (putting key value lease) = discard (put R key value lease)
perform R (deleting key) = discard (delete R key)
perform R (swapping key expected value lease) = discard (txn R key expected put_op value lease)

unfoldable pub perform_all : (R : Redis) → List Write → Io R (Unit {0})
perform_all R [] = pure R tt
perform_all R (op ∷ ops) = do written ← perform R op; perform_all R ops

-- The revisions that follow `n`, one after the other.
abbrev pub IsConsecutive : ℕ → List Event → Type 0
IsConsecutive n [] = Unit {0}
IsConsecutive n (ev ∷ evs) = (ev.rev ≡ suc n) × IsConsecutive (suc n) evs

-- Writes that left the world `w'`: the events that the sink heard are what the history has gained.
pub record Logged (R : Redis) (w : World R) (m : Mvcc) (w' : World R) : Type 0 where
  pub new : List Event
  pub state : Mvcc
  pub emitted : w'.emitted ≡ w.emitted ++ new
  pub history : state.history ≡ m.history ++ new
  pub numbered : IsConsecutive m.revision new
  pub revision : state.revision ≡ m.revision + length new
  pub refines : Refines R w'.db state
  pub exact : IsExact state
  pub calm : w'.fates ≡ []
  pub on : w'.sink ≡ true

IsConsecutive-at : (a b : ℕ) (ys : List Event) → a ≡ b → IsConsecutive a ys → IsConsecutive b ys
IsConsecutive-at a b ys e c = rw⁻¹ e c

pub append-IsConsecutive :
    (n k : ℕ) (xs ys : List Event)
    → k ≡ n + length xs
    → IsConsecutive n xs
    → IsConsecutive k ys
    → IsConsecutive n (xs ++ ys)
append-IsConsecutive n k [] ys e a b = IsConsecutive-at k n ys (omega (arith, e)) b
append-IsConsecutive n k (x ∷ xs) ys e a b =
    (a.0, append-IsConsecutive (suc n) k xs ys (omega (arith, e)) a.1 b)

abbrev pub joined :
    (R : Redis) (w : World R) (m : Mvcc) (w' : World R) (a : Logged R w m w') (w'' : World R)
    → Logged R w' a.state w''
    → Logged R w m w''
joined R w m w' a w'' b = record {
  new = a.new ++ b.new;
  state = b.state;
  emitted = b.emitted ∙ (ap (λ l. l ++ b.new) a.emitted ∙ append_assoc w.emitted a.new b.new);
  history = b.history ∙ (ap (λ l. l ++ b.new) a.history ∙ append_assoc m.history a.new b.new);
  numbered =
      append-IsConsecutive m.revision a.state.revision a.new b.new a.revision a.numbered b.numbered;
  revision = omega (arith, length-append a.new b.new, a.revision, b.revision);
  refines = b.refines;
  exact = b.exact;
  calm = b.calm;
  on = b.on;
}

pub rev-next_kv :
    (key value : Bytes) (lease rev : ℕ) (o : Option KeyValue)
    → (next_kv key value lease rev o).mod_revision ≡ rev
unfolding next_kv
rev-next_kv key value lease rev none = refl
rev-next_kv key value lease rev (some prev) = refl

pub history-put :
    (key value : Bytes) (lease : ℕ) (sid : Bytes) (m : Mvcc)
    → (Mvcc.put key value lease sid m).history
      ≡ m.history
        ++ put_event key (next_kv key value lease (suc m.revision) (m.at key)) (m.at key) sid ∷ []
unfolding Mvcc.put
history-put key value lease sid m = refl

pub revision-put :
    (key value : Bytes) (lease : ℕ) (sid : Bytes) (m : Mvcc)
    → (Mvcc.put key value lease sid m).revision ≡ m.revision + 1
unfolding Mvcc.put
revision-put key value lease sid m = omega arith

-- A write that is done and left the world `out.1`.
pub record Performed (R : Redis) (w : World R) (m : Mvcc) (grown : ℕ) {A : Type 0}
    (out : Result A × World R) : Type 0 where
  pub value : A
  pub returned : out.0 ≡ ok value
  pub logged : Logged R w m out.1
  pub few : length logged.new ≤ grown
