-- ===== src/Server/Kv/Deletes.antt =====
-- DeleteRange: which keys it deletes, and the events of it.
use retcd.Prelude.{
  ℕ, suc, ◌+◌, ◌<◌, ◌^◌, ◌≡◌, refl, Bool, true, false, ◌&&◌, List, [], ◌∷◌, ◌++◌, Option, none,
  some, is_some, arith, ap, ◌∙◌, if◌then◌else◌, length, length-append, Bool-cases, inl, inr,
  Option-cases,
}
use retcd.Bytes.{Bytes, str_eq}
use retcd.Bytes.Order.{str_eq_iff, str_eq_refl, str_lt_irrefl}
use retcd.Redis.{Redis, contains}
use retcd.Store.Blob.{KeyValue}
use retcd.Store.Mvcc.{Mvcc, IsExact}
use retcd.Store.Refine.{Refines}
use retcd.Store.Refine.Index.{IsOrdered, Above}
use retcd.Store.Client.{Result, ok, World, pure, delete}
use retcd.Store.Client.Reads.{versions}
use retcd.Store.Client.Runs.{no_writes}
use retcd.Store.Client.Log.{Logged, joined}
use retcd.Store.Client.Removal.{Deleted, delete-Deleted}
use retcd.Server.Match.{in_range}
use retcd.Server.Kv.{delete_each}

-- The keys in the range, of some keys.
abbrev pub hit : Bytes → Bytes → List Bytes → Bytes → Bool
hit key range_end ks k = in_range key range_end k && contains k ks

-- Deletes that left the world of `out`: the keys that were hit are gone, the others are as before,
-- and each has one event.
pub record Removed (R : Redis) (w : World R) (m : Mvcc) (hits : Bytes → Bool) (before : ℕ)
    (out : Result ℕ × World R) : Type 0 where
  pub logged : Logged R w m out.1
  pub returned : out.0 ≡ ok (before + length logged.new)
  pub gone : (k : Bytes) → logged.state.at k ≡ (if hits k then none else m.at k)

contains-Above : (k : Bytes) (ks : List Bytes) → Above k ks → contains k ks ≡ false
unfolding contains
contains-Above k [] a = refl
contains-Above k (x ∷ ks) a =
    ground (arith, contains-Above k ks a.1, str_eq_iff x k, str_lt_irrefl k, a.0)

versions-there :
    (at : Bytes → Option KeyValue) (k : Bytes) (kv : KeyValue) (ks : List Bytes)
    → at k ≡ some kv
    → versions at (k ∷ ks) ≡ kv ∷ versions at ks
unfolding versions
versions-there at k kv ks h = rw h refl

module _ (R : Redis) (key range_end : Bytes) where
  delete_each-hit :
      (w : World R) (kv : KeyValue) (kvs : List KeyValue) (n rev : ℕ) (prev : Option KeyValue)
      → in_range key range_end kv.key ≡ true
      → (delete R kv.key w).0 ≡ ok (rev, prev)
      → delete_each R key range_end (kv ∷ kvs) n w
        ≡ delete_each R key range_end kvs (suc n) (delete R kv.key w).1
  unfolding delete_each
  delete_each-hit w kv kvs n rev prev h e = rw h (rw e refl)

  delete_each-miss :
      (w : World R) (kv : KeyValue) (kvs : List KeyValue) (n : ℕ)
      → in_range key range_end kv.key ≡ false
      → delete_each R key range_end (kv ∷ kvs) n w ≡ delete_each R key range_end kvs n w
  unfolding delete_each
  delete_each-miss w kv kvs n h = rw h refl

  -- The keys behind the first one are untouched by its delete.
  rest-agree :
      (at at' : Bytes → Option KeyValue) (k : Bytes) (ks : List Bytes)
      → Above k ks
      → ((j : Bytes) → at' j ≡ (if str_eq k j then none else at j))
      → (j : Bytes) → contains j ks ≡ true
      → at' j ≡ at j
  rest-agree at at' k ks above gone j c =
      ground (arith, gone j, str_eq_iff k j, contains-Above k ks above)

  -- What is known of the keys still to be looked at: they are there, as when they were read.
  pub record Unread (m : Mvcc) (at : Bytes → Option KeyValue) (ks : List Bytes) : Type 0 where
    pub ordered : IsOrdered ks
    pub agree : (k : Bytes) → contains k ks ≡ true → m.at k ≡ at k
    pub present : (k : Bytes) → contains k ks ≡ true → is_some (at k) ≡ true

  contains-first : (k : Bytes) (ks : List Bytes) → contains k (k ∷ ks) ≡ true
  unfolding contains
  contains-first k ks = ground (arith, str_eq_refl k)

  contains-later :
      (j k : Bytes) (ks : List Bytes) → contains j ks ≡ true → contains j (k ∷ ks) ≡ true
  unfolding contains
  contains-later j k ks h = ground arith

  hit-first :
      (k j : Bytes) (ks : List Bytes) (o : Option KeyValue)
      → in_range key range_end k ≡ true
      → (if hit key range_end ks j then none else (if str_eq k j then none else o))
        ≡ (if hit key range_end (k ∷ ks) j then none else o)
  unfolding contains
  hit-first k j ks o h = elim (Bool-cases (str_eq k j)) [
    | inl same ↦ ground (arith, same, ap (in_range key range_end) ((str_eq_iff k j).0 same), h)
    | inr other ↦ ground (arith, other)
  ]

  hit-outside :
      (k j : Bytes) (ks : List Bytes)
      → in_range key range_end k ≡ false
      → hit key range_end ks j ≡ hit key range_end (k ∷ ks) j
  unfolding contains
  hit-outside k j ks h = elim (Bool-cases (str_eq k j)) [
    | inl same ↦ ground (arith, ap (in_range key range_end) ((str_eq_iff k j).0 same), h)
    | inr other ↦ ground (arith, other)
  ]

  first-Removed :
      (w : World R) (m : Mvcc) (k : Bytes) (prev : KeyValue) (ks : List Bytes) (n : ℕ)
      (w' : World R) (d : Deleted R w m k prev w') (out : Result ℕ × World R)
      → in_range key range_end k ≡ true
      → Removed R w' d.logged.state (hit key range_end ks) (suc n) out
      → Removed R w m (hit key range_end (k ∷ ks)) n out
  first-Removed w m k prev ks n w' d out covered rest =
      let more : suc n + length rest.logged.new ≡ n + length (d.logged.new ++ rest.logged.new) =
        omega (arith, length-append d.logged.new rest.logged.new, d.one) in
      record {
        logged = joined R w m w' d.logged out.1 rest.logged;
        returned = rest.returned ∙ ap (λ v. ok v) more;
        gone = λ j.
            rest.gone j
            ∙ (ap (λ o. if hit key range_end ks j then none else o) (d.gone j)
                ∙ hit-first k j ks (m.at j) covered);
      }

  pub delete_each-Removed :
      (ks : List Bytes) (at : Bytes → Option KeyValue) (w : World R) (m : Mvcc) (n : ℕ)
      → Unread m at ks
      → Refines R w.db m
      → IsExact m
      → m.revision + length ks + 1 < 2 ^ 63
      → w.fates ≡ []
      → w.sink ≡ true
      → Removed R w m (hit key range_end ks) n (delete_each R key range_end (versions at ks) n w)
  delete_each-Removed [] at w m n u r x room calm on =
      let same : n ≡ n + 0 = omega arith in
      unfold versions delete_each pure contains in
      record {
        logged = no_writes R w m r x calm on;
        returned = ap (λ v. ok v) same;
        gone = λ k. ground arith;
      }
  delete_each-Removed (k ∷ ks) at w m n u r x room calm on = elim (Option-cases (at k)) [
    | inl none_there ↦ absurd (ground (arith, none_there, u.present k (contains-first k ks)))
    | inr (kv, read) ↦
        let there = u.agree k (contains-first k ks) ∙ read in
        let named = x.key_is k kv there in
        let split = versions-there at k kv ks read in
        elim (Bool-cases (in_range key range_end k)) [
          | inl covered ↦
              let (done, d) = delete-Deleted R w m k kv r x there (omega (arith, room)) calm on in
              let l = d.logged in
              let rest =
                delete_each-Removed ks at (delete R k w).1 l.state (suc n)
                  (record {
                    ordered = u.ordered.1;
                    agree = λ j c.
                        rest-agree m.at l.state.at k ks u.ordered.0 d.gone j c
                        ∙ u.agree j (contains-later j k ks c);
                    present = λ j c. u.present j (contains-later j k ks c);
                  })
                  l.refines l.exact (omega (arith, room, l.revision, d.one)) l.calm l.on in
              rw split (
                rw
                  (delete_each-hit w kv (versions at ks) n (suc m.revision) (some kv)
                      (ap (in_range key range_end) named ∙ covered)
                      (ap (λ z. (delete R z w).0) named ∙ done)
                    ∙ ap
                        (λ z. delete_each R key range_end (versions at ks) (suc n) (delete R z w).1)
                        named)
                  (first-Removed w m k kv ks n (delete R k w).1 d
                    (delete_each R key range_end (versions at ks) (suc n) (delete R k w).1) covered
                    rest))
          | inr outside ↦
              let rest =
                delete_each-Removed ks at w m n
                  (record {
                    ordered = u.ordered.1;
                    agree = λ j c. u.agree j (contains-later j k ks c);
                    present = λ j c. u.present j (contains-later j k ks c);
                  })
                  r x (omega (arith, room)) calm on in
              rw split (
                rw
                  (delete_each-miss w kv (versions at ks) n
                    (ap (in_range key range_end) named ∙ outside))
                  (record {
                    logged = rest.logged;
                    returned = rest.returned;
                    gone = λ j.
                        rest.gone j
                        ∙ ap (λ b. if b then none else m.at j) (hit-outside k j ks outside);
                  }))
        ]
  ]
