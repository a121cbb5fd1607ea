-- ===== src/Store/Lease/Attach.antt =====
-- Puts and deletes keep the key sets of the leases.
use retcd.Prelude.{
  ℕ, ◌+◌, ◌≤◌, ◌<◌, ◌^◌, ◌≡◌, refl, List, [], ◌∷◌, arith, ◌∙◌, length, length-append, All, sym,
  Bool-cases, inl, inr, ◌==◌, ==_iff,
}
use retcd.Bytes.{Bytes}
use retcd.Bytes.{str_eq}
use retcd.Redis.{Redis, without}
use retcd.Store.Mvcc.{Mvcc, IsExact}
use retcd.Store.Refine.{Refines, encoded}
use retcd.Store.Refine.Write.{detached, attached, relinked, write_put-Has}
use retcd.Store.Refine.Write.Spec
use retcd.Store.Refine.Write.Spec.{current_is}
use retcd.Store.Event.{put_op}
use retcd.Store.Script.{redis_key, lease_keys_key, write_script}
use retcd.Store.Keyspace.Apart.{IsApart}
use retcd.Store.Client.{Result, ok, World, pure}
use retcd.Store.Client.Writes.{puts, put-run}
use retcd.Store.Client.Runs.{no_writes, put_logged}
use retcd.Store.Client.Log.{
  Write, putting, deleting, swapping, perform, perform_all, Logged, joined,
}
use retcd.Store.Lease.Linked.{IsLinked, put-IsLinked, update_lease_at, lease_of, fits, cur_is}
use retcd.Store.Lease.Emptied.{IsSound, delete_one, set_size, length-without, length-detached}

-- A put or a delete, by store/write.lua.
abbrev pub IsPlain : Write → Type 0
IsPlain (putting key value lease) = lease < 2 ^ 63
IsPlain (deleting key) = Unit {0}
IsPlain (swapping key expected value lease) = ⊥

length-attached :
    (key : Bytes) (lease n : ℕ) (ls : ℕ → List Bytes)
    → lease < 2 ^ 63
    → n < 2 ^ 63
    → length (attached key lease ls n) ≤ length (ls n) + 1
length-attached key lease n ls hl hn = elim (Bool-cases (lease == 0)) [
  | inl e ↦ rw e (omega arith)
  | inr e ↦ rw e (
      rw (update_lease_at ls lease n (key ∷ without key (ls lease)) hl hn)
        (elim (Bool-cases (lease == n)) [
          | inl same ↦
              rw same (rw ((==_iff lease n).0 same) (omega (arith, length-without key (ls n))))
          | inr other ↦ rw other (omega arith)
        ]))
]

length-relinked :
    (key : Bytes) (cur lease n : ℕ) (ls : ℕ → List Bytes)
    → cur < 2 ^ 63
    → lease < 2 ^ 63
    → n < 2 ^ 63
    → length (relinked key cur lease ls n) ≤ length (ls n) + 1
length-relinked key cur lease n ls hc hl hn = elim (Bool-cases (cur == lease)) [
  | inl e ↦ rw e (length-attached key lease n ls hl hn)
  | inr e ↦ rw e (
      omega (
        arith,
        length-attached key lease n (detached key cur ls) hl hn,
        length-detached key cur n ls hc hn,
      ))
]

module _ (R : Redis) where
  -- Writes that are done, and the sets are those of the state behind them.
  pub record Kept (w : World R) (m : Mvcc) (grown : ℕ) (out : Result (Unit {0}) × World R)
      : Type 0 where
    pub returned : out.0 ≡ ok tt
    pub logged : Logged R w m out.1
    pub few : length logged.new ≤ grown
    pub linked : IsLinked R out.1.db logged.state
    pub sizes :
        (n : ℕ)
        → n < 2 ^ 63
        → set_size (R.value out.1.db (lease_keys_key n))
          ≤ set_size (R.value w.db (lease_keys_key n)) + grown
    pub frame : (k : Bytes) → IsApart k → R.value out.1.db k ≡ R.value w.db k

  put-frame :
      (db : R.Db) (m : Mvcc) (r : Refines R db m) (x : IsExact m) (key value : Bytes) (lease : ℕ)
      (k : Bytes)
      → IsApart k
      → R.value (write_script R (redis_key key) put_op value lease db).1 k ≡ R.value db k
  unfolding write_script str_eq
  put-frame db m r x key value lease k a = rw (current_is R db m r x key) (
      (write_put-Has R db r.shape key value (encoded (m.at key)) lease r.has
          (Spec.room R db m r x key)).others
        k a
      ∙ sym (r.has.others k a))

  put-sizes :
      (db : R.Db) (m : Mvcc) (r : Refines R db m) (x : IsExact m) (l : IsLinked R db m)
      (key value : Bytes) (lease n : ℕ)
      → lease < 2 ^ 63
      → n < 2 ^ 63
      → set_size
          (R.value (write_script R (redis_key key) put_op value lease db).1 (lease_keys_key n))
        ≤ set_size (R.value db (lease_keys_key n)) + 1
  unfolding write_script str_eq
  put-sizes db m r x l key value lease n hl hn = rw (current_is R db m r x key) (
      rw
        (
          (write_put-Has R db r.shape key value (encoded (m.at key)) lease r.has
                (Spec.room R db m r x key)).leases
              n,
          r.has.leases n,
          cur_is R db m r x l key,
        )
        (length-relinked key (lease_of (m.at key)) lease n r.shape.leases (fits R db m r x l key) hl
          hn))

  perform-Kept :
      (op : Write) (w : World R) (m : Mvcc)
      → IsSound R w m
      → IsPlain op
      → m.revision + 2 < 2 ^ 63
      → Kept w m 1 (perform R op w)
  unfolding pure
  perform-Kept (putting key value lease) w m i fits room =
      let done = puts R w m i.refines i.exact key value lease fits in
      rw (put-run R w m i.refines i.exact key value lease fits i.calm i.on) (record {
        returned = refl;
        logged =
            put_logged R w _ m key value lease done.sid i.exact fits room done.refines refl i.calm
              i.on;
        few = omega arith;
        linked = put-IsLinked R w.db m i.refines i.exact i.linked key value lease done.sid fits;
        sizes = λ n hn. put-sizes w.db m i.refines i.exact i.linked key value lease n fits hn;
        frame = λ k a. put-frame w.db m i.refines i.exact key value lease k a;
      })
  perform-Kept (deleting key) w m i fits room =
      let ((v, done), e) = delete_one R w m i key room in
      rw done (record {
        returned = refl;
        logged = e.logged;
        few = e.few;
        linked = e.linked;
        sizes = λ n hn. omega (arith, e.shrinks n hn);
        frame = e.frame;
      })
  perform-Kept (swapping key expected value lease) w m i fits room = elim fits [ ]

  perform_all-then :
      (op : Write) (ops : List Write) (w : World R)
      → (perform R op w).0 ≡ ok tt
      → perform_all R (op ∷ ops) w ≡ perform_all R ops (perform R op w).1
  unfolding perform_all
  perform_all-then op ops w done = rw done refl

  -- Any number of puts and deletes, if their calls are answered and the counter has room for them, keep
  -- the key sets of the leases: if each held exactly the keys whose current version was written under
  -- the lease, each does so afterwards. The sink hears the events that the history gains, a key set
  -- grows by no more keys than there are writes, and no other Redis key than the store's is changed.
  pub perform_all-Kept :
      (ops : List Write) (w : World R) (m : Mvcc)
      → IsSound R w m
      → All IsPlain ops
      → m.revision + length ops + 1 < 2 ^ 63
      → Kept w m (length ops) (perform_all R ops w)
  unfolding perform_all pure
  perform_all-Kept [] w m i plain room = record {
    returned = refl;
    logged = no_writes R w m i.refines i.exact i.calm i.on;
    few = omega arith;
    linked = i.linked;
    sizes = λ n hn. omega arith;
    frame = λ k a. refl;
  }
  perform_all-Kept (op ∷ ops) w m i plain room =
      let first = perform-Kept op w m i plain.0 (omega (arith, room)) in
      let l = first.logged in
      let w' = (perform R op w).1 in
      let rest =
        perform_all-Kept ops w' l.state
          (record {
            refines = l.refines;
            exact = l.exact;
            linked = first.linked;
            calm = l.calm;
            on = l.on;
          })
          plain.1 (omega (arith, room, l.revision, first.few)) in
      rw (perform_all-then op ops w first.returned) (record {
        returned = rest.returned;
        logged = joined R w m w' l (perform_all R ops w').1 rest.logged;
        few = omega (arith, first.few, rest.few, length-append l.new rest.logged.new);
        linked = rest.linked;
        sizes = λ n hn. omega (arith, first.sizes n hn, rest.sizes n hn);
        frame = λ k a. rest.frame k a ∙ first.frame k a;
      })
