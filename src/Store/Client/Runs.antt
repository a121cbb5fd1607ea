-- ===== src/Store/Client/Runs.antt =====
-- Any number of writes one after the other: what the sink has heard of them.
use retcd.Prelude.{
  ℕ, suc, ◌+◌, ◌≤◌, ◌<◌, ◌^◌, ◌≡◌, refl, true, List, [], ◌∷◌, ◌++◌, Bool-cases, Option-cases, inl,
  inr, arith, sym, length, length-append, All,
}
use mathlib.Core.List.{append-nil}
use retcd.Bytes.{Bytes}
use retcd.Redis.{Redis}
use retcd.Store.Mvcc.{Mvcc, IsExact, next_kv, put_event, delete_event, passes}
use retcd.Store.Mvcc
use retcd.Store.Mvcc.Exact.{put-IsExact, delete-IsExact}
use retcd.Store.Refine.{Refines}
use retcd.Store.Client.{ok, World, pure}
use retcd.Store.Client.Swaps.{swaps, txn-swap, txn-refused}
use retcd.Store.Client.Writes.{puts, deletes, put-run, delete-run, delete-absent}
use retcd.Store.Client.Log.{
  FitsLease, Logged, Performed, Write, deleting, swapping, history-put, joined, perform,
  perform_all, putting, rev-next_kv, revision-put,
}

module _ (R : Redis) where
  -- A put that is done, by `Put` or by a swap.
  abbrev pub put_logged :
      (w w' : World R) (m : Mvcc) (key value : Bytes) (lease : ℕ) (sid : Bytes)
      → IsExact m
      → lease < 2 ^ 63
      → m.revision + 2 < 2 ^ 63
      → Refines R w'.db (Mvcc.put key value lease sid m)
      → w'.emitted
        ≡ w.emitted
          ++ put_event key (next_kv key value lease (suc m.revision) (m.at key)) (m.at key) sid ∷ []
      → w'.fates ≡ []
      → w'.sink ≡ true
      → Logged R w m w'
  put_logged w w' m key value lease sid x fits room r' heard calm on = record {
    new = put_event key (next_kv key value lease (suc m.revision) (m.at key)) (m.at key) sid ∷ [];
    state = Mvcc.put key value lease sid m;
    emitted = heard;
    history = history-put key value lease sid m;
    numbered = (rev-next_kv key value lease (suc m.revision) (m.at key), tt);
    revision = revision-put key value lease sid m;
    refines = r';
    exact = put-IsExact m x room key value lease sid fits;
    calm = calm;
    on = on;
  }

  put-Logged :
      (w w' : World R) (m : Mvcc) (key value : Bytes) (lease : ℕ) (sid : Bytes)
      → IsExact m
      → lease < 2 ^ 63
      → m.revision + 2 < 2 ^ 63
      → Refines R w'.db (Mvcc.put key value lease sid m)
      → w'.emitted
        ≡ w.emitted
          ++ put_event key (next_kv key value lease (suc m.revision) (m.at key)) (m.at key) sid ∷ []
      → w'.fates ≡ []
      → w'.sink ≡ true
      → (l : Logged R w m w') × (length l.new ≤ 1)
  put-Logged w w' m key value lease sid x fits room r' heard calm on =
      (put_logged w w' m key value lease sid x fits room r' heard calm on, omega arith)

  -- A call that changed nothing.
  nothing-Logged :
      (w : World R) (m : Mvcc)
      → Refines R w.db m
      → IsExact m
      → w.fates ≡ []
      → w.sink ≡ true
      → (l : Logged R w m w) × (length l.new ≤ 1)
  nothing-Logged w m r x calm on = (
    record {
      new = [];
      state = m;
      emitted = sym (append-nil w.emitted);
      history = sym (append-nil m.history);
      numbered = tt;
      revision = omega arith;
      refines = r;
      exact = x;
      calm = calm;
      on = on;
    },
    omega arith,
  )

  performed :
      (w w' : World R) (m : Mvcc)
      → (l : Logged R w m w') × (length l.new ≤ 1)
      → Performed R w m 1 {A = Unit {0}} (ok tt, w')
  performed w w' m (l, few) = record { value = tt; returned = refl; logged = l; few = few }

  pub perform-Performed :
      (op : Write) (w : World R) (m : Mvcc)
      → Refines R w.db m
      → IsExact m
      → FitsLease op
      → m.revision + 2 < 2 ^ 63
      → w.fates ≡ []
      → w.sink ≡ true
      → Performed R w m 1 (perform R op w)
  unfolding pure
  perform-Performed (putting key value lease) w m r x fits room calm on =
      let done = puts R w m r x key value lease fits in
      rw (put-run R w m r x key value lease fits calm on) (
        performed w _ m
          (put-Logged w _ m key value lease done.sid x fits room done.refines refl calm on))
  perform-Performed (swapping key expected value lease) w m r x fits room calm on =
      elim (Bool-cases (passes expected (m.at key))) [
        | inl pass ↦
            let done = swaps R w m r x key expected value lease fits pass in
            rw (txn-swap R w m r x key expected value lease fits pass calm on) (
              performed w _ m
                (put-Logged w _ m key value lease done.sid x fits room done.refines refl calm on))
        | inr fail ↦
            rw (txn-refused R w m r x key expected value lease fits fail calm)
              (performed w w m (nothing-Logged w m r x calm on))
      ]
  perform-Performed (deleting key) w m r x fits room calm on = elim (Option-cases (m.at key)) [
    | inl gone ↦
        rw (delete-absent R w m r x key gone calm)
          (performed w w m (nothing-Logged w m r x calm on))
    | inr (prev, there) ↦ rw (delete-run R w m r x key prev there calm on) (record {
      value = tt;
      returned = refl;
      logged = record {
        new = delete_event key (suc m.revision) prev (deletes R w m r x key prev there).sid ∷ [];
        state = Mvcc.delete key prev (deletes R w m r x key prev there).sid m;
        emitted = refl;
        history = unfold Mvcc.delete in refl;
        numbered = (refl, tt);
        revision = unfold Mvcc.delete in omega arith;
        refines = (deletes R w m r x key prev there).refines;
        exact = delete-IsExact m x room key prev (deletes R w m r x key prev there).sid;
        calm = calm;
        on = on;
      };
      few = omega arith;
    })
  ]

  abbrev pub no_writes :
      (w : World R) (m : Mvcc)
      → Refines R w.db m
      → IsExact m
      → w.fates ≡ []
      → w.sink ≡ true
      → Logged R w m w
  no_writes w m r x calm on = record {
    new = [];
    state = m;
    emitted = sym (append-nil w.emitted);
    history = sym (append-nil m.history);
    numbered = tt;
    revision = omega arith;
    refines = r;
    exact = x;
    calm = calm;
    on = on;
  }

  perform_all-cons :
      (op : Write) (ops : List Write) (w : World R) (m : Mvcc)
      (p : Performed R w m 1 (perform R op w))
      → perform_all R (op ∷ ops) w ≡ perform_all R ops (perform R op w).1
  unfolding perform_all
  perform_all-cons op ops w m p = rw p.returned refl

  -- Any number of puts, deletes and compare-and-swaps, if their calls are answered and the counter
  -- has room for them: the sink hears exactly the events that the history gains, in the same order,
  -- and their revisions follow the counter one after the other, so that each revision has one event
  -- and the counter ends at the last of them. The final database again stands for a state of the
  -- specification.
  pub perform_all-Logged :
      (ops : List Write) (w : World R) (m : Mvcc)
      → Refines R w.db m
      → IsExact m
      → All FitsLease ops
      → m.revision + length ops + 1 < 2 ^ 63
      → w.fates ≡ []
      → w.sink ≡ true
      → Performed R w m (length ops) (perform_all R ops w)
  unfolding perform_all pure
  perform_all-Logged [] w m r x fits room calm on = record {
    value = tt;
    returned = refl;
    logged = no_writes w m r x calm on;
    few = omega arith;
  }
  perform_all-Logged (op ∷ ops) w m r x fits room calm on =
      let p = perform-Performed op w m r x fits.0 (omega (arith, room)) calm on in
      let l = p.logged in
      let rest =
        perform_all-Logged ops (perform R op w).1 l.state l.refines l.exact fits.1
          (omega (arith, room, l.revision, p.few)) l.calm l.on in
      rw (perform_all-cons op ops w m p) (record {
        value = tt;
        returned = rest.returned;
        logged =
            joined R w m (perform R op w).1 l (perform_all R ops (perform R op w).1).1 rest.logged;
        few = omega (arith, p.few, rest.few, length-append l.new rest.logged.new);
      })
