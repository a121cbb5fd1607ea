-- ===== src/Store/Client/Writes.antt =====
-- Put, Delete and Txn: what they return and emit when the call is answered, and what is left when it
-- is not.
use retcd.Prelude.{
  ℕ, suc, ◌<◌, ◌^◌, ◌≡◌, refl, true, false, List, [], ◌∷◌, ◌++◌, Option, none, some, Option-cases,
  ◌⊎◌, inl, inr, arith, ap, ◌∙◌,
}
use retcd.Bytes.{Bytes, str_eq}
use retcd.Decimal.{decimal}
use retcd.Decimal.RoundTrip.{parse_int-decimal}
use retcd.Redis.{Redis}
use retcd.Store.Blob.{KeyValue, decode_kv}
use retcd.Store.Event.{Event, put_op, delete_op, make_event}
use retcd.Store.Script.{Returned, Reply, result, str, script_str, redis_key, or_blank, write_script}
use retcd.Store.Mvcc.{Mvcc, IsExact, next_kv, put_event, delete_event, passes}
use retcd.Store.Mvcc
use retcd.Store.Refine.{encode, encoded, Refines}
use retcd.Store.Refine.Events.{
  IsStored, StoredOption, exact-StoredOption, make_event-next, make_event-delete, decode-IsStored,
}
use retcd.Store.Refine.Write.Spec.{Puts, Deletes, write_script-Puts, write_script-Deletes}
use retcd.Store.Client.{
  Error, put_failed, delete_failed, Result, ok, err, Fate, failed, World, script_rev,
  decode_nonempty, pure, run_times, call, run_script, emit, put, delete,
}

-- A call that runs the script once and is answered.
pub run_script-answered :
    (R : Redis) (e : Error) (script : R.Db → Returned × R.Db) (w : World R) (res : List Reply)
    → w.fates ≡ []
    → (script w.db).0 ≡ result res
    → run_script R e script w ≡ (ok res, record w { db = (script w.db).1 })
unfolding run_script call
run_script-answered R e script w res h r = rw h (rw r)

-- A call that runs the script once and is not answered.
pub run_script-failed :
    (R : Redis) (e : Error) (script : R.Db → Returned × R.Db) (w : World R) (later : List Fate)
    → w.fates ≡ failed 1 ∷ later
    → run_script R e script w ≡ (err e, record w { db = (script w.db).1; fates = later })
unfolding run_script call run_times
run_script-failed R e script w later h = rw h

pub emit-sink :
    (R : Redis) (typ key : Bytes) (rev : ℕ) (new_blob prev_blob sid : Bytes) (w : World R)
    → w.sink ≡ true
    → str_eq sid [] ≡ false
    → 0 < rev
    → emit R typ key rev new_blob prev_blob sid w ≡ (
      ok tt,
      record w { emitted = w.emitted ++ make_event typ key rev new_blob prev_blob sid ∷ [] },
    )
unfolding emit
emit-sink R typ key rev new_blob prev_blob sid w s n p = ground arith

pub emit-blank :
    (R : Redis) (typ key : Bytes) (rev : ℕ) (new_blob prev_blob : Bytes) (w : World R)
    → emit R typ key rev new_blob prev_blob [] w ≡ (ok tt, w)
unfolding emit str_eq
emit-blank R typ key rev new_blob prev_blob w = ground arith

pub script_rev-decimal :
    (n : ℕ) (res : List Reply) → n < 2 ^ 63 → script_rev (str (decimal n) ∷ res) ≡ n
unfolding script_rev
script_rev-decimal n res h = ground (arith, parse_int-decimal n h)

pub decode_nonempty-decode_kv : (key blob : Bytes) → decode_nonempty key blob ≡ decode_kv key blob
unfolding decode_kv
decode_nonempty-decode_kv key [] = refl
decode_nonempty-decode_kv key (c ∷ blob) = refl

pub decode-encoded :
    (key : Bytes) (o : Option KeyValue)
    → StoredOption key o
    → decode_nonempty key (or_blank (encoded o)) ≡ o
decode-encoded key none h = refl
decode-encoded key (some kv) h =
    decode_nonempty-decode_kv key (encode kv) ∙ decode-IsStored key kv h

module _ (R : Redis) (w : World R) (m : Mvcc) (r : Refines R w.db m) (x : IsExact m)
    (key : Bytes) where
  module _ (value : Bytes) (lease : ℕ) (fits : lease < 2 ^ 63) where
    abbrev kv : KeyValue
    kv = next_kv key value lease (suc m.revision) (m.at key)

    abbrev script : R.Db → Returned × R.Db
    script = write_script R (redis_key key) put_op value lease

    pub puts : Puts R m key value lease (script w.db)
    puts = write_script-Puts R w.db m r x key value lease fits

    pub put-run :
        w.fates ≡ []
        → w.sink ≡ true
        → put R key value lease w ≡ (
          ok (suc m.revision, m.at key),
          record w {
            db = (script w.db).1;
            emitted = w.emitted ++ put_event key kv (m.at key) puts.sid ∷ [];
          },
        )
    unfolding put pure script_str
    put-run calm on = rw (
      run_script-answered R put_failed script w _ calm puts.returned,
      script_rev-decimal (suc m.revision) _ (omega (arith, x.room)),
      emit-sink R put_op key (suc m.revision) (encode kv) (or_blank (encoded (m.at key))) puts.sid
          (record w { db = (script w.db).1 }) on puts.named (omega arith),
      decode-encoded key (m.at key) (exact-StoredOption m key x),
      make_event-next m key value puts.sid lease x fits,
    )

    put-lost :
        (later : List Fate)
        → w.fates ≡ failed 1 ∷ later
        → put R key value lease w
          ≡ (err put_failed, record w { db = (script w.db).1; fates = later })
    unfolding put
    put-lost later h = rw (run_script-failed R put_failed script w later h)

-- A write that returned: its sink has one more event, and the database has moved on to `m' sid`.
pub record Writes (R : Redis) (w : World R) (m' : Bytes → Mvcc) (event : Bytes → Event) (rev : ℕ)
    (prev : Option KeyValue) (out : Result (ℕ × Option KeyValue) × World R) : Type 0 where
  pub sid : Bytes
  pub returned : out.0 ≡ ok (rev, prev)
  pub emitted : out.1.emitted ≡ w.emitted ++ event sid ∷ []
  pub refines : Refines R out.1.db (m' sid)

-- A write that committed and reported an error: no event was handed to the sink.
pub record Lost (R : Redis) (w : World R) (m' : Bytes → Mvcc) (e : Error)
    (out : Result (ℕ × Option KeyValue) × World R) : Type 0 where
  pub sid : Bytes
  pub returned : out.0 ≡ err e
  pub emitted : out.1.emitted ≡ w.emitted
  pub refines : Refines R out.1.db (m' sid)

module _ (R : Redis) (w : World R) (m : Mvcc) (r : Refines R w.db m) (x : IsExact m)
    (key : Bytes) where
  -- `Put`, if its call is answered: it returns the next revision and the overwritten version, leaves
  -- the state of the specification's put, and hands the sink the event of that put, once.
  pub put-Writes :
      (value : Bytes) (lease : ℕ)
      → lease < 2 ^ 63
      → w.fates ≡ []
      → w.sink ≡ true
      → Writes R w
          (λ sid. Mvcc.put key value lease sid m)
          (put_event key (next_kv key value lease (suc m.revision) (m.at key)) (m.at key))
          (suc m.revision)
          (m.at key)
          (put R key value lease w)
  put-Writes value lease fits calm on =
      let run = put-run R w m r x key value lease fits calm on in
      let done = puts R w m r x key value lease fits in
      record {
        sid = done.sid;
        returned = ap (λ o. o.0) run;
        emitted = ap (λ o. o.1.emitted) run;
        refines = rw run done.refines;
      }

  -- If the reply of the script is lost, `Put` reports an error although the put has been committed,
  -- and the sink never hears of its revision.
  pub put-Lost :
      (value : Bytes) (lease : ℕ) (later : List Fate)
      → lease < 2 ^ 63
      → w.fates ≡ failed 1 ∷ later
      → Lost R w (λ sid. Mvcc.put key value lease sid m) put_failed (put R key value lease w)
  put-Lost value lease later fits lost =
      let run = put-lost R w m r x key value lease fits later lost in
      let done = puts R w m r x key value lease fits in
      record {
        sid = done.sid;
        returned = ap (λ o. o.0) run;
        emitted = ap (λ o. o.1.emitted) run;
        refines = rw run done.refines;
      }

  module _ (prev : KeyValue) (there : m.at key ≡ some prev) where
    pub deletes : Deletes R m key prev (write_script R (redis_key key) delete_op [] 0 w.db)
    deletes = (write_script-Deletes R w.db m r x key).0 prev there

    stored : IsStored key prev
    stored = rw there at (exact-StoredOption m key x)

    pub delete-run :
        w.fates ≡ []
        → w.sink ≡ true
        → delete R key w ≡ (
          ok (suc m.revision, some prev),
          record w {
            db = (write_script R (redis_key key) delete_op [] 0 w.db).1;
            emitted = w.emitted ++ delete_event key (suc m.revision) prev deletes.sid ∷ [];
          },
        )
    unfolding delete pure script_str
    delete-run calm on = rw (
      run_script-answered R delete_failed (write_script R (redis_key key) delete_op [] 0) w _ calm
          deletes.returned,
      script_rev-decimal (suc m.revision) _ (omega (arith, x.room)),
      emit-sink R delete_op key (suc m.revision) [] (encode prev) deletes.sid
          (record w { db = (write_script R (redis_key key) delete_op [] 0 w.db).1 }) on
          deletes.named (omega arith),
      decode_nonempty-decode_kv key (encode prev),
      decode-IsStored key prev stored,
      make_event-delete key deletes.sid (suc m.revision) prev stored,
    )

  pub delete-absent : m.at key ≡ none → w.fates ≡ [] → delete R key w ≡ (ok (m.revision, none), w)
  unfolding delete pure script_str
  delete-absent gone calm =
      let e = (write_script-Deletes R w.db m r x key).1 gone in
      rw (
        run_script-answered R delete_failed (write_script R (redis_key key) delete_op [] 0) w _ calm
            (ap (λ o. o.0) e),
        e,
        script_rev-decimal m.revision (str [] ∷ str [] ∷ str [] ∷ []) (omega (arith, x.room)),
        emit-blank R delete_op key m.revision [] [] w,
      )

  -- `Delete`, if its call is answered: of a key that is there it returns the next revision and the
  -- deleted version, leaves the state of the specification's delete, and hands the sink the event of
  -- it, with that version in it; of an absent key it returns the current revision, and changes and
  -- emits nothing.
  pub delete-Writes :
      w.fates ≡ []
      → w.sink ≡ true
      → ((prev : KeyValue) × ((m.at key ≡ some prev)
            × Writes R w
                (λ sid. Mvcc.delete key prev sid m)
                (delete_event key (suc m.revision) prev)
                (suc m.revision)
                (some prev)
                (delete R key w)))
        ⊎ ((m.at key ≡ none) × (delete R key w ≡ (ok (m.revision, none), w)))
  delete-Writes calm on = elim (Option-cases (m.at key)) [
    | inl gone ↦ inr (gone, delete-absent gone calm)
    | inr (prev, there) ↦
        let run = delete-run prev there calm on in
        inl (
          prev,
          (
            there,
            record {
              sid = (deletes prev there).sid;
              returned = ap (λ o. o.0) run;
              emitted = ap (λ o. o.1.emitted) run;
              refines = rw run (deletes prev there).refines;
            },
          ),
        )
  ]
