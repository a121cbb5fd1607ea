-- ===== src/Store/Client/Swaps.antt =====
-- Txn of the store: the compare-and-swap as its callers see it.
use retcd.Prelude.{
  ℕ, zero, suc, ◌<◌, ◌^◌, ◌≡◌, refl, true, false, List, [], ◌∷◌, ◌++◌, none, Bool-cases, ◌⊎◌, inl,
  inr, arith, ap, sym, if◌then◌else◌, ltb, ℤ,
}
use retcd.Bytes.{Bytes}
use retcd.Decimal.{decimal}
use retcd.Decimal.RoundTrip.{parse_int-decimal}
use retcd.Redis.{Redis}
use retcd.Store.Blob.{KeyValue}
use retcd.Store.Event.{put_op}
use retcd.Store.Script.{Returned, Reply, str, script_str, redis_key, or_blank, txn_script}
use retcd.Store.Mvcc.{Mvcc, IsExact, next_kv, put_event, passes}
use retcd.Store.Mvcc
use retcd.Store.Refine.{encode, encoded, Refines}
use retcd.Store.Refine.Events.{exact-StoredOption, make_event-next}
use retcd.Store.Refine.Txn.{Swaps, txn_script-Swaps}
use retcd.Store.Client.{
  txn_failed, Result, ok, World, TxnResult, pure, txn_revision, or_current, txn,
}
use retcd.Store.Client.Writes.{
  run_script-answered, emit-sink, decode_nonempty-decode_kv, decode-encoded,
}

-- The revision that clients see: never 0.
abbrev pub visible : Mvcc → ℕ
visible m = if ltb m.revision 1 then 1 else m.revision

-- The outcome of a swap.
pub record Swapped (R : Redis) (w : World R) (m : Mvcc) (key value : Bytes) (lease : ℕ)
    (out : Result TxnResult × World R) : Type 0 where
  pub sid : Bytes
  pub returned : out.0 ≡ ok (record { succeeded = true; revision = suc m.revision; current = none })
  pub emitted :
      out.1.emitted
      ≡ w.emitted
        ++ put_event key (next_kv key value lease (suc m.revision) (m.at key)) (m.at key) sid ∷ []
  pub refines : Refines R out.1.db (Mvcc.put key value lease sid m)

or_current-suc : (R : Redis) (n : ℕ) (w : World R) → 0 < n → or_current R n w ≡ (ok n, w)
or_current-suc R zero w h = absurd (omega arith)
or_current-suc R (suc n) w h = refl

txn_revision-decimal :
    (R : Redis) (n : ℕ) (a b : Reply) (res : List Reply)
    → n < 2 ^ 63
    → txn_revision R (a ∷ b ∷ str (decimal n) ∷ res) ≡ n
unfolding script_str
txn_revision-decimal R n a b res h = ground (arith, parse_int-decimal n h)

module _ (R : Redis) (w : World R) (m : Mvcc) (r : Refines R w.db m) (x : IsExact m) (key : Bytes)
    (expected : ℤ) (value : Bytes) (lease : ℕ) (fits : lease < 2 ^ 63) where
  abbrev script : R.Db → Returned × R.Db
  script = txn_script R (redis_key key) expected value put_op lease

  module _ (pass : passes expected (m.at key) ≡ true) where
    pub swaps : Swaps R m key value lease (script w.db)
    swaps = (txn_script-Swaps R w.db m r x key expected value lease fits).0 pass

    abbrev kv : KeyValue
    kv = next_kv key value lease (suc m.revision) (m.at key)

    pub txn-swap :
        w.fates ≡ []
        → w.sink ≡ true
        → txn R key expected put_op value lease w ≡ (
          ok (record { succeeded = true; revision = suc m.revision; current = none }),
          record w {
            db = (script w.db).1;
            emitted = w.emitted ++ put_event key kv (m.at key) swaps.sid ∷ [];
          },
        )
    unfolding txn pure script_str
    txn-swap calm on = rw (
      run_script-answered R txn_failed script w _ calm swaps.returned,
      txn_revision-decimal R (suc m.revision) _ _ _ (omega (arith, x.room)),
      emit-sink R put_op key (suc m.revision) (encode kv) (or_blank (encoded (m.at key))) swaps.sid
          (record w { db = (script w.db).1 }) on swaps.named (omega arith),
      make_event-next m key value swaps.sid lease x fits,
    )

  pub txn-refused :
      passes expected (m.at key) ≡ false
      → w.fates ≡ []
      → txn R key expected put_op value lease w
        ≡ (ok (record { succeeded = false; revision = visible m; current = m.at key }), w)
  unfolding txn pure script_str
  txn-refused fail calm =
      let e = (txn_script-Swaps R w.db m r x key expected value lease fits).1 fail in
      rw (
        run_script-answered R txn_failed script w _ calm (ap (λ o. o.0) e),
        e,
        txn_revision-decimal R (visible m) _ _ _ (ground (arith, x.room)),
        or_current-suc R (visible m) w (ground arith),
        sym (decode_nonempty-decode_kv key (or_blank (encoded (m.at key)))),
        decode-encoded key (m.at key) (exact-StoredOption m key x),
      )

  -- `Txn` with op PUT, if its call is answered, is an atomic compare-and-swap: it succeeds exactly
  -- when the compare of the specification passes. A success returns the next revision, puts, and emits
  -- the event; a failure returns the key's current version and the revision that clients see, and
  -- changes and emits nothing.
  pub txn-Swapped :
      w.fates ≡ []
      → w.sink ≡ true
      → ((passes expected (m.at key) ≡ true)
          × Swapped R w m key value lease (txn R key expected put_op value lease w))
        ⊎ ((passes expected (m.at key) ≡ false)
            × (txn R key expected put_op value lease w
                ≡ (ok (record { succeeded = false; revision = visible m; current = m.at key }), w)))
  txn-Swapped calm on = elim (Bool-cases (passes expected (m.at key))) [
    | inl pass ↦
        let run = txn-swap pass calm on in
        inl (
          pass,
          record {
            sid = (swaps pass).sid;
            returned = ap (λ o. o.0) run;
            emitted = ap (λ o. o.1.emitted) run;
            refines = rw run (swaps pass).refines;
          },
        )
    | inr fail ↦ inr (fail, txn-refused fail calm)
  ]
