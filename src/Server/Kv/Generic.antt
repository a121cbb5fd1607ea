-- ===== src/Server/Kv/Generic.antt =====
-- Transactions of any other shape: the compares, and a refused transaction without failure
-- operations, which is what the Kubernetes compactor sends.
use retcd.Prelude.{
  ◌≡◌, ◌≢◌, ◌↔◌, ◌≤ℤ◌, ℤ, pos, some, arith, eqb_ℤ, eqb_ℤ_iff, refl, Bool, true, false, ◌&&◌, List,
  [], ◌∷◌, Option, none, Bool-cases, inl, inr,
}
use retcd.Bytes.{Bytes}
use retcd.Redis.{Redis}
use retcd.Store.Blob.{KeyValue}
use retcd.Store.Mvcc.{Mvcc, IsExact}
use retcd.Store.Refine.{Refines}
use retcd.Store.Client.{ok, World, pure}
use retcd.Store.Client.Swaps.{visible}
use retcd.Store.Client.Reads.{get_kv-at}
use retcd.Server.Messages.{
  Compare, CompareTarget, on_version, on_create, on_mod, on_other, CompareResult, equal, not_equal,
  greater, less, other_result, TargetUnion, get_version, get_create_revision, get_mod_revision,
  TxnRequest, header_at,
}
use retcd.Server.Kv.{header}
use retcd.Server.Kv.Ranges.{revision_or_zero-visible}
use retcd.Server.Kv.Txn.{
  related, compare_kv, eval_compare, eval_compares, execute_ops, generic_txn, is_create, is_update,
  txn_request,
}

-- Whether all compares hold of a state.
unfoldable pub all_hold : (Bytes → Option KeyValue) → List Compare → Bool
all_hold at [] = true
all_hold at (c ∷ cs) = compare_kv c (at c.key) && all_hold at cs

-- What a relation says of the number that is there and the one that a compare carries.
abbrev pub Relates : CompareResult → ℤ → ℤ → Type 0
Relates equal actual expected = actual ≡ expected
Relates not_equal actual expected = actual ≢ expected
Relates greater actual expected = ¬ (actual ≤ℤ expected)
Relates less actual expected = ¬ (expected ≤ℤ actual)
Relates other_result actual expected = ⊥

-- What a compare says of the current version of its key.
abbrev pub Says : CompareTarget → CompareResult → TargetUnion → Option KeyValue → Type 0
Says on_version res union none = Relates res (pos 0) (get_version union)
Says on_version res union (some kv) = Relates res (pos kv.version) (get_version union)
Says on_mod res union none = Relates res (pos 0) (get_mod_revision union)
Says on_mod res union (some kv) = Relates res (pos kv.mod_revision) (get_mod_revision union)
Says on_create res union none = Relates res (pos 0) (get_create_revision union)
Says on_create res union (some kv) =
    Relates res (pos kv.create_revision) (get_create_revision union)
Says on_other res union o = ⊥

-- Each compare holds of a state.
abbrev pub AllHold : (Bytes → Option KeyValue) → List Compare → Type 0
AllHold at [] = Unit {0}
AllHold at (c ∷ cs) = Says c.target c.result c.target_union (at c.key) × AllHold at cs

related_iff :
    (res : CompareResult) (actual expected : ℤ)
    → (related res actual expected ≡ true) ↔ Relates res actual expected
related_iff equal a e = eqb_ℤ_iff a e
related_iff not_equal a e =
    let same = eqb_ℤ_iff a e in
    (
      λ h g. ground (arith, h, same.1 g),
      λ h. elim (Bool-cases (eqb_ℤ a e)) [
        | inl is ↦ absurd (h (same.0 is))
        | inr is_not ↦ rw is_not refl
      ],
    )
related_iff greater a e = (λ h g. ground (arith, h, g), λ h. ground (arith, h))
related_iff less a e = (λ h g. ground (arith, h, g), λ h. ground (arith, h))
related_iff other_result a e = (λ h. absurd cc, λ h. elim h [ ])

compare_fields_iff :
    (target : CompareTarget) (res : CompareResult) (key : Bytes) (union : TargetUnion)
    (o : Option KeyValue)
    → (compare_kv (record { result = res; target = target; key = key; target_union = union }) o
        ≡ true)
      ↔ Says target res union o
unfolding compare_kv
compare_fields_iff on_version res key u none = related_iff res (pos 0) (get_version u)
compare_fields_iff on_version res key u (some kv) = related_iff res (pos kv.version) (get_version u)
compare_fields_iff on_mod res key u none = related_iff res (pos 0) (get_mod_revision u)
compare_fields_iff on_mod res key u (some kv) =
    related_iff res (pos kv.mod_revision) (get_mod_revision u)
compare_fields_iff on_create res key u none = related_iff res (pos 0) (get_create_revision u)
compare_fields_iff on_create res key u (some kv) =
    related_iff res (pos kv.create_revision) (get_create_revision u)
compare_fields_iff on_other res key u o = (λ h. absurd cc, λ h. elim h [ ])

compare_kv_iff :
    (c : Compare) (o : Option KeyValue)
    → (compare_kv c o ≡ true) ↔ Says c.target c.result c.target_union o
compare_kv_iff c o = compare_fields_iff c.target c.result c.key c.target_union o

all_hold_iff :
    (at : Bytes → Option KeyValue) (cs : List Compare) → (all_hold at cs ≡ true) ↔ AllHold at cs
unfolding all_hold
all_hold_iff at [] = (λ h. tt, λ h. refl)
all_hold_iff at (c ∷ cs) =
    let one = compare_kv_iff c (at c.key) in
    let rest = all_hold_iff at cs in
    (
      λ h. (one.0 (ground (arith, h)), rest.0 (ground (arith, h))),
      λ h. let a = one.1 h.0 in let b = rest.1 h.1 in ground (arith, a, b),
    )

module _ (R : Redis) (w : World R) (m : Mvcc) (r : Refines R w.db m) (x : IsExact m)
    (calm : w.fates ≡ []) where
  eval_compare-run : (c : Compare) → eval_compare R c w ≡ (ok (compare_kv c (m.at c.key)), w)
  unfolding eval_compare pure
  eval_compare-run c = rw (get_kv-at R w m r x c.key calm)

  eval_compares-run : (cs : List Compare) → eval_compares R cs w ≡ (ok (all_hold m.at cs), w)
  unfolding eval_compares pure all_hold
  eval_compares-run [] = refl
  eval_compares-run (c ∷ cs) = elim (Bool-cases (compare_kv c (m.at c.key))) [
    | inl holds ↦ rw (eval_compare-run c, holds, eval_compares-run cs)
    | inr fails ↦ rw (eval_compare-run c, fails)
  ]

module _ (R : Redis) (w : World R) (m : Mvcc) (r : Refines R w.db m) (x : IsExact m) where
  -- The evaluation of a transaction's compares, if their reads are answered, changes nothing, and
  -- gives true exactly when each compare holds: the version, the modification revision or the creation
  -- revision of its key's current version, or 0 for an absent key, is equal to, not equal to, greater
  -- than or less than the number that the compare carries for it. A compare for anything else does not
  -- hold.
  pub eval_compares-AllHold :
      (cs : List Compare)
      → w.fates ≡ []
      → (holds : Bool) × ((eval_compares R cs w ≡ (ok holds, w))
          × ((holds ≡ true) ↔ AllHold m.at cs))
  eval_compares-AllHold cs calm =
      (all_hold m.at cs, (eval_compares-run R w m r x calm cs, all_hold_iff m.at cs))

  -- A transaction that is neither a create nor an update, whose compares do not all hold and which
  -- has no failure operations, changes and emits nothing: its response says that it failed, with the
  -- revision that clients see.
  pub txn_request-refused :
      (req : TxnRequest)
      → w.fates ≡ []
      → is_create req ≡ none
      → is_update req ≡ none
      → req.failure ≡ []
      → all_hold m.at req.compare ≡ false
      → txn_request R req w
        ≡ (ok (record { header = header_at (visible m); succeeded = false; responses = [] }), w)
  unfolding txn_request generic_txn execute_ops header pure
  txn_request-refused req calm not_create not_update no_ops fails = rw (
    not_create,
    not_update,
    eval_compares-run R w m r x calm req.compare,
    fails,
    no_ops,
    revision_or_zero-visible R w m r x calm,
  )
