-- ===== src/Tests/Leases.antt =====
-- Leases on concrete inputs.
use retcd.Prelude.{
  ◌+◌, ◌<◌, ◌^◌, ◌≡◌, refl, false, List, [], ◌∷◌, some, arith, ap, ◌∙◌, pos, if◌then◌else◌,
}
use retcd.Bytes.{Bytes, str_eq}
use retcd.Decimal.{decimal}
use retcd.Redis.{Value, set, as_set, contains}
use retcd.Redis.Memory.{in_memory}
use retcd.Store.Script.{lease_keys_key}
use retcd.Store.Mvcc.{Mvcc}
use retcd.Store.Client.{World}
use retcd.Store.Client.Log.{Write, putting, perform_all}
use retcd.Store.Lease.{lease_set_key, lease_revoke}
use retcd.Store.Lease.Keys.{lease_set_key-IsApart}
use retcd.Store.Lease.Linked.{IsLinked, on_lease}
use retcd.Store.Lease.Emptied.{IsSound, set_size}
use retcd.Store.Lease.Attach.{Kept, perform_all-Kept}
use retcd.Store.Lease.Revoke.{Revoked, lease_revoke-Revoked}
use retcd.Store.Lease.Forget.{apart-Refines, apart-IsLinked}
use retcd.Tests.{pod, value, opened, world, nothing, opened-Refines, nothing-IsExact}

-- The lease 7 has expired: it is listed, and its string is gone.
abbrev pub listed_db : Bytes → Value
listed_db k = if str_eq lease_set_key k then set (decimal 7 ∷ []) else opened k

abbrev pub listed_world : World in_memory
listed_world = record world { db = listed_db }

members_are : (ms : List Bytes) → some [] ≡ some ms → [] ≡ ms
members_are ms e = cc

opened-IsLinked : IsLinked in_memory opened nothing
unfolding opened str_eq contains on_lease
opened-IsLinked = record { linked = λ n k ms h e. rw⁻¹ (members_are ms e) refl }

listed-frame : (j : Bytes) → str_eq lease_set_key j ≡ false → listed_db j ≡ opened j
listed-frame j other = rw other refl

pub listed-IsSound : IsSound in_memory listed_world nothing
listed-IsSound = record {
  refines =
      apart-Refines in_memory opened listed_db nothing lease_set_key lease_set_key-IsApart
        listed-frame opened-Refines;
  exact = nothing-IsExact;
  linked =
      apart-IsLinked in_memory opened listed_db nothing lease_set_key lease_set_key-IsApart
        listed-frame opened-IsLinked;
  calm = refl;
  on = refl;
}

-- A key is written under it.
abbrev pub lease_writes : List Write
lease_writes = putting pod value 7 ∷ []

pub kept : Kept in_memory listed_world nothing 1 (perform_all in_memory lease_writes listed_world)
kept =
    perform_all-Kept in_memory lease_writes listed_world nothing listed-IsSound (omega arith, tt)
      (omega arith)

perform_all-Kept_example :
    Kept in_memory listed_world nothing 1 (perform_all in_memory lease_writes listed_world)
perform_all-Kept_example =
    perform_all-Kept in_memory lease_writes listed_world nothing listed-IsSound (omega arith, tt)
      (omega arith)

abbrev pub leased_world : World in_memory
leased_world = (perform_all in_memory lease_writes listed_world).1

abbrev pub leased : Mvcc
leased = kept.logged.state

pub leased-IsSound : IsSound in_memory leased_world leased
leased-IsSound = record {
  refines = kept.logged.refines;
  exact = kept.logged.exact;
  linked = kept.linked;
  calm = kept.logged.calm;
  on = kept.logged.on;
}

pub set_read : listed_db lease_set_key ≡ set (decimal 7 ∷ [])
unfolding str_eq
set_read = refl

no_keys_yet : set_size (listed_db (lease_keys_key 7)) ≡ 0
unfolding opened str_eq
no_keys_yet = refl

pub leased-listed : as_set (leased_world.db lease_set_key) ≡ some (decimal 7 ∷ [])
leased-listed = ap as_set (kept.frame lease_set_key lease_set_key-IsApart ∙ set_read)

pub leased-room : leased.revision + set_size (leased_world.db (lease_keys_key 7)) + 1 < 2 ^ 63
leased-room = omega (arith, kept.logged.revision, kept.few, kept.sizes 7 (omega arith), no_keys_yet)

lease_revoke-Revoked_example :
    Revoked in_memory leased_world leased 7
      (decimal 7 ∷ [])
      (lease_revoke in_memory (pos 7) leased_world)
lease_revoke-Revoked_example =
    lease_revoke-Revoked in_memory leased_world leased 7 (decimal 7 ∷ []) leased-IsSound
      (omega arith) leased-listed leased-room
