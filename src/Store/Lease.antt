-- ===== src/Store/Lease.antt =====
-- The leases of store/lease.go. A lease is a string that Redis expires, a set of the keys that are
-- attached to it, which the write scripts keep, and a member of the set of all leases. The commands of
-- a pipeline are calls whose failure does not keep the later ones from being sent. The context of the
-- caller is left out: a call that it ends is one that fails.
pub mod Keys
pub mod Linked
pub mod Emptied
pub mod Forget
pub mod Revoke
pub mod Reap
pub mod Ticks
pub mod Grant
pub mod Life
pub mod Attach
pub mod Missed
use retcd.Prelude.{
  ℕ, zero, suc, ◌+◌, ◌-◌, ◌*◌, ◌/◌, ◌%◌, ◌^◌, Bool, true, false, List, [], ◌∷◌, Option, none, some,
  ltb, if◌then◌else◌, ℤ, pos, negsuc,
}
use retcd.Bytes.{Bytes}
use retcd.Decimal.{decimal, parse_int}
use retcd.Redis.{Redis}
use retcd.Store.Client.{
  Error, incr_lease_failed, lease_grant_failed, lease_keys_failed, lease_key_failed,
  lease_revoke_failed, lease_not_found, get_lease_failed, bad_ttl, ttl_failed, Result, ok, err,
  World, Io, ◌>>=◌, ◌>>◌, pure, raise, call, delete,
}

-- "lease:id_counter" and "leases"
abbrev pub lease_id_counter : Bytes
lease_id_counter =
    b'l' ∷ b'e' ∷ b'a' ∷ b's' ∷ b'e' ∷ b':' ∷ b'i' ∷ b'd' ∷ b'_' ∷ b'c' ∷ b'o' ∷ b'u' ∷ b'n' ∷ b't'
    ∷ b'e' ∷ b'r' ∷ []

abbrev pub lease_set_key : Bytes
lease_set_key = b'l' ∷ b'e' ∷ b'a' ∷ b's' ∷ b'e' ∷ b's' ∷ []

-- An int64 as `%d` prints it.
abbrev pub int_text : ℤ → Bytes
int_text (pos n) = decimal n
int_text (negsuc n) = b'-' ∷ decimal (suc n)

-- "lease:<id>" and "lease:keys:<id>"
abbrev pub lease_data_key : ℤ → Bytes
lease_data_key id = b'l' ∷ b'e' ∷ b'a' ∷ b's' ∷ b'e' ∷ b':' ∷ int_text id

abbrev pub lease_keys_set_key : ℤ → Bytes
lease_keys_set_key id =
    b'l' ∷ b'e' ∷ b'a' ∷ b's' ∷ b'e' ∷ b':' ∷ b'k' ∷ b'e' ∷ b'y' ∷ b's' ∷ b':' ∷ int_text id

-- The int64 with the given bits.
abbrev pub int64_of : ℕ → ℤ
int64_of u = if ltb u (2 ^ 63) then pos u else negsuc (2 ^ 64 - 1 - u)

-- time.Duration(ttl)*time.Second: nanoseconds, which wrap around.
abbrev pub seconds : ℤ → ℤ
seconds (pos n) = int64_of (n * 10 ^ 9 % 2 ^ 64)
seconds (negsuc n) = int64_of ((2 ^ 64 - suc n * 10 ^ 9 % 2 ^ 64) % 2 ^ 64)

abbrev negated : ℕ → ℤ
negated zero = pos 0
negated (suc n) = negsuc n

-- int64(dur.Seconds())
abbrev pub whole_seconds : ℤ → ℤ
whole_seconds (pos d) = pos (d / 10 ^ 9)
whole_seconds (negsuc d) = negated (suc d / 10 ^ 9)

module _ (R : Redis) where
  open R use {Db, get, set_for, expire, ttl, exists_at, incr, del, sadd, srem, smembers}

  -- So many milliseconds pass.
  abbrev pub wait : ℕ → World R → World R
  wait t w = record w { db = R.elapse t w.db }

  -- A call whose result, and whether it failed, nobody looks at.
  unfoldable pub ignoring : {A : Type 0} → Io R A → Io R (Unit {0})
  ignoring m w = (ok tt, (m w).1)

  abbrev rewrap_result : {A : Type 0} → Error → Result A → Result A
  rewrap_result e (ok a) = ok a
  rewrap_result e (err e') = err e

  -- fmt.Errorf("...: %w", err)
  unfoldable pub rewrap : {A : Type 0} → Error → Io R A → Io R A
  rewrap e m w = let (r, w') = m w in (rewrap_result e r, w')

  abbrev first_error : Result (Unit {0}) → Result (Unit {0}) → Result (Unit {0})
  first_error (ok u) r = r
  first_error (err e) r = err e

  -- Two commands of a pipeline: both are sent, and Exec returns the first error.
  infixl 5 ◌⨟◌
  unfoldable pub ◌⨟◌ : Io R (Unit {0}) → Io R (Unit {0}) → Io R (Unit {0})
  ◌⨟◌ m n w = let (r, w1) = m w in let (r', w2) = n w1 in (first_error r r', w2)

  -- A command without a result.
  unfoldable pub command : Error → (Db → Db) → Io R (Unit {0})
  command e f = call R e (λ db. (tt, f db))

  -- `LeaseGrant`
  unfoldable pub lease_grant : ℤ → Io R ℕ
  lease_grant seconds_granted = do
    id ← call R incr_lease_failed (λ db. incr db lease_id_counter)
    stored ←
        command lease_grant_failed (λ db.
          set_for db (lease_data_key (pos id)) (int_text seconds_granted) (seconds seconds_granted))
        ⨟ command lease_grant_failed (λ db. sadd db lease_set_key (decimal id))
    pure R id

  -- The loop of `LeaseRevoke`, which stops at the first error.
  unfoldable pub delete_keys : List Bytes → Io R (Unit {0})
  delete_keys [] = pure R tt
  delete_keys (key ∷ keys) = do deleted ← rewrap lease_key_failed (delete R key); delete_keys keys

  -- `LeaseRevoke`
  unfoldable pub lease_revoke : ℤ → Io R (Unit {0})
  lease_revoke id = do
    keys ← call R lease_keys_failed (λ db. (smembers db (lease_keys_set_key id), db))
    deleted ← delete_keys keys
    command lease_revoke_failed (λ db. del db (lease_data_key id))
        ⨟ command lease_revoke_failed (λ db. del db (lease_keys_set_key id))
        ⨟ command lease_revoke_failed (λ db. srem db lease_set_key (int_text id))

  abbrev renew_for : ℤ → Option ℤ → Io R ℤ
  renew_for id none = raise R bad_ttl
  renew_for id (some granted) = do
    expired ← ignoring (command ttl_failed (λ db. expire db (lease_data_key id) (seconds granted)))
    pure R granted

  abbrev renew_found : ℤ → Option Bytes → Io R ℤ
  renew_found id none = raise R lease_not_found
  renew_found id (some text) = renew_for id (parse_int text)

  -- `LeaseRenew`; the result of EXPIRE is not looked at.
  unfoldable pub lease_renew : ℤ → Io R ℤ
  lease_renew id = do
    text ← call R get_lease_failed (λ db. (get db (lease_data_key id), db))
    renew_found id text

  abbrev time_for : ℤ → Option ℤ → Io R (ℤ × ℤ)
  time_for id none = raise R bad_ttl
  time_for id (some granted) = do
    left ← call R ttl_failed (λ db. (ttl db (lease_data_key id), db))
    pure R (granted, whole_seconds left)

  abbrev time_found : ℤ → Option Bytes → Io R (ℤ × ℤ)
  time_found id none = pure R (pos 0, negsuc 0)
  time_found id (some text) = time_for id (parse_int text)

  -- `LeaseTimeToLive`: the granted and the remaining seconds, 0 and -1 for a lease that is gone.
  unfoldable pub lease_time_to_live : ℤ → Io R (ℤ × ℤ)
  lease_time_to_live id = do
    text ← call R get_lease_failed (λ db. (get db (lease_data_key id), db))
    time_found id text

  -- The loop of the reaper over a lease's keys, which goes on after an error.
  unfoldable pub try_delete_keys : List Bytes → Io R (Unit {0})
  try_delete_keys [] = pure R tt
  try_delete_keys (key ∷ keys) = do deleted ← ignoring (delete R key); try_delete_keys keys

  abbrev keys_or_none : Result (List Bytes) → List Bytes
  keys_or_none (ok keys) = keys
  keys_or_none (err e) = []

  -- keys, _ := SMembers: an error leaves no keys.
  abbrev try_keys : ℤ → Io R (List Bytes)
  try_keys id w =
      let (r, w') = call R lease_keys_failed (λ db. (smembers db (lease_keys_set_key id), db)) w in
      (ok (keys_or_none r), w')

  -- What the reaper does of a lease that has expired.
  unfoldable pub bury : Bytes → ℤ → Io R (Unit {0})
  bury id_text id = do
    keys ← try_keys id
    deleted ← try_delete_keys keys
    forgotten ← ignoring (command lease_revoke_failed (λ db. del db (lease_keys_set_key id)))
    ignoring (command lease_revoke_failed (λ db. srem db lease_set_key id_text))

  abbrev bury_unless : Bytes → ℤ → Result Bool → Io R (Unit {0})
  bury_unless id_text id (ok true) = pure R tt
  bury_unless id_text id (ok false) = bury id_text id
  bury_unless id_text id (err e) = pure R tt

  abbrev reap_parsed : Bytes → Option ℤ → Io R (Unit {0})
  reap_parsed id_text none w = pure R tt w
  reap_parsed id_text (some id) w =
      let (r, w') = call R ttl_failed (λ db. (exists_at db (lease_data_key id), db)) w in
      bury_unless id_text id r w'

  -- The loop over the members of the set of leases.
  unfoldable pub reap_leases : List Bytes → Io R (Unit {0})
  reap_leases [] = pure R tt
  reap_leases (id_text ∷ ids) = do reaped ← reap_parsed id_text (parse_int id_text); reap_leases ids

  abbrev reap_members : Result (List Bytes) → Io R (Unit {0})
  reap_members (ok ids) = reap_leases ids
  reap_members (err e) = pure R tt

  -- `reapExpiredLeases`
  unfoldable pub reap_expired_leases : Io R (Unit {0})
  reap_expired_leases w =
      let (r, w') = call R lease_keys_failed (λ db. (smembers db lease_set_key, db)) w in
      reap_members r w'

  -- What the select of StartLeaseReaper receives: a tick, with what has become of the world since the
  -- last one, or the end of the context.
  pub data ReaperTurn : Type 0 where
    ticker_fires : (World R → World R) → ReaperTurn
    context_done : ReaperTurn

  -- The goroutine of `StartLeaseReaper`.
  unfoldable pub start_lease_reaper : List ReaperTurn → World R → World R
  start_lease_reaper [] w = w
  start_lease_reaper (context_done ∷ turns) w = w
  start_lease_reaper (ticker_fires since ∷ turns) w =
      start_lease_reaper turns (reap_expired_leases (since w)).1
