-- ===== src/Server/Lease/KeepAlive.antt =====
-- A keep-alive stream: when its answers stop to renew the lease.
use retcd.Prelude.{
  ℕ, ◌-◌, ◌*◌, ◌≤◌, ◌<◌, ◌≡◌, refl, true, false, List, [], ◌∷◌, arith, ap, ◌∙◌, if◌then◌else◌, ℤ,
  pos, leb, Bool-cases, inl, inr,
}
use retcd.Decimal.{decimal}
use retcd.Redis.{Redis, Value, absent, expiring, aged}
use retcd.Store.Client.{World}
use retcd.Store.Lease.{wait, lease_data_key, seconds}
use retcd.Store.Lease.Grant.{max_seconds, lease_renew-expired, lease_renew-renewed}
use retcd.Server.Lease.{LeaseResponse, lease_response, KeepAliveTurn, receive_failed, keep_alive}

-- What a client gets that keeps a lease of `s` seconds alive, `left` milliseconds before its end: the
-- granted seconds as long as each request comes in time, and 0 from the first late one on.
unfoldable pub expected_answers : ℤ → ℕ → ℕ → List ℕ → List LeaseResponse
expected_answers id s left [] = []
expected_answers id s left (t ∷ ts) =
    if leb left t
    then lease_response id (pos 0) ∷ expected_answers id s 0 ts
    else lease_response id (pos s) ∷ expected_answers id s (s * 1000) ts

-- Requests for one lease, each so many milliseconds behind the one before, whose answers arrive.
unfoldable pub turns_of : ℤ → List ℕ → List KeepAliveTurn
turns_of id [] = []
turns_of id (t ∷ ts) = record { waited = t; id = id; sends = true } ∷ turns_of id ts

-- The string of a lease that has so many milliseconds left.
unfoldable pub lasting : ℕ → ℕ → Value
lasting s left = if leb left 0 then absent else expiring left (decimal s)

aged-late : (s left t : ℕ) → leb left t ≡ true → aged t (lasting s left) ≡ absent
unfolding lasting
aged-late s left t h = ground arith

aged-in_time :
    (s left t : ℕ) → leb left t ≡ false → aged t (lasting s left) ≡ expiring (left - t) (decimal s)
unfolding lasting
aged-in_time s left t h = ground arith

lasting-full : (s : ℕ) → 0 < s → expiring (s * 1000) (decimal s) ≡ lasting s (s * 1000)
unfolding lasting
lasting-full s p = ground arith

module _ (R : Redis) (id : ℤ) (s : ℕ) (p : 0 < s) (short : s ≤ max_seconds) where
  -- `LeaseKeepAlive`, if its calls are answered and its responses arrive, on a lease of up to
  -- 9223372036 seconds: as long as each request comes before the time runs out that the one before has
  -- renewed, the answers have the granted seconds, and from the first one that comes too late on they
  -- have 0. The stream ends only when no request is received.
  pub keep_alive-expected :
      (ts : List ℕ) (w : World R) (left : ℕ)
      → R.value w.db (lease_data_key id) ≡ lasting s left
      → w.fates ≡ []
      → (keep_alive R (turns_of id ts) w).0 ≡ (expected_answers id s left ts, receive_failed)
  unfolding keep_alive turns_of expected_answers lasting
  keep_alive-expected [] w left h calm = refl
  keep_alive-expected (t ∷ ts) w left h calm = elim (Bool-cases (leb left t)) [
    | inl late ↦
        let gone : R.value (R.elapse t w.db) (lease_data_key id) ≡ absent =
          R.value-elapse w.db t (lease_data_key id) ∙ (ap (aged t) h ∙ aged-late s left t late) in
        let run = lease_renew-expired R (wait R t w) id gone calm in
        rw (run, late)
          (ap (λ o. (lease_response id (pos 0) ∷ o.0, o.1))
            (keep_alive-expected ts (wait R t w) 0 gone calm))
    | inr in_time ↦
        let there : R.value (R.elapse t w.db) (lease_data_key id)
            ≡ expiring (left - t) (decimal s) =
          R.value-elapse w.db t (lease_data_key id)
          ∙ (ap (aged t) h ∙ aged-in_time s left t in_time) in
        let (run, fresh) = lease_renew-renewed R (wait R t w) id s (left - t) there p short calm in
        rw (run, in_time)
          (ap (λ o. (lease_response id (pos s) ∷ o.0, o.1))
            (keep_alive-expected ts
              (record w { db = R.expire (R.elapse t w.db) (lease_data_key id) (seconds (pos s)) })
              (s * 1000) (fresh ∙ lasting-full s p) calm))
  ]
