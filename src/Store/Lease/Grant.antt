-- ===== src/Store/Lease/Grant.antt =====
-- LeaseGrant, LeaseRenew and LeaseTimeToLive: how long a lease lasts.
use retcd.Prelude.{
  ℕ, ◌+◌, ◌-◌, ◌*◌, ◌/◌, ◌≤◌, ◌<◌, ◌^◌, ◌≡◌, refl, false, [], Option, none, some, arith, ap, ◌∙◌,
  if◌then◌else◌, Bool-cases, inl, inr, pos, negsuc, leb, ℤ, eqb_ℤ,
}
use retcd.Bytes.{Bytes}
use retcd.Bytes.Order.{str_eq_refl}
use retcd.Decimal.{decimal}
use retcd.Decimal.RoundTrip.{parse_int-decimal}
use retcd.Redis.{Redis, Value, absent, string, expiring, as_string, set_with, expire_with, aged}
use retcd.Store.Client.{raise, lease_not_found, get_lease_failed, ttl_failed, ok, err, World, pure}
use retcd.Store.Client.Reads.{call-read}
use retcd.Store.Lease.{lease_data_key, seconds, lease_time_to_live, lease_renew, ignoring}
use retcd.Store.Lease.Revoke.{command-answered}

-- The greatest number of seconds that a duration holds.
abbrev pub max_seconds : ℕ
max_seconds = 9223372036

-- The string of a lease that was granted for so many seconds: beyond `max_seconds` the duration has
-- wrapped around to a negative one, and the string does not expire.
unfoldable pub granted_value : ℕ → Value
granted_value s = if leb s max_seconds then expiring (s * 1000) (decimal s) else string (decimal s)

seconds_short : (s : ℕ) → s ≤ max_seconds → seconds (pos s) ≡ pos (s * 10 ^ 9)
seconds_short s h = ground arith

seconds_long :
    (s : ℕ) → max_seconds < s → s < 18446744074 → seconds (pos s) ≡ negsuc (2 ^ 64 - 1 - s * 10 ^ 9)
seconds_long s l h = ground arith

set_with-short : (s : ℕ) (v : Bytes) → 0 < s → set_with (pos (s * 10 ^ 9)) v ≡ expiring (s * 1000) v
set_with-short s v p = ground arith

expire_with-short :
    (s : ℕ) (v : Bytes) → 0 < s → expire_with (pos (s * 10 ^ 9)) (some v) ≡ expiring (s * 1000) v
expire_with-short s v p = ground arith

pub seconds-NotKeep : (s : ℕ) → 0 < s → s < 18446744074 → eqb_ℤ (seconds (pos s)) (negsuc 0) ≡ false
seconds-NotKeep s p h = elim (Bool-cases (leb s max_seconds)) [
  | inl short ↦ rw (seconds_short s (ground arith)) refl
  | inr long ↦ rw (seconds_long s (ground arith) h) (ground arith)
]

pub set_with-granted :
    (s : ℕ) → 0 < s → s < 18446744074 → set_with (seconds (pos s)) (decimal s) ≡ granted_value s
unfolding granted_value
set_with-granted s p h = elim (Bool-cases (leb s max_seconds)) [
  | inl short ↦ rw (seconds_short s (ground arith), short) (set_with-short s (decimal s) p)
  | inr long ↦ rw (seconds_long s (ground arith) h, long) refl
]

cut_seconds : (n : ℕ) → n * 10 ^ 9 / 10 ^ 9 ≡ n
cut_seconds n = omega arith

-- What LeaseTimeToLive reports of a lease of `s` seconds, `t` milliseconds after it was granted or
-- renewed: the granted seconds, and the rounded rest.
unfoldable pub time_left : ℕ → ℕ → ℤ × ℤ
time_left s t =
    if leb s max_seconds
    then if leb (s * 1000) t then (pos 0, negsuc 0) else (pos s, pos ((s * 1000 - t + 500) / 1000))
    else (pos s, pos 0)

module _ (R : Redis) where
  -- The lease's string after so many milliseconds.
  abbrev pub IsAged : R.Db → ℤ → ℕ → ℕ → Type 0
  IsAged db id s t = R.value db (lease_data_key id) ≡ aged t (granted_value s)

  text_of :
      (db : R.Db) (k : Bytes) (o : Option Bytes) (v : Value)
      → R.value db k ≡ v
      → as_string v ≡ some o
      → R.get db k ≡ o
  text_of db k o v e h = R.get-value db k o (ap as_string e ∙ h)

  pub lease_time_to_live-time_left :
      (w : World R) (id : ℤ) (s t : ℕ)
      → IsAged w.db id s t
      → s < 2 ^ 63
      → w.fates ≡ []
      → lease_time_to_live R id w ≡ (ok (time_left s t), w)
  unfolding lease_time_to_live pure granted_value time_left
  lease_time_to_live-time_left w id s t a fits calm = elim (Bool-cases (leb s max_seconds)) [
    | inl short ↦ elim (Bool-cases (leb (s * 1000) t)) [
      | inl over ↦
          rw
            (
              call-read R get_lease_failed (λ db. R.get db (lease_data_key id)) w calm,
              text_of w.db (lease_data_key id) none absent (a ∙ rw (short, over) refl) refl,
              short,
              over,
            )
            refl
      | inr lasts ↦
          let here : R.value w.db (lease_data_key id) ≡ expiring (s * 1000 - t) (decimal s) =
            a ∙ rw short (rw lasts refl) in
          rw
            (
              call-read R get_lease_failed (λ db. R.get db (lease_data_key id)) w calm,
              text_of w.db (lease_data_key id) (some (decimal s)) _ here refl,
              parse_int-decimal s fits,
              call-read R ttl_failed (λ db. R.ttl db (lease_data_key id)) w calm,
              R.ttl-value w.db (lease_data_key id),
              here,
              short,
              lasts,
            )
            (ap (λ n. (ok (pos s, pos n), w)) (cut_seconds ((s * 1000 - t + 500) / 1000)))
    ]
    | inr long ↦
        let here : R.value w.db (lease_data_key id) ≡ string (decimal s) = a ∙ rw long refl in
        rw
          (
            call-read R get_lease_failed (λ db. R.get db (lease_data_key id)) w calm,
            text_of w.db (lease_data_key id) (some (decimal s)) _ here refl,
            parse_int-decimal s fits,
            call-read R ttl_failed (λ db. R.ttl db (lease_data_key id)) w calm,
            R.ttl-value w.db (lease_data_key id),
            here,
            long,
          )
          refl
  ]

  -- `LeaseRenew` of a lease that has expired, if its call is answered, fails and changes nothing.
  pub lease_renew-expired :
      (w : World R) (id : ℤ)
      → R.value w.db (lease_data_key id) ≡ absent
      → w.fates ≡ []
      → lease_renew R id w ≡ (err lease_not_found, w)
  unfolding lease_renew raise
  lease_renew-expired w id gone calm =
      rw
        (
          call-read R get_lease_failed (λ db. R.get db (lease_data_key id)) w calm,
          text_of w.db (lease_data_key id) none absent gone refl,
        )
        refl

  -- A lease of up to `max_seconds` seconds that has not expired is as when it was granted.
  pub lease_renew-renewed :
      (w : World R) (id : ℤ) (s left : ℕ)
      → R.value w.db (lease_data_key id) ≡ expiring left (decimal s)
      → 0 < s
      → s ≤ max_seconds
      → w.fates ≡ []
      → (lease_renew R id w
          ≡ (ok (pos s), record w { db = R.expire w.db (lease_data_key id) (seconds (pos s)) }))
        × (R.value (R.expire w.db (lease_data_key id) (seconds (pos s))) (lease_data_key id)
            ≡ expiring (s * 1000) (decimal s))
  unfolding lease_renew ignoring pure
  lease_renew-renewed w id s left there p short calm = (
    rw
        (
          call-read R get_lease_failed (λ db. R.get db (lease_data_key id)) w calm,
          text_of w.db (lease_data_key id) (some (decimal s)) _ there refl,
          parse_int-decimal s (omega arith),
          command-answered R ttl_failed (λ db. R.expire db (lease_data_key id) (seconds (pos s))) w
              calm,
        )
        refl,
    R.value-expire w.db (lease_data_key id) (lease_data_key id) (seconds (pos s)) (some (decimal s))
          (ap as_string there)
        ∙ rw (str_eq_refl (lease_data_key id), seconds_short s short)
            (expire_with-short s (decimal s) p),
  )

  -- A longer one, which does not expire, is deleted by its renewal, although that succeeds.
  pub lease_renew-deletes :
      (w : World R) (id : ℤ) (s : ℕ)
      → R.value w.db (lease_data_key id) ≡ string (decimal s)
      → max_seconds < s
      → s < 18446744074
      → w.fates ≡ []
      → ((lease_renew R id w).0 ≡ ok (pos s))
        × (R.value (lease_renew R id w).1.db (lease_data_key id) ≡ absent)
  unfolding lease_renew ignoring pure
  lease_renew-deletes w id s there long h calm =
      rw
        (
          call-read R get_lease_failed (λ db. R.get db (lease_data_key id)) w calm,
          text_of w.db (lease_data_key id) (some (decimal s)) _ there refl,
          parse_int-decimal s (omega arith),
          command-answered R ttl_failed (λ db. R.expire db (lease_data_key id) (seconds (pos s))) w
              calm,
        )
        (
          refl,
          R.value-expire w.db (lease_data_key id) (lease_data_key id) (seconds (pos s))
                (some (decimal s)) (ap as_string there)
              ∙ rw (str_eq_refl (lease_data_key id), seconds_long s long h) refl,
        )
