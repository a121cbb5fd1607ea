-- ===== src/Server/Lease.antt =====
-- The lease service of server/lease.go. A keep-alive stream is a sequence of requests, each behind so
-- many milliseconds and with a Send that succeeds or not; behind the last one Recv fails.
pub mod KeepAlive
use retcd.Prelude.{ℕ, Bool, true, false, List, [], ◌∷◌, ◌++◌, if◌then◌else◌, ℤ, pos, ltb_ℤ}
use retcd.Redis.{Redis}
use retcd.Store.Client.{Error, Result, ok, err, World, Io, ◌>>=◌, ◌>>◌, pure}
use retcd.Store.Lease.{wait, lease_grant, lease_revoke, lease_renew, lease_time_to_live}
use retcd.Server.Messages.{ResponseHeader, header_at}

-- LeaseGrantResponse and LeaseKeepAliveResponse.
pub record LeaseResponse : Type 0 where
  pub header : ResponseHeader
  pub id : ℤ
  pub ttl : ℤ

pub record TimeToLiveResponse : Type 0 where
  pub header : ResponseHeader
  pub id : ℤ
  pub ttl : ℤ
  pub granted_ttl : ℤ

pub record LeasesResponse : Type 0 where
  pub leases : List ℤ

-- ttl, 30 where it is not positive
abbrev pub ttl_or_default : ℤ → ℤ
ttl_or_default ttl = if ltb_ℤ (pos 0) ttl then ttl else pos 30

abbrev pub lease_response : ℤ → ℤ → LeaseResponse
lease_response id ttl = record { header = header_at 0; id = id; ttl = ttl }

pub record KeepAliveTurn : Type 0 where
  pub waited : ℕ
  pub id : ℤ
  pub sends : Bool

-- Why the stream ended.
pub data StreamEnd : Type 0 where
  receive_failed send_failed : StreamEnd

abbrev if_sent : Bool → LeaseResponse → List LeaseResponse
if_sent true res = res ∷ []
if_sent false res = []

module _ (R : Redis) where
  unfoldable pub grant_request : ℤ → Io R LeaseResponse
  grant_request ttl = do
    id ← lease_grant R (ttl_or_default ttl)
    pure R (lease_response (pos id) (ttl_or_default ttl))

  unfoldable pub revoke_request : ℤ → Io R ResponseHeader
  revoke_request id = do revoked ← lease_revoke R id; pure R (header_at 0)

  unfoldable pub time_to_live_request : ℤ → Io R TimeToLiveResponse
  time_to_live_request id = do
    times ← lease_time_to_live R id
    pure R (record { header = header_at 0; id = id; ttl = times.1; granted_ttl = times.0 })

  -- A stub.
  unfoldable pub lease_leases : Io R LeasesResponse
  lease_leases = pure R (record { leases = [] })

  -- What the client was sent, why the stream ended, and the world behind it.
  abbrev pub Streamed : Type 0
  Streamed = (List LeaseResponse × StreamEnd) × World R

  abbrev sent_before : List LeaseResponse → Streamed → Streamed
  sent_before res ((sent, end), w) = ((res ++ sent, end), w)

  -- The answer to a renewal, and the rest of the stream: a failed Send ends it, but for that of the
  -- answer to a renewal that failed.
  abbrev answer : KeepAliveTurn → Result ℤ → Streamed → World R → Streamed
  answer turn (err e) rest w =
      sent_before (if_sent turn.sends (lease_response turn.id (pos 0))) rest
  answer turn (ok ttl) rest w =
      if turn.sends
      then sent_before (lease_response turn.id ttl ∷ []) rest
      else (([], send_failed), w)

  unfoldable pub keep_alive : List KeepAliveTurn → World R → Streamed
  keep_alive [] w = (([], receive_failed), w)
  keep_alive (turn ∷ turns) w =
      let (r, w') = lease_renew R turn.id (wait R turn.waited w) in
      answer turn r (keep_alive turns w') w'
