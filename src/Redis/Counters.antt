-- ===== src/Redis/Counters.antt =====
-- internal/rds/rds.go: the rate limit, the idempotency claim and the cached Daraja token.
use braelaspin.Prelude.{
  ℤ, pos, ◌*◌, [], Bool, true, false, Text, codes, ◌++◌, Result, ok, err, ltb_ℤ, leb_ℤ, eqb_ℤ,
  if◌then◌else◌,
}
use braelaspin.Calls.{Call, ◌>>=◌, pure, or_fail}
use braelaspin.Redis.{
  Redis, RedisError, nil_reply, redis_failed, RdsError, redis, nil_as_not_found, limit_key,
  idem_key, second,
}

-- Allow's answer: ok, and the time after which to try again
pub record Admission : Type 0 where
  pub admitted : Bool
  pub retry_after : ℤ

-- Claim's answer: won, and the stored response of another attempt
pub record Claimed : Type 0 where
  pub won : Bool
  pub prior : Text

-- the time that the key has left, or the window where Redis does not tell
abbrev pub time_left : {S : Type 0} → ℤ → Result RedisError ℤ × S → Result RdsError Admission × S
time_left window (ok t, s) =
    (ok (record { admitted = false; retry_after = if ltb_ℤ t (pos 0) then window else t }), s)
time_left window (err e, s) = (ok (record { admitted = false; retry_after = window }), s)

-- the Get of Claim, after the claim was lost
abbrev pub prior_of : {S : Type 0} → Result RedisError Text × S → Result RdsError Claimed × S
prior_of (ok v, s) = (ok (record { won = false; prior = v }), s)
prior_of (err nil_reply, s) = (ok (record { won = false; prior = [] }), s)
prior_of (err redis_failed, s) = (err (redis redis_failed), s)

-- daraja:, daraja:lock:
unfoldable pub daraja_key : Text → Text
daraja_key kind = codes "daraja:" ++ kind

unfoldable pub daraja_lock_key : Text → Text
daraja_lock_key kind = codes "daraja:lock:" ++ kind

module _ {S : Type 0} (r : Redis S) where
  unfoldable pub decide : Text → ℤ → ℤ → ℤ → Call S RdsError Admission
  decide key limit window n =
      if eqb_ℤ n (pos 1)
      then pure (record { admitted = true; retry_after = pos 0 })
      else if ltb_ℤ limit n
      then (λ s. time_left window (r.ttl key s))
      else pure (record { admitted = true; retry_after = pos 0 })

  -- Allow
  unfoldable pub allow : Text → Text → ℤ → ℤ → Call S RdsError Admission
  allow action subject limit window = do
    n ← or_fail (r.incr_expire_nx (limit_key action subject) window) redis
    decide (limit_key action subject) limit window n

  -- Claim
  unfoldable pub claim : ℤ → Text → ℤ → Call S RdsError Claimed
  claim user_id client_ref ttl = do
    first ← or_fail (r.setnx (idem_key user_id client_ref) [] ttl) redis
    if first
        then pure (record { won = true; prior = [] })
        else (λ s. prior_of (r.get (idem_key user_id client_ref) s))

  -- Store
  unfoldable pub store : ℤ → Text → Text → ℤ → Call S RdsError Unit
  store user_id client_ref resp ttl = or_fail (r.set (idem_key user_id client_ref) resp ttl) redis

  -- Release
  unfoldable pub release : ℤ → Text → Call S RdsError Unit
  release user_id client_ref = or_fail (r.del (idem_key user_id client_ref)) redis

  -- GetDarajaToken
  pub get_daraja_token : Text → Call S RdsError Text
  get_daraja_token kind = or_fail (r.get (daraja_key kind)) nil_as_not_found

  -- PutDarajaToken
  pub put_daraja_token : Text → Text → ℤ → Call S RdsError Unit
  put_daraja_token kind token ttl =
      if leb_ℤ ttl (pos 0) then pure tt else or_fail (r.set (daraja_key kind) token ttl) redis

  -- DelDarajaToken
  pub del_daraja_token : Text → Call S RdsError Unit
  del_daraja_token kind = or_fail (r.del (daraja_key kind)) redis

  -- LockDaraja
  pub lock_daraja : Text → Call S RdsError Bool
  lock_daraja kind = or_fail (r.setnx (daraja_lock_key kind) (codes "1") (pos (10 * second))) redis
