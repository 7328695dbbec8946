-- ===== src/Api/Spins.antt =====
-- internal/api/game.go: the handlers of a spin. The JSON text of a result is a parameter, `none` where
-- json.Marshal fails.
use braelaspin.Prelude.{
  ℕ, ℤ, pos, ◌*◌, Bool, ◌||◌, Option, none, some, Text, codes, Result, ok, err, ltb, is_empty,
  byte_length, if◌then◌else◌,
}
use braelaspin.Database.Monad.{SqlError, no_rows}
use braelaspin.Errors.{Error, database}
use braelaspin.Wheel.Pick.{Buffer}
use braelaspin.Spin.{Economics, Request, SpinResult, spin, find_by_client_ref, Config, config}
use braelaspin.Calls.{Call, ◌>>=◌, ◌>>◌, pure, fail, raise_if, or_fail, ignore}
use braelaspin.Redis.{Redis, RdsError, second}
use braelaspin.Redis.Counters.{Claimed, claim, store, release}
use braelaspin.Tokens.{Site, on_redis, on_world}
use braelaspin.Http.{
  Response, json, raw, Failure, api, unmapped, of_redis, of_service, of_other, err_bad_request,
  err_conflict, err_not_found, decoded,
}
use braelaspin.Api.{map_spin_error}

-- spinReq
pub record SpinReq : Type 0 where
  pub stake_cents : ℤ
  pub is_real : Bool
  pub client_ref : Text

-- 24*time.Hour
abbrev pub day : ℤ
day = pos (86400 * second)

abbrev pub redis_failure : RdsError → Failure
redis_failure e = unmapped (of_redis e)

abbrev pub request_of : ℕ → SpinReq → Request
request_of uid req = record {
  user_id = uid;
  stake_cents = req.stake_cents;
  is_real = req.is_real;
  client_ref = req.client_ref;
}

-- gameConfig
unfoldable pub game_config : {S : Type 0} → Economics → Call (Site S) Failure (Response Config)
game_config econ = do
  cfg ← or_fail (on_world (config econ)) (λ e. unmapped (of_service e))
  pure (json 200 cfg)

-- spinByRef's answer to an error of FindByClientRef
unfoldable pub by_ref_failure : SqlError → Failure
by_ref_failure no_rows = api err_not_found
by_ref_failure e = unmapped (of_service (database e))

-- spinByRef
unfoldable pub spin_by_ref : {S : Type 0} → ℕ → Text → Call (Site S) Failure (Response SpinResult)
spin_by_ref uid ref = do
  raise_if (is_empty ref) (api (err_bad_request (codes "A client_ref is required.")))
  result ← or_fail (on_world (find_by_client_ref uid ref)) by_ref_failure
  pure (json 200 result)

module _ {S : Type 0} (r : Redis S) (econ : Economics) (encode : SpinResult → Option Text) where
  -- the response, stored before it is sent
  unfoldable pub respond : ℕ → SpinReq → Option Text → Call (Site S) Failure (Response SpinResult)
  respond uid req none = fail (unmapped of_other)
  respond uid req (some body) = do
    ignore (on_redis (store r (pos uid) req.client_ref body day))
    pure (raw 200 body)

  -- what follows the call of Spin: its error releases the claim
  unfoldable pub after_spin :
      ℕ → SpinReq → Result Error SpinResult × Site S → Result Failure (Response SpinResult) × Site S
  after_spin uid req (err e, t) =
      (ignore (on_redis (release r (pos uid) req.client_ref)) >> fail (map_spin_error e)) t
  after_spin uid req (ok result, t) = respond uid req (encode result) t

  -- the round, or the answer to a claim that was lost
  unfoldable pub claimed :
      Option Buffer → ℕ → SpinReq → Claimed → Call (Site S) Failure (Response SpinResult)
  claimed source uid req c =
      if c.won
      then (λ t. after_spin uid req (on_world (spin econ source (request_of uid req)) t))
      else if is_empty c.prior
      then fail (
          api (
            err_conflict (codes "spin_in_flight")
              (codes "That spin is still being processed. Please wait a moment.")))
      else pure (raw 200 c.prior)

  -- spin, from the claim on
  unfoldable pub claim_and_spin :
      Option Buffer → ℕ → SpinReq → Call (Site S) Failure (Response SpinResult)
  claim_and_spin source uid req = do
    c ← or_fail (on_redis (claim r (pos uid) req.client_ref day)) redis_failure
    claimed source uid req c

  -- spin
  unfoldable pub spin_handler :
      Option Buffer → ℕ → Option SpinReq → Call (Site S) Failure (Response SpinResult)
  spin_handler source uid body = do
    req ← decoded body
    raise_if (is_empty req.client_ref || ltb 64 (byte_length req.client_ref))
        (api (err_bad_request (codes "A client_ref is required.")))
    claim_and_spin source uid req
