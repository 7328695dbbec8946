-- ===== src/Http/Health.antt =====
-- internal/httpx/router.go: the two health endpoints. A ping is a call of pgxpool or go-redis; its time
-- limit is left out.
use braelaspin.Prelude.{ℕ, Text, codes, Result, ok, err}
use braelaspin.Http.{Response, json}

-- the handler of /healthz, with the version stamped at build time
pub record Health : Type 0 where
  pub status : Text
  pub version : Text

unfoldable pub healthz : Text → Response Health
healthz version = json 200 (record { status = codes "ok"; version = version })

-- the body of /readyz
pub record Readiness : Type 0 where
  pub postgres : Text
  pub redis : Text

module _ {S : Type 0} (ping_db ping_redis : S → Result Unit Unit × S) where
  -- `out[...]` after a ping
  abbrev pub state_of : Result Unit Unit → Text
  state_of (ok x) = codes "ok"
  state_of (err e) = codes "unavailable"

  -- `code` after both
  abbrev pub code_of : Result Unit Unit → Result Unit Unit → ℕ
  code_of (ok x) (ok y) = 200
  code_of r q = 503

  -- the handler of /readyz: the second ping runs whatever the first one did
  unfoldable pub readyz : S → Response Readiness × S
  readyz s =
      let (db, s1) = ping_db s in
      let (redis, s2) = ping_redis s1 in
      (json (code_of db redis) (record { postgres = state_of db; redis = state_of redis }), s2)
