-- ===== src/Server/Serve.antt =====
-- cmd/api/main.go: serve from the first check to the shutdown, with Open of internal/rds/rds.go. The HTTP
-- server, the signals and go-redis are a parameter; the router, the time limits and the log lines are left
-- out.
use braelaspin.Prelude.{ℤ, Bool, Text, Result, ok, err, if◌then◌else◌}
use braelaspin.Calls.{Call, ◌>>◌, pure, fail, or_fail}
use braelaspin.Config.{Settings}
use braelaspin.Migrations.{Driver, DbError, open_pool, migrate_up, assert_current}
use braelaspin.Spin.{Economics}
use braelaspin.Server.{StartError, start_up}

-- What Open of rds.go calls of go-redis: ParseURL, NewClient, Ping and Close.
pub record RedisDriver (S : Type 0) : Type 0 where
  pub parses : Text → Bool
  pub new_client : Text → ℤ → S → S
  pub ping : Call S Unit Unit
  pub close : S → S

pub data RdsOpenError : Type 0 where
  bad_redis_url no_redis_ping : RdsOpenError

module _ {S : Type 0} (r : RedisDriver S) where
  abbrev pub pinged : Result Unit Unit × S → Result RdsOpenError Unit × S
  pinged (ok x, s) = (ok tt, s)
  pinged (err e, s) = (err no_redis_ping, r.close s)

  -- Open
  unfoldable pub open_redis : Text → ℤ → Call S RdsOpenError Unit
  open_redis url pool_size =
      if r.parses url
      then (λ s. pinged (r.ping (r.new_client url pool_size s)))
      else fail bad_redis_url

-- The error of serve, by the call that returned it.
pub data ServeError (E : Type 0) : Type 0 where
  not_ready : StartError → ServeError E
  of_db : DbError → ServeError E
  of_rds : RdsOpenError → ServeError E
  of_api : E → ServeError E
  http_failed no_shutdown : ServeError E

-- What serve calls beside the database: New of internal/api/api.go, which may fail, ListenAndServe, which
-- returns a value once a signal arrives, and Shutdown.
pub record Platform (S E : Type 0) : Type 0 where
  pub driver : Driver S
  pub redis_driver : RedisDriver S
  pub new_api : Settings → Call S E Unit
  pub listen : Text → Call S Unit Unit
  pub shutdown : Call S Unit Unit

-- `defer`: the call that runs however the body returns
abbrev pub finally : {S E A : Type 0} → (S → S) → Result E A × S → Result E A × S
finally close (x, s) = (x, close s)

module _ {S E : Type 0} (p : Platform S E) (c : Settings) where
  -- serve, once Redis is open
  unfoldable pub run_server : Call S (ServeError E) Unit
  run_server = do
    or_fail (p.new_api c) of_api
    or_fail (p.listen c.http_addr) (λ e. http_failed)
    or_fail p.shutdown (λ e. no_shutdown)

  -- serve, once the pool is open
  unfoldable pub with_pool : Call S (ServeError E) Unit
  with_pool = do
    if c.migrate_on_boot then or_fail (migrate_up p.driver c.database_url) of_db else pure tt
    or_fail (assert_current p.driver c.database_url) of_db
    or_fail (open_redis p.redis_driver c.redis_url c.redis_pool_size) of_rds
    (λ s. finally p.redis_driver.close (run_server s))

  -- the checks of the wheel and of the stake ceiling
  abbrev pub checked : Call S StartError Economics
  checked s = (start_up c, s)

  -- serve
  unfoldable pub serve : Call S (ServeError E) Unit
  serve = do
    or_fail checked not_ready
    or_fail (open_pool p.driver c.database_url c.db_max_conns c.db_min_conns) of_db
    (λ s. finally p.driver.close_pool (with_pool s))
