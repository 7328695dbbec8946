-- ===== src/Server/Releases.antt =====
-- cmd/api/main.go: however serve ends, it has closed what it opened.
use braelaspin.Prelude.{
  ℕ, suc, ℤ, ◌+◌, ◌-◌, ◌≡◌, refl, ◌∙◌, Bool, true, false, Text, Result, ok, err, arith,
  if◌then◌else◌,
}
use braelaspin.Calls.{Call, ◌>>=◌, ◌>>◌, proceed, convert_error, or_fail, fail}
use braelaspin.Calls.Keeps.{Keeps, Keeps-bind, Keeps-pure, Keeps-if, Keeps-or_fail}
use braelaspin.Config.{Settings}
use braelaspin.Migrations.{DbError, open_pool}
use braelaspin.Migrations.Handles.{IsDriver, opened, open_pool-handles, migrations_close}
use braelaspin.Server.Serve.{
  Platform, bad_redis_url, ServeError, of_rds, of_db, pinged, open_redis, finally, run_server,
  checked, with_pool, serve,
}

-- What the platform documents of its handles: the pool's, the migrations' and the client's of Redis.
pub record IsPlatform {S E : Type 0} (p : Platform S E) (handles : S → ℕ) : Type 0 where
  pub driver : IsDriver p.driver handles
  pub new_client-opens :
      (url : Text) (n : ℤ) (s : S) → handles (p.redis_driver.new_client url n s) ≡ suc (handles s)
  pub ping-keeps : (s : S) → handles (p.redis_driver.ping s).1 ≡ handles s
  pub close-closes : (s : S) → handles (p.redis_driver.close s) ≡ handles s - 1
  pub new_api-keeps : (c : Settings) (s : S) → handles (p.new_api c s).1 ≡ handles s
  pub listen-keeps : (addr : Text) (s : S) → handles (p.listen addr s).1 ≡ handles s
  pub shutdown-keeps : (s : S) → handles (p.shutdown s).1 ≡ handles s

module _ {S E : Type 0} {p : Platform S E} {handles : S → ℕ} (laws : IsPlatform p handles)
    (c : Settings) where
  abbrev Open : ℕ → S → Type 0
  Open n s = handles s ≡ n

  keeps :
      {F A : Type 0} (n : ℕ) (m : Call S F A)
      → ((s : S) → handles (m s).1 ≡ handles s)
      → Keeps (Open n) m
  keeps n m h = record { at = λ s k. h s ∙ k }

  run_server-Keeps : (n : ℕ) → Keeps (Open n) (run_server p c)
  unfolding run_server
  run_server-Keeps n = Keeps-bind _ _ (Keeps-or_fail _ _ (keeps n _ (laws.new_api-keeps c))) λ x.
      Keeps-bind _ _ (Keeps-or_fail _ _ (keeps n _ (laws.listen-keeps c.http_addr)))
        λ y. Keeps-or_fail _ _ (keeps n _ laws.shutdown-keeps)

  after_ping :
      (n : ℕ) (q : Result Unit Unit × S)
      → handles q.1 ≡ suc n
      → handles
          (proceed
            (convert_error of_rds (pinged p.redis_driver q))
            (λ x s. finally p.redis_driver.close (run_server p c s))).1
        ≡ n
  after_ping n (ok x, s) h =
      omega (arith, (run_server-Keeps (suc n)).at s h, laws.close-closes (run_server p c s).1)
  after_ping n (err e, s) h = omega (arith, h, laws.close-closes s)

  redis_part : Call S (ServeError E) Unit
  redis_part =
      or_fail (open_redis p.redis_driver c.redis_url c.redis_pool_size) of_rds
      >> (λ s. finally p.redis_driver.close (run_server p c s))

  redis_part-keeps : (s : S) → handles (redis_part s).1 ≡ handles s
  unfolding redis_part open_redis ◌>>=◌ or_fail
  redis_part-keeps s = by_url (p.redis_driver.parses c.redis_url)
    where
      by_url :
          (b : Bool)
          → handles
              (proceed
                (convert_error of_rds (
                  (if b
                      then (λ s1. pinged p.redis_driver (
                          p.redis_driver.ping
                            (p.redis_driver.new_client c.redis_url c.redis_pool_size s1)))
                      else fail bad_redis_url)
                    s))
                (λ x s1. finally p.redis_driver.close (run_server p c s1))).1
            ≡ handles s
      by_url true = after_ping (handles s) _ (
          laws.ping-keeps (p.redis_driver.new_client c.redis_url c.redis_pool_size s)
          ∙ laws.new_client-opens c.redis_url c.redis_pool_size s)
      by_url false = refl

  with_pool-Keeps : (n : ℕ) → Keeps (Open n) (with_pool p c)
  unfolding with_pool redis_part
  with_pool-Keeps n =
      let closes = migrations_close laws.driver c.database_url in
      Keeps-bind _ _
        (Keeps-if c.migrate_on_boot _ _ (Keeps-or_fail _ _ (keeps n _ (λ s. (closes s).0)))
          (Keeps-pure tt))
        λ x.
          Keeps-bind _ _ (Keeps-or_fail _ _ (keeps n _ (λ s. (closes s).3)))
            λ y. keeps n redis_part redis_part-keeps

  after_open :
      (n : ℕ) (q : Result DbError Unit × S)
      → handles q.1 ≡ opened q.0 + n
      → handles
          (proceed (convert_error of_db q) (λ x s. finally p.driver.close_pool (with_pool p c s))).1
        ≡ n
  after_open n (ok x, s) h =
      let kept = (with_pool-Keeps (handles s)).at s refl in
      omega (arith, h, kept, laws.driver.close_pool-closes (with_pool p c s).1)
  after_open n (err e, s) h = omega (arith, h)

  pool_part : Call S (ServeError E) Unit
  pool_part =
      or_fail (open_pool p.driver c.database_url c.db_max_conns c.db_min_conns) of_db
      >> (λ s. finally p.driver.close_pool (with_pool p c s))

  pool_part-keeps : (s : S) → handles (pool_part s).1 ≡ handles s
  unfolding pool_part ◌>>=◌ or_fail
  pool_part-keeps s =
      after_open (handles s) (open_pool p.driver c.database_url c.db_max_conns c.db_min_conns s)
        (open_pool-handles laws.driver c.database_url c.db_max_conns c.db_min_conns s)

  serve-Keeps : (n : ℕ) → Keeps (Open n) (serve p c)
  unfolding serve pool_part
  serve-Keeps n =
      Keeps-bind _ _ (Keeps-or_fail _ _ (keeps n (checked p c) (λ s. refl)))
        λ x. keeps n pool_part pool_part-keeps

  -- However serve ends, by a refused setting, by any error on the way or after a signal, as many handles of
  -- Postgres and Redis are open as before it.
  pub serve-handles : (s : S) → handles (serve p c s).1 ≡ handles s
  serve-handles s = (serve-Keeps (handles s)).at s refl
