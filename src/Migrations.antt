-- ===== src/Migrations.antt =====
-- internal/db/db.go: the pool of connections and the migrations. The packages pgx, stdlib and goose are a
-- parameter; what they print, and the time limit of the ping, are left out.
pub mod Handles
pub mod Current
pub mod Samples
mod Tests
use braelaspin.Prelude.{
  if◌then◌else◌, ℤ, pos, ◌*◌, Bool, true, false, Text, List, [], ◌∷◌, Result, ok, err,
}
use braelaspin.Calls.{Call, ◌>>=◌, ◌>>◌, pure, fail, or_fail, proceed}
use braelaspin.Redis.{second}

-- pgxpool.Config, the fields that the source sets beside those of the URL
pub record PoolConfig : Type 0 where
  pub url : Text
  pub max_conns : ℤ
  pub min_conns : ℤ
  pub max_conn_lifetime : ℤ
  pub max_conn_idle_time : ℤ
  pub health_check_period : ℤ

-- The errors, by the call that returned one; `behind` names the migrations that are pending.
pub data DbError : Type 0 where
  bad_url no_pool no_ping no_provider no_up no_down no_status : DbError
  behind : List Text → DbError

-- goose.MigrationStatus
pub record MigrationStatus : Type 0 where
  pub path : Text
  pub applied : Bool

-- What the source calls of the packages, on a state of any type.
pub record Driver (S : Type 0) : Type 0 where
  -- whether pgxpool.ParseConfig accepts a URL
  pub parses : Text → Bool
  -- pgxpool.NewWithConfig, Ping and Close
  pub new_pool : PoolConfig → Call S Unit Unit
  pub ping : Call S Unit Unit
  pub close_pool : S → S
  -- stdlib.OpenDB and Close
  pub open_db : Text → S → S
  pub close_db : S → S
  -- goose.NewProvider, Up, Down and Status
  pub new_provider : Call S Unit Unit
  pub up : Call S Unit (List Text)
  pub down : Call S Unit Text
  pub status : Call S Unit (List MigrationStatus)

abbrev pool_config : Text → ℤ → ℤ → PoolConfig
pool_config url max_conns min_conns = record {
  url = url;
  max_conns = max_conns;
  min_conns = min_conns;
  max_conn_lifetime = pos (1800 * second);
  max_conn_idle_time = pos (300 * second);
  health_check_period = pos (30 * second);
}

-- the loop of AssertCurrent: the migrations that are not applied
unfoldable pub pending : List MigrationStatus → List Text
pending [] = []
pending (m ∷ ms) = let rest = pending ms in if m.applied then rest else m.path ∷ rest

module _ {S : Type 0} (d : Driver S) where
  -- an error of the ping closes the pool
  abbrev pub pinged : Result Unit Unit × S → Result DbError Unit × S
  pinged (ok x, s) = (ok tt, s)
  pinged (err e, s) = (err no_ping, d.close_pool s)

  -- Open
  unfoldable pub open_pool : Text → ℤ → ℤ → Call S DbError Unit
  open_pool url max_conns min_conns =
      if d.parses url
      then or_fail (d.new_pool (pool_config url max_conns min_conns)) (λ e. no_pool)
        >> (λ s. pinged (d.ping s))
      else fail bad_url

  -- `defer sqlDB.Close()`
  abbrev pub closed : {A : Type 0} → Result DbError A × S → Result DbError A × S
  closed (r, s) = (r, d.close_db s)

  -- withGoose
  unfoldable pub with_goose : {A : Type 0} → Text → Call S DbError A → Call S DbError A
  with_goose url fn s =
      if d.parses url
      then closed ((or_fail d.new_provider (λ e. no_provider) >> fn) (d.open_db url s))
      else (err bad_url, s)

  -- MigrateUp, MigrateDown, Status
  unfoldable pub migrate_up : Text → Call S DbError Unit
  migrate_up url = with_goose url (or_fail d.up (λ e. no_up) >> pure tt)

  unfoldable pub migrate_down : Text → Call S DbError Unit
  migrate_down url = with_goose url (or_fail d.down (λ e. no_down) >> pure tt)

  unfoldable pub print_status : Text → Call S DbError Unit
  print_status url = with_goose url (or_fail d.status (λ e. no_status) >> pure tt)

  abbrev pub raise_pending : List Text → Call S DbError Unit
  raise_pending [] s = (ok tt, s)
  raise_pending (m ∷ ms) s = (err (behind (m ∷ ms)), s)

  -- AssertCurrent
  unfoldable pub assert_current : Text → Call S DbError Unit
  assert_current url =
      with_goose url (or_fail d.status (λ e. no_status) >>= λ ms. raise_pending (pending ms))
