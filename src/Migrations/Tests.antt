-- ===== src/Migrations/Tests.antt =====
-- internal/db/db.go: the theorems at concrete inputs.
use braelaspin.Prelude.{◌≡◌, refl, codes, ok}
use braelaspin.Migrations.{assert_current, with_goose, pending}
use braelaspin.Migrations.Samples.{bench, driver}
use braelaspin.Calls.{◌>>=◌, or_fail}

assert_current_runs : assert_current driver (codes "postgres://db") bench ≡ (ok tt, bench)
unfolding assert_current with_goose pending ◌>>=◌ or_fail
assert_current_runs = refl
