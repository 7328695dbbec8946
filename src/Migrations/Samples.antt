-- ===== src/Migrations/Samples.antt =====
-- A driver that counts its handles and has two migrations applied.
use braelaspin.Prelude.{ℕ, suc, ◌-◌, refl, Bool, true, false, List, [], ◌∷◌, codes, ok, err, arith}
use braelaspin.Migrations.{Driver, MigrationStatus}
use braelaspin.Migrations.Handles.{IsDriver}

pub record Bench : Type 0 where
  pub in_use : ℕ
  pub listening : Bool

abbrev pub bench : Bench
bench = record { in_use = 0; listening = false }

abbrev pub counts : Bench → ℕ
counts b = b.in_use

abbrev more : Bench → Bench
more b = record b { in_use = suc b.in_use }

abbrev less : Bench → Bench
less b = record b { in_use = b.in_use - 1 }

abbrev migrations : List MigrationStatus
migrations = (record { path = codes "0001_init.sql"; applied = true }) ∷ []

abbrev pub driver : Driver Bench
driver = record {
  parses = λ url. true;
  new_pool = λ c b. (ok tt, more b);
  ping = λ b. (err tt, b);
  close_pool = less;
  open_db = λ url. more;
  close_db = less;
  new_provider = λ b. (ok tt, b);
  up = λ b. (ok [], b);
  down = λ b. (ok (codes "0001_init.sql"), b);
  status = λ b. (ok migrations, b);
}

-- the same, where the ping answers
abbrev pub answering : Driver Bench
answering = record driver { ping = λ b. (ok tt, b) }

pub driver-IsDriver : IsDriver driver counts
driver-IsDriver = record {
  new_pool-ok = λ c s s' e. ground arith;
  new_pool-err = λ c s s' e. absurd (cc);
  ping-keeps = λ s. refl;
  close_pool-closes = λ s. refl;
  open_db-opens = λ url s. refl;
  close_db-closes = λ s. refl;
  new_provider-keeps = λ s. refl;
  up-keeps = λ s. refl;
  down-keeps = λ s. refl;
  status-keeps = λ s. refl;
}

pub answering-IsDriver : IsDriver answering counts
answering-IsDriver = record {
  new_pool-ok = λ c s s' e. ground arith;
  new_pool-err = λ c s s' e. absurd (cc);
  ping-keeps = λ s. refl;
  close_pool-closes = λ s. refl;
  open_db-opens = λ url s. refl;
  close_db-closes = λ s. refl;
  new_provider-keeps = λ s. refl;
  up-keeps = λ s. refl;
  down-keeps = λ s. refl;
  status-keeps = λ s. refl;
}
