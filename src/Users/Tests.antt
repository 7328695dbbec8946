-- ===== src/Users/Tests.antt =====
-- internal/users/users.go: the theorems at concrete inputs.
use braelaspin.Prelude.{◌≢◌, pos, some, none, codes, false, true, ok, ◌≡◌, refl}
use braelaspin.Wallet.Ledger.{IsSound}
use braelaspin.Wallet.Samples.{start, player, start-IsSound}
use braelaspin.Spin.{Economics, Request, SpinResult, spin}
use braelaspin.Database.Monad.{World, ◌>>=◌, run_statement}
use braelaspin.Users.Statements.{update_active, put_user}
use braelaspin.Users.Access.{deactivation_locks_out}
use braelaspin.Users.{CreateParams, set_active, is_admin, create}
use braelaspin.Users.Sound.{create-IsSound}

abbrev econ : Economics
econ = record {
  rtp_bp = pos 9000;
  rake_bp = pos 500;
  referral_bp = pos 200;
  min_stake_cents = pos 500;
  max_stake_cents = pos 5000000;
}

abbrev request : Request
request = record { user_id = 1; stake_cents = pos 10000; is_real = true; client_ref = codes "ref" }

abbrev newcomer : CreateParams
newcomer = record {
  phone = codes "254799999999";
  password_hash = codes "hash";
  referrer_code = codes "AAAAAAAA";
}

create-IsSound_example :
    IsSound (create (pos 1000000) newcomer (λ n. some (1, 2, 3, 4, n)) start).1.db
create-IsSound_example =
    create-IsSound (pos 1000000) newcomer (λ n. some (1, 2, 3, 4, n)) start start-IsSound

abbrev off : World
off = record start {
  db = record start.db { users = put_user (record player { is_active = false }) start.db.users };
}

set_active_runs : set_active 1 false start ≡ (ok tt, off)
unfolding set_active update_active run_statement ◌>>=◌
set_active_runs = refl

abbrev result : SpinResult
result = record {
  spin_id = 5;
  segment_index = 0;
  multiplier_bp = pos 0;
  stake_cents = pos 0;
  payout_cents = pos 0;
  net_cents = pos 0;
  is_real = true;
  balance_cents = pos 0;
  created_at = 0;
}

deactivation_locks_out_example :
    (is_admin 1 off ≢ (ok false, off)) × (spin econ none request off ≢ (ok result, off))
deactivation_locks_out_example =
    deactivation_locks_out 1 start off off off econ none request false result set_active_runs refl
      refl
