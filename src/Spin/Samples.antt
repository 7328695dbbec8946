-- ===== src/Spin/Samples.antt =====
-- internal/game/spin.go: the settings, the requests and the draw of the tests.
use braelaspin.Prelude.{pos, ◌≡◌, refl, true, some, Option, codes, arith, int_laws}
use braelaspin.Wheel.Pick.{Buffer}
use braelaspin.Wheel.Stake.Bounds.{max_exposure-pos, ceiling_lem, max_safe_stake_value}
use braelaspin.Wallet.Samples.{start, player, player_wallet}
use braelaspin.Wallet.Statements.{spendable, referral_paid}
use braelaspin.Spin.{Economics, Request, pays_commission}
use braelaspin.Spin.Amounts.{IsSoundEconomics}
use braelaspin.Spin.Covered.{Covered}

abbrev pub econ : Economics
econ = record {
  rtp_bp = pos 9000;
  rake_bp = pos 500;
  referral_bp = pos 200;
  min_stake_cents = pos 500;
  max_stake_cents = pos 5000000;
}

pub econ-IsSoundEconomics : IsSoundEconomics econ
econ-IsSoundEconomics = record {
  minimum = omega int_laws;
  ceiling =
      (ceiling_lem (pos 5000000)).1 (omega int_laws, rw max_safe_stake_value (omega int_laws));
  rake = omega int_laws;
  referral = omega int_laws;
  shares = omega int_laws;
}

abbrev pub request : Request
request = record { user_id = 1; stake_cents = pos 10000; is_real = true; client_ref = codes "ref" }

abbrev pub bytes : Buffer
bytes = (0, 0, 10, 0)

abbrev pub source : Option Buffer
source = some bytes

pub request_covered : Covered econ request start
unfolding spendable referral_paid pays_commission
request_covered = record {
  calm = refl;
  limits = record { above = refl; below = refl };
  player = player;
  known = refl;
  active = refl;
  row = player_wallet;
  found = refl;
  avail = 100000;
  available = refl;
  enough = omega int_laws;
  bank = 10000000;
  kept = 0;
  house_eq = refl;
  affordable = λ e. rw (max_exposure-pos 10000 (omega arith)) (omega arith);
  fresh = refl;
  unpaid = refl;
  cents = 0;
  paying = λ r e.
      let same : r ≡ 2 = ground arith in
      rw same (record {
        row = record player_wallet { user_id = 2; real_cents = pos 0 };
        found = refl;
        cents_eq = refl;
        owner = refl;
      });
  room = (omega arith, omega arith, omega arith, omega arith);
}
