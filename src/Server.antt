-- ===== src/Server.antt =====
-- cmd/api/main.go: what serve checks and builds before it listens. The connections, the router and the
-- process's signals are left out.
pub mod Sound
pub mod Serve
pub mod Releases
pub mod Ready
pub mod Commands
pub mod Logs
mod Tests
mod LaunchTests
use Prim.Native.String.{String}
use braelaspin.Prelude.{ℤ, Result, ok, err, ◌>>=◌, ◌>>◌}
use braelaspin.Config.{Settings}
use braelaspin.Spin.{Economics}
use braelaspin.Wheel.Stake.{CeilingError, validate_stake_ceiling}
use braelaspin.Wheel.Validate.{WheelError, validate}

pub data StartError : Type 0 where
  bad_wheel : WheelError → StartError
  bad_ceiling : CeilingError → StartError

-- the Economics that serve hands to game.NewService
abbrev pub economics : Settings → Economics
economics c = record {
  rtp_bp = c.rtp_bp;
  rake_bp = c.rake_bp;
  referral_bp = c.referral_bp;
  min_stake_cents = c.min_stake_cents;
  max_stake_cents = c.max_stake_cents;
}

abbrev wheel_checked : Result WheelError Unit → Result StartError Unit
wheel_checked (ok a) = ok a
wheel_checked (err e) = err (bad_wheel e)

abbrev ceiling_checked : Result CeilingError Unit → Result StartError Unit
ceiling_checked (ok a) = ok a
ceiling_checked (err e) = err (bad_ceiling e)

-- the checks of serve
unfoldable pub start_up : Settings → Result StartError Economics
start_up c =
    wheel_checked (validate c.rtp_bp c.demo_rtp_bp)
    >> (ceiling_checked (validate_stake_ceiling c.max_stake_cents) >> ok (economics c))
