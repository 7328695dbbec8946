-- ===== src/Server/Tests.antt =====
-- cmd/api/main.go: the theorem at a concrete input.
use braelaspin.Prelude.{pos, ◌≡◌, refl, int_laws, trim, text_eq, true, some, codes, ok}
use braelaspin.Config.Tests.{grammar, env, settings, env_accepted}
use braelaspin.Wallet.Samples.{start}
use braelaspin.Spin.{Request, spin}
use braelaspin.Spin.Shifts.{money}
use braelaspin.Server.{start_up, economics}
use braelaspin.Server.Sound.{start_up_lem, started-money}
use braelaspin.Config.{read_settings}
use braelaspin.Config.Read.{bp, i64}
use braelaspin.Wheel.Stake.Bounds.{max_safe_stake_value}

abbrev request : Request
request = record { user_id = 1; stake_cents = pos 10000; is_real = true; client_ref = codes "ref" }

points :
    (settings.rtp_bp ≡ pos 9000)
    × (settings.demo_rtp_bp ≡ pos 9700)
    × (settings.max_stake_cents ≡ pos 5000000)
unfolding read_settings bp i64 trim text_eq
points = (refl, refl, refl)

started : start_up settings ≡ ok (economics settings)
started =
    start_up_lem settings points.0 points.1 (rw points.2 (omega int_laws))
      (rw (points.2, max_safe_stake_value) (omega int_laws))

started-money_example :
    money (spin (economics settings) (some (0, 0, 10, 0)) request start).1.db ≡ money start.db
started-money_example =
    started-money grammar env settings (economics settings) (some (0, 0, 10, 0)) request start
      env_accepted started
