-- ===== src/Spin/Tests.antt =====
-- internal/game/spin.go: the theorems at concrete inputs.
use braelaspin.Prelude.{pos, ◌≡◌, ◌≢◌, refl, err, arith}
use braelaspin.Database.Monad.{connection, ◌>>=◌}
use braelaspin.Database.Returns.{Returns}
use braelaspin.Errors.{Error, bankroll_exhausted, stake_limit, stake_too_small, database}
use braelaspin.Wallet.Ledger.{IsSound}
use braelaspin.Wallet.Samples.{start, start-IsSound}
use braelaspin.Spin.{Request, spin}
use braelaspin.Spin.Samples.{econ, econ-IsSoundEconomics, request, bytes, source, request_covered}
use braelaspin.Spin.Money.{spin-money}
use braelaspin.Spin.Shifts.{money}
use braelaspin.Spin.Sound.{spin-IsSound}
use braelaspin.Spin.Covered.{Settled, spin_returns}
use braelaspin.Spin.Admitted.{never_exhausted}

spin-money_example : money (spin econ source request start).1.db ≡ money start.db
spin-money_example = spin-money econ source request start econ-IsSoundEconomics

spin-IsSound_example : IsSound (spin econ source request start).1.db
spin-IsSound_example = spin-IsSound econ source request start start-IsSound

spin_returns_example :
    Returns
      (spin econ source request)
      start
      (λ r w. Settled request bytes request_covered.avail 4 r)
spin_returns_example = spin_returns econ request start bytes econ-IsSoundEconomics request_covered

abbrev tiny : Request
tiny = record request { stake_cents = pos 100 }

abbrev too_small : Error
too_small = stake_limit stake_too_small (pos 500)

tiny_refused : (spin econ source tiny start).0 ≡ err too_small
unfolding spin ◌>>=◌
tiny_refused = refl

too_small_here : too_small ≢ database connection
too_small_here h = absurd (ground arith)

never_exhausted_example : (spin econ source request start).0 ≢ err bankroll_exhausted
never_exhausted_example =
    never_exhausted econ source request start econ-IsSoundEconomics (omega arith)
