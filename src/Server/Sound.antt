-- ===== src/Server/Sound.antt =====
-- cmd/api/main.go with internal/config/config.go: a server that starts plays rounds that create no money.
use braelaspin.Prelude.{◌≡◌, refl, pos, ◌<ℤ◌, ◌≤ℤ◌, ok, inl, inr, Result-cases, arith, Option}
use braelaspin.Config.{Settings, load}
use braelaspin.Config.Read.{Grammar, Env}
use braelaspin.Config.Accepted.{load-IsPlayable}
use braelaspin.Database.Monad.{World}
use braelaspin.Spin.{Economics, Request, spin}
use braelaspin.Spin.Amounts.{IsSoundEconomics}
use braelaspin.Spin.Money.{spin-money}
use braelaspin.Spin.Shifts.{money}
use braelaspin.Wheel.Pick.{Buffer}
use braelaspin.Wheel.Stake.{validate_stake_ceiling, max_safe_stake}
use braelaspin.Wheel.Stake.Bounds.{ceiling_lem}
use braelaspin.Wheel.Validate.Sound.{validate_lem}
use braelaspin.Wheel.Validate.{validate}
use braelaspin.Server.{start_up, economics}

started_ceiling :
    (c : Settings) (econ : Economics)
    → start_up c ≡ ok econ
    → (validate_stake_ceiling c.max_stake_cents ≡ ok tt) × (economics c ≡ econ)
unfolding start_up
started_ceiling c econ h = elim (Result-cases (validate c.rtp_bp c.demo_rtp_bp)) [
  | inl (e, bad) ↦ absurd (ground arith)
  | inr (u, checked) ↦ elim (Result-cases (validate_stake_ceiling c.max_stake_cents)) [
    | inl (e, bad) ↦ absurd (ground arith)
    | inr (v, passed) ↦ (passed, ground arith)
  ]
]

-- Start-up passes settings that name the returns which the tables have and a ceiling from 1 up to the
-- safe stake, and hands them to the game unchanged.
pub start_up_lem :
    (c : Settings)
    → c.rtp_bp ≡ pos 9000
    → c.demo_rtp_bp ≡ pos 9700
    → pos 0 <ℤ c.max_stake_cents
    → c.max_stake_cents ≤ℤ max_safe_stake
    → start_up c ≡ ok (economics c)
unfolding start_up
start_up_lem c r d lo hi =
    let wheel_ok = (validate_lem c.rtp_bp c.demo_rtp_bp).1 (r, d) in
    let ceiling_ok = (ceiling_lem c.max_stake_cents).1 (lo, hi) in rw (wheel_ok, ceiling_ok) refl

started-IsSoundEconomics :
    (g : Grammar) (env : Env) (c : Settings) (econ : Economics)
    → load g env ≡ ok c
    → start_up c ≡ ok econ
    → IsSoundEconomics econ
started-IsSoundEconomics g env c econ l h =
    let p = load-IsPlayable g env c l in
    let s = started_ceiling c econ h in
    rw (← s.1) (record {
      minimum = p.minimum;
      ceiling = s.0;
      rake = p.rake;
      referral = p.referral;
      shares = p.shares;
    })

-- If Load accepts the environment and start-up accepts the settings, then no spin under them creates
-- or destroys real money, whatever the request, the entropy and the failures on the way: what the
-- players, the bankroll and the rake hold together is the same before and after.
pub started-money :
    (g : Grammar) (env : Env) (c : Settings) (econ : Economics) (source : Option Buffer)
    (req : Request) (w : World)
    → load g env ≡ ok c
    → start_up c ≡ ok econ
    → money (spin econ source req w).1.db ≡ money w.db
started-money g env c econ source req w l h =
    spin-money econ source req w (started-IsSoundEconomics g env c econ l h)
