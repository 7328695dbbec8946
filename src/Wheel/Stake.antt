-- ===== src/Wheel/Stake.antt =====
-- internal/game/wheel.go: Payout and the limits on a stake, in int64 arithmetic.
pub mod Bounds
use braelaspin.Prelude.{
  ℤ, pos, ◌/◌, Result, ok, err, ltb_ℤ, leb_ℤ, eqb_ℤ, if◌then◌else◌, max_int64, mul64, div64,
  fail_if, ◌>>◌,
}
use braelaspin.Wheel.{max_mult_bp}

-- Payout
unfoldable pub payout : ℤ → ℤ → ℤ
payout stake_cents mult_bp = div64 (mul64 stake_cents mult_bp) (pos 10000)

-- MaxSafeStake
unfoldable pub max_safe_stake : ℤ
max_safe_stake =
    if eqb_ℤ max_mult_bp (pos 0) then pos max_int64 else div64 (pos max_int64) max_mult_bp

-- MaxExposure
unfoldable pub max_exposure : ℤ → ℤ
max_exposure stake_cents =
    if ltb_ℤ max_safe_stake stake_cents then pos max_int64 else payout stake_cents max_mult_bp

-- the division of MaxAffordableStake, in the order that does not overflow
unfoldable pub affordable_quotient : ℤ → ℤ
affordable_quotient bankroll_cents =
    if ltb_ℤ (pos (max_int64 / 10000)) bankroll_cents
    then mul64 (div64 bankroll_cents max_mult_bp) (pos 10000)
    else div64 (mul64 bankroll_cents (pos 10000)) max_mult_bp

-- MaxAffordableStake
unfoldable pub max_affordable_stake : ℤ → ℤ
max_affordable_stake bankroll_cents =
    if eqb_ℤ max_mult_bp (pos 0)
    then pos 0
    else if leb_ℤ bankroll_cents (pos 0)
    then pos 0
    else let stake = affordable_quotient bankroll_cents in
      if ltb_ℤ max_safe_stake stake then max_safe_stake else stake

pub data CeilingError : Type 0 where
  not_positive : ℤ → CeilingError
  above_safe : ℤ → ℤ → CeilingError

-- ValidateStakeCeiling
unfoldable pub validate_stake_ceiling : ℤ → Result CeilingError Unit
validate_stake_ceiling max_stake_cents = do
  fail_if (leb_ℤ max_stake_cents (pos 0)) (not_positive max_stake_cents)
  fail_if (ltb_ℤ max_safe_stake max_stake_cents) (above_safe max_stake_cents max_safe_stake)
