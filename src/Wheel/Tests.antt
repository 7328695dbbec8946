-- ===== src/Wheel/Tests.antt =====
-- internal/game/wheel.go: the theorems at concrete inputs.
use braelaspin.Prelude.{
  pos, ◌*◌, ◌≤◌, ◌≤ℤ◌, ◌<ℤ◌, ◌≡◌, ◌↔◌, refl, true, All, ok, div64, wrap64, mul64, add64, quot, ◌*ℤ◌,
  ◌+ℤ◌, arith, int_laws,
}
use braelaspin.Wheel.{Seg, seg, wheel, table_for, rtp_bp, demo_rtp_bp}
use braelaspin.Wheel.Pick.Odds.{draws, odds_are_weights}
use braelaspin.Wheel.Stake.{
  payout, max_exposure, max_safe_stake, max_affordable_stake, validate_stake_ceiling,
}
use braelaspin.Wheel.Stake.Bounds.{
  payout-le-max_exposure, affordable_is_admitted, affordable_exact, affordable_loses_precision,
  ceiling_lem, max_safe_stake_value,
}
use braelaspin.Wheel.Validate.{validate_table}
use braelaspin.Wheel.Validate.Sound.{IsDrawable, sum_weights, sum_weighted, validate_table_lem}

rtp_values : (rtp_bp ≡ pos 9000) × (demo_rtp_bp ≡ pos 9700)
unfolding rtp_bp demo_rtp_bp div64 wrap64 mul64 add64 quot ◌*ℤ◌ ◌+ℤ◌
rtp_values = (refl, refl)

payout-le-max_exposure_example :
    All (λ (g : Seg). payout (pos 500) g.mult_bp ≤ℤ max_exposure (pos 500)) (table_for true)
payout-le-max_exposure_example = payout-le-max_exposure 500 true

wheel-IsDrawable : All IsDrawable wheel
unfolding wheel
wheel-IsDrawable = omega int_laws

wheel-total : sum_weights wheel ≡ pos 10000
unfolding wheel ◌+ℤ◌
wheel-total = refl

odds_are_weights_example : (429496 * 3 ≤ draws wheel 12) × (draws wheel 12 ≤ 429497 * 3)
unfolding wheel
odds_are_weights_example =
    odds_are_weights wheel 11 (seg (pos 2000000) (pos 3)) wheel-IsDrawable wheel-total refl

affordable_is_admitted_example : max_exposure (max_affordable_stake (pos 10000000)) ≤ℤ pos 10000000
affordable_is_admitted_example = affordable_is_admitted 10000000 (omega arith)

affordable_exact_example :
    (pos 50001 ≤ℤ max_affordable_stake (pos 10000000)) ↔ (max_exposure (pos 50001) ≤ℤ pos 10000000)
affordable_exact_example = affordable_exact 10000000 50001 (omega arith)

affordable_loses_precision_example :
    (max_affordable_stake (pos 922337203999999) ≡ pos 4611686010000)
    × (max_exposure (pos 4611686018427) ≤ℤ pos 922337203999999)
affordable_loses_precision_example =
    affordable_loses_precision 922337203999999 4611686018427 (omega arith) (omega arith)
      (omega arith)

accepted : validate_stake_ceiling (pos 5000000) ≡ ok tt
accepted = (ceiling_lem (pos 5000000)).1 (omega int_laws, rw max_safe_stake_value (omega int_laws))

ceiling_lem_example :
    (validate_stake_ceiling (pos 5000000) ≡ ok tt)
    ↔ ((pos 0 <ℤ pos 5000000) × (pos 5000000 ≤ℤ max_safe_stake))
ceiling_lem_example = ceiling_lem (pos 5000000)

validate_table_lem_example : (validate_table wheel (pos 9000) "Wheel" ≡ ok tt) ↔ (
    All IsDrawable wheel
    × (wrap64 (sum_weights wheel) ≡ pos 10000)
    × (div64 (wrap64 (sum_weighted wheel)) (pos 10000) ≡ pos 9000))
validate_table_lem_example = validate_table_lem wheel (pos 9000) "Wheel"
