-- ===== src/Wheel/Stake/Bounds.antt =====
-- internal/game/wheel.go: no wrap-around below the safe stake, what a draw can pay at most, and the
-- largest stake that a bankroll admits.
use braelaspin.Prelude.{
  ℕ, ℤ, pos, negsuc, ◌*◌, ◌/◌, ◌≤◌, ◌<◌, ◌≤ℤ◌, ◌<ℤ◌, ◌≡◌, refl, ◌↔◌, Bool, true, false, All,
  All-map, Bool-cases, inl, inr, ltb, ltb→lt, ok, arith, max_int64, IsInt64, div64, mul64-pos,
  div64-pos, wrap64-IsInt64, if◌then◌else◌,
}
use braelaspin.Wheel.{Seg, wheel, demo_wheel, table_for, max_mult_bp}
use braelaspin.Wheel.Stake.{
  payout, max_safe_stake, max_exposure, affordable_quotient, max_affordable_stake,
  validate_stake_ceiling,
}

max_mult_bp_value : max_mult_bp ≡ pos 2000000
unfolding max_mult_bp
max_mult_bp_value = refl

pub max_safe_stake_value : max_safe_stake ≡ pos 4611686018427
unfolding max_safe_stake
max_safe_stake_value = rw max_mult_bp_value (div64-pos max_int64 2000000 (omega arith))

pub payout-pos : (s m : ℕ) → s * m ≤ max_int64 → payout (pos s) (pos m) ≡ pos (s * m / 10000)
unfolding payout
payout-pos s m h = rw (mul64-pos s m h) (div64-pos (s * m) 10000 h)

pub payout-IsInt64 : (s m : ℤ) → IsInt64 (payout s m)
unfolding payout div64
payout-IsInt64 s m = wrap64-IsInt64 _

pub max_exposure-pos : (s : ℕ) → s ≤ 4611686018427 → max_exposure (pos s) ≡ pos (s * 200)
unfolding max_exposure
max_exposure-pos s h =
    rw (max_safe_stake_value, max_mult_bp_value, payout-pos s 2000000 (omega arith)) (ground arith)

pub max_exposure_above : (s : ℕ) → 4611686018427 < s → max_exposure (pos s) ≡ pos max_int64
unfolding max_exposure
max_exposure_above s h = rw max_safe_stake_value (ground arith)

-- The range of multipliers that a segment of either table has.
abbrev pub IsMultiplier : Seg → Type 0
IsMultiplier s = (pos 0 ≤ℤ s.mult_bp) × (s.mult_bp ≤ℤ max_mult_bp)

pub table_for-IsMultiplier : (is_real : Bool) → All IsMultiplier (table_for is_real)
unfolding table_for wheel demo_wheel max_mult_bp
table_for-IsMultiplier true = omega arith
table_for-IsMultiplier false = omega arith

pub product_bound : (s m : ℕ) → s ≤ 4611686018427 → m ≤ 2000000 → s * m ≤ s * 2000000
product_bound s m hs hm = grind arith

safe_payout : (s m : ℕ) → s ≤ 4611686018427 → m ≤ 2000000 → payout (pos s) (pos m) ≤ℤ pos (s * 200)
safe_payout s m hs hm =
    rw (payout-pos s m (omega (arith, product_bound s m hs hm)))
      (omega (arith, product_bound s m hs hm))

multiplier_payout :
    (s : ℕ) (m : ℤ) → pos 0 ≤ℤ m → m ≤ℤ pos 2000000 → payout (pos s) m ≤ℤ max_exposure (pos s)
multiplier_payout s (negsuc m) lo hi = absurd (omega arith)
multiplier_payout s (pos m) lo hi = elim (Bool-cases (ltb 4611686018427 s)) [
  | inl above ↦
      rw (max_exposure_above s (ltb→lt _ _ above)) (omega (arith, payout-IsInt64 (pos s) (pos m)))
  | inr safe ↦
      let h : s ≤ 4611686018427 = ground arith in
      rw (max_exposure-pos s h) (safe_payout s m h (omega arith))
]

-- Every draw of either table pays at most the exposure that admission control compares with the
-- bankroll, whatever the stake of zero or more, also where the payout's product would wrap around.
pub payout-le-max_exposure :
    (s : ℕ) (is_real : Bool)
    → All (λ (g : Seg). payout (pos s) g.mult_bp ≤ℤ max_exposure (pos s)) (table_for is_real)
payout-le-max_exposure s is_real =
    All-map (table_for is_real)
      (λ g h. multiplier_payout s g.mult_bp h.0 (rw max_mult_bp_value at h.1))
      (table_for-IsMultiplier is_real)

affordable_quotient_small :
    (b : ℕ) → b ≤ 922337203685477 → affordable_quotient (pos b) ≡ pos (b / 200)
unfolding affordable_quotient
affordable_quotient_small b h =
    rw
      (
        max_mult_bp_value,
        mul64-pos b 10000 (omega arith),
        div64-pos (b * 10000) 2000000 (omega arith),
      )
      (ground arith)

affordable_quotient_large :
    (b : ℕ)
    → 922337203685477 < b
    → b ≤ max_int64
    → affordable_quotient (pos b) ≡ pos (b / 2000000 * 10000)
unfolding affordable_quotient
affordable_quotient_large b lo hi =
    rw (max_mult_bp_value, div64-pos b 2000000 hi, mul64-pos (b / 2000000) 10000 (omega arith))
      (ground arith)

pub max_affordable_stake_small :
    (b : ℕ) → b ≤ 922337203685477 → max_affordable_stake (pos b) ≡ pos (b / 200)
unfolding max_affordable_stake
max_affordable_stake_small b h =
    rw (max_mult_bp_value, max_safe_stake_value, affordable_quotient_small b h) (ground arith)

pub max_affordable_stake_large :
    (b : ℕ)
    → 922337203685477 < b
    → b ≤ max_int64
    → max_affordable_stake (pos b) ≡ (
        if ltb 4611686018427 (b / 2000000 * 10000)
        then pos 4611686018427
        else pos (b / 2000000 * 10000))
unfolding max_affordable_stake
max_affordable_stake_large b lo hi =
    rw (max_mult_bp_value, max_safe_stake_value, affordable_quotient_large b lo hi) (ground arith)

exposure_fits : (a b : ℕ) → a ≤ 4611686018427 → a * 200 ≤ b → max_exposure (pos a) ≤ℤ pos b
exposure_fits a b h k = rw (max_exposure-pos a h) (omega arith)

large_limit :
    (b : ℕ)
    → b ≤ max_int64
    → max_exposure (
        if ltb 4611686018427 (b / 2000000 * 10000)
        then pos 4611686018427
        else pos (b / 2000000 * 10000))
      ≤ℤ pos b
large_limit b h = elim (Bool-cases (ltb 4611686018427 (b / 2000000 * 10000))) [
  | inl over ↦ rw over (exposure_fits 4611686018427 b (omega arith) (ground arith))
  | inr under ↦ rw under (exposure_fits (b / 2000000 * 10000) b (ground arith) (omega arith))
]

-- The stake that the client is told is never vetoed: for every bankroll that an int64 holds, the
-- exposure of MaxAffordableStake is covered by the bankroll.
pub affordable_is_admitted :
    (b : ℕ) → b ≤ max_int64 → max_exposure (max_affordable_stake (pos b)) ≤ℤ pos b
affordable_is_admitted b h = elim (Bool-cases (ltb 922337203685477 b)) [
  | inl large ↦ rw (max_affordable_stake_large b (ltb→lt _ _ large) h) (large_limit b h)
  | inr small ↦
      rw (max_affordable_stake_small b (ground arith))
        (exposure_fits (b / 200) b (ground arith) (omega arith))
]

-- Up to the overflow threshold (MaxInt64 / 10000) the limit is exact: the stakes at or below
-- MaxAffordableStake are those whose exposure the bankroll covers.
pub affordable_exact :
    (b s : ℕ)
    → b ≤ 922337203685477
    → (pos s ≤ℤ max_affordable_stake (pos b)) ↔ (max_exposure (pos s) ≤ℤ pos b)
affordable_exact b s h =
    rw (max_affordable_stake_small b h) (elim (Bool-cases (ltb 4611686018427 s)) [
      | inl above ↦ rw (max_exposure_above s (ltb→lt _ _ above)) (ground arith)
      | inr safe ↦ rw (max_exposure-pos s (ground arith)) (omega arith)
    ])

quotient_in_gap :
    (b : ℕ)
    → 922337203685478 ≤ b
    → b < 922337204000000
    → (if ltb 4611686018427 (b / 2000000 * 10000)
        then pos 4611686018427
        else pos (b / 2000000 * 10000))
      ≡ pos 4611686010000
quotient_in_gap b lo hi = let q : b / 2000000 ≡ 461168601 = omega arith in rw q

-- Just above the threshold the limit is thousands of cents below stakes that the bankroll covers: from
-- 922337203685478 to below 922337204000000 cents the reported limit is 4611686010000, though the exposure of
-- every stake up to 4611686018427 is at most the bankroll.
pub affordable_loses_precision :
    (b s : ℕ)
    → 922337203685478 ≤ b
    → b < 922337204000000
    → s ≤ 4611686018427
    → (max_affordable_stake (pos b) ≡ pos 4611686010000) × (max_exposure (pos s) ≤ℤ pos b)
affordable_loses_precision b s lo hi h = (
  rw (max_affordable_stake_large b (omega arith) (omega arith)) (quotient_in_gap b lo hi),
  rw (max_exposure-pos s h) (omega arith),
)

-- A ceiling is accepted exactly when it is positive and at most the safe stake.
pub ceiling_lem :
    (c : ℤ) → (validate_stake_ceiling c ≡ ok tt) ↔ ((pos 0 <ℤ c) × (c ≤ℤ max_safe_stake))
unfolding validate_stake_ceiling
ceiling_lem c = ground arith

-- Once a ceiling is accepted, a stake from 0 up to it never wraps around: with every multiplier of
-- either table the payout is the exact quotient, and it lies between 0 and 200 times the stake.
ceiling_prevents_overflow :
    (c : ℤ) (s m : ℕ)
    → validate_stake_ceiling c ≡ ok tt
    → pos s ≤ℤ c
    → pos m ≤ℤ max_mult_bp
    → (payout (pos s) (pos m) ≡ pos (s * m / 10000)) × (s * m / 10000 ≤ 200 * s)
ceiling_prevents_overflow c s m accepted within small =
    let k' : pos m ≤ℤ pos 2000000 = rw max_mult_bp_value at small in
    let k : m ≤ 2000000 = omega arith in
    let h : s ≤ 4611686018427 =
      omega (arith, rw max_safe_stake_value at (((ceiling_lem c).0 accepted).1)) in
    (payout-pos s m (omega (arith, product_bound s m h k)), omega (arith, product_bound s m h k))
