-- ===== src/Spin/Amounts.antt =====
-- internal/game/spin.go: the amounts of one round, as numbers, under settings that start-up accepts.
use braelaspin.Prelude.{
  ℕ, ℤ, pos, negsuc, ◌+◌, ◌*◌, ◌/◌, ◌≤◌, ◌<◌, ◌≤ℤ◌, ◌<ℤ◌, ◌+ℤ◌, ◌≡◌, refl, false, Option, ok, arith,
  int_laws, parts_apart, ltb_ℤ, mul64, div64, mul64-pos, div64-pos, if◌then◌else◌,
}
use braelaspin.Wheel.Stake.{payout, validate_stake_ceiling}
use braelaspin.Wheel.Stake.Bounds.{ceiling_lem, max_safe_stake_value, payout-pos, product_bound}
use braelaspin.Spin.{Economics, Request, pays_commission, rake_of, commission_of}

-- The settings that main.go and config.go accept: a positive minimum, a ceiling that
-- ValidateStakeCeiling passed, shares of at least 0 that together stay within the stake.
pub record IsSoundEconomics (econ : Economics) : Type 0 where
  pub minimum : pos 0 <ℤ econ.min_stake_cents
  pub ceiling : validate_stake_ceiling econ.max_stake_cents ≡ ok tt
  pub rake : pos 0 ≤ℤ econ.rake_bp
  pub referral : pos 0 ≤ℤ econ.referral_bp
  pub shares : econ.rake_bp +ℤ econ.referral_bp ≤ℤ pos 10000

-- A stake that passed both limits.
pub record InLimits (econ : Economics) (stake : ℤ) : Type 0 where
  pub above : ltb_ℤ stake econ.min_stake_cents ≡ false
  pub below : ltb_ℤ econ.max_stake_cents stake ≡ false

-- The share of a stake, in basis points.
share-pos :
    (s k : ℕ)
    → s ≤ 4611686018427
    → k ≤ 10000
    → div64 (mul64 (pos s) (pos k)) (pos 10000) ≡ pos (s * k / 10000)
share-pos s k hs hk =
    let b : s * k ≤ s * 10000 = grind arith in
    rw (mul64-pos s k (omega arith)) (div64-pos (s * k) 10000 (omega arith))

pub record Amounts (econ : Economics) (req : Request) (referrer : Option ℕ) (mult_bp : ℤ)
    : Type 0 where
  pub stake : ℕ
  pub paid : ℕ
  pub rake : ℕ
  pub commission : ℕ
  pub stake_eq : req.stake_cents ≡ pos stake
  pub paid_eq : payout req.stake_cents mult_bp ≡ pos paid
  pub rake_eq : rake_of econ req ≡ pos rake
  pub commission_eq : commission_of econ req referrer ≡ pos commission
  pub stake_pos : 0 < stake
  pub stake_max : stake ≤ 4611686018427
  pub paid_max : paid ≤ stake * 200
  pub shares_max : rake + commission ≤ stake

scale : (s a b : ℕ) → a ≤ b → s * a ≤ s * b
scale s a b h = grind arith

shares_fit : (s k l : ℕ) → k + l ≤ 10000 → s * k / 10000 + s * l / 10000 ≤ s
shares_fit s k l h = omega (arith, scale s (k + l) 10000 h)

Amounts-at :
    (econ : Economics) (req : Request) (referrer : Option ℕ) (mult_bp : ℤ) (s k l m : ℕ)
    → req.stake_cents ≡ pos s
    → econ.rake_bp ≡ pos k
    → econ.referral_bp ≡ pos l
    → mult_bp ≡ pos m
    → 0 < s
    → s ≤ 4611686018427
    → k + l ≤ 10000
    → m ≤ 2000000
    → Amounts econ req referrer mult_bp
unfolding rake_of commission_of
Amounts-at econ req referrer mult_bp s k l m es ek el em s0 s1 kl m1 = record {
  stake = s;
  paid = s * m / 10000;
  rake = if req.is_real then s * k / 10000 else 0;
  commission = if pays_commission econ req referrer then s * l / 10000 else 0;
  stake_eq = es;
  paid_eq = rw (es, em) (payout-pos s m (omega (arith, product_bound s m s1 m1)));
  rake_eq = rw (es, ek) (ground (arith, share-pos s k s1 (omega arith)));
  commission_eq = rw (es, el) (ground (arith, share-pos s l s1 (omega arith)));
  stake_pos = s0;
  stake_max = s1;
  paid_max = omega (arith, product_bound s m s1 m1);
  shares_max = ground (arith, shares_fit s k l kl);
}

pub nonneg_pos : (z : ℤ) → pos 0 ≤ℤ z → (n : ℕ) × (z ≡ pos n)
nonneg_pos (pos n) h = (n, refl)
nonneg_pos (negsuc n) h = absurd (omega arith)

stake_positive :
    (econ : Economics) (req : Request) (s : ℕ)
    → req.stake_cents ≡ pos s
    → InLimits econ req.stake_cents
    → pos 0 <ℤ econ.min_stake_cents
    → 0 < s
stake_positive econ req s e l h = ground (arith, l.above)

stake_within :
    (econ : Economics) (req : Request) (s : ℕ)
    → req.stake_cents ≡ pos s
    → InLimits econ req.stake_cents
    → econ.max_stake_cents ≤ℤ pos 4611686018427
    → s ≤ 4611686018427
stake_within econ req s e l h = ground (arith, l.below)

shares_of : (k l : ℕ) → pos k +ℤ pos l ≤ℤ pos 10000 → k + l ≤ 10000
shares_of k l h = omega (int_laws, parts_apart (pos k +ℤ pos l))

pub multiplier_of : (m : ℕ) (z : ℤ) → z ≡ pos m → z ≤ℤ pos 2000000 → m ≤ 2000000
multiplier_of m z e h = ground arith

-- The amounts of a round whose stake is within the limits, at a multiplier of the wheel.
pub amounts :
    (econ : Economics) (req : Request) (referrer : Option ℕ) (mult_bp : ℤ)
    → IsSoundEconomics econ
    → InLimits econ req.stake_cents
    → pos 0 ≤ℤ mult_bp
    → mult_bp ≤ℤ pos 2000000
    → Amounts econ req referrer mult_bp
amounts econ req referrer mult_bp e l m0 m1 =
    let c = (ceiling_lem econ.max_stake_cents).0 e.ceiling in
    let (s, es) = nonneg_pos req.stake_cents (ground (arith, l.above, e.minimum)) in
    let (k, ek) = nonneg_pos econ.rake_bp e.rake in
    let (l', el) = nonneg_pos econ.referral_bp e.referral in
    let (m, em) = nonneg_pos mult_bp m0 in
    let kl : pos k +ℤ pos l' ≤ℤ pos 10000 = rw (ek, el) at e.shares in
    let high : econ.max_stake_cents ≤ℤ pos 4611686018427 = rw max_safe_stake_value at c.1 in
    Amounts-at econ req referrer mult_bp s k l' m es ek el em
      (stake_positive econ req s es l e.minimum) (stake_within econ req s es l high)
      (shares_of k l' kl) (multiplier_of m mult_bp em m1)
