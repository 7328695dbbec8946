-- ===== src/Spin/Returns.antt =====
-- internal/game/spin.go: a round whose stake is covered is played to the end.
use braelaspin.Prelude.{
  ℕ, ℤ, pos, ◌+ℤ◌, ◌-ℤ◌, ◌+◌, ◌-◌, ◌*◌, ◌≤◌, ◌<◌, ◌≡◌, refl, Bool, true, false, Option, some, none,
  [], arith, int_laws, eqb_ℤ, ltb_ℤ, max_int64, sub64, parts_apart, Bool-cases, inl, inr,
}
use braelaspin.Database.{bet, win}
use braelaspin.Database.Monad.{World, pure, ◌>>◌}
use braelaspin.Database.Returns.{Returns, Returns-pure, Returns-bind, Returns-if}
use braelaspin.Wallet.{move, move_house}
use braelaspin.Wallet.Statements.{realm_allows}
use braelaspin.Spin.{
  Economics, Request, pay_win, pay_referrer, settle_house, pays_commission, bet_params, win_params,
  referral_params, commission_of,
}
use braelaspin.Spin.Played.{house_of, payee_of, house_moves, referrer_moves}
use braelaspin.Spin.Rounds.{house_delta, delta_exact, neg_exact}
use braelaspin.Spin.Scene.{Scene, player_moves}

-- The amounts are small against a bigint: no column holds more than 2^62 cents.
abbrev pub roomy : ℕ
roomy = 4611686018427387904

allowed_kinds :
    (is_real : Bool) → (realm_allows is_real bet ≡ true) × (realm_allows is_real win ≡ true)
unfolding realm_allows
allowed_kinds true = (refl, refl)
allowed_kinds false = (refl, refl)

negative : (n : ℕ) → 0 < n → eqb_ℤ (pos 0 -ℤ pos n) (pos 0) ≡ false
unfolding ◌-ℤ◌
negative n h = ground arith

module _ (req : Request) (payee : Option ℕ) (cents bank kept id stake paid : ℕ)
    (stake_eq : req.stake_cents ≡ pos stake) (small : stake ≤ 4611686018427)
    (some_stake : 0 < stake) (most : paid ≤ stake * 200) where
  pub bet_returns :
      (avail : ℕ) (w : World)
      → stake ≤ avail
      → avail ≤ roomy
      → Scene req payee avail cents (house_of bank kept) id w
      → Returns (move (bet_params req id)) w (λ a w'.
        (a ≡ pos (avail - stake))
        × Scene req payee (avail - stake) cents (house_of bank kept) id w')
  bet_returns avail w h k s =
      let exact : sub64 (pos 0) req.stake_cents ≡ pos 0 -ℤ pos stake =
        rw stake_eq (neg_exact stake small) in
      player_moves req payee avail cents (house_of bank kept) id w s bet
        (sub64 (pos 0) req.stake_cents) (avail - stake) (rw exact (negative stake some_stake))
        (allowed_kinds req.is_real).0 refl (rw exact (omega int_laws)) (omega arith)

  pub win_returns :
      (left : ℕ) (balance : ℤ) (w : World)
      → left ≤ roomy
      → balance ≡ pos left
      → Scene req payee left cents (house_of bank kept) id w
      → Returns (pay_win req (pos paid) id balance) w (λ a w'.
        (a ≡ pos (left + paid)) × Scene req payee (left + paid) cents (house_of bank kept) id w')
  unfolding pay_win
  win_returns left balance w h e s =
      Returns-if (ltb_ℤ (pos 0) (pos paid)) (move (win_params req (pos paid) id)) (pure balance) w
        (λ won.
          player_moves req payee left cents (house_of bank kept) id w s win (pos paid) (left + paid)
            (ground arith) (allowed_kinds req.is_real).1 refl (omega int_laws) (omega arith))
        (λ lost.
          let none_paid : paid ≡ 0 = ground arith in
          let same : left + paid ≡ left = omega arith in Returns-pure balance w (rw same (e, s)))

delta_sum :
    (bank stake paid rake c : ℕ)
    → paid ≤ bank
    → rake + c ≤ stake
    → pos bank +ℤ (pos stake -ℤ pos paid -ℤ pos rake -ℤ pos c)
      ≡ pos (bank + stake - paid - rake - c)
delta_sum bank stake paid rake c h k =
    omega (
      int_laws,
      parts_apart (pos stake -ℤ pos paid),
      parts_apart (pos stake -ℤ pos paid -ℤ pos rake),
    )

-- A commission above 0 has a payee.
commission_payee :
    (econ : Economics) (req : Request) (r c : ℕ)
    → commission_of econ req (some r) ≡ pos c
    → 0 < c
    → payee_of econ req (some r) ≡ some r
unfolding commission_of
commission_payee econ req r c h k = elim (Bool-cases (pays_commission econ req (some r))) [
  | inl pays ↦ rw pays refl
  | inr free ↦ absurd (ground arith)
]

pay_referrer-Returns :
    (econ : Economics) (req : Request) (referrer : Option ℕ) (cents bank kept left id c : ℕ)
    (w : World)
    → commission_of econ req referrer ≡ pos c
    → cents + c ≤ max_int64
    → Scene req (payee_of econ req referrer) left cents (house_of bank kept) id w
    → Returns (pay_referrer econ req referrer (pos c) id) w (λ a w'. w'.answers ≡ [])
unfolding pay_referrer
pay_referrer-Returns econ req none cents bank kept left id c w h k s = Returns-pure tt w s.calm
pay_referrer-Returns econ req (some r) cents bank kept left id c w h k s =
    Returns-if (ltb_ℤ (pos 0) (pos c)) (move (referral_params econ req r (pos c) id) >> pure tt)
      (pure tt) w
      (λ some_commission.
        let c0 : 0 < c = ground arith in
        Returns-bind (λ a w'. w'.answers ≡ []) (move (referral_params econ req r (pos c) id))
          (λ _. pure tt) w
          (referrer_moves req (payee_of econ req (some r)) left cents bank kept id w s econ r c
            (commission_payee econ req r c h c0) c0 k)
          (λ a w' calm. Returns-pure tt w' calm))
      (λ no_commission. Returns-pure tt w s.calm)

pub settle_house-Returns :
    (econ : Economics) (req : Request) (referrer : Option ℕ)
    (cents bank kept left id stake paid rake c : ℕ) (w : World)
    → req.stake_cents ≡ pos stake
    → stake ≤ 4611686018427
    → paid ≤ stake * 200
    → rake + c ≤ stake
    → commission_of econ req referrer ≡ pos c
    → (req.is_real ≡ true → stake * 200 ≤ bank)
    → bank ≤ roomy
    → kept ≤ roomy
    → cents ≤ roomy
    → Scene req (payee_of econ req referrer) left cents (house_of bank kept) id w
    → Returns
        (settle_house econ req referrer (pos paid) (pos rake) (pos c) id)
        w
        (λ a w'. w'.answers ≡ [])
unfolding settle_house
settle_house-Returns econ req referrer cents bank kept left id stake paid rake c w e small most
      shares ce covers room kept_room cents_room s =
    let payee = payee_of econ req referrer in
    let d = house_delta req.stake_cents paid rake c in
    let bank' : ℕ = bank + stake - paid - rake - c in
    Returns-if req.is_real (move_house d (pos rake) >> pay_referrer econ req referrer (pos c) id)
      (pure tt) w
      (λ real.
        let enough = covers real in
        let exact : d ≡ pos stake -ℤ pos paid -ℤ pos rake -ℤ pos c =
          rw e (delta_exact stake paid rake c small most shares) in
        let sum : pos bank +ℤ d ≡ pos bank' =
          rw exact (delta_sum bank stake paid rake c (omega arith) shares) in
        Returns-bind (λ h w'. Scene req payee left cents (house_of bank' (kept + rake)) id w')
          (move_house d (pos rake)) (λ _. pay_referrer econ req referrer (pos c) id) w
          (house_moves req payee left cents bank kept id w s d rake bank' sum (omega arith)
            (omega arith))
          (λ h w' t.
            pay_referrer-Returns econ req referrer cents bank' (kept + rake) left id c w' ce
              (omega arith) t))
      (λ demo. Returns-pure tt w s.calm)
