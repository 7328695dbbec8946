-- ===== src/Spin/Rounds.antt =====
-- internal/game/spin.go: the movements of one round add up to zero.
use braelaspin.Prelude.{
  ℕ, ℤ, pos, ◌+◌, ◌*◌, ◌^◌, ◌≤◌, ◌+ℤ◌, ◌-ℤ◌, ◌≡◌, refl, ap, Bool, true, false, Option, none, some,
  arith, int_laws, pos_part, neg_part, parts_apart, ltb_ℤ, sub64, sub64_exact, if◌then◌else◌,
}
use braelaspin.Database.{Balances}
use braelaspin.Database.Monad.{◌>>◌, pure}
use braelaspin.Wallet.{move, move_house}
use braelaspin.Spin.{
  Economics, Request, play, pay_win, pay_referrer, settle_house, insert_error, row_of,
  commission_of, pays_commission, win_params, bet_params, referral_params,
}
use braelaspin.Spin.Amounts.{Amounts}
use braelaspin.Spin.Shifts.{
  Shifts, Shifts-pure, Shifts-bind, Shifts-or_fail, real_part, move-Shifts, move_house-Shifts,
  insert_spin-Shifts, Shifts-eq, Shifts-if, Shifts-if_both,
}

pay_win-Shifts :
    (req : Request) (paid id : ℕ) (balance : ℤ)
    → Shifts (pay_win req (pos paid) id balance) (if req.is_real then pos paid else pos 0)
unfolding pay_win
pay_win-Shifts req paid id balance =
    Shifts-if (move (win_params req (pos paid) id)) (pure balance)
      (real_part (win_params req (pos paid) id)) (pos 0)
      (move-Shifts (win_params req (pos paid) id)) (Shifts-pure balance) (ltb_ℤ (pos 0) (pos paid))
      (λ none_won. ground arith)

pay_referrer-Shifts :
    (econ : Economics) (req : Request) (referrer : Option ℕ) (c id : ℕ)
    → (referrer ≡ none → c ≡ 0)
    → Shifts (pay_referrer econ req referrer (pos c) id) (pos c)
unfolding pay_referrer
pay_referrer-Shifts econ req none c id h =
    Shifts-eq (pure tt) (pos 0) (pos c) (Shifts-pure tt) (ground (arith, h refl))
pay_referrer-Shifts econ req (some r) c id h =
    let p = referral_params econ req r (pos c) id in
    Shifts-if (move p >> pure tt) (pure tt) (pos c) (pos 0)
      (Shifts-eq (move p >> pure tt) (pos c +ℤ pos 0) (pos c)
        (Shifts-bind (move p) (λ _. pure tt) (pos c) (pos 0) (move-Shifts p) (λ _. Shifts-pure tt))
        (omega int_laws))
      (Shifts-pure tt) (ltb_ℤ (pos 0) (pos c)) (λ no_commission. ground arith)

abbrev pub house_delta : ℤ → ℕ → ℕ → ℕ → ℤ
house_delta stake paid rake c = sub64 (sub64 (sub64 stake (pos paid)) (pos rake)) (pos c)

settle_house-Shifts :
    (econ : Economics) (req : Request) (referrer : Option ℕ) (paid rake c id : ℕ)
    → (referrer ≡ none → c ≡ 0)
    → Shifts (settle_house econ req referrer (pos paid) (pos rake) (pos c) id) (
        if req.is_real then house_delta req.stake_cents paid rake c +ℤ pos rake +ℤ pos c else pos 0)
unfolding settle_house
settle_house-Shifts econ req referrer paid rake c id h =
    let d = house_delta req.stake_cents paid rake c in
    let settle = move_house d (pos rake) in
    let refer = pay_referrer econ req referrer (pos c) id in
    Shifts-if_both (settle >> refer) (pure tt) (d +ℤ pos rake +ℤ pos c) (pos 0)
      (Shifts-bind settle (λ _. refer) (d +ℤ pos rake) (pos c) (move_house-Shifts d (pos rake))
        (λ _. pay_referrer-Shifts econ req referrer c id h))
      (Shifts-pure tt) req.is_real

-- What the round's four movements add up to.
abbrev round_total : Bool → ℤ → ℕ → ℕ → ℕ → ℤ
round_total is_real stake paid rake c =
    pos 0
    +ℤ ((if is_real then sub64 (pos 0) stake else pos 0)
        +ℤ ((if is_real then pos paid else pos 0)
            +ℤ ((if is_real then house_delta stake paid rake c +ℤ pos rake +ℤ pos c else pos 0)
                +ℤ pos 0)))

pub neg_exact : (s : ℕ) → s ≤ 4611686018427 → sub64 (pos 0) (pos s) ≡ pos 0 -ℤ pos s
neg_exact s h = sub64_exact (pos 0) (pos s) (omega (int_laws, parts_apart (pos 0 -ℤ pos s)))

exact_sub :
    (a : ℤ) (n : ℕ)
    → pos_part a ≤ 2 ^ 61
    → neg_part a ≤ 2 ^ 61
    → n ≤ 2 ^ 61
    → sub64 a (pos n) ≡ a -ℤ pos n
exact_sub a n ha hb hn = sub64_exact a (pos n) (omega (int_laws, parts_apart (a -ℤ pos n)))

pub delta_exact :
    (s p r c : ℕ)
    → s ≤ 4611686018427
    → p ≤ s * 200
    → r + c ≤ s
    → house_delta (pos s) p r c ≡ pos s -ℤ pos p -ℤ pos r -ℤ pos c
delta_exact s p r c hs hp hr =
    let d1 : ℤ = pos s -ℤ pos p in
    let d2 : ℤ = d1 -ℤ pos r in
    let a1 = parts_apart d1 in
    let a2 = parts_apart d2 in
    rw (
      exact_sub (pos s) p (omega arith) (omega arith) (omega arith),
      exact_sub d1 r (omega (int_laws, a1)) (omega (int_laws, a1)) (omega arith),
      exact_sub d2 c (omega (int_laws, a1, a2)) (omega (int_laws, a1, a2)) (omega arith),
    )

round_total_zero :
    (is_real : Bool) (s p r c : ℕ)
    → s ≤ 4611686018427
    → p ≤ s * 200
    → r + c ≤ s
    → round_total is_real (pos s) p r c ≡ pos 0
round_total_zero true s p r c hs hp hr =
    rw (neg_exact s hs, delta_exact s p r c hs hp hr) (omega int_laws)
round_total_zero false s p r c hs hp hr = omega int_laws

pub no_commission :
    (econ : Economics) (req : Request) (referrer : Option ℕ) (c : ℕ)
    → commission_of econ req referrer ≡ pos c
    → referrer ≡ none
    → c ≡ 0
unfolding commission_of pays_commission
no_commission econ req referrer c h e =
    let k : commission_of econ req none ≡ pos c = rw e at h in
    let z : pos 0 ≡ pos c = k in omega (int_laws, ap pos_part z)

-- A round after the draw shifts nothing: what the player, the house and the referrer lose and gain
-- adds up to zero.
pub play-Shifts :
    (econ : Economics) (req : Request) (referrer : Option ℕ) (me : Balances) (seg : ℕ) (mult_bp : ℤ)
    → Amounts econ req referrer mult_bp
    → Shifts (play econ req referrer me (seg, mult_bp)) (pos 0)
unfolding play
play-Shifts econ req referrer me seg mult_bp a =
    let none_paid = no_commission econ req referrer a.commission a.commission_eq in
    let zero_sum =
      round_total_zero req.is_real a.stake a.paid a.rake a.commission a.stake_max a.paid_max
        a.shares_max in
    rw (a.paid_eq, a.rake_eq, a.commission_eq)
      (Shifts-eq _ _ (pos 0)
        (Shifts-bind _ _ (pos 0) _
          (Shifts-or_fail _ insert_error (pos 0)
            (insert_spin-Shifts (row_of req seg mult_bp (pos a.paid) (pos a.rake))))
          λ made.
            Shifts-bind _ _ (real_part (bet_params req 0)) _
              (Shifts-or_fail _ _ _ (move-Shifts (bet_params req made.0)))
              λ _.
                Shifts-bind _ _ (if req.is_real then pos a.paid else pos 0) _
                  (pay_win-Shifts req a.paid made.0 _)
                  λ _.
                    Shifts-bind _ _ _ (pos 0)
                      (settle_house-Shifts econ req referrer a.paid a.rake a.commission made.0
                        none_paid)
                      λ _. Shifts-pure _)
        (rw a.stake_eq zero_sum))
