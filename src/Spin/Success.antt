-- ===== src/Spin/Success.antt =====
-- internal/game/spin.go: a covered stake is always played, and what the player is told.
use braelaspin.Prelude.{
  ℕ, ℤ, pos, ◌-ℤ◌, ◌*ℤ◌, quot, ◌+◌, ◌-◌, ◌*◌, ◌/◌, ◌≤◌, ◌≡◌, refl, ap, sym, true, false, Option,
  none, [], ◌∷◌, ok, arith, int_laws, max_int64, ◌∙◌, sub64, sub64_exact, parts_apart, pos_part,
  pos-mul,
}
use braelaspin.Database.{Balances}
use braelaspin.Database.Monad.{World}
use braelaspin.Database.Returns.{
  Returns, Returns-pure, Returns-bind, Returns-statement, Returns-or_fail,
}
use braelaspin.Wallet.Statements.{fits_bigint, has_user, spendable}
use braelaspin.Spin.{Economics, Request, SpinResult, play, row_of, insert_error, rake_of}
use braelaspin.Spin.Amounts.{Amounts}
use braelaspin.Spin.Played.{house_of, payee_of}
use braelaspin.Spin.Returns.{roomy, bet_returns, win_returns, settle_house-Returns}
use braelaspin.Spin.Scene.{Scene}
use braelaspin.Spin.Statements.{insert_spin, spin_allowed, find_spin}
use braelaspin.Wheel.Stake.{payout}
use braelaspin.Wheel.Stake.Bounds.{payout-pos, product_bound}

-- What the player is told of a round that drew the segment `seg` and pays `paid`.
pub record Told (req : Request) (avail stake paid seg : ℕ) (mult_bp : ℤ) (id : ℕ) (r : SpinResult)
    : Type 0 where
  pub spin_id : r.spin_id ≡ id
  pub segment : r.segment_index ≡ seg
  pub multiplier : r.multiplier_bp ≡ mult_bp
  pub payout : r.payout_cents ≡ pos paid
  pub net : r.net_cents ≡ pos paid -ℤ pos stake
  pub balance : r.balance_cents ≡ pos (avail - stake + paid)

module _ (econ : Economics) (req : Request) (referrer : Option ℕ) (me : Balances) (seg m : ℕ)
    (a : Amounts econ req referrer (pos m)) (m_max : m ≤ 2000000) (seg_min : 1 ≤ seg)
    (seg_max : seg ≤ 12) where
  paid_quotient : a.paid ≡ a.stake * m / 10000
  paid_quotient =
      let bound : a.stake * m ≤ max_int64 =
        omega (arith, product_bound a.stake m a.stake_max m_max) in
      let p : payout (pos a.stake) (pos m) ≡ pos a.paid = rw a.stake_eq at a.paid_eq in
      ap pos_part (sym p ∙ payout-pos a.stake m bound)

  no_demo_rake : req.is_real ≡ false → a.rake ≡ 0
  unfolding rake_of
  no_demo_rake demo =
      let r : rake_of econ req ≡ pos a.rake = a.rake_eq in
      let z : pos 0 ≡ pos a.rake = rw demo at r in omega (arith, ap pos_part z)

  product : req.stake_cents *ℤ pos m ≡ pos (a.stake * m)
  product = rw a.stake_eq (pos-mul a.stake m)

  row_fits : fits_bigint (req.stake_cents *ℤ pos m) ≡ true
  row_fits = rw product (ground (arith, product_bound a.stake m a.stake_max m_max, a.stake_max))

  quotient_exact : quot (req.stake_cents *ℤ pos m) (pos 10000) ≡ pos a.paid
  unfolding quot
  quotient_exact = rw (product, paid_quotient) refl

  row_allowed : spin_allowed (row_of req seg (pos m) (pos a.paid) (pos a.rake)) ≡ true
  unfolding spin_allowed row_of
  row_allowed = rw (quotient_exact, a.stake_eq) (ground (arith, a.stake_pos, no_demo_rake))

  inserted : World → World
  inserted w = record w {
    db = record w.db {
      spins =
          record (row_of req seg (pos m) (pos a.paid) (pos a.rake)) {
            id = w.next_id;
            created_at = w.now;
          }
          ∷ w.db.spins;
    };
    next_id = w.next_id + 1;
  }

  insert_returns :
      (w : World)
      → find_spin req.user_id req.client_ref w.db.spins ≡ none
      → has_user req.user_id w.db ≡ true
      → insert_spin (row_of req seg (pos m) (pos a.paid) (pos a.rake)) w
        ≡ ok ((w.next_id, w.now), inserted w)
  unfolding insert_spin row_of inserted
  insert_returns w fresh user = ground (arith, row_fits, row_allowed, fresh, user)

  Scene-after :
      (w : World) (avail cents bank kept : ℕ)
      → Scene req (payee_of econ req referrer) avail cents (house_of bank kept) w.next_id w
      → Scene req
          (payee_of econ req referrer)
          avail
          cents
          (house_of bank kept)
          w.next_id
          (inserted w)
  unfolding inserted
  Scene-after w avail cents bank kept s = record {
    calm = s.calm;
    row = s.row;
    found = s.found;
    available = s.available;
    owner = s.owner;
    house_eq = s.house_eq;
    unpaid = s.unpaid;
    paying = λ r e.
        let q = s.paying r e in
        (
          q.0,
          record { row = q.1.row; found = q.1.found; cents_eq = q.1.cents_eq; owner = q.1.owner },
        );
  }

  sub_stake : (n : ℕ) → n ≤ roomy → sub64 (pos n) req.stake_cents ≡ pos n -ℤ pos a.stake
  sub_stake n h = rw a.stake_eq (
      sub64_exact (pos n) (pos a.stake)
        (omega (int_laws, a.stake_max, parts_apart (pos n -ℤ pos a.stake))))

  -- Every statement of the round after the draw takes effect, and the player is told what happened.
  pub play_returns :
      (avail cents bank kept : ℕ) (w : World)
      → Scene req (payee_of econ req referrer) avail cents (house_of bank kept) w.next_id w
      → find_spin req.user_id req.client_ref w.db.spins ≡ none
      → spendable me req.is_real ≡ pos avail
      → a.stake ≤ avail
      → avail ≤ roomy
      → (req.is_real ≡ true → a.stake * 200 ≤ bank)
      → bank ≤ roomy
      → kept ≤ roomy
      → cents ≤ roomy
      → Returns
          (play econ req referrer me (seg, pos m))
          w
          (λ r w'. Told req avail a.stake a.paid seg (pos m) w.next_id r × (w'.answers ≡ []))
  unfolding play
  play_returns avail cents bank kept w s fresh me_eq enough room covers bank_room kept_room
        cents_room =
      let payee = payee_of econ req referrer in
      let id = w.next_id in
      let house = house_of bank kept in
      rw (a.paid_eq, a.rake_eq, a.commission_eq)
        (Returns-bind (λ made w'. (made ≡ (id, w.now)) × Scene req payee avail cents house id w') _
          _ w
          (Returns-statement _ insert_error w (inserted w) (id, w.now) s.calm
            (insert_returns w fresh s.owner) (refl, Scene-after w avail cents bank kept s))
          λ made w1 h1. rw h1.0 (
            Returns-bind
              (λ b w'.
                (b ≡ pos (avail - a.stake)) × Scene req payee (avail - a.stake) cents house id w')
              _ _ w1
              (Returns-or_fail _ _ w1 (
                bet_returns req payee cents bank kept id a.stake a.paid a.stake_eq a.stake_max
                  a.stake_pos a.paid_max avail w1 enough room h1.1))
              λ b w2 h2.
                Returns-bind
                  (λ z w'.
                    (z ≡ pos (avail - a.stake + a.paid))
                    × Scene req payee (avail - a.stake + a.paid) cents house id w')
                  _ _ w2
                  (win_returns req payee cents bank kept id a.stake a.paid a.stake_eq a.stake_max
                    a.stake_pos a.paid_max (avail - a.stake) _ w2 (omega arith)
                    (rw me_eq (sub_stake avail room ∙ omega int_laws)) h2.1)
                  λ z w3 h3.
                    Returns-bind (λ u w'. w'.answers ≡ []) _ _ w3
                      (settle_house-Returns econ req referrer cents bank kept
                        (avail - a.stake + a.paid) id a.stake a.paid a.rake a.commission w3
                        a.stake_eq a.stake_max a.paid_max a.shares_max a.commission_eq covers
                        bank_room kept_room cents_room h3.1)
                      λ u w4 calm. Returns-pure _ w4 (
                        record {
                          spin_id = refl;
                          segment = refl;
                          multiplier = refl;
                          payout = refl;
                          net = sub_stake a.paid (omega (arith, a.paid_max, a.stake_max));
                          balance = h3.0;
                        },
                        calm,
                      )))
