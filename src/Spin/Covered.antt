-- ===== src/Spin/Covered.antt =====
-- internal/game/spin.go: Spin returns a result whenever the stake is covered and the database works.
use braelaspin.Prelude.{
  ℕ, ℤ, zero, suc, pos, ◌+ℤ◌, ◌≤ℤ◌, ◌+◌, ◌*◌, ◌≤◌, ◌<◌, ◌≡◌, ◌≢◌, refl, Bool, true, false, Option,
  some, none, List, [], ◌∷◌, ok, arith, int_laws, ltb_ℤ, ◌∙◌, All, length, get_elem?, Bool-cases,
  inl, inr,
}
use braelaspin.Database.{Balances, User, find_user, find_wallet}
use braelaspin.Database.Monad.{World, ◌>>=◌, lift}
use braelaspin.Database.Returns.{
  Returns, Returns-at, Returns-lift, Returns-bind, Returns-statement, Returns-raise_if,
  Returns-weaken, in_transaction-returns,
}
use braelaspin.Errors.{database}
use braelaspin.Wallet.{lock}
use braelaspin.Wallet.Statements.{has_user, spendable, referral_paid, rows_of}
use braelaspin.Spin.{
  Economics, Request, SpinResult, play, spin_body, spin, pays_commission, lock_ids, balances_at,
  draw_error,
}
use braelaspin.Spin.Amounts.{IsSoundEconomics, InLimits, amounts, nonneg_pos, multiplier_of}
use braelaspin.Spin.Money.{drawn_in_range}
use braelaspin.Spin.Opening.{find-rows_of, HasWallet, lock_returns, admit_returns}
use braelaspin.Spin.Played.{house_of, payee_of}
use braelaspin.Spin.Returns.{roomy}
use braelaspin.Spin.Scene.{Payee, Scene}
use braelaspin.Spin.Statements.{select_player, find_spin}
use braelaspin.Spin.Success.{Told, play_returns}
use braelaspin.Wheel.{Seg, Table, table_for, wheel, demo_wheel}
use braelaspin.Wheel.Pick.{Buffer, pick_from}
use braelaspin.Wheel.Pick.Total.{pick_from-Selects}
use braelaspin.Wheel.Stake.{payout, max_exposure}
use braelaspin.Wheel.Stake.Bounds.{max_exposure-pos}
use braelaspin.Wheel.Validate.Sound.{IsDrawable, sum_weights}

-- A spin that the tables cover: an active player with the stake, a bankroll with the exposure, a fresh
-- client_ref, the referrer's wallet where one is to be paid, and columns far from a bigint's end.
pub record Covered (econ : Economics) (req : Request) (w : World) : Type 0 where
  pub calm : w.answers ≡ []
  pub limits : InLimits econ req.stake_cents
  pub player : User
  pub known : find_user req.user_id w.db.users ≡ some player
  pub active : player.is_active ≡ true
  pub row : Balances
  pub found : find_wallet req.user_id w.db.wallets ≡ some row
  pub avail : ℕ
  pub available : spendable row req.is_real ≡ pos avail
  pub enough : req.stake_cents ≤ℤ pos avail
  pub bank : ℕ
  pub kept : ℕ
  pub house_eq : w.db.house ≡ house_of bank kept
  pub affordable : req.is_real ≡ true → max_exposure req.stake_cents ≤ℤ pos bank
  pub fresh : find_spin req.user_id req.client_ref w.db.spins ≡ none
  pub unpaid : referral_paid (some w.next_id) w.db.transactions ≡ false
  pub cents : ℕ
  pub paying : (r : ℕ) → payee_of econ req player.referred_by ≡ some r → Payee r cents w
  pub room : (avail ≤ roomy) × (bank ≤ roomy) × (kept ≤ roomy) × (cents ≤ roomy)

-- The result that Spin returns, against the draw.
pub record Settled (req : Request) (b : Buffer) (avail id : ℕ) (r : SpinResult) : Type 0 where
  pub stake : ℕ
  pub paid : ℕ
  pub seg : ℕ
  pub mult_bp : ℤ
  pub stake_eq : req.stake_cents ≡ pos stake
  pub drawn : pick_from (some b) (table_for req.is_real) ≡ ok (seg, mult_bp)
  pub paid_eq : payout req.stake_cents mult_bp ≡ pos paid
  pub told : Told req avail stake paid seg mult_bp id r

payee_other :
    (econ : Economics) (req : Request) (referrer : Option ℕ) (r : ℕ)
    → payee_of econ req referrer ≡ some r
    → r ≢ req.user_id
unfolding pays_commission
payee_other econ req none r h = absurd (ground arith)
payee_other econ req (some x) r h = ground arith

table-IsDrawable :
    (is_real : Bool)
    → All IsDrawable (table_for is_real) × (sum_weights (table_for is_real) ≡ pos 10000)
unfolding table_for wheel demo_wheel ◌+ℤ◌
table-IsDrawable true = (omega int_laws, refl)
table-IsDrawable false = (omega int_laws, refl)

get_elem?-length : (t : Table) (n : ℕ) (s : Seg) → get_elem? t n ≡ some s → n < length t
get_elem?-length [] n s h = absurd (ground arith)
get_elem?-length (x ∷ t) zero s h = omega arith
get_elem?-length (x ∷ t) (suc n) s h = omega (arith, get_elem?-length t n s h)

twelve_segments : (is_real : Bool) → length (table_for is_real) ≡ 12
unfolding table_for wheel demo_wheel
twelve_segments true = refl
twelve_segments false = refl

module _ (econ : Economics) (req : Request) (w : World) (c : Covered econ req w) where
  first_wallet :
      (ids : List ℕ)
      → find_wallet req.user_id (rows_of (req.user_id ∷ ids) w.db.wallets) ≡ some c.row
  first_wallet ids =
      find-rows_of req.user_id (req.user_id ∷ ids) w.db.wallets (ground arith) ∙ c.found

  HasPlayer : List Balances → World → Type 0
  HasPlayer rows w' = (find_wallet req.user_id rows ≡ some c.row) × (w' ≡ w)

  lock_player :
      (ids : List ℕ)
      → All (HasWallet (rows_of (req.user_id ∷ ids) w.db.wallets)) ids
      → Returns (lock (req.user_id ∷ ids)) w HasPlayer
  unfolding HasWallet HasPlayer
  lock_player ids h =
      let l = lock_returns req.user_id ids w c.calm ((c.row, first_wallet ids), h) in
      record {
        value = l.value;
        after = l.after;
        runs = l.runs;
        holds = (rw (l.holds.0) (first_wallet ids), l.holds.1);
      }

  lock_all :
      (referrer : Option ℕ)
      → ((r : ℕ) → payee_of econ req referrer ≡ some r → Payee r c.cents w)
      → Returns (lock (lock_ids econ req referrer)) w HasPlayer
  unfolding lock_ids HasWallet
  lock_all none h = lock_player [] tt
  lock_all (some r) h = elim (Bool-cases (pays_commission econ req (some r))) [
    | inl pays ↦
        let q : Payee r c.cents w = h r (rw pays refl) in
        let ids = req.user_id ∷ r ∷ [] in
        let there = find-rows_of r ids w.db.wallets (ground arith) ∙ q.found in
        rw (pays, lock_ids) (lock_player (r ∷ []) ((q.row, there), tt))
    | inr free ↦ rw (free, lock_ids) (lock_player [] tt)
  ]

  scene :
      (referrer : Option ℕ)
      → referrer ≡ c.player.referred_by
      → Scene req (payee_of econ req referrer) c.avail c.cents (house_of c.bank c.kept) w.next_id w
  scene referrer e = record {
    calm = c.calm;
    row = c.row;
    found = c.found;
    available = c.available;
    owner = rw (c.known, has_user) refl;
    house_eq = c.house_eq;
    unpaid = c.unpaid;
    paying = λ r h. (payee_other econ req referrer r h, c.paying r (rw e at h));
  }

  player_found : select_player req.user_id w ≡ ok (c.player.referred_by, w)
  unfolding select_player
  player_found = rw (c.known, c.active, select_player) refl

  can_pay : ltb_ℤ (spendable c.row req.is_real) req.stake_cents ≡ false
  can_pay = rw c.available (ground (arith, c.enough))

  bank_covers :
      req.is_real ≡ true → ltb_ℤ w.db.house.bankroll_cents (max_exposure req.stake_cents) ≡ false
  bank_covers real = rw c.house_eq (ground (arith, c.affordable real))

  round_returns :
      (b : Buffer) (referrer : Option ℕ) (me : Balances) (place m : ℕ) (mult_bp : ℤ)
      → IsSoundEconomics econ
      → referrer ≡ c.player.referred_by
      → spendable me req.is_real ≡ pos c.avail
      → pick_from (some b) (table_for req.is_real) ≡ ok (place + 1, mult_bp)
      → place < 12
      → mult_bp ≡ pos m
      → m ≤ 2000000
      → Returns
          (play econ req referrer me (place + 1, mult_bp))
          w
          (λ r w'. Settled req b c.avail w.next_id r × (w'.answers ≡ []))
  round_returns b referrer me place m mult_bp sound same me_eq drawn twelve e small =
      let a = amounts econ req referrer (pos m) sound c.limits (omega int_laws) (omega int_laws) in
      let enough : a.stake ≤ c.avail =
        let k : pos a.stake ≤ℤ pos c.avail = rw a.stake_eq at c.enough in omega arith in
      let covers : req.is_real ≡ true → a.stake * 200 ≤ c.bank = λ real.
        let k : pos (a.stake * 200) ≤ℤ pos c.bank =
          rw (a.stake_eq, max_exposure-pos a.stake a.stake_max) at (c.affordable real) in
        omega arith in
      let drawn' : pick_from (some b) (table_for req.is_real) ≡ ok (place + 1, pos m) =
        rw e at drawn in
      rw e (
        Returns-weaken _ w
          (play_returns econ req referrer me (place + 1) m a small (omega arith) (omega arith)
            c.avail c.cents c.bank c.kept w (scene referrer same) c.fresh me_eq enough c.room.0
            covers c.room.1 c.room.2 c.room.3)
          λ r w' h. (
            record {
              stake = a.stake;
              paid = a.paid;
              seg = place + 1;
              mult_bp = pos m;
              stake_eq = a.stake_eq;
              drawn = drawn';
              paid_eq = a.paid_eq;
              told = h.0;
            },
            h.1,
          ))

  draw_returns :
      (b : Buffer) (referrer : Option ℕ) (me : Balances) (w' : World)
      → IsSoundEconomics econ
      → referrer ≡ c.player.referred_by
      → spendable me req.is_real ≡ pos c.avail
      → w' ≡ w
      → Returns
          (lift (draw_error (pick_from (some b) (table_for req.is_real)))
            >>= play econ req referrer me)
          w'
          (λ r w''. Settled req b c.avail w.next_id r × (w''.answers ≡ []))
  unfolding draw_error
  draw_returns b referrer me w' sound same me_eq here =
      let t = table_for req.is_real in
      let d = table-IsDrawable req.is_real in
      let sel = pick_from-Selects b t d.0 d.1 in
      let twelve : sel.place < 12 = omega (
        arith,
        get_elem?-length t sel.place sel.chosen sel.at_place,
        twelve_segments req.is_real,
      ) in
      let hit : pick_from (some b) t ≡ ok (sel.place + 1, sel.chosen.mult_bp) =
        let z : 0 + sel.place ≡ sel.place = omega arith in rw z at sel.returned in
      let range =
        drawn_in_range (some b) req.is_real (sel.place + 1) sel.chosen.mult_bp (rw hit refl) in
      let (m, m_eq) = nonneg_pos sel.chosen.mult_bp range.0 in
      rw here (
        Returns-bind (λ x w''. (x ≡ (sel.place + 1, sel.chosen.mult_bp)) × (w'' ≡ w)) _ _ w
          (Returns-lift _ (sel.place + 1, sel.chosen.mult_bp) w (rw hit refl) (refl, refl))
          λ x w'' e.
            rw (e.0, e.1)
              (round_returns b referrer me sel.place m sel.chosen.mult_bp sound same me_eq hit
                twelve m_eq (multiplier_of m sel.chosen.mult_bp m_eq range.1)))

  -- The body of the transaction, for a draw.
  body_returns :
      (b : Buffer)
      → IsSoundEconomics econ
      → Returns
          (spin_body econ (some b) req)
          w
          (λ r w'. Settled req b c.avail w.next_id r × (w'.answers ≡ []))
  unfolding spin_body HasPlayer balances_at
  body_returns b sound =
      Returns-bind (λ r w'. (r ≡ c.player.referred_by) × (w' ≡ w)) _ _ w
        (Returns-statement (select_player req.user_id) _ w w c.player.referred_by c.calm
          player_found (refl, refl))
        λ referrer w1 e1.
          Returns-bind HasPlayer _ _ w1 (rw (e1.0, e1.1) (lock_all c.player.referred_by c.paying))
            λ rows w2 e2.
              let me_eq : spendable (balances_at req.user_id rows) req.is_real ≡ pos c.avail =
                rw (e2.0, balances_at) c.available in
              let pay : ltb_ℤ (spendable (balances_at req.user_id rows) req.is_real) req.stake_cents
                  ≡ false =
                rw (e2.0, balances_at) can_pay in
              Returns-bind (λ u w'. w' ≡ w) _ _ w2 (Returns-raise_if _ _ w2 pay e2.1)
                λ u w3 e3.
                  Returns-bind (λ u' w'. w' ≡ w) _ _ w3
                    (rw e3 (admit_returns req w c.calm bank_covers))
                    λ u' w4 e4.
                      draw_returns b referrer (balances_at req.user_id rows) w4 sound e1.0 me_eq e4

-- Spin answers. Under settings that start-up accepts, a player who is active and holds the stake, with a
-- client_ref not used before, a bankroll that covers the exposure, the referrer's wallet in place where a
-- commission is due, columns of at most 2^62 cents, four bytes of entropy and a database that works: Spin
-- returns a result. It names the segment and the multiplier that the bytes select, the exact payout, a
-- net of payout minus stake, and the balance from before the round plus that net.
pub spin_returns :
    (econ : Economics) (req : Request) (w : World) (b : Buffer)
    → IsSoundEconomics econ
    → (c : Covered econ req w)
    → Returns (spin econ (some b) req) w (λ r w'. Settled req b c.avail w.next_id r)
unfolding spin
spin_returns econ req w b sound c =
    let body = body_returns econ req w c b sound in
    Returns-bind (λ u w'. w' ≡ w) _ _ w (Returns-raise_if _ _ w c.limits.above refl)
      λ u w1 e1.
        Returns-bind (λ u' w'. w' ≡ w) _ _ w1 (Returns-raise_if _ _ w1 c.limits.below e1)
          λ u' w2 e2. rw e2 (
            Returns-at _ w body.after body.value
              (in_transaction-returns database (spin_body econ (some b) req) w body.after body.value
                c.calm body.runs body.holds.1)
              body.holds.0)
