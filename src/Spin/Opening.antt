-- ===== src/Spin/Opening.antt =====
-- internal/game/spin.go: the locks and the admission of a round, where the database works.
use braelaspin.Prelude.{
  ℕ, ◌≡◌, refl, true, false, some, List, [], ◌∷◌, ok, arith, ltb_ℤ, All, Bool-cases, inl, inr, ◌==◌,
}
use braelaspin.Database.{Balances, find_wallet}
use braelaspin.Database.Monad.{World, pure}
use braelaspin.Database.Returns.{
  Returns, Returns-at, Returns-pure, Returns-bind, Returns-statement, Returns-if, Returns-raise_if,
}
use braelaspin.Errors.{database}
use braelaspin.Wallet.{lock, require_wallets, house_lock}
use braelaspin.Wallet.Statements.{rows_of, select_wallets, select_house, elem}
use braelaspin.Spin.{Request, admit}
use braelaspin.Wheel.Stake.{max_exposure}

pub find-rows_of :
    (i : ℕ) (ids : List ℕ) (bs : List Balances)
    → elem i ids ≡ true
    → find_wallet i (rows_of ids bs) ≡ find_wallet i bs
unfolding rows_of
find-rows_of i ids [] h = refl
find-rows_of i ids (b ∷ bs) h = elim (Bool-cases (b.user_id == i)) [
  | inl hit ↦
      let same : b.user_id ≡ i = ground arith in
      let listed : elem b.user_id ids ≡ true = rw same h in rw listed (ground arith)
  | inr miss ↦ ground (arith, find-rows_of i ids bs h)
]

unfoldable pub HasWallet : List Balances → ℕ → Type 0
HasWallet bs i = (b : Balances) × (find_wallet i bs ≡ some b)

require_wallets-returns :
    (ids : List ℕ) (bs : List Balances) (w : World)
    → All (HasWallet bs) ids
    → require_wallets ids bs w ≡ (ok tt, w)
unfolding require_wallets HasWallet
require_wallets-returns [] bs w h = refl
require_wallets-returns (i ∷ ids) bs w h =
    rw (h.0.1, require_wallets) (require_wallets-returns ids bs w h.1)

pub lock_returns :
    (i : ℕ) (ids : List ℕ) (w : World)
    → w.answers ≡ []
    → All (HasWallet (rows_of (i ∷ ids) w.db.wallets)) (i ∷ ids)
    → Returns (lock (i ∷ ids)) w (λ rows w'. (rows ≡ rows_of (i ∷ ids) w.db.wallets) × (w' ≡ w))
unfolding lock select_wallets
lock_returns i ids w calm h =
    let rows = rows_of (i ∷ ids) w.db.wallets in
    Returns-bind (λ r w'. (r ≡ rows) × (w' ≡ w)) _ _ w
      (Returns-statement (select_wallets (i ∷ ids)) database w w rows calm refl (refl, refl))
      λ r w1 e.
        Returns-bind (λ u w'. w' ≡ w) _ _ w1
          (rw (e.0, e.1) (Returns-at _ w w tt (require_wallets-returns (i ∷ ids) rows w h) refl))
          λ u w2 same. Returns-pure r w2 (e.0, same)

pub admit_returns :
    (req : Request) (w : World)
    → w.answers ≡ []
    → (req.is_real ≡ true → ltb_ℤ w.db.house.bankroll_cents (max_exposure req.stake_cents) ≡ false)
    → Returns (admit req) w (λ u w'. w' ≡ w)
unfolding admit house_lock select_house
admit_returns req w calm h =
    Returns-if req.is_real _ (pure tt) w
      (λ real.
        Returns-bind (λ r w'. (r ≡ w.db.house) × (w' ≡ w)) _ _ w
          (Returns-statement select_house database w w w.db.house calm refl (refl, refl))
          λ r w1 e.
            let passed : ltb_ℤ r.bankroll_cents (max_exposure req.stake_cents) ≡ false =
              rw e.0 (h real) in
            Returns-raise_if _ _ w1 passed e.1)
      (λ demo. Returns-pure tt w refl)
