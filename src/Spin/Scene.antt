-- ===== src/Spin/Scene.antt =====
-- internal/game/spin.go: what a round sees of the tables, and how each of its movements changes that.
use braelaspin.Prelude.{
  ℕ, ℤ, pos, ◌+ℤ◌, ◌+◌, ◌≤◌, ◌≡◌, ◌≢◌, refl, Bool, true, false, Option, some, [], ok, arith, eqb_ℤ,
  max_int64,
}
use braelaspin.Database.{Kind, Balances, House, find_wallet}
use braelaspin.Database.Monad.{World}
use braelaspin.Database.Returns.{Returns, Returns-at}
use braelaspin.Wallet.{MoveParams, move}
use braelaspin.Wallet.Ledger.{find-put, find-user_id}
use braelaspin.Wallet.Moved.{credited}
use braelaspin.Wallet.Statements.{
  spendable, with_cents, realm_allows, has_user, is_referral, referral_paid,
}
use braelaspin.Wallet.Works.{IsAllowed, move_returns}
use braelaspin.Spin.{Request}

-- The wallet of the referrer who is to be paid.
pub record Payee (r : ℕ) (cents : ℕ) (w : World) : Type 0 where
  pub row : Balances
  pub found : find_wallet r w.db.wallets ≡ some row
  pub cents_eq : row.real_cents ≡ pos cents
  pub owner : has_user r w.db ≡ true

-- What the round with the spin `id` needs: the player's balance, the referrer's, the house's columns.
pub record Scene (req : Request) (payee : Option ℕ) (avail cents : ℕ) (house : House) (id : ℕ)
    (w : World) : Type 0 where
  pub calm : w.answers ≡ []
  pub row : Balances
  pub found : find_wallet req.user_id w.db.wallets ≡ some row
  pub available : spendable row req.is_real ≡ pos avail
  pub owner : has_user req.user_id w.db ≡ true
  pub house_eq : w.db.house ≡ house
  pub unpaid : referral_paid (some id) w.db.transactions ≡ false
  pub paying : (r : ℕ) → payee ≡ some r → (r ≢ req.user_id) × Payee r cents w

-- A movement of the player's money that is no commission.
abbrev pub player_move : Request → Kind → ℤ → ℕ → MoveParams
player_move req kind delta id = record {
  user_id = req.user_id;
  kind = kind;
  is_real = req.is_real;
  delta = delta;
  ref_id = some id;
  memo = [];
}

spendable-with_cents : (b : Balances) (r : Bool) (z : ℤ) → spendable (with_cents b r z) r ≡ z
unfolding spendable with_cents
spendable-with_cents b true z = refl
spendable-with_cents b false z = refl

with_cents-user_id : (b : Balances) (r : Bool) (z : ℤ) → (with_cents b r z).user_id ≡ b.user_id
unfolding with_cents
with_cents-user_id b true z = refl
with_cents-user_id b false z = refl

module _ (req : Request) (payee : Option ℕ) (avail cents : ℕ) (house : House) (id : ℕ) (w : World)
    (s : Scene req payee avail cents house id w) (kind : Kind) (delta : ℤ) (left : ℕ)
    (moves : eqb_ℤ delta (pos 0) ≡ false) (realm : realm_allows req.is_real kind ≡ true)
    (plain : is_referral kind ≡ false) (sum : pos avail +ℤ delta ≡ pos left)
    (fits : left ≤ max_int64) where
  abbrev p : MoveParams
  p = player_move req kind delta id

  left_eq : spendable s.row req.is_real +ℤ delta ≡ pos left
  left_eq = rw s.available sum

  player-IsAllowed : IsAllowed p s.row w
  player-IsAllowed = record {
    calm = s.calm;
    found = s.found;
    moves = moves;
    realm = realm;
    covered = rw left_eq (ground arith);
    fits = rw left_eq (ground arith);
    unpaid = rw plain refl;
    owner = s.owner;
  }

  abbrev moved : World
  moved = record w {
    db = credited p s.row (pos left) w.next_id w.now w.db;
    next_id = w.next_id + 1;
  }

  move_runs : move p w ≡ (ok (pos left), moved)
  move_runs = rw left_eq at (move_returns p s.row w player-IsAllowed)

  moved-Payee : (r : ℕ) → r ≢ req.user_id → Payee r cents w → Payee r cents moved
  moved-Payee r other q = record {
    row = q.row;
    found = ground (
      arith,
      find-put r (with_cents s.row req.is_real (pos left)) w.db.wallets,
      with_cents-user_id s.row req.is_real (pos left),
      find-user_id req.user_id w.db.wallets s.row s.found,
      q.found,
    );
    cents_eq = q.cents_eq;
    owner = q.owner;
  }

  -- The movement returns the balance that is left, and the round goes on with it.
  pub player_moves :
      Returns (move p) w (λ a w'. (a ≡ pos left) × Scene req payee left cents house id w')
  unfolding referral_paid
  player_moves = Returns-at (move p) w moved (pos left) move_runs (
    refl,
    record {
      calm = s.calm;
      row = with_cents s.row req.is_real (pos left);
      found = ground (
        arith,
        find-put req.user_id (with_cents s.row req.is_real (pos left)) w.db.wallets,
        with_cents-user_id s.row req.is_real (pos left),
        find-user_id req.user_id w.db.wallets s.row s.found,
        s.found,
      );
      available = spendable-with_cents s.row req.is_real (pos left);
      owner = s.owner;
      house_eq = s.house_eq;
      unpaid = rw (plain, s.unpaid) refl;
      paying = λ r e. let q = s.paying r e in (q.0, moved-Payee r q.0 q.1);
    },
  )
