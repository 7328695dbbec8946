-- ===== src/Spin/Sound.antt =====
-- internal/game/spin.go: a spin keeps the rules of the ledger, however it ends.
use braelaspin.Prelude.{
  ℕ, ℤ, ◌≡◌, inl, inr, Option, none, some, List, [], ◌∷◌, ◌+ℤ◌, ◌≤ℤ◌, Option-cases, ok, arith, pos,
}
use braelaspin.Database.{Db, House, SpinRow, Balances, find_wallet}
use braelaspin.Database.Monad.{World}
use braelaspin.Database.Keeps.{Keeps, KeepsRows, keeps_rules, in_transaction-keeps, guarded}
use braelaspin.Errors.{database}
use braelaspin.Wheel.Pick.{Buffer}
use braelaspin.Wallet.{MoveParams, move, lock, require_wallets, house_lock, move_house}
use braelaspin.Wallet.Statements.{select_wallets, select_house, update_house}
use braelaspin.Wallet.Ledger.{IsSound, move-IsSound}
use braelaspin.Spin.{
  Economics, Request, spin, spin_body, play, pay_win, pay_referrer, settle_house, admit,
}
use braelaspin.Spin.Statements.{select_player, insert_spin}

move-Keeps : (p : MoveParams) → Keeps IsSound (move p)
move-Keeps p = record { at = λ w w' a h s. move-IsSound p w w' a h s }

-- The INSERT changes the spins only.
pub insert_spin-rest :
    (row : SpinRow) (w w' : World) (r : ℕ × ℕ)
    → insert_spin row w ≡ ok (r, w')
    → w'.db ≡ record w.db { spins = w'.db.spins }
unfolding insert_spin
insert_spin-rest row w w' r h = ground arith

insert_spin-KeepsRows : (row : SpinRow) → KeepsRows IsSound (insert_spin row)
insert_spin-KeepsRows row = record {
  at = λ w w' r h s. rw (insert_spin-rest row w w' r h) (record {
    reconciled = s.reconciled;
    nonneg = s.nonneg;
    house = s.house;
    in_realm = s.in_realm;
  });
}

-- The UPDATE of the house row changes that row only, and leaves it with no negative column.
pub update_house-rest :
    (b r : ℤ) (w w' : World) (h : House)
    → update_house b r w ≡ ok (h, w')
    → (w'.db ≡ record w.db {
      house = record {
        bankroll_cents = w.db.house.bankroll_cents +ℤ b;
        rake_cents = w.db.house.rake_cents +ℤ r;
      };
    })
      × (pos 0 ≤ℤ w.db.house.bankroll_cents +ℤ b)
      × (pos 0 ≤ℤ w.db.house.rake_cents +ℤ r)
unfolding update_house
update_house-rest b r w w' h e = ground arith

update_house-KeepsRows : (b r : ℤ) → KeepsRows IsSound (update_house b r)
update_house-KeepsRows b r = record {
  at = λ w w' h e s.
      let u = update_house-rest b r w w' h e in
      rw u.0 (record {
        reconciled = s.reconciled;
        nonneg = s.nonneg;
        house = (u.1, u.2);
        in_realm = s.in_realm;
      });
}

module _ {P : Db → Type 0} where
  pub select_player-KeepsRows : (u : ℕ) → KeepsRows P (select_player u)
  unfolding select_player
  select_player-KeepsRows u = record {
    at = λ w w' a h p. let same : w' ≡ w = ground arith in rw same p;
  }

  pub select_wallets-KeepsRows : (ids : List ℕ) → KeepsRows P (select_wallets ids)
  unfolding select_wallets
  select_wallets-KeepsRows ids = record {
    at = λ w w' a h p. let same : w' ≡ w = ground arith in rw same p;
  }

  pub select_house-KeepsRows : KeepsRows P select_house
  unfolding select_house
  select_house-KeepsRows = record {
    at = λ w w' a h p. let same : w' ≡ w = ground arith in rw same p;
  }

  pub require_wallets-Keeps :
      (ids : List ℕ) (rows : List Balances) → Keeps P (require_wallets ids rows)
  unfolding require_wallets
  require_wallets-Keeps [] rows = search keeps_rules
  require_wallets-Keeps (i ∷ ids) rows = elim (Option-cases (find_wallet i rows)) [
    | inl missing ↦ rw (missing, require_wallets) (record { at = λ w w' a h p. absurd (cc) })
    | inr (b, found) ↦ rw (found, require_wallets) (require_wallets-Keeps ids rows)
  ]

  pub lock-Keeps : (ids : List ℕ) → Keeps P (lock ids)
  unfolding lock
  lock-Keeps [] = search keeps_rules
  lock-Keeps (i ∷ ids) = search (keeps_rules, select_wallets-KeepsRows, require_wallets-Keeps)

  pub admit-Keeps : (req : Request) → Keeps P (admit req)
  unfolding admit house_lock
  admit-Keeps req = search (keeps_rules, select_house-KeepsRows)

ruleset sound_rules = (keeps_rules, move-Keeps, insert_spin-KeepsRows, update_house-KeepsRows)

pay_win-Keeps :
    (req : Request) (paid : ℤ) (id : ℕ) (balance : ℤ) → Keeps IsSound (pay_win req paid id balance)
unfolding pay_win
pay_win-Keeps req paid id balance = search sound_rules

pay_referrer-Keeps :
    (econ : Economics) (req : Request) (r : Option ℕ) (c : ℤ) (id : ℕ)
    → Keeps IsSound (pay_referrer econ req r c id)
unfolding pay_referrer
pay_referrer-Keeps econ req none c id = search sound_rules
pay_referrer-Keeps econ req (some r) c id = search sound_rules

settle_house-Keeps :
    (econ : Economics) (req : Request) (r : Option ℕ) (paid rake c : ℤ) (id : ℕ)
    → Keeps IsSound (settle_house econ req r paid rake c id)
unfolding settle_house move_house
settle_house-Keeps econ req r paid rake c id = search (sound_rules, pay_referrer-Keeps)

play-Keeps :
    (econ : Economics) (req : Request) (r : Option ℕ) (me : Balances) (draw : ℕ × ℤ)
    → Keeps IsSound (play econ req r me draw)
unfolding play
play-Keeps econ req r me draw = search (sound_rules, pay_win-Keeps, settle_house-Keeps) depth 12

spin_body-Keeps :
    (econ : Economics) (source : Option Buffer) (req : Request)
    → Keeps IsSound (spin_body econ source req)
unfolding spin_body
spin_body-Keeps econ source req =
    search (sound_rules, select_player-KeepsRows, lock-Keeps, admit-Keeps, play-Keeps) depth 16

-- A spin never breaks the ledger. Whatever the request, the draw and the failures on the way (an
-- error, a rollback, a COMMIT whose answer is lost), tables in which every balance is the sum of its
-- ledger rows, nothing is negative and no realm is mixed are left such.
pub spin-IsSound :
    (econ : Economics) (source : Option Buffer) (req : Request) (w : World)
    → IsSound w.db
    → IsSound (spin econ source req w).1.db
unfolding spin
spin-IsSound econ source req w s = guarded IsSound _ _ _ w s (
    guarded IsSound _ _ _ w s (
      in_transaction-keeps database (spin_body econ source req) w (spin_body-Keeps econ source req)
        s))
