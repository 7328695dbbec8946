-- ===== src/Wallet/Tests.antt =====
-- internal/wallet/wallet.go: the theorems at concrete inputs.
use braelaspin.Prelude.{
  arith, sub64, wrap64, ◌-ℤ◌, codes, pos, negsuc, ◌≡◌, refl, true, some, [], ok, ◌+ℤ◌,
}
use braelaspin.Database.{bet}
use braelaspin.Database.Monad.{World, run_statement, ◌>>=◌}
use braelaspin.Wallet.Reversal.{hold_reversed}
use braelaspin.Database.{Balances, find_wallet}
use braelaspin.Wallet.{MoveParams, move, hold, release_hold, reverse_hold, release_hold}
use braelaspin.Wallet.Samples.{start}
use braelaspin.Wallet.Statements.{update_wallet, insert_entry, update_held}

-- A stake of 100 shillings.
abbrev stake : MoveParams
stake = record {
  user_id = 1;
  kind = bet;
  is_real = true;
  delta = negsuc 9999;
  ref_id = some 9;
  memo = [];
}

abbrev staked : World
staked = (move stake start).1

stake_taken : move stake start ≡ (ok (pos 90000), staked)
unfolding move ◌>>=◌ run_statement update_wallet ◌+ℤ◌ insert_entry
stake_taken = refl

abbrev held : World
held = (hold 1 (pos 10000) (some 9) start).1

abbrev reversed : World
reversed = (reverse_hold 1 (pos 10000) (some 9) (codes "declined") held).1

hold_runs : hold 1 (pos 10000) (some 9) start ≡ (ok (pos 90000), held)
unfolding hold move ◌>>=◌ run_statement update_wallet ◌+ℤ◌ insert_entry sub64 wrap64 ◌-ℤ◌
    update_held
hold_runs = refl

reverse_hold_runs :
    reverse_hold 1 (pos 10000) (some 9) (codes "declined") held ≡ (ok (pos 100000), reversed)
unfolding reverse_hold hold move ◌>>=◌ run_statement update_wallet ◌+ℤ◌ insert_entry release_hold
    sub64 wrap64 ◌-ℤ◌ update_held
reverse_hold_runs = refl

hold_reversed_example :
    (b : Balances) × (c : Balances) × (find_wallet 1 start.db.wallets ≡ some b)
    × (find_wallet 1 held.db.wallets ≡ some c)
    × (c.real_cents +ℤ pos 10000 ≡ b.real_cents)
    × (c.held_cents ≡ b.held_cents +ℤ pos 10000)
    × (c.demo_cents ≡ b.demo_cents)
    × (find_wallet 1 reversed.db.wallets ≡ some b)
hold_reversed_example =
    hold_reversed 1 10000 (some 9) (some 9) (codes "declined") start held held reversed (pos 90000)
      (pos 100000) (omega arith) hold_runs refl reverse_hold_runs
