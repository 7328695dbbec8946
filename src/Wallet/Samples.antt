-- ===== src/Wallet/Samples.antt =====
-- The tables that the tests of internal/wallet, internal/game and internal/users start from: player 1
-- was referred by player 2 and has deposited 1000 shillings.
use braelaspin.Prelude.{pos, refl, true, false, some, none, [], ◌∷◌, ◌+ℤ◌, codes, arith, int_laws}
use braelaspin.Database.{Db, User, Balances, Entry, deposit}
use braelaspin.Database.Monad.{World}
use braelaspin.Wallet.Ledger.{IsSound, ledger_sum}
use braelaspin.Wallet.Statements.{realm_allows}

abbrev pub player : User
player = record {
  id = 1;
  phone = codes "254712345678";
  password_hash = codes "hash";
  ref_code = codes "AAAAAAAA";
  referred_by = some 2;
  phone_verified = false;
  is_admin = false;
  is_active = true;
  demo_topup_at = none;
  created_at = 0;
}

abbrev pub referrer : User
referrer = record player {
  id = 2;
  phone = codes "254112345678";
  ref_code = codes "BBBBBBBB";
  referred_by = none;
}

abbrev pub player_wallet : Balances
player_wallet = record {
  user_id = 1;
  real_cents = pos 100000;
  demo_cents = pos 0;
  held_cents = pos 0;
}

abbrev pub deposit_entry : Entry
deposit_entry = record {
  id = 3;
  user_id = 1;
  kind = deposit;
  is_real = true;
  amount_cents = pos 100000;
  balance_after_cents = pos 100000;
  ref_id = none;
  memo = none;
  created_at = 0;
}

abbrev pub tables : Db
tables = record {
  users = player ∷ referrer ∷ [];
  wallets = player_wallet ∷ (record player_wallet { user_id = 2; real_cents = pos 0 }) ∷ [];
  transactions = deposit_entry ∷ [];
  spins = [];
  house = record { bankroll_cents = pos 10000000; rake_cents = pos 0 };
}

abbrev pub start : World
start = record { db = tables; next_id = 4; now = 1000; answers = [] }

pub start-IsSound : IsSound start.db
unfolding ledger_sum realm_allows ◌+ℤ◌
start-IsSound = record {
  reconciled = record {
    at_wallet = λ u b at. ground arith;
    without_wallet = λ u missing. ground arith;
  };
  nonneg = omega int_laws;
  house = omega int_laws;
  in_realm = (refl, tt);
}
