-- ===== src/Wallet.antt =====
-- internal/wallet/wallet.go: the only code that moves money. Every change is a signed delta, applied
-- by an UPDATE under a row lock, with the ledger row that records it. Account ids are only compared,
-- so they are naturals.
pub mod Statements
pub mod Moved
pub mod Reversal
pub mod Ledger
pub mod Works
pub mod Holds
pub mod Report
pub mod Samples
mod Tests
use braelaspin.Prelude.{
  ℕ, ℤ, pos, Bool, true, false, Option, none, some, Text, Result, [], List, ◌∷◌, codes, eqb_ℤ,
  leb_ℤ, sub64, if◌then◌else◌, text_eq,
}
use braelaspin.Database.{
  Kind, Balances, House, Entry, Db, find_wallet, withdraw, withdraw_reversed, unset,
}
use braelaspin.Database.Monad.{
  SqlError, no_rows, check_violation, foreign_key, out_of_range, connection, unique_violation, Exec,
  pure, raise_if, run_statement, or_fail, ◌>>=◌, ◌>>◌,
}
use braelaspin.Errors.{
  Error, insufficient_funds, bankroll_exhausted, zero_delta, no_kind, hold_corrupt, no_wallet,
  bad_amount, database,
}
use braelaspin.Wallet.Statements.{
  update_wallet, insert_entry, update_house, update_held, select_wallets, select_wallet,
  select_house,
}

-- MoveParams
pub record MoveParams : Type 0 where
  pub user_id : ℕ
  pub kind : Kind
  pub is_real : Bool
  pub delta : ℤ
  pub ref_id : Option ℕ
  pub memo : Text

abbrev pub is_unset : Kind → Bool
is_unset unset = true
is_unset _ = false

-- nullStr
unfoldable pub null_str : Text → Option Text
null_str [] = none
null_str (c ∷ s) = some (c ∷ s)

-- isAnyCheckViolation
unfoldable pub is_check_violation : SqlError → Bool
is_check_violation check_violation = true
is_check_violation _ = false

-- how Move reports an error of its UPDATE
unfoldable pub move_error : ℕ → SqlError → Error
unfolding is_check_violation
move_error user_id no_rows = no_wallet user_id
move_error user_id e = if is_check_violation e then insufficient_funds else database e

-- Move: the balance after the change
unfoldable pub move : MoveParams → Exec Error ℤ
move p = do
  raise_if (eqb_ℤ p.delta (pos 0)) zero_delta
  raise_if (is_unset p.kind) no_kind
  balance_after ←
      or_fail (run_statement (update_wallet p.is_real p.user_id p.delta)) (move_error p.user_id)
  or_fail
      (run_statement
        (insert_entry p.user_id p.kind p.is_real p.delta balance_after p.ref_id (null_str p.memo)))
      database
  pure balance_after

-- the last loop of Lock: every named wallet must be among the rows
unfoldable pub require_wallets : List ℕ → List Balances → Exec Error Unit
require_wallets [] rows = pure tt
require_wallets (i ∷ ids) rows = elim (find_wallet i rows) [
  | none ↦ (λ w. (Result.err (no_wallet i), w))
  | some _ ↦ require_wallets ids rows
]

-- Lock: the rows of the named wallets. The result is a map by user id.
unfoldable pub lock : List ℕ → Exec Error (List Balances)
lock [] = pure []
lock (i ∷ ids) = do
  rows ← or_fail (run_statement (select_wallets (i ∷ ids))) database
  require_wallets (i ∷ ids) rows
  pure rows

-- HouseLock
unfoldable pub house_lock : Exec Error House
house_lock = or_fail (run_statement select_house) database

-- MoveHouse
unfoldable pub house_error : SqlError → Error
unfolding is_check_violation
house_error e = if is_check_violation e then bankroll_exhausted else database e

unfoldable pub move_house : ℤ → ℤ → Exec Error House
move_house bankroll_delta rake_delta =
    or_fail (run_statement (update_house bankroll_delta rake_delta)) house_error

-- Hold
pub hold : ℕ → ℤ → Option ℕ → Exec Error ℤ
hold user_id amount withdrawal_id = do
  raise_if (leb_ℤ amount (pos 0)) (bad_amount amount)
  after ← move (record {
    user_id = user_id;
    kind = withdraw;
    is_real = true;
    delta = sub64 (pos 0) amount;
    ref_id = withdrawal_id;
    memo = codes "withdrawal requested";
  })
  or_fail (run_statement (update_held user_id amount)) database
  pure after

unfoldable pub release_error : SqlError → Error
unfolding is_check_violation
release_error e = if is_check_violation e then hold_corrupt else database e

-- ReleaseHold
pub release_hold : ℕ → ℤ → Exec Error Unit
release_hold user_id amount = do
  raise_if (leb_ℤ amount (pos 0)) (bad_amount amount)
  or_fail (run_statement (update_held user_id (sub64 (pos 0) amount))) release_error

-- ReverseHold
pub reverse_hold : ℕ → ℤ → Option ℕ → Text → Exec Error ℤ
reverse_hold user_id amount withdrawal_id reason = do
  release_hold user_id amount
  move (record {
    user_id = user_id;
    kind = withdraw_reversed;
    is_real = true;
    delta = amount;
    ref_id = withdrawal_id;
    memo = reason;
  })

-- Get
unfoldable pub get : ℕ → Exec Error Balances
get user_id = or_fail (run_statement (select_wallet user_id)) database

-- GetHouse
unfoldable pub get_house : Exec Error House
get_house = or_fail (run_statement select_house) database
