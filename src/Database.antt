-- ===== src/Database.antt =====
-- The tables of internal/db/migrations/0001_init.sql that the code reads and writes, and the way the
-- code runs SQL: a statement answers or fails, a transaction commits or leaves the tables alone.
-- The SQL texts stand in the source and are translated as functions on the tables, with the CHECK,
-- UNIQUE and REFERENCES constraints of the schema. What the server or the network does on top of that
-- is a parameter, the list of answers. Transactions run one after the other: the row locks that the
-- source takes stand for that. Row ids are never reused, also after a rollback.
pub mod Monad
pub mod Steps
pub mod Triples
pub mod Keeps
pub mod Returns
pub mod Rollback
pub mod Newest
use braelaspin.Prelude.{
  ℕ, ℤ, pos, Bool, Option, none, some, List, [], ◌∷◌, Text, if◌then◌else◌, ◌==◌,
}

-- wallet.Kind, and the kinds that the CHECK on transactions.kind allows; `unset` is Go's "".
pub data Kind : Type 0 where
  demo_grant bet win deposit withdraw withdraw_reversed referral adjustment unset : Kind

-- wallet.Balances, a row of wallets.
pub record Balances : Type 0 where
  pub user_id : ℕ
  pub real_cents : ℤ
  pub demo_cents : ℤ
  pub held_cents : ℤ

-- wallet.House, the one row of house.
pub record House : Type 0 where
  pub bankroll_cents : ℤ
  pub rake_cents : ℤ

-- A row of transactions.
pub record Entry : Type 0 where
  pub id : ℕ
  pub user_id : ℕ
  pub kind : Kind
  pub is_real : Bool
  pub amount_cents : ℤ
  pub balance_after_cents : ℤ
  pub ref_id : Option ℕ
  pub memo : Option Text
  pub created_at : ℕ

-- A row of spins.
pub record SpinRow : Type 0 where
  pub id : ℕ
  pub user_id : ℕ
  pub is_real : Bool
  pub stake_cents : ℤ
  pub segment_index : ℕ
  pub multiplier_bp : ℤ
  pub payout_cents : ℤ
  pub rake_cents : ℤ
  pub client_ref : Text
  pub created_at : ℕ

-- users.User with its password_hash, a row of users.
pub record User : Type 0 where
  pub id : ℕ
  pub phone : Text
  pub password_hash : Text
  pub ref_code : Text
  pub referred_by : Option ℕ
  pub phone_verified : Bool
  pub is_admin : Bool
  pub is_active : Bool
  pub demo_topup_at : Option ℕ
  pub created_at : ℕ

-- The newest row of transactions, spins and users comes first.
pub record Db : Type 0 where
  pub users : List User
  pub wallets : List Balances
  pub transactions : List Entry
  pub spins : List SpinRow
  pub house : House

abbrev pub find_user : ℕ → List User → Option User
find_user i [] = none
find_user i (u ∷ us) = if u.id == i then some u else find_user i us

abbrev pub find_wallet : ℕ → List Balances → Option Balances
find_wallet i [] = none
find_wallet i (b ∷ bs) = if b.user_id == i then some b else find_wallet i bs

-- The row of the wallet's owner, replaced.
abbrev pub put_wallet : Balances → List Balances → List Balances
put_wallet c [] = []
put_wallet c (b ∷ bs) = if b.user_id == c.user_id then c ∷ bs else b ∷ put_wallet c bs
