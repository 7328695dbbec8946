-- ===== src/Wallet/Ledger.antt =====
-- internal/wallet/invariant.go: the rules I1, I2 and I3 as predicates on the tables, and that every
-- movement of money keeps them.
use braelaspin.Prelude.{
  ℕ, ℤ, pos, ◌+ℤ◌, ◌≤ℤ◌, ◌≡◌, Bool, true, false, ◌&&◌, none, some, List, [], ◌∷◌, All, arith,
  +ℤ_comm, ok, if◌then◌else◌, ◌==◌,
}
use braelaspin.Database.{Balances, House, Entry, Db, find_wallet, put_wallet}
use braelaspin.Database.Monad.{World}
use braelaspin.Wallet.{MoveParams, move}
use braelaspin.Wallet.Statements.{spendable, with_cents, realm_allows}
use braelaspin.Wallet.Moved.{credited, move-Moved}

abbrev pub same_realm : Bool → Bool → Bool
same_realm true true = true
same_realm false false = true
same_realm _ _ = false

-- SELECT SUM(amount_cents) FROM transactions WHERE user_id = u AND is_real = r, 0 if there is none
unfoldable pub ledger_sum : ℕ → Bool → List Entry → ℤ
ledger_sum u r [] = pos 0
ledger_sum u r (e ∷ es) =
    let rest = ledger_sum u r es in
    if (e.user_id == u) && same_realm e.is_real r then e.amount_cents +ℤ rest else rest

-- I1: every wallet balance is the sum of the owner's ledger rows of that realm. The ledger rows of an
-- account without a wallet, which the query does not look at, add up to zero.
pub record IsReconciled (wallets : List Balances) (transactions : List Entry) : Type 0 where
  pub at_wallet :
      (u : ℕ) (b : Balances)
      → find_wallet u wallets ≡ some b
      → (b.real_cents ≡ ledger_sum u true transactions)
        × (b.demo_cents ≡ ledger_sum u false transactions)
  pub without_wallet :
      (u : ℕ)
      → find_wallet u wallets ≡ none
      → (ledger_sum u true transactions ≡ pos 0) × (ledger_sum u false transactions ≡ pos 0)

-- I2: no balance is negative, the house's included.
abbrev pub NonNeg : Balances → Type 0
NonNeg b = (pos 0 ≤ℤ b.real_cents) × (pos 0 ≤ℤ b.demo_cents) × (pos 0 ≤ℤ b.held_cents)

abbrev pub HouseNonNeg : House → Type 0
HouseNonNeg h = (pos 0 ≤ℤ h.bankroll_cents) × (pos 0 ≤ℤ h.rake_cents)

-- I3: every ledger row has a kind that its realm allows.
abbrev pub InRealm : Entry → Type 0
InRealm e = realm_allows e.is_real e.kind ≡ true

pub record IsSound (db : Db) : Type 0 where
  pub reconciled : IsReconciled db.wallets db.transactions
  pub nonneg : All NonNeg db.wallets
  pub house : HouseNonNeg db.house
  pub in_realm : All InRealm db.transactions

pub find-user_id :
    (u : ℕ) (bs : List Balances) (b : Balances) → find_wallet u bs ≡ some b → b.user_id ≡ u
find-user_id u [] b h = cc
find-user_id u (c ∷ bs) b h = ground (arith, find-user_id u bs b)

pub find-put :
    (u : ℕ) (c : Balances) (bs : List Balances)
    → find_wallet u (put_wallet c bs) ≡ (
        if c.user_id == u
        then (elim (find_wallet u bs) [ none ↦ none | some _ ↦ some c ])
        else find_wallet u bs)
find-put u c [] = ground arith
find-put u c (b ∷ bs) = ground (arith, find-put u c bs)

pub put-nonneg :
    (c : Balances) (bs : List Balances) → NonNeg c → All NonNeg bs → All NonNeg (put_wallet c bs)
put-nonneg c [] n h = tt
put-nonneg c (b ∷ bs) n h = ground (arith, put-nonneg c bs n h.1)

pub find-nonneg :
    (u : ℕ) (bs : List Balances) (b : Balances)
    → All NonNeg bs
    → find_wallet u bs ≡ some b
    → NonNeg b
find-nonneg u [] b h e = cc
find-nonneg u (c ∷ bs) b h e = ground (arith, find-nonneg u bs b h.1)

module _ (p : MoveParams) (b : Balances) (after : ℤ) (id now : ℕ) (db : Db) where
  credited-IsReconciled :
      find_wallet p.user_id db.wallets ≡ some b
      → after ≡ spendable b p.is_real +ℤ p.delta
      → IsReconciled db.wallets db.transactions
      → IsReconciled
          (credited p b after id now db).wallets
          (credited p b after id now db).transactions
  unfolding ledger_sum with_cents spendable
  credited-IsReconciled found sum h = record {
    at_wallet = λ u c at. ground (
      arith,
      find-put u (with_cents b p.is_real after) db.wallets,
      find-user_id p.user_id db.wallets b found,
      h.at_wallet u c,
      h.at_wallet p.user_id b found,
      +ℤ_comm p.delta (ledger_sum u true db.transactions),
      +ℤ_comm p.delta (ledger_sum u false db.transactions),
    );
    without_wallet = λ u missing. ground (
      arith,
      find-put u (with_cents b p.is_real after) db.wallets,
      find-user_id p.user_id db.wallets b found,
      h.without_wallet u,
    );
  }

  credited-nonneg :
      find_wallet p.user_id db.wallets ≡ some b
      → pos 0 ≤ℤ after
      → All NonNeg db.wallets
      → All NonNeg (credited p b after id now db).wallets
  unfolding with_cents
  credited-nonneg found n h =
      put-nonneg (with_cents b p.is_real after) db.wallets
        (ground (arith, find-nonneg p.user_id db.wallets b h found)) h

-- A movement keeps the rules: when Move returns a balance, the tables that it leaves are sound if
-- those that it found were.
pub move-IsSound :
    (p : MoveParams) (w w' : World) (after : ℤ)
    → move p w ≡ (ok after, w')
    → IsSound w.db
    → IsSound w'.db
move-IsSound p w w' after h s =
    let m = move-Moved p w w' after h in
    rw m.db_eq (record {
      reconciled =
          credited-IsReconciled p m.row after w.next_id w.now w.db m.found m.after_eq s.reconciled;
      nonneg = credited-nonneg p m.row after w.next_id w.now w.db m.found m.nonneg s.nonneg;
      house = s.house;
      in_realm = (m.realm, s.in_realm);
    })
