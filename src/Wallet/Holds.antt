-- ===== src/Wallet/Holds.antt =====
-- internal/wallet/wallet.go: the holds for withdrawals keep the rules of the ledger.
use braelaspin.Prelude.{
  ℕ, ℤ, pos, ◌+ℤ◌, ◌≤ℤ◌, ◌≡◌, ◌⊎◌, inl, inr, Option, some, Text, List, ok, arith, Option-cases,
}
use braelaspin.Database.{Balances, Entry, find_wallet, put_wallet}
use braelaspin.Database.Keeps.{Keeps, KeepsRows, keeps_rules}
use braelaspin.Database.Monad.{World}
use braelaspin.Wallet.{MoveParams, move, hold, release_hold, reverse_hold}
use braelaspin.Wallet.Ledger.{
  IsSound, IsReconciled, move-IsSound, find-put, find-user_id, find-nonneg, put-nonneg,
}
use braelaspin.Wallet.Statements.{update_held}

move-KeepsRules : (p : MoveParams) → Keeps IsSound (move p)
move-KeepsRules p = record { at = λ w w' a h s. move-IsSound p w w' a h s }

-- What the UPDATE of held_cents does to the owner's row, if there is one.
record Held (u : ℕ) (delta : ℤ) (w w' : World) (b : Balances) : Type 0 where
  found : find_wallet u w.db.wallets ≡ some b
  nonneg : pos 0 ≤ℤ b.held_cents +ℤ delta
  db_eq : w'.db ≡ record w.db {
    wallets = put_wallet (record b { held_cents = b.held_cents +ℤ delta }) w.db.wallets;
  }

update_held-cases :
    (u : ℕ) (delta : ℤ) (w w' : World) (a : Unit)
    → update_held u delta w ≡ ok (a, w')
    → (w'.db ≡ w.db) ⊎ ((b : Balances) × Held u delta w w' b)
unfolding update_held
update_held-cases u delta w w' a h = elim (Option-cases (find_wallet u w.db.wallets)) [
  | inl missing ↦ inl (ground arith)
  | inr (b, found) ↦ inr (b, record { found = found; nonneg = ground arith; db_eq = ground arith })
]

held-IsReconciled :
    (u : ℕ) (b : Balances) (held : ℤ) (wallets : List Balances) (transactions : List Entry)
    → find_wallet u wallets ≡ some b
    → IsReconciled wallets transactions
    → IsReconciled (put_wallet (record b { held_cents = held }) wallets) transactions
held-IsReconciled u b held wallets transactions found h =
    let c : Balances = record b { held_cents = held } in
    let same = find-user_id u wallets b found in
    record {
      at_wallet = λ v d at.
          ground (arith, find-put v c wallets, same, h.at_wallet v d, h.at_wallet u b found);
      without_wallet = λ v missing. ground (arith, find-put v c wallets, same, h.without_wallet v);
    }

update_held-KeepsRows : (u : ℕ) (delta : ℤ) → KeepsRows IsSound (update_held u delta)
update_held-KeepsRows u delta = record {
  at = λ w w' a e s. elim (update_held-cases u delta w w' a e) [
    | inl same ↦ rw same s
    | inr (b, c) ↦
        let n = find-nonneg u w.db.wallets b s.nonneg c.found in
        rw c.db_eq (record {
          reconciled =
              held-IsReconciled u b (b.held_cents +ℤ delta) w.db.wallets w.db.transactions c.found
                s.reconciled;
          nonneg =
              put-nonneg (record b { held_cents = b.held_cents +ℤ delta }) w.db.wallets
                (n.0, n.1, c.nonneg) s.nonneg;
          house = s.house;
          in_realm = s.in_realm;
        })
  ];
}

ruleset hold_rules = (keeps_rules, move-KeepsRules, update_held-KeepsRows)

release_hold-Keeps : (u : ℕ) (amount : ℤ) → Keeps IsSound (release_hold u amount)
unfolding release_hold
release_hold-Keeps u amount = search hold_rules

-- Hold, ReleaseHold and ReverseHold keep the ledger's rules: where such a call returns without an
-- error, the tables that it leaves are sound if those that it found were.
holds-IsSound :
    (u : ℕ) (amount : ℤ) (withdrawal : Option ℕ) (reason : Text)
    → Keeps IsSound (hold u amount withdrawal)
      × Keeps IsSound (release_hold u amount)
      × Keeps IsSound (reverse_hold u amount withdrawal reason)
unfolding hold reverse_hold
holds-IsSound u amount withdrawal reason = (
  search hold_rules depth 12,
  release_hold-Keeps u amount,
  search (hold_rules, release_hold-Keeps) depth 12,
)
