-- ===== src/Users/Sound.antt =====
-- internal/users/users.go: sign-up and the practice top-up keep the rules of the ledger.
use braelaspin.Prelude.{
  ℕ, ℤ, List, Option-cases, int_laws, zero, suc, pos, ◌≡◌, inl, inr, Option, none, some, Text, [],
  ◌∷◌, Bool-cases, ok, arith,
}
use braelaspin.Database.{Balances, Entry, find_wallet}
use braelaspin.Database.Monad.{World}
use braelaspin.Database.Keeps.{Keeps, KeepsRows, keeps_rules, in_transaction-keeps}
use braelaspin.Errors.{database}
use braelaspin.Wallet.{MoveParams, move}
use braelaspin.Wallet.Ledger.{IsSound, IsReconciled, move-IsSound}
use braelaspin.Spin.Sound.{lock-Keeps}
use braelaspin.Users.{
  CreateParams, RefBytes, new_ref_code, resolve_referrer, welcome, create_body, create_once,
  create_loop, create, is_collision, top_up_body, top_up_demo,
}
use braelaspin.Users.Statements.{select_referrer, insert_user, insert_wallet, claim_top_up}

move-Keeps_ledger : (p : MoveParams) → Keeps IsSound (move p)
move-Keeps_ledger p = record { at = λ w w' a h s. move-IsSound p w w' a h s }

select_referrer-KeepsRows : (c : Text) → KeepsRows IsSound (select_referrer c)
unfolding select_referrer
select_referrer-KeepsRows c = record {
  at = λ w w' a h p. let same : w' ≡ w = ground arith in rw same p;
}

insert_user-KeepsRows : (p h c : Text) (r : Option ℕ) → KeepsRows IsSound (insert_user p h c r)
unfolding insert_user
insert_user-KeepsRows p h c r = record {
  at = λ w w' a e s.
      let rest : w'.db ≡ record w.db { users = w'.db.users } = ground arith in
      rw rest (record {
        reconciled = s.reconciled;
        nonneg = s.nonneg;
        house = s.house;
        in_realm = s.in_realm;
      });
}

claim_top_up-KeepsRows : (u cooldown : ℕ) → KeepsRows IsSound (claim_top_up u cooldown)
unfolding claim_top_up
claim_top_up-KeepsRows u cooldown = record {
  at = λ w w' a e s.
      let rest : w'.db ≡ record w.db { users = w'.db.users } = ground arith in
      rw rest (record {
        reconciled = s.reconciled;
        nonneg = s.nonneg;
        house = s.house;
        in_realm = s.in_realm;
      });
}

abbrev fresh_wallet : ℕ → Balances
fresh_wallet u = record { user_id = u; real_cents = pos 0; demo_cents = pos 0; held_cents = pos 0 }

insert_wallet-rest :
    (u : ℕ) (w w' : World) (a : Unit)
    → insert_wallet u w ≡ ok (a, w')
    → (w'.db ≡ record w.db { wallets = fresh_wallet u ∷ w.db.wallets })
      × (find_wallet u w.db.wallets ≡ none)
unfolding insert_wallet
insert_wallet-rest u w w' a h = elim (Option-cases (find_wallet u w.db.wallets)) [
  | inl missing ↦ (ground arith, missing)
  | inr (b, found) ↦ absurd (ground arith)
]

-- An account with no wallet yet has no ledger rows that add up to anything, so an empty wallet agrees.
fresh-IsReconciled :
    (u : ℕ) (wallets : List Balances) (transactions : List Entry)
    → find_wallet u wallets ≡ none
    → IsReconciled wallets transactions
    → IsReconciled (fresh_wallet u ∷ wallets) transactions
fresh-IsReconciled u wallets transactions missing h = record {
  at_wallet = λ v b at. ground (arith, h.at_wallet v b, h.without_wallet v);
  without_wallet = λ v none. ground (arith, h.without_wallet v);
}

insert_wallet-KeepsRows : (u : ℕ) → KeepsRows IsSound (insert_wallet u)
insert_wallet-KeepsRows u = record {
  at = λ w w' a e s.
      let c = insert_wallet-rest u w w' a e in
      rw c.0 (record {
        reconciled = fresh-IsReconciled u w.db.wallets w.db.transactions c.1 s.reconciled;
        nonneg = (omega int_laws, s.nonneg);
        house = s.house;
        in_realm = s.in_realm;
      });
}

ruleset account_rules = (
  keeps_rules, move-Keeps_ledger, select_referrer-KeepsRows, insert_user-KeepsRows,
  insert_wallet-KeepsRows, claim_top_up-KeepsRows, lock-Keeps,
)

resolve_referrer-Keeps : (c : Text) → Keeps IsSound (resolve_referrer c)
unfolding resolve_referrer
resolve_referrer-Keeps [] = search account_rules
resolve_referrer-Keeps (c ∷ s) = search account_rules

welcome-Keeps : (grant : ℤ) (u : ℕ) → Keeps IsSound (welcome grant u)
unfolding welcome
welcome-Keeps grant u = search account_rules

create_body-Keeps :
    (grant : ℤ) (p : CreateParams) (code : Text) → Keeps IsSound (create_body grant p code)
unfolding create_body
create_body-Keeps grant p code =
    search (account_rules, resolve_referrer-Keeps, welcome-Keeps) depth 12

create_once-IsSound :
    (grant : ℤ) (p : CreateParams) (e : Option RefBytes) (w : World)
    → IsSound w.db
    → IsSound (create_once grant p e w).1.db
unfolding create_once
create_once-IsSound grant p none w s = s
create_once-IsSound grant p (some b) w s =
    in_transaction-keeps database (create_body grant p (new_ref_code b)) w
      (create_body-Keeps grant p (new_ref_code b)) s

create_loop-IsSound :
    (grant : ℤ) (p : CreateParams) (entropy : ℕ → Option RefBytes) (n : ℕ) (w : World)
    → IsSound w.db
    → IsSound (create_loop grant p entropy n w).1.db
unfolding create_loop
create_loop-IsSound grant p entropy zero w s = s
create_loop-IsSound grant p entropy (suc n) w s =
    let once = create_once-IsSound grant p (entropy n) w s in
    let again = create_loop-IsSound grant p entropy n (create_once grant p (entropy n) w).1 once in
    elim (Bool-cases (is_collision (create_once grant p (entropy n) w).0)) [
      | inl hit ↦ rw hit again
      | inr miss ↦ rw miss once
    ]

-- Signing up never breaks the ledger. Whatever the request, the entropy and the failures on the way,
-- tables that are sound stay so, with the new account's wallet and its welcome bonus among them.
pub create-IsSound :
    (grant : ℤ) (p : CreateParams) (entropy : ℕ → Option RefBytes) (w : World)
    → IsSound w.db
    → IsSound (create grant p entropy w).1.db
unfolding create
create-IsSound grant p entropy w s = create_loop-IsSound grant p entropy 5 w s

top_up_body-Keeps : (u cooldown : ℕ) (target : ℤ) → Keeps IsSound (top_up_body u cooldown target)
unfolding top_up_body
top_up_body-Keeps u cooldown target = search account_rules depth 12

-- A practice top-up never breaks the ledger, however it ends.
pub top_up_demo-IsSound :
    (u cooldown : ℕ) (target : ℤ) (w : World)
    → IsSound w.db
    → IsSound (top_up_demo u cooldown target w).1.db
unfolding top_up_demo
top_up_demo-IsSound u cooldown target w s =
    in_transaction-keeps database (top_up_body u cooldown target) w
      (top_up_body-Keeps u cooldown target) s
