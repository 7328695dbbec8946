-- ===== src/Wallet/Reversal.antt =====
-- internal/wallet/wallet.go: a hold for a withdrawal, and its reversal.
use braelaspin.Prelude.{
  ℕ, ℤ, pos, ◌+ℤ◌, ◌-ℤ◌, ◌≤◌, ◌^◌, ◌≡◌, ◌∙◌, refl, ap, sym, pos_part, neg_part, true, Option, some,
  Text, ok, arith, int_laws, List, max_int64, sub64, sub64_exact,
}
use braelaspin.Database.{Balances, find_wallet, put_wallet}
use braelaspin.Database.Monad.{World}
use braelaspin.Database.Steps.{bind-ok, raise_if-ok, statement-ok, served, served-db}
use braelaspin.Errors.{database}
use braelaspin.Wallet.{MoveParams, move, hold, release_hold, reverse_hold, release_error}
use braelaspin.Wallet.Ledger.{find-put, find-user_id}
use braelaspin.Wallet.Moved.{move-Moved}
use braelaspin.Wallet.Statements.{update_held, with_cents, spendable}

-- The row of a wallet after an amount was added to its real money, and one to what it holds.
abbrev pub shifted : Balances → ℤ → ℤ → Balances
shifted b real held = record b {
  real_cents = b.real_cents +ℤ real;
  held_cents = b.held_cents +ℤ held;
}

replaced :
    (u : ℕ) (b c : Balances) (bs : List Balances)
    → find_wallet u bs ≡ some b
    → c.user_id ≡ b.user_id
    → find_wallet u (put_wallet c bs) ≡ some c
replaced u b c bs found same = ground (arith, find-put u c bs, find-user_id u bs b found)

-- What a movement of real money does to its wallet.
move_shifts :
    (p : MoveParams) (w w' : World) (after : ℤ) (b : Balances)
    → p.is_real ≡ true
    → find_wallet p.user_id w.db.wallets ≡ some b
    → move p w ≡ (ok after, w')
    → find_wallet p.user_id w'.db.wallets ≡ some (record b { real_cents = b.real_cents +ℤ p.delta })
unfolding with_cents spendable
move_shifts p w w' after b real found e =
    let m = move-Moved p w w' after e in
    let row : m.row ≡ b = cc in
    let wallets : w'.db.wallets ≡ put_wallet (with_cents m.row p.is_real after) w.db.wallets =
      ap (λ d. d.wallets) m.db_eq in
    let amount : after ≡ spendable m.row p.is_real +ℤ p.delta = m.after_eq in
    rw (wallets, amount, row, real)
      (replaced p.user_id b (record b { real_cents = b.real_cents +ℤ p.delta }) w.db.wallets found
        refl)

held_shifts :
    (u : ℕ) (d : ℤ) (w w' : World) (b : Balances)
    → find_wallet u w.db.wallets ≡ some b
    → update_held u d w ≡ ok (tt, w')
    → find_wallet u w'.db.wallets ≡ some (record b { held_cents = b.held_cents +ℤ d })
unfolding update_held
held_shifts u d w w' b found e =
    let c : Balances = record b { held_cents = b.held_cents +ℤ d } in
    let after : w'.db.wallets ≡ put_wallet c w.db.wallets = ground arith in
    rw after (replaced u b c w.db.wallets found refl)

-- What Hold does to the wallet.
hold_shifts :
    (u : ℕ) (a : ℤ) (withdrawal : Option ℕ) (w w' : World) (x : ℤ)
    → hold u a withdrawal w ≡ (ok x, w')
    → (b : Balances) × (find_wallet u w.db.wallets ≡ some b)
      × (find_wallet u w'.db.wallets ≡ some (shifted b (sub64 (pos 0) a) a))
unfolding hold
hold_shifts u a withdrawal w w' x e =
    let c = bind-ok _ _ w x w' e in
    let same = (raise_if-ok _ _ w c.value c.middle c.first).1 in
    let d = bind-ok _ _ c.middle x w' c.rest in
    let m = move-Moved _ c.middle d.middle d.value d.first in
    let shifted_real = move_shifts _ c.middle d.middle d.value m.row refl m.found d.first in
    let f = bind-ok _ _ d.middle x w' d.rest in
    let row = statement-ok (update_held u a) database d.middle f.value f.middle f.first in
    let last : w' ≡ f.middle = cc in
    let at_row : find_wallet u (served d.middle).db.wallets
        ≡ some (record m.row { real_cents = m.row.real_cents +ℤ sub64 (pos 0) a }) =
      rw (served-db d.middle) shifted_real in
    (
      m.row,
      ap (λ v. find_wallet u v.db.wallets) (sym same) ∙ m.found,
      ap (λ v. find_wallet u v.db.wallets) last
          ∙ held_shifts u a (served d.middle) f.middle _ at_row row,
    )

-- What ReverseHold does to it.
reverse_hold_shifts :
    (u : ℕ) (a : ℤ) (withdrawal : Option ℕ) (reason : Text) (w w' : World) (y : ℤ) (b : Balances)
    → find_wallet u w.db.wallets ≡ some b
    → reverse_hold u a withdrawal reason w ≡ (ok y, w')
    → find_wallet u w'.db.wallets ≡ some (shifted b a (sub64 (pos 0) a))
unfolding reverse_hold release_hold
reverse_hold_shifts u a withdrawal reason w w' y b found e =
    let c = bind-ok _ _ w y w' e in
    let d = bind-ok _ _ w c.value c.middle c.first in
    let same = (raise_if-ok _ _ w d.value d.middle d.first).1 in
    let row =
      statement-ok (update_held u (sub64 (pos 0) a)) release_error d.middle c.value c.middle
        d.rest in
    let here : find_wallet u (served d.middle).db.wallets ≡ some b =
      rw (served-db d.middle, same) found in
    let released = held_shifts u (sub64 (pos 0) a) (served d.middle) c.middle b here row in
    move_shifts _ c.middle w' y _ refl released c.rest

small : (n : ℕ) → n ≤ max_int64 → pos_part (pos 0 -ℤ pos n) ≤ max_int64
unfolding ◌-ℤ◌ ◌+ℤ◌
small n h = grind arith

large : (n : ℕ) → n ≤ max_int64 → neg_part (pos 0 -ℤ pos n) ≤ 2 ^ 63
unfolding ◌-ℤ◌ ◌+ℤ◌
large n h = grind arith

taken : (n : ℕ) → n ≤ max_int64 → sub64 (pos 0) (pos n) ≡ pos 0 -ℤ pos n
taken n h = sub64_exact (pos 0) (pos n) (record { below = small n h; above = large n h })

-- Taking an amount away and adding it again.
restored : (x : ℤ) (n : ℕ) → n ≤ max_int64 → (x +ℤ sub64 (pos 0) (pos n)) +ℤ pos n ≡ x
restored x n h = rw (taken n h) (omega int_laws)

restored_back : (x : ℤ) (n : ℕ) → n ≤ max_int64 → (x +ℤ pos n) +ℤ sub64 (pos 0) (pos n) ≡ x
restored_back x n h = rw (taken n h) (omega int_laws)

-- A reversed hold leaves no trace in the balances. Where Hold has returned without an error for an amount
-- that an int64 holds, it has taken the amount from the wallet's real money and added it to what the wallet
-- holds; and where ReverseHold then returns without an error for the same amount, in a later state with
-- the same row of the wallet, the row is the one from before Hold.
pub hold_reversed :
    (u n : ℕ) (withdrawal again : Option ℕ) (reason : Text) (w w1 w2 w3 : World) (x y : ℤ)
    → n ≤ max_int64
    → hold u (pos n) withdrawal w ≡ (ok x, w1)
    → find_wallet u w2.db.wallets ≡ find_wallet u w1.db.wallets
    → reverse_hold u (pos n) again reason w2 ≡ (ok y, w3)
    → (b : Balances) × (c : Balances) × (find_wallet u w.db.wallets ≡ some b)
      × (find_wallet u w1.db.wallets ≡ some c)
      × (c.real_cents +ℤ pos n ≡ b.real_cents)
      × (c.held_cents ≡ b.held_cents +ℤ pos n)
      × (c.demo_cents ≡ b.demo_cents)
      × (find_wallet u w3.db.wallets ≡ some b)
hold_reversed u n withdrawal again reason w w1 w2 w3 x y fits held same back =
    let (b, found, after) = hold_shifts u (pos n) withdrawal w w1 x held in
    let c = shifted b (sub64 (pos 0) (pos n)) (pos n) in
    let there = reverse_hold_shifts u (pos n) again reason w2 w3 y c (same ∙ after) back in
    (
      b,
      c,
      found,
      after,
      restored b.real_cents n fits,
      refl,
      refl,
      rw (restored b.real_cents n fits, restored_back b.held_cents n fits) at there,
    )
