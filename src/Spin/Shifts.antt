-- ===== src/Spin/Shifts.antt =====
-- internal/game/spin.go: how much real money a call adds to or takes from all accounts together.
use braelaspin.Prelude.{
  ℕ, ℤ, pos, ◌+ℤ◌, ◌≡◌, refl, ap, Bool, true, false, some, List, [], ◌∷◌, ok, arith, int_laws,
  pos_part, neg_part, if◌then◌else◌, Bool-cases, inl, inr,
}
use braelaspin.Database.{Db, Balances, SpinRow, find_wallet, put_wallet}
use braelaspin.Database.Monad.{World, Exec, Statement, ◌>>=◌, pure, run_statement, or_fail}
use braelaspin.Database.Steps.{bind-ok, or_fail-ok, run_statement-ok, served, served-db}
use braelaspin.Wallet.{MoveParams, move, move_house, house_error}
use braelaspin.Wallet.Statements.{spendable, with_cents, update_house}
use braelaspin.Wallet.Moved.{Moved, move-Moved}
use braelaspin.Wallet.Ledger.{find-user_id}
use braelaspin.Spin.Statements.{insert_spin}
use braelaspin.Spin.Sound.{insert_spin-rest, update_house-rest}

-- What all players hold in real money, spendable.
abbrev pub sum_real : List Balances → ℤ
sum_real [] = pos 0
sum_real (b ∷ bs) = b.real_cents +ℤ sum_real bs

-- All real money but what is held for withdrawals: the players', the bankroll and the rake.
abbrev pub money : Db → ℤ
money db = sum_real db.wallets +ℤ (db.house.bankroll_cents +ℤ db.house.rake_cents)

sum-put :
    (u : ℕ) (b c : Balances) (bs : List Balances)
    → find_wallet u bs ≡ some b
    → c.user_id ≡ u
    → sum_real (put_wallet c bs) +ℤ b.real_cents ≡ sum_real bs +ℤ c.real_cents
sum-put u b c [] h e = cc
sum-put u b c (x ∷ bs) h e = grind (int_laws, sum-put u b c bs)

-- The call, if it returns no error, changes the sum of all money by `d`.
pub record Shifts {E A : Type 0} (m : Exec E A) (d : ℤ) : Type 0 where
  pub at : (w w' : World) (a : A) → m w ≡ (ok a, w') → money w'.db ≡ money w.db +ℤ d

pub Shifts-pure : {E A : Type 0} (a : A) → Shifts {E = E} (pure a) (pos 0)
Shifts-pure a = record {
  at = λ w w' b h. let same : w ≡ w' = λ i. (h i).1 in rw (← same) (omega int_laws);
}

pub Shifts-bind :
    {E A B : Type 0} (m : Exec E A) (f : A → Exec E B) (d e : ℤ)
    → Shifts m d
    → ((a : A) → Shifts (f a) e)
    → Shifts (m >>= f) (d +ℤ e)
Shifts-bind m f d e hm hf = record {
  at = λ w w' b h.
      let c = bind-ok m f w b w' h in
      let first = hm.at w c.middle c.value c.first in
      let rest = (hf c.value).at c.middle w' b c.rest in
      omega (int_laws, ap pos_part first, ap neg_part first, ap pos_part rest, ap neg_part rest);
}

pub Shifts-or_fail :
    {E F A : Type 0} (m : Exec F A) (c : F → E) (d : ℤ) → Shifts m d → Shifts (or_fail m c) d
Shifts-or_fail m c d h = record { at = λ w w' a e. h.at w w' a (or_fail-ok m c w a w' e) }

pub Shifts-statement :
    {A : Type 0} (s : Statement A) (d : ℤ)
    → ((w w' : World) (a : A) → s w ≡ ok (a, w') → money w'.db ≡ money w.db +ℤ d)
    → Shifts (run_statement s) d
Shifts-statement s d h = record {
  at = λ w w' a e. let k = h (served w) w' a (run_statement-ok s w a w' e) in rw (served-db w) at k;
}

-- A movement of real money changes the sum by its delta; one of practice money not at all.
abbrev pub real_part : MoveParams → ℤ
real_part p = if p.is_real then p.delta else pos 0

row_real :
    (p : MoveParams) (b : Balances) (after : ℤ)
    → after ≡ spendable b p.is_real +ℤ p.delta
    → (with_cents b p.is_real after).real_cents ≡ b.real_cents +ℤ real_part p
unfolding spendable with_cents
row_real p b after h = elim (Bool-cases p.is_real) [
  | inl yes_real ↦ ground (arith, h)
  | inr practice ↦ rw practice (omega int_laws)
]

owner_kept :
    (p : MoveParams) (b : Balances) (after : ℤ) (bs : List Balances)
    → find_wallet p.user_id bs ≡ some b
    → (with_cents b p.is_real after).user_id ≡ p.user_id
unfolding with_cents
owner_kept p b after bs h = ground (arith, find-user_id p.user_id bs b h)

sum_shift : (t t' r r' d h : ℤ) → t' +ℤ r ≡ t +ℤ r' → r' ≡ r +ℤ d → t' +ℤ h ≡ t +ℤ h +ℤ d
sum_shift t t' r r' d h e k =
    omega (int_laws, ap pos_part e, ap neg_part e, ap pos_part k, ap neg_part k)

Moved-money :
    (p : MoveParams) (after : ℤ) (w w' : World)
    → Moved p after w w'
    → money w'.db ≡ money w.db +ℤ real_part p
Moved-money p after w w' m =
    let c = with_cents m.row p.is_real after in
    rw m.db_eq (
      sum_shift (sum_real w.db.wallets) (sum_real (put_wallet c w.db.wallets)) m.row.real_cents
        c.real_cents (real_part p) (w.db.house.bankroll_cents +ℤ w.db.house.rake_cents)
        (sum-put p.user_id m.row c w.db.wallets m.found
          (owner_kept p m.row after w.db.wallets m.found))
        (row_real p m.row after m.after_eq))

pub move-Shifts : (p : MoveParams) → Shifts (move p) (real_part p)
move-Shifts p = record { at = λ w w' a h. Moved-money p a w w' (move-Moved p w w' a h) }

house_shift : (t b r d e : ℤ) → t +ℤ (b +ℤ d +ℤ (r +ℤ e)) ≡ t +ℤ (b +ℤ r) +ℤ (d +ℤ e)
house_shift t b r d e = omega int_laws

pub move_house-Shifts : (d e : ℤ) → Shifts (move_house d e) (d +ℤ e)
unfolding move_house
move_house-Shifts d e = Shifts-or_fail (run_statement (update_house d e)) house_error (d +ℤ e) (
    Shifts-statement (update_house d e) (d +ℤ e) λ w w' h ran.
      rw ((update_house-rest d e w w' h ran).0)
        (house_shift (sum_real w.db.wallets) w.db.house.bankroll_cents w.db.house.rake_cents d e))

pub insert_spin-Shifts : (row : SpinRow) → Shifts (run_statement (insert_spin row)) (pos 0)
insert_spin-Shifts row =
    Shifts-statement (insert_spin row) (pos 0)
      λ w w' r h. rw (insert_spin-rest row w w' r h) (omega int_laws)

pub Shifts-eq : {E A : Type 0} (m : Exec E A) (d e : ℤ) → Shifts m d → d ≡ e → Shifts m e
Shifts-eq m d e h k = rw (← k) h

module _ {E A : Type 0} (m n : Exec E A) (d e : ℤ) (hm : Shifts m d) (hn : Shifts n e) where
  pub Shifts-if : (b : Bool) → (b ≡ false → e ≡ d) → Shifts (if b then m else n) d
  Shifts-if true h = hm
  Shifts-if false h = Shifts-eq n e d hn (h refl)

  pub Shifts-if_both : (b : Bool) → Shifts (if b then m else n) (if b then d else e)
  Shifts-if_both true = hm
  Shifts-if_both false = hn
