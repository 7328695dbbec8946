-- ===== src/Spin/Money.antt =====
-- internal/game/spin.go: a round moves money between the players, the bankroll and the rake, and
-- creates or destroys none.
use braelaspin.Prelude.{
  ℕ, ℤ, pos, ◌+◌, ◌%◌, Result-cases, ◌≤ℤ◌, ◌≡◌, refl, ap, Bool, true, false, Option, none, some, [],
  ◌∷◌, Result, ok, err, All, arith, int_laws, pos_part, neg_part, sub64, inl, inr,
}
use braelaspin.Database.{Db, Balances}
use braelaspin.Database.Monad.{World, Exec, ◌>>=◌, ◌>>◌, lift, raise_if}
use braelaspin.Errors.{Error, database}
use braelaspin.Spin.{Economics, Request, SpinResult, spin, spin_body, draw_error, play}
use braelaspin.Database.Keeps.{Keeps, keeps_rules, in_transaction-keeps}
use braelaspin.Wheel.{Seg, Table, table_for, wheel, demo_wheel}
use braelaspin.Wheel.Pick.{Buffer, big_endian, select_from, pick_from}
use braelaspin.Spin.Amounts.{IsSoundEconomics, InLimits, amounts}
use braelaspin.Spin.Sound.{select_player-KeepsRows, lock-Keeps, admit-Keeps}
use braelaspin.Spin.Shifts.{money, Shifts}
use braelaspin.Spin.Rounds.{play-Shifts}

Keeps-of_Shifts :
    {E A : Type 0} (m : Exec E A) (base : ℤ) → Shifts m (pos 0) → Keeps (λ db. money db ≡ base) m
Keeps-of_Shifts m base h = record {
  at = λ w w' a e p.
      let k = h.at w w' a e in
      omega (int_laws, ap pos_part k, ap neg_part k, ap pos_part p, ap neg_part p);
}

-- Every draw of the wheel is a multiplier between 0x and 200x.
InRange : Seg → Type 0
InRange g = (pos 0 ≤ℤ g.mult_bp) × (g.mult_bp ≤ℤ pos 2000000)

table_for-InRange : (is_real : Bool) → All InRange (table_for is_real)
unfolding table_for wheel demo_wheel InRange
table_for-InRange true = omega int_laws
table_for-InRange false = omega int_laws

selected_in_range :
    (i : ℕ) (r : ℤ) (t : Table) (seg : ℕ) (m : ℤ)
    → All InRange t
    → select_from i r t ≡ ok (seg, m)
    → (pos 0 ≤ℤ m) × (m ≤ℤ pos 2000000)
unfolding select_from InRange
selected_in_range i r [] seg m h e = absurd (ground arith)
selected_in_range i r (g ∷ t) seg m h e =
    ground (arith, selected_in_range (i + 1) (sub64 r g.weight) t seg m h.1)

pub drawn_in_range :
    (source : Option Buffer) (is_real : Bool) (seg : ℕ) (m : ℤ)
    → draw_error (pick_from source (table_for is_real)) ≡ ok (seg, m)
    → (pos 0 ≤ℤ m) × (m ≤ℤ pos 2000000)
unfolding draw_error pick_from
drawn_in_range none is_real seg m h = absurd (ground arith)
drawn_in_range (some b) is_real seg m h =
    let r = pos (big_endian b % 10000) in
    elim (Result-cases (select_from 0 r (table_for is_real))) [
      | inl (e, failed) ↦ absurd (ground arith)
      | inr (d, drawn) ↦
          selected_in_range 0 r (table_for is_real) seg m (table_for-InRange is_real) (ground arith)
    ]

Keeps-lift_bind :
    {E A B : Type 0} {P : Db → Type 0} (r : Result E A) (f : A → Exec E B)
    → ((a : A) → r ≡ ok a → Keeps P (f a))
    → Keeps P (lift r >>= f)
unfolding ◌>>=◌
Keeps-lift_bind (ok a) f h = h a refl
Keeps-lift_bind (err e) f h = record { at = λ w w' b e p. absurd (ground arith) }

spin_body-money :
    (econ : Economics) (source : Option Buffer) (req : Request) (base : ℤ)
    → IsSoundEconomics econ
    → InLimits econ req.stake_cents
    → Keeps (λ db. money db ≡ base) (spin_body econ source req)
unfolding spin_body
spin_body-money econ source req base e l =
    let round : (referrer : Option ℕ) (me : Balances)
        → Keeps (λ db. money db ≡ base)
            (lift (draw_error (pick_from source (table_for req.is_real)))
              >>= play econ req referrer me) =
      λ referrer me. Keeps-lift_bind _ (play econ req referrer me) λ d drawn.
        let m = drawn_in_range source req.is_real d.0 d.1 drawn in
        Keeps-of_Shifts _ base
          (play-Shifts econ req referrer me d.0 d.1 (amounts econ req referrer d.1 e l m.0 m.1)) in
    search (keeps_rules, select_player-KeepsRows, lock-Keeps, admit-Keeps, round) depth 12

limits_checked :
    (b : Bool) (e : Error) (m : Exec Error SpinResult) (w : World) (base : ℤ)
    → money w.db ≡ base
    → (b ≡ false → money (m w).1.db ≡ base)
    → money ((raise_if b e >> m) w).1.db ≡ base
unfolding ◌>>=◌
limits_checked true e m w base h k = h
limits_checked false e m w base h k = k refl

-- A spin creates and destroys no real money. Under settings that start-up accepts, and whatever the
-- request, the draw and the failures on the way, what the players, the bankroll and the rake hold
-- together is the same after the spin as before it.
pub spin-money :
    (econ : Economics) (source : Option Buffer) (req : Request) (w : World)
    → IsSoundEconomics econ
    → money (spin econ source req w).1.db ≡ money w.db
unfolding spin
spin-money econ source req w e =
    let base = money w.db in
    limits_checked _ _ _ w base refl λ above. limits_checked _ _ _ w base refl λ below.
      in_transaction-keeps database (spin_body econ source req) w
        (spin_body-money econ source req base e (record { above = above; below = below })) refl
