-- ===== src/Spin/Admitted.antt =====
-- internal/game/spin.go: admission control and the house's side of a round.
use braelaspin.Prelude.{
  ℕ, ℤ, pos, ◌+ℤ◌, ◌-ℤ◌, ◌≤ℤ◌, ◌+◌, ◌*◌, ◌≤◌, ◌≡◌, ◌≢◌, refl, sym, Bool, true, false, not, ◌||◌,
  Option, Result, ok, err, arith, int_laws, parts_apart, ltb_ℤ, if◌then◌else◌,
}
use braelaspin.Database.{Db, House, Balances}
use braelaspin.Database.Monad.{
  World, Exec, out_of_range, check_violation, ◌>>=◌, ◌>>◌, pure, raise_if, lift,
}
use braelaspin.Database.Triples.{
  Triple, Triple-bind, Triple-raise_if, Triple-pure, Triple-or_fail, Triple-statement, Triple-if,
  Reply,
}
use braelaspin.Database.Rollback.{in_transaction-fails}
use braelaspin.Errors.{Error, bankroll_exhausted, database}
use braelaspin.Wallet.{move_house, house_error, house_lock, is_check_violation}
use braelaspin.Wallet.Statements.{update_house, select_house, spendable}
use braelaspin.Wheel.Pick.{Buffer, PickError}
use braelaspin.Wheel.Stake.{max_exposure}
use braelaspin.Wheel.Stake.Bounds.{max_exposure-pos}
use braelaspin.Spin.{
  Economics, Request, admit, play, settle_house, spin_body, spin, draw_error, pay_referrer, row_of,
  bet_params, balances_at, lock_ids,
}
use braelaspin.Spin.Money.{drawn_in_range}
use braelaspin.Spin.Amounts.{Amounts, IsSoundEconomics, InLimits, amounts}
use braelaspin.Spin.Rounds.{house_delta, delta_exact}
use braelaspin.Spin.Solvent.{
  Other, bet-Avoids, insert_spin-Avoids, pay_win-Avoids, pay_referrer-Avoids, select_player-Avoids,
  lock-Avoids,
}

-- The rake column keeps its CHECK.
abbrev RakeOk : House → Type 0
RakeOk h = pos 0 ≤ℤ h.rake_cents

-- The bankroll covers the exposure of a real spin.
abbrev Covers : Request → House → Type 0
Covers req h = RakeOk h × (req.is_real ≡ true → max_exposure req.stake_cents ≤ℤ h.bankroll_cents)

not_below : (z : ℤ) → pos 0 ≤ℤ z → ltb_ℤ z (pos 0) ≡ false
not_below z h = ground arith

enough_left :
    (bank d : ℤ) (s p r c : ℕ)
    → pos (s * 200) ≤ℤ bank
    → p ≤ s * 200
    → r + c ≤ s
    → d ≡ pos s -ℤ pos p -ℤ pos r -ℤ pos c
    → ltb_ℤ (bank +ℤ d) (pos 0) ≡ false
enough_left bank d s p r c covers hp hr e =
    let left : pos 0 ≤ℤ bank +ℤ (pos s -ℤ pos p -ℤ pos r -ℤ pos c) = omega (
      int_laws,
      parts_apart bank,
      parts_apart (pos s -ℤ pos p),
      parts_apart (pos s -ℤ pos p -ℤ pos r),
      parts_apart (pos s -ℤ pos p -ℤ pos r -ℤ pos c),
    ) in
    rw e (not_below _ left)

rake_left : (rake : ℤ) (r : ℕ) → pos 0 ≤ℤ rake → ltb_ℤ (rake +ℤ pos r) (pos 0) ≡ false
rake_left rake r h = not_below (rake +ℤ pos r) (omega (int_laws, parts_apart rake))

Reply-Other :
    (fits low_bank low_rake : Bool) (h : House) (w : World)
    → low_bank ≡ false
    → low_rake ≡ false
    → Reply
        (λ (h : House) (db : Db). Unit {0})
        (λ e. Other (house_error e))
        (if not fits
          then err out_of_range
          else if low_bank || low_rake
          then err check_violation
          else ok (h, w))
unfolding house_error is_check_violation
Reply-Other false low_bank low_rake h w b k = refl
Reply-Other true false false h w b k = tt
Reply-Other true true low_rake h w b k = absurd (cc)
Reply-Other true false true h w b k = absurd (cc)

-- The house's UPDATE fails only for a reason other than its CHECK.
update_house-Other :
    (d r : ℤ) (w : World)
    → ltb_ℤ (w.db.house.bankroll_cents +ℤ d) (pos 0) ≡ false
    → ltb_ℤ (w.db.house.rake_cents +ℤ r) (pos 0) ≡ false
    → Reply (λ (h : House) (db : Db). Unit {0}) (λ e. Other (house_error e)) (update_house d r w)
unfolding update_house house_error is_check_violation
update_house-Other d r w b k = Reply-Other _ _ _ _ _ b k

admit-Triple :
    (req : Request) → Triple (λ db. RakeOk db.house) (admit req) (λ u db. Covers req db.house) Other
unfolding admit house_lock select_house
admit-Triple req =
    Triple-if req.is_real _ (pure tt)
      (λ real.
        Triple-bind (λ h db. RakeOk db.house × (h ≡ db.house)) _ _
          (Triple-or_fail _ database (Triple-statement select_house refl (λ w k. (k, refl))))
          (λ h.
            Triple-raise_if _ _ (λ t. refl)
              (λ db passed k. (
                k.0,
                λ r.
                    let covered : max_exposure req.stake_cents ≤ℤ h.bankroll_cents = ground arith in
                    rw k.1 at covered,
              ))))
      (λ demo. Triple-pure tt (λ db k. (k, λ real. absurd (ground arith))))

settle_house-Triple :
    (econ : Economics) (req : Request) (referrer : Option ℕ) (mult_bp : ℤ) (id : ℕ)
    (a : Amounts econ req referrer mult_bp)
    → Triple
        (λ db. Covers req db.house)
        (settle_house econ req referrer (pos a.paid) (pos a.rake) (pos a.commission) id)
        (λ u db. Unit {0})
        Other
unfolding settle_house move_house house_error
settle_house-Triple econ req referrer mult_bp id a =
    let d = house_delta req.stake_cents a.paid a.rake a.commission in
    let exact : d ≡ pos a.stake -ℤ pos a.paid -ℤ pos a.rake -ℤ pos a.commission =
      rw a.stake_eq
        (delta_exact a.stake a.paid a.rake a.commission a.stake_max a.paid_max a.shares_max) in
    Triple-if req.is_real _ (pure tt)
      (λ real.
        Triple-bind (λ h db. Unit {0}) _ (λ h. pay_referrer econ req referrer (pos a.commission) id)
          (Triple-or_fail _ house_error (
            Triple-statement (update_house d (pos a.rake)) refl (λ w k.
              let bank : pos (a.stake * 200) ≤ℤ w.db.house.bankroll_cents =
                (rw (a.stake_eq, max_exposure-pos a.stake a.stake_max) at (k.1 real)) in
              update_house-Other d (pos a.rake) w
                (enough_left _ d a.stake a.paid a.rake a.commission bank a.paid_max a.shares_max
                  exact)
                (rake_left _ a.rake k.0))))
          (λ h.
            (pay_referrer-Avoids {K = λ x. Unit {0}} econ req referrer (pos a.commission)
              id).triple))
      (λ demo. Triple-pure tt (λ db k. tt))

play-Triple :
    (econ : Economics) (req : Request) (referrer : Option ℕ) (me : Balances) (seg : ℕ) (mult_bp : ℤ)
    → Amounts econ req referrer mult_bp
    → Triple
        (λ db. Covers req db.house)
        (play econ req referrer me (seg, mult_bp))
        (λ r db. Unit {0})
        Other
unfolding play
play-Triple econ req referrer me seg mult_bp a =
    rw (a.paid_eq, a.rake_eq, a.commission_eq)
      (Triple-bind (λ x db. Covers req db.house) _ _
        (insert_spin-Avoids (row_of req seg mult_bp (pos a.paid) (pos a.rake))).triple
        λ made.
          Triple-bind (λ x db. Covers req db.house) _ _
            (bet-Avoids (bet_params req made.0) (spendable me req.is_real)).triple
            λ x.
              Triple-bind (λ x db. Covers req db.house) _ _
                (pay_win-Avoids req (pos a.paid) made.0 _).triple
                λ z.
                  Triple-bind (λ u db. Unit {0}) _ _
                    (settle_house-Triple econ req referrer mult_bp made.0 a)
                    λ u. Triple-pure _ (λ db k. tt))

Triple-lift_bind :
    {E A B : Type 0} {P : Db → Type 0} {R : B → Db → Type 0} {X : E → Type 0} (r : Result E A)
    (f : A → Exec E B)
    → ((a : A) → r ≡ ok a → Triple P (f a) R X)
    → ((e : E) → r ≡ err e → X e)
    → Triple P (lift r >>= f) R X
unfolding ◌>>=◌
Triple-lift_bind (ok a) f h k = h a refl
Triple-lift_bind (err e) f h k = record { at = λ w p. k e refl }

draw_error-Other : (r : Result PickError (ℕ × ℤ)) (e : Error) → draw_error r ≡ err e → Other e
unfolding draw_error
draw_error-Other r e h = ground arith

spin_body-Triple :
    (econ : Economics) (source : Option Buffer) (req : Request)
    → IsSoundEconomics econ
    → InLimits econ req.stake_cents
    → Triple (λ db. RakeOk db.house) (spin_body econ source req) (λ r db. Unit {0}) Other
unfolding spin_body
spin_body-Triple econ source req e l =
    Triple-bind (λ x db. RakeOk db.house) _ _ (select_player-Avoids req.user_id).triple
      λ referrer.
        Triple-bind (λ x db. RakeOk db.house) _ _ (lock-Avoids (lock_ids econ req referrer)).triple
          λ rows.
            Triple-bind (λ x db. RakeOk db.house) _ _
              (Triple-raise_if _ _ (λ t. refl) (λ db p k. k))
              λ x.
                Triple-bind (λ u db. Covers req db.house) _ _ (admit-Triple req)
                  λ u.
                    Triple-lift_bind _ (play econ req referrer (balances_at req.user_id rows))
                      (λ d drawn.
                        let m = drawn_in_range source req.is_real d.0 d.1 drawn in
                        play-Triple econ req referrer _ d.0 d.1
                          (amounts econ req referrer d.1 e l m.0 m.1))
                      (λ x h. draw_error-Other _ x h)

guarded-Other :
    {A : Type 0} (b : Bool) (x : Error) (m : Exec Error A) (w : World) (e : Error)
    → Other x
    → ((raise_if b x >> m) w).0 ≡ err e
    → (b ≡ false → (m w).0 ≡ err e → Other e)
    → Other e
unfolding ◌>>=◌
guarded-Other true x m w e o h k = let same : x ≡ e = cc in rw (sym same) o
guarded-Other false x m w e o h k = k refl h

-- Admission control is enough: under settings that start-up accepts, with a rake column that is not
-- negative, Spin never reports that the bankroll is exhausted, whatever the request, the draw, the
-- tables and the failures on the way. The errors of MoveHouse that mapSpinError calls a bug
-- do not occur.
pub never_exhausted :
    (econ : Economics) (source : Option Buffer) (req : Request) (w : World)
    → IsSoundEconomics econ
    → pos 0 ≤ℤ w.db.house.rake_cents
    → (spin econ source req w).0 ≢ err bankroll_exhausted
unfolding spin
never_exhausted econ source req w e rake h =
    let is_other : Other bankroll_exhausted =
      guarded-Other _ _ _ w bankroll_exhausted refl h (λ above k.
        guarded-Other _ _ _ w bankroll_exhausted refl k (λ below l.
          in_transaction-fails database (spin_body econ source req) w bankroll_exhausted
            (spin_body-Triple econ source req e (record { above = above; below = below })) rake refl
            l)) in
    absurd (ground arith)
