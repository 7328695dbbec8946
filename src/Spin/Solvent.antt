-- ===== src/Spin/Solvent.antt =====
-- internal/game/spin.go: the rules for calls that leave the house alone and whose errors are not for want of
-- a bankroll.
use braelaspin.Prelude.{
  ℕ, ℤ, ◌≡◌, refl, Bool, true, false, Option, some, none, List, [], ◌∷◌, Result, ok, err, arith,
  Option-cases, inl, inr, if◌then◌else◌,
}
use braelaspin.Database.{Db, House, Balances, SpinRow, find_wallet}
use braelaspin.Database.Monad.{
  World, Exec, SqlError, Statement, connection, ◌>>=◌, pure, raise_if, run_statement, or_fail,
}
use braelaspin.Database.Triples.{
  Triple, Triple-bind, Triple-raise_if, Triple-pure, Triple-or_fail, Triple-statement,
  Triple-weaken, Reply,
}
use braelaspin.Errors.{Error, bankroll_exhausted}
use braelaspin.Wallet.{MoveParams, move, move_error, null_str, lock, require_wallets}
use braelaspin.Wallet.Statements.{update_wallet, insert_entry, select_wallets}
use braelaspin.Spin.{
  Economics, Request, insert_error, bet_error, player_error, pay_win, pay_referrer,
}
use braelaspin.Spin.Statements.{insert_spin, select_player}

abbrev pub exhausted : Error → Bool
exhausted bankroll_exhausted = true
exhausted _ = false

abbrev pub Other : Error → Type 0
Other e = exhausted e ≡ false

-- The call keeps a property of the house, and does not fail for want of a bankroll.
pub record Avoids {A : Type 0} (K : House → Type 0) (m : Exec Error A) : Type 0 where
  pub triple : Triple (λ db. K db.house) m (λ a db. K db.house) Other

pub record KeepsHouse {A : Type 0} (s : Statement A) : Type 0 where
  pub at : (w w' : World) (a : A) → s w ≡ ok (a, w') → w'.db.house ≡ w.db.house

Reply-of :
    {A : Type 0} (K : House → Type 0) (X : SqlError → Type 0) (w : World)
    (r : Result SqlError (A × World))
    → ((a : A) (w' : World) → r ≡ ok (a, w') → w'.db.house ≡ w.db.house)
    → ((e : SqlError) → X e)
    → K w.db.house
    → Reply (λ (a : A) (db : Db). K db.house) X r
Reply-of K X w (ok (a, w')) h x k = rw (h a w' refl) k
Reply-of K X w (err e) h x k = x e

module _ {K : House → Type 0} where
  pub Avoids-bind :
      {A B : Type 0} (m : Exec Error A) (f : A → Exec Error B)
      → Avoids K m
      → ((a : A) → Avoids K (f a))
      → Avoids K (m >>= f)
  Avoids-bind m f hm hf = record {
    triple = Triple-bind (λ a db. K db.house) m f hm.triple (λ a. (hf a).triple);
  }

  pub Avoids-pure : {A : Type 0} (a : A) → Avoids K (pure a)
  Avoids-pure a = record { triple = Triple-pure a (λ db h. h) }

  pub Avoids-raise_if : (b : Bool) (e : Error) → Other e → Avoids K (raise_if b e)
  Avoids-raise_if b e h = record { triple = Triple-raise_if b e (λ t. h) (λ db f k. k) }

  pub Avoids-if :
      {A : Type 0} (b : Bool) (m n : Exec Error A)
      → Avoids K m
      → Avoids K n
      → Avoids K (if b then m else n)
  Avoids-if true m n hm hn = hm
  Avoids-if false m n hm hn = hn

  pub Avoids-statement :
      {A : Type 0} (s : Statement A) (c : SqlError → Error)
      → KeepsHouse s
      → ((e : SqlError) → Other (c e))
      → Avoids K (or_fail (run_statement s) c)
  Avoids-statement s c h x = record {
    triple = Triple-or_fail (run_statement s) c (
        Triple-statement s (x connection)
          (λ w k. Reply-of K (λ e. Other (c e)) w (s w) (λ a w' e. h.at w w' a e) x k));
  }

update_wallet-KeepsHouse : (r : Bool) (u : ℕ) (d : ℤ) → KeepsHouse (update_wallet r u d)
unfolding update_wallet
update_wallet-KeepsHouse r u d = record { at = λ w w' a h. ground arith }

insert_entry-KeepsHouse :
    (p : MoveParams) (z : ℤ)
    → KeepsHouse (insert_entry p.user_id p.kind p.is_real p.delta z p.ref_id (null_str p.memo))
unfolding insert_entry
insert_entry-KeepsHouse p z = record { at = λ w w' a h. ground arith }

insert_spin-KeepsHouse : (row : SpinRow) → KeepsHouse (insert_spin row)
unfolding insert_spin
insert_spin-KeepsHouse row = record { at = λ w w' a h. ground arith }

move_error-Other : (u : ℕ) (e : SqlError) → Other (move_error u e)
unfolding move_error
move_error-Other u e = ground arith

insert_error-Other : (e : SqlError) → Other (insert_error e)
unfolding insert_error
insert_error-Other e = ground arith

bet_error-Other : (z : ℤ) (e : Error) → Other e → Other (bet_error z e)
unfolding bet_error
bet_error-Other z e h = ground arith

ruleset avoid_rules = (
  Avoids-bind, Avoids-pure, Avoids-raise_if, Avoids-if, Avoids-statement, update_wallet-KeepsHouse,
  insert_entry-KeepsHouse, insert_spin-KeepsHouse, move_error-Other, insert_error-Other,
)

pub move-Avoids : {K : House → Type 0} (p : MoveParams) → Avoids K (move p)
unfolding move
move-Avoids p = search avoid_rules depth 12

select_player-KeepsHouse : (u : ℕ) → KeepsHouse (select_player u)
unfolding select_player
select_player-KeepsHouse u = record { at = λ w w' a h. ground arith }

player_error-Other : (u : ℕ) (e : SqlError) → Other (player_error u e)
unfolding player_error
player_error-Other u e = ground arith

select_wallets-KeepsHouse : (ids : List ℕ) → KeepsHouse (select_wallets ids)
unfolding select_wallets
select_wallets-KeepsHouse ids = record { at = λ w w' a h. ground arith }

require_wallets-Avoids :
    {K : House → Type 0} (ids : List ℕ) (rows : List Balances) → Avoids K (require_wallets ids rows)
unfolding require_wallets
require_wallets-Avoids [] rows = Avoids-pure tt
require_wallets-Avoids (i ∷ ids) rows = elim (Option-cases (find_wallet i rows)) [
  | inl e ↦ rw (e, require_wallets) (record { triple = record { at = λ w k. refl } })
  | inr (b, e) ↦ rw (e, require_wallets) (require_wallets-Avoids ids rows)
]

module _ {K : House → Type 0} where
  pub or_fail-Avoids :
      {A : Type 0} (m : Exec Error A) (c : Error → Error)
      → ((e : Error) → Other e → Other (c e))
      → Avoids K m
      → Avoids K (or_fail m c)
  or_fail-Avoids m c h a = record {
    triple = Triple-or_fail m c (Triple-weaken m a.triple (λ db k. k) (λ x db k. k) h);
  }

  pub bet-Avoids : (p : MoveParams) (z : ℤ) → Avoids K (or_fail (move p) (bet_error z))
  bet-Avoids p z = or_fail-Avoids (move p) (bet_error z) (bet_error-Other z) (move-Avoids p)

  pub insert_spin-Avoids :
      (row : SpinRow) → Avoids K (or_fail (run_statement (insert_spin row)) insert_error)
  insert_spin-Avoids row = Avoids-statement _ _ (insert_spin-KeepsHouse row) insert_error-Other

  pub pay_win-Avoids :
      (req : Request) (paid : ℤ) (id : ℕ) (z : ℤ) → Avoids K (pay_win req paid id z)
  unfolding pay_win
  pay_win-Avoids req paid id z = Avoids-if _ _ _ (move-Avoids _) (Avoids-pure z)

  pub pay_referrer-Avoids :
      (econ : Economics) (req : Request) (referrer : Option ℕ) (c : ℤ) (id : ℕ)
      → Avoids K (pay_referrer econ req referrer c id)
  unfolding pay_referrer
  pay_referrer-Avoids econ req none c id = Avoids-pure tt
  pay_referrer-Avoids econ req (some r) c id =
      Avoids-if _ _ _ (Avoids-bind _ _ (move-Avoids _) (λ z. Avoids-pure tt)) (Avoids-pure tt)

  pub select_player-Avoids :
      (u : ℕ) → Avoids K (or_fail (run_statement (select_player u)) (player_error u))
  select_player-Avoids u = Avoids-statement _ _ (select_player-KeepsHouse u) (player_error-Other u)

  pub lock-Avoids : (ids : List ℕ) → Avoids K (lock ids)
  unfolding lock
  lock-Avoids [] = Avoids-pure []
  lock-Avoids (i ∷ ids) =
      Avoids-bind _ _ (Avoids-statement _ _ (select_wallets-KeepsHouse (i ∷ ids)) (λ e. refl))
        (λ rows. Avoids-bind _ _ (require_wallets-Avoids (i ∷ ids) rows) (λ u. Avoids-pure rows))
