-- ===== src/Wallet/Works.antt =====
-- internal/wallet/wallet.go: when Move returns a balance.
use braelaspin.Prelude.{
  ℤ, pos, ◌+ℤ◌, ◌+◌, ◌≡◌, refl, Bool, true, false, ◌&&◌, some, [], ok, arith, eqb_ℤ, ltb_ℤ, Result,
}
use braelaspin.Database.{Kind, Balances, find_wallet, put_wallet}
use braelaspin.Database.Monad.{World, Exec, SqlError, Statement, ◌>>=◌, run_statement, or_fail}
use braelaspin.Wallet.{MoveParams, move, null_str, is_unset}
use braelaspin.Wallet.Moved.{credited}
use braelaspin.Wallet.Statements.{
  spendable, with_cents, update_wallet, insert_entry, realm_allows, fits_bigint, has_user,
  is_referral, referral_paid,
}

-- A call that returned, and the rest of its block from there.
pub bind-returns :
    {E A B : Type 0} (m : Exec E A) (f : A → Exec E B) (w w1 : World) (a : A)
    (r : Result E B × World)
    → m w ≡ (ok a, w1)
    → f a w1 ≡ r
    → (m >>= f) w ≡ r
unfolding ◌>>=◌
bind-returns m f w w1 a r h k = rw h k

-- A statement that the server answers.
pub statement-returns :
    {E A : Type 0} (s : Statement A) (c : SqlError → E) (w w' : World) (a : A)
    → w.answers ≡ []
    → s w ≡ ok (a, w')
    → or_fail (run_statement s) c w ≡ (ok a, w')
unfolding run_statement
statement-returns s c w w' a calm h = ground arith

-- A movement that the tables allow, at a moment when the database works.
pub record IsAllowed (p : MoveParams) (row : Balances) (w : World) : Type 0 where
  pub calm : w.answers ≡ []
  pub found : find_wallet p.user_id w.db.wallets ≡ some row
  pub moves : eqb_ℤ p.delta (pos 0) ≡ false
  pub realm : realm_allows p.is_real p.kind ≡ true
  pub covered : ltb_ℤ (spendable row p.is_real +ℤ p.delta) (pos 0) ≡ false
  pub fits : fits_bigint (spendable row p.is_real +ℤ p.delta) ≡ true
  pub unpaid : is_referral p.kind && referral_paid p.ref_id w.db.transactions ≡ false
  pub owner : has_user p.user_id w.db ≡ true

kind_set : (is_real : Bool) (k : Kind) → realm_allows is_real k ≡ true → is_unset k ≡ false
unfolding realm_allows
kind_set is_real k h = ground arith

module _ (p : MoveParams) (row : Balances) (w : World) (h : IsAllowed p row w) where
  abbrev pub after : ℤ
  after = spendable row p.is_real +ℤ p.delta

  abbrev updated : World
  updated = record w {
    db = record w.db { wallets = put_wallet (with_cents row p.is_real after) w.db.wallets };
  }

  update_wallet-returns : update_wallet p.is_real p.user_id p.delta w ≡ ok (after, updated)
  unfolding update_wallet
  update_wallet-returns = ground (arith, h.found, h.fits, h.covered)

  insert_entry-returns :
      insert_entry p.user_id p.kind p.is_real p.delta after p.ref_id (null_str p.memo) updated
      ≡ ok
          (tt, record w { db = credited p row after w.next_id w.now w.db; next_id = w.next_id + 1 })
  unfolding insert_entry
  insert_entry-returns = rw (h.moves, h.covered, h.realm, h.unpaid, h.owner) refl

  -- Move returns the balance after the change, with the wallet and the ledger row written, whenever the
  -- delta is not zero, the kind is one that the realm allows, the wallet exists and covers the delta,
  -- the sum fits a bigint, no commission was paid for the reference before, and the database works.
  pub move_returns : move p w ≡ (
    ok after,
    record w { db = credited p row after w.next_id w.now w.db; next_id = w.next_id + 1 },
  )
  unfolding move
  move_returns = bind-returns _ _ w w tt _ (rw h.moves refl) (
      bind-returns _ _ w w tt _ (rw (kind_set p.is_real p.kind h.realm) refl) (
        bind-returns _ _ w updated after _
          (statement-returns _ _ w updated after h.calm update_wallet-returns)
          (bind-returns _ _ updated _ tt _
            (statement-returns _ _ updated _ tt h.calm insert_entry-returns) refl)))
