-- ===== src/Wallet/Moved.antt =====
-- internal/wallet/wallet.go: what Move has done when it returned no error.
use braelaspin.Prelude.{
  ℕ, ℤ, pos, ◌+ℤ◌, ◌+◌, ◌≤ℤ◌, ◌≡◌, ◌≢◌, Bool, true, false, some, ◌∷◌, ok, arith, Option-cases, ◌∙◌,
  inl, inr, eqb_ℤ,
}
use braelaspin.Database.{Balances, Entry, Db, find_wallet, put_wallet}
use braelaspin.Database.Monad.{World}
use braelaspin.Database.Steps.{
  bind-ok, raise_if-ok, statement-ok, served, served-db, served-now, served-next_id,
}
use braelaspin.Wallet.{MoveParams, move, null_str}
use braelaspin.Wallet.Statements.{spendable, with_cents, update_wallet, insert_entry, realm_allows}

-- The ledger row of a movement.
abbrev pub entry_of : MoveParams → ℤ → ℕ → ℕ → Entry
entry_of p after id now = record {
  id = id;
  user_id = p.user_id;
  kind = p.kind;
  is_real = p.is_real;
  amount_cents = p.delta;
  balance_after_cents = after;
  ref_id = p.ref_id;
  memo = null_str p.memo;
  created_at = now;
}

-- The tables after a movement of the wallet row `b` that left it at `after`.
abbrev pub credited : MoveParams → Balances → ℤ → ℕ → ℕ → Db → Db
credited p b after id now db = record db {
  wallets = put_wallet (with_cents b p.is_real after) db.wallets;
  transactions = entry_of p after id now ∷ db.transactions;
}

pub record Moved (p : MoveParams) (after : ℤ) (w w' : World) : Type 0 where
  pub row : Balances
  pub found : find_wallet p.user_id w.db.wallets ≡ some row
  pub after_eq : after ≡ spendable row p.is_real +ℤ p.delta
  pub nonneg : pos 0 ≤ℤ after
  pub moves : p.delta ≢ pos 0
  pub realm : realm_allows p.is_real p.kind ≡ true
  pub db_eq : w'.db ≡ credited p row after w.next_id w.now w.db
  pub now_eq : w'.now ≡ w.now
  pub next_id_eq : w'.next_id ≡ w.next_id + 1

-- What the UPDATE of a wallet column did.
record Updated (is_real : Bool) (u : ℕ) (delta : ℤ) (after : ℤ) (w w' : World) : Type 0 where
  row : Balances
  found : find_wallet u w.db.wallets ≡ some row
  after_eq : after ≡ spendable row is_real +ℤ delta
  nonneg : pos 0 ≤ℤ after
  world_eq : w' ≡ record w {
    db = record w.db { wallets = put_wallet (with_cents row is_real after) w.db.wallets };
  }

updated_row :
    (is_real : Bool) (u : ℕ) (delta after : ℤ) (w w' : World) (b : Balances)
    → find_wallet u w.db.wallets ≡ some b
    → update_wallet is_real u delta w ≡ ok (after, w')
    → (after ≡ spendable b is_real +ℤ delta)
      × (pos 0 ≤ℤ after)
      × (w' ≡ record w {
        db = record w.db { wallets = put_wallet (with_cents b is_real after) w.db.wallets };
      })
unfolding update_wallet
updated_row is_real u delta after w w' b found h = ground arith

update_wallet-ok :
    (is_real : Bool) (u : ℕ) (delta after : ℤ) (w w' : World)
    → update_wallet is_real u delta w ≡ ok (after, w')
    → Updated is_real u delta after w w'
unfolding update_wallet
update_wallet-ok is_real u delta after w w' h = elim (Option-cases (find_wallet u w.db.wallets)) [
  | inl missing ↦ absurd (ground arith)
  | inr (b, found) ↦
      let (p, q, r) = updated_row is_real u delta after w w' b found h in
      record { row = b; found = found; after_eq = p; nonneg = q; world_eq = r }
]

insert_entry-ok :
    (p : MoveParams) (after : ℤ) (w : World) (x : Unit) (w' : World)
    → insert_entry p.user_id p.kind p.is_real p.delta after p.ref_id (null_str p.memo) w
      ≡ ok (x, w')
    → (realm_allows p.is_real p.kind ≡ true)
      × (w' ≡ record w {
        db = record w.db { transactions = entry_of p after w.next_id w.now ∷ w.db.transactions };
        next_id = w.next_id + 1;
      })
unfolding insert_entry
insert_entry-ok p after w x w' h = ground arith

-- The row was written by the two statements, one after the other.
Moved-by :
    (p : MoveParams) (after : ℤ) (w w1 w2 : World)
    (u : Updated p.is_real p.user_id p.delta after (served w) w1)
    → p.delta ≢ pos 0
    → realm_allows p.is_real p.kind ≡ true
    → w2 ≡ record (served w1) {
      db = record (served w1).db {
        transactions =
            entry_of p after (served w1).next_id (served w1).now ∷ (served w1).db.transactions;
      };
      next_id = (served w1).next_id + 1;
    }
    → Moved p after w w2
Moved-by p after w w1 w2 u moves realm e = record {
  row = u.row;
  found = ground (arith, u.found, served-db w);
  after_eq = u.after_eq;
  nonneg = u.nonneg;
  moves = moves;
  realm = realm;
  db_eq = ground (
    arith,
    e,
    u.world_eq,
    served-db w,
    served-db w1,
    served-next_id w,
    served-next_id w1,
    served-now w,
    served-now w1,
  );
  now_eq = ground (arith, e, u.world_eq, served-now w, served-now w1);
  next_id_eq = ground (arith, e, u.world_eq, served-next_id w, served-next_id w1);
}

nonzero : (d : ℤ) → eqb_ℤ d (pos 0) ≡ false → d ≢ pos 0
nonzero d h e = ground arith

pub move-Moved :
    (p : MoveParams) (w w' : World) (after : ℤ) → move p w ≡ (ok after, w') → Moved p after w w'
unfolding move
move-Moved p w w' after h =
    let c1 = bind-ok _ _ w after w' h in
    let c2 = bind-ok _ _ c1.middle after w' c1.rest in
    let c3 = bind-ok _ _ c2.middle after w' c2.rest in
    let c4 = bind-ok _ _ c3.middle after w' c3.rest in
    let g1 = raise_if-ok _ _ _ _ _ c1.first in
    let g2 = raise_if-ok _ _ _ _ _ c2.first in
    let e3 : c3.value ≡ after = ground (arith, c4.rest) in
    let e4 : c4.middle ≡ w' = ground (arith, c4.rest) in
    let w2 : c2.middle ≡ w = g2.1 ∙ g1.1 in
    let s3 = rw (w2, e3) at (statement-ok _ _ _ _ _ c3.first) in
    let s4 = rw (e3, e4) at (statement-ok _ _ _ _ _ c4.first) in
    let u = update_wallet-ok p.is_real p.user_id p.delta after (served w) c3.middle s3 in
    let i = insert_entry-ok p after (served c3.middle) tt w' s4 in
    Moved-by p after w c3.middle w' u (nonzero p.delta g1.0) i.0 i.1
