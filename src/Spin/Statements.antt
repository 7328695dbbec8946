-- ===== src/Spin/Statements.antt =====
-- The SQL texts of internal/game/spin.go, with the constraints of spins.
use braelaspin.Prelude.{
  ℕ, ℤ, pos, ◌+◌, ◌*ℤ◌, quot, Bool, not, ◌&&◌, ◌||◌, Option, none, some, Text, List, [], ◌∷◌, ok,
  err, eqb_ℤ, ltb_ℤ, leb, text_eq, if◌then◌else◌, ◌==◌,
}
use braelaspin.Database.{SpinRow, find_user, find_wallet}
use braelaspin.Database.Monad.{
  Statement, no_rows, check_violation, foreign_key, out_of_range, unique_violation,
  spins_client_ref,
}
use braelaspin.Wallet.Statements.{fits_bigint, has_user, spendable}

-- SELECT referred_by FROM users WHERE id = $1 AND is_active
unfoldable pub select_player : ℕ → Statement (Option ℕ)
select_player user_id w = elim (find_user user_id w.db.users) [
  | none ↦ err no_rows
  | some u ↦ (if u.is_active then ok (u.referred_by, w) else err no_rows)
]

-- The row of a player's spin with this client_ref.
abbrev pub find_spin : ℕ → Text → List SpinRow → Option SpinRow
find_spin u ref [] = none
find_spin u ref (s ∷ ss) =
    if (s.user_id == u) && text_eq s.client_ref ref then some s else find_spin u ref ss

-- spins_payout_exact, spins_demo_no_rake and the CHECKs of the columns
unfoldable pub spin_allowed : SpinRow → Bool
spin_allowed s =
    ltb_ℤ (pos 0) s.stake_cents
    && (leb 1 s.segment_index && leb s.segment_index 12)
    && not (ltb_ℤ s.multiplier_bp (pos 0))
    && not (ltb_ℤ s.payout_cents (pos 0))
    && not (ltb_ℤ s.rake_cents (pos 0))
    && eqb_ℤ s.payout_cents (quot (s.stake_cents *ℤ s.multiplier_bp) (pos 10000))
    && (s.is_real || eqb_ℤ s.rake_cents (pos 0))

-- INSERT INTO spins ... RETURNING id, created_at; the row brings all columns but these two
unfoldable pub insert_spin : SpinRow → Statement (ℕ × ℕ)
unfolding spin_allowed
insert_spin row w =
    if not (fits_bigint (row.stake_cents *ℤ row.multiplier_bp))
    then err out_of_range
    else if not (spin_allowed row)
    then err check_violation
    else elim (find_spin row.user_id row.client_ref w.db.spins) [
      | some _ ↦ err (unique_violation spins_client_ref)
      | none ↦
          (if not (has_user row.user_id w.db)
            then err foreign_key
            else ok (
              (w.next_id, w.now),
              record w {
                db = record w.db {
                  spins = record row { id = w.next_id; created_at = w.now } ∷ w.db.spins;
                };
                next_id = w.next_id + 1;
              },
            ))
    ]

-- SELECT ... FROM spins s JOIN wallets w ON w.user_id = s.user_id WHERE s.user_id = $1 AND s.client_ref = $2
unfoldable pub select_spin : ℕ → Text → Statement (SpinRow × ℤ)
unfolding spendable
select_spin user_id client_ref w = elim (find_spin user_id client_ref w.db.spins) [
  | none ↦ err no_rows
  | some s ↦ (elim (find_wallet user_id w.db.wallets) [
    | none ↦ err no_rows
    | some b ↦ ok ((s, spendable b s.is_real), w)
  ])
]
