-- ===== src/Wallet/Statements.antt =====
-- The SQL texts of internal/wallet/wallet.go, with the constraints of wallets, transactions and house.
use braelaspin.Prelude.{
  ℕ, ℤ, pos, negsuc, ◌+◌, ◌-◌, ◌^◌, ◌+ℤ◌, Bool, true, false, not, ◌&&◌, ◌||◌, Option, none, some,
  Text, List, [], ◌∷◌, ok, err, max_int64, eqb_ℤ, leb_ℤ, ltb_ℤ, if◌then◌else◌, ◌==◌,
}
use braelaspin.Database.{
  Kind, Balances, House, Entry, Db, find_wallet, find_user, put_wallet, demo_grant, bet, win,
  referral, adjustment, unset,
}
use braelaspin.Database.Monad.{
  Statement, no_rows, check_violation, foreign_key, out_of_range, unique_violation,
  tx_referral_once,
}

-- The range of a bigint.
abbrev pub fits_bigint : ℤ → Bool
fits_bigint z = leb_ℤ z (pos max_int64) && leb_ℤ (negsuc (2 ^ 63 - 1)) z

-- Balances.Spendable
unfoldable pub spendable : Balances → Bool → ℤ
spendable b is_real = if is_real then b.real_cents else b.demo_cents

-- Balances.Withdrawable
unfoldable pub withdrawable : Balances → ℤ
withdrawable b = b.real_cents

-- The row with the chosen column set.
unfoldable pub with_cents : Balances → Bool → ℤ → Balances
with_cents b is_real cents =
    if is_real then record b { real_cents = cents } else record b { demo_cents = cents }

-- UPDATE wallets SET <column> = <column> + $2 WHERE user_id = $1 RETURNING <column>
unfoldable pub update_wallet : Bool → ℕ → ℤ → Statement ℤ
unfolding spendable with_cents
update_wallet is_real user_id delta w = elim (find_wallet user_id w.db.wallets) [
  | none ↦ err no_rows
  | some b ↦
      let after = spendable b is_real +ℤ delta in
      if not (fits_bigint after)
      then err out_of_range
      else if ltb_ℤ after (pos 0)
      then err check_violation
      else ok (
        after,
        record w {
          db = record w.db { wallets = put_wallet (with_cents b is_real after) w.db.wallets };
        },
      )
]

-- tx_realm_kinds, with the CHECK on the kind: which kinds a row of the realm may have.
unfoldable pub realm_allows : Bool → Kind → Bool
realm_allows _ unset = false
realm_allows true demo_grant = false
realm_allows true _ = true
realm_allows false demo_grant = true
realm_allows false bet = true
realm_allows false win = true
realm_allows false adjustment = true
realm_allows false _ = false

abbrev pub is_referral : Kind → Bool
is_referral referral = true
is_referral _ = false

abbrev pub same_ref : Option ℕ → Option ℕ → Bool
same_ref (some i) (some j) = i == j
same_ref _ _ = false

-- The unique index tx_referral_once on ref_id, where the kind is 'referral'.
unfoldable pub referral_paid : Option ℕ → List Entry → Bool
referral_paid r [] = false
referral_paid r (e ∷ es) = (is_referral e.kind && same_ref e.ref_id r) || referral_paid r es

abbrev pub has_user : ℕ → Db → Bool
has_user i db = elim (find_user i db.users) [ none ↦ false | some _ ↦ true ]

-- INSERT INTO transactions
unfoldable pub insert_entry : ℕ → Kind → Bool → ℤ → ℤ → Option ℕ → Option Text → Statement Unit
unfolding realm_allows referral_paid
insert_entry user_id kind is_real amount balance_after ref_id memo w =
    if eqb_ℤ amount (pos 0) || ltb_ℤ balance_after (pos 0) || not (realm_allows is_real kind)
    then err check_violation
    else if is_referral kind && referral_paid ref_id w.db.transactions
    then err (unique_violation tx_referral_once)
    else if not (has_user user_id w.db)
    then err foreign_key
    else let entry : Entry = record {
      id = w.next_id;
      user_id = user_id;
      kind = kind;
      is_real = is_real;
      amount_cents = amount;
      balance_after_cents = balance_after;
      ref_id = ref_id;
      memo = memo;
      created_at = w.now;
    } in
      ok (
        tt,
        record w {
          db = record w.db { transactions = entry ∷ w.db.transactions };
          next_id = w.next_id + 1;
        },
      )

-- UPDATE house SET bankroll_cents = bankroll_cents + $1, rake_cents = rake_cents + $2 WHERE id = 1
unfoldable pub update_house : ℤ → ℤ → Statement House
update_house bankroll_delta rake_delta w =
    let bankroll = w.db.house.bankroll_cents +ℤ bankroll_delta in
    let rake = w.db.house.rake_cents +ℤ rake_delta in
    let h : House = record { bankroll_cents = bankroll; rake_cents = rake } in
    if not (fits_bigint bankroll && fits_bigint rake)
    then err out_of_range
    else if ltb_ℤ bankroll (pos 0) || ltb_ℤ rake (pos 0)
    then err check_violation
    else ok (h, record w { db = record w.db { house = h } })

-- UPDATE wallets SET held_cents = held_cents + $2 WHERE user_id = $1; no row is no error
unfoldable pub update_held : ℕ → ℤ → Statement Unit
update_held user_id delta w = elim (find_wallet user_id w.db.wallets) [
  | none ↦ ok (tt, w)
  | some b ↦
      let held = b.held_cents +ℤ delta in
      if not (fits_bigint held)
      then err out_of_range
      else if ltb_ℤ held (pos 0)
      then err check_violation
      else ok (
        tt,
        record w {
          db = record w.db { wallets = put_wallet (record b { held_cents = held }) w.db.wallets };
        },
      )
]

abbrev pub elem : ℕ → List ℕ → Bool
elem i [] = false
elem i (j ∷ js) = i == j || elem i js

-- SELECT ... FROM wallets WHERE user_id = ANY($1) ORDER BY user_id FOR UPDATE
unfoldable pub rows_of : List ℕ → List Balances → List Balances
rows_of ids [] = []
rows_of ids (b ∷ bs) = if elem b.user_id ids then b ∷ rows_of ids bs else rows_of ids bs

unfoldable pub select_wallets : List ℕ → Statement (List Balances)
unfolding rows_of
select_wallets ids w = ok (rows_of ids w.db.wallets, w)

-- SELECT ... FROM wallets WHERE user_id = $1
unfoldable pub select_wallet : ℕ → Statement Balances
select_wallet user_id w = elim (find_wallet user_id w.db.wallets) [
  | none ↦ err no_rows
  | some b ↦ ok (b, w)
]

-- SELECT bankroll_cents, rake_cents FROM house WHERE id = 1
unfoldable pub select_house : Statement House
select_house w = ok (w.db.house, w)
