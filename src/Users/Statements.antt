-- ===== src/Users/Statements.antt =====
-- The SQL texts of internal/users/users.go, with the constraints of users and wallets.
use braelaspin.Prelude.{
  ℤ, ◌+ℤ◌, ◌*◌, ◌^◌, is_digit, ℕ, pos, ◌+◌, Bool, true, false, not, ◌&&◌, ◌||◌, Option, none, some,
  Text, List, [], ◌∷◌, ok, err, ltb, leb, length, if◌then◌else◌, ◌==◌, text_eq,
}
use braelaspin.Database.{Entry, User, Balances, find_user, find_wallet}
use braelaspin.Database.Monad.{
  Statement, out_of_range, no_rows, check_violation, foreign_key, unique_violation, users_pkey,
  users_phone_key, users_ref_code_key, wallets_pkey,
}
use braelaspin.Wallet.Statements.{has_user, fits_bigint, is_referral}

abbrev pub all_chars : (ℕ → Bool) → Text → Bool
all_chars p [] = true
all_chars p (c ∷ s) = p c && all_chars p s

abbrev pub is_capital : ℕ → Bool
is_capital c = leb b'A' c && leb c b'Z'

-- phone ~ '^254[17][0-9]{8}$'
unfoldable pub phone_allowed : Text → Bool
phone_allowed (a ∷ b ∷ c ∷ d ∷ rest) =
    a == b'2'
    && b == b'5'
    && c == b'4'
    && (d == b'1' || d == b'7')
    && length rest == 8
    && all_chars is_digit rest
phone_allowed _ = false

-- ref_code ~ '^[A-Z0-9]{6,10}$'
unfoldable pub ref_code_allowed : Text → Bool
ref_code_allowed s =
    leb 6 (length s) && leb (length s) 10 && all_chars (λ c. is_capital c || is_digit c) s

abbrev pub find_phone : Text → List User → Option User
find_phone p [] = none
find_phone p (u ∷ us) = if text_eq u.phone p then some u else find_phone p us

abbrev pub find_ref_code : Text → List User → Option User
find_ref_code c [] = none
find_ref_code c (u ∷ us) = if text_eq u.ref_code c then some u else find_ref_code c us

-- SELECT id FROM users WHERE ref_code = $1 AND is_active
unfoldable pub select_referrer : Text → Statement ℕ
select_referrer code w = elim (find_ref_code code w.db.users) [
  | none ↦ err no_rows
  | some u ↦ (if u.is_active then ok (u.id, w) else err no_rows)
]

abbrev pub refers_to_nobody : ℕ → Option ℕ → List User → Bool
refers_to_nobody id none us = false
refers_to_nobody id (some r) us =
    if r == id then false else elim (find_user r us) [ none ↦ true | some _ ↦ false ]

abbrev pub refers_to_self : ℕ → Option ℕ → Bool
refers_to_self id none = false
refers_to_self id (some r) = r == id

abbrev pub is_taken : {A : Type 0} → Option A → Bool
is_taken none = false
is_taken (some _) = true

-- INSERT INTO users (phone, password_hash, ref_code, referred_by) VALUES ... RETURNING ...
unfoldable pub insert_user : Text → Text → Text → Option ℕ → Statement User
unfolding phone_allowed ref_code_allowed
insert_user phone password_hash ref_code referred_by w =
    if not (phone_allowed phone)
      || not (ref_code_allowed ref_code)
      || refers_to_self w.next_id referred_by
    then err check_violation
    else if has_user w.next_id w.db
    then err (unique_violation users_pkey)
    else if is_taken (find_phone phone w.db.users)
    then err (unique_violation users_phone_key)
    else if is_taken (find_ref_code ref_code w.db.users)
    then err (unique_violation users_ref_code_key)
    else if refers_to_nobody w.next_id referred_by w.db.users
    then err foreign_key
    else let u : User = record {
      id = w.next_id;
      phone = phone;
      password_hash = password_hash;
      ref_code = ref_code;
      referred_by = referred_by;
      phone_verified = false;
      is_admin = false;
      is_active = true;
      demo_topup_at = none;
      created_at = w.now;
    } in
      ok (u, record w { db = record w.db { users = u ∷ w.db.users }; next_id = w.next_id + 1 })

-- INSERT INTO wallets (user_id) VALUES ($1)
unfoldable pub insert_wallet : ℕ → Statement Unit
insert_wallet user_id w =
    if is_taken (find_wallet user_id w.db.wallets)
    then err (unique_violation wallets_pkey)
    else if not (has_user user_id w.db)
    then err foreign_key
    else let b : Balances = record {
      user_id = user_id;
      real_cents = pos 0;
      demo_cents = pos 0;
      held_cents = pos 0;
    } in
      ok (tt, record w { db = record w.db { wallets = b ∷ w.db.wallets } })

-- SELECT ..., password_hash FROM users WHERE phone = $1
unfoldable pub select_by_phone : Text → Statement User
select_by_phone phone w = elim (find_phone phone w.db.users) [
  | none ↦ err no_rows
  | some u ↦ ok (u, w)
]

-- SELECT ... FROM users WHERE id = $1
unfoldable pub select_user : ℕ → Statement User
select_user id w = elim (find_user id w.db.users) [ none ↦ err no_rows | some u ↦ ok (u, w) ]

abbrev pub put_user : User → List User → List User
put_user c [] = []
put_user c (u ∷ us) = if u.id == c.id then c ∷ us else u ∷ put_user c us

-- UPDATE users SET is_active = $2 WHERE id = $1: how many rows it changed
unfoldable pub update_active : ℕ → Bool → Statement ℕ
update_active id active w = elim (find_user id w.db.users) [
  | none ↦ ok (0, w)
  | some u ↦ ok (
    1,
    record w { db = record w.db { users = put_user (record u { is_active = active }) w.db.users } },
  )
]

-- demo_topup_at IS NULL OR demo_topup_at < now() - cooldown
abbrev pub may_top_up : ℕ → ℕ → Option ℕ → Bool
may_top_up now cooldown none = true
may_top_up now cooldown (some t) = ltb (t + cooldown) now

-- UPDATE users SET demo_topup_at = now() WHERE id = $1 AND ... RETURNING true
unfoldable pub claim_top_up : ℕ → ℕ → Statement Unit
claim_top_up id cooldown w = elim (find_user id w.db.users) [
  | none ↦ err no_rows
  | some u ↦
      (if may_top_up w.now cooldown u.demo_topup_at
        then ok (
          tt,
          record w {
            db = record w.db {
              users = put_user (record u { demo_topup_at = some w.now }) w.db.users;
            };
          },
        )
        else err no_rows)
]

-- ReferralStats
pub record ReferralStats : Type 0 where
  pub count : ℕ
  pub earned_cents : ℤ
  pub last_30_cents : ℤ

-- interval '30 days', in microseconds
abbrev pub thirty_days : ℕ
thirty_days = 30 * 86400 * 10 ^ 6

-- SELECT COUNT(*) FROM users WHERE referred_by = $1
unfoldable pub count_referred : ℕ → List User → ℕ
count_referred id [] = 0
count_referred id (u ∷ us) =
    let rest = count_referred id us in if refers_to_self id u.referred_by then rest + 1 else rest

-- SELECT COALESCE(SUM(amount_cents), 0) FROM transactions WHERE user_id = $1 AND kind = 'referral'
unfoldable pub commissions : ℕ → List Entry → ℤ
commissions id [] = pos 0
commissions id (e ∷ es) =
    let rest = commissions id es in
    if is_referral e.kind && (e.user_id == id) then e.amount_cents +ℤ rest else rest

-- the same, AND created_at > now() - interval '30 days'
unfoldable pub recent_commissions : ℕ → ℕ → List Entry → ℤ
recent_commissions now id [] = pos 0
recent_commissions now id (e ∷ es) =
    let rest = recent_commissions now id es in
    if is_referral e.kind && (e.user_id == id) && ltb now (e.created_at + thirty_days)
    then e.amount_cents +ℤ rest
    else rest

-- the query of ReferralStats; a sum that no int64 holds is an error of Scan
unfoldable pub select_referral_stats : ℕ → Statement ReferralStats
select_referral_stats id w =
    let earned = commissions id w.db.transactions in
    let recent = recent_commissions w.now id w.db.transactions in
    if fits_bigint earned && fits_bigint recent
    then ok (
      record {
        count = count_referred id w.db.users;
        earned_cents = earned;
        last_30_cents = recent;
      },
      w,
    )
    else err out_of_range
