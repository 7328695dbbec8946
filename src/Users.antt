-- ===== src/Users.antt =====
-- internal/users/users.go: accounts. The bytes that crypto/rand yields are a parameter: one answer for
-- each attempt to make a referral code, `none` where the read fails.
pub mod Statements
pub mod Sound
pub mod Access
pub mod Lookup
pub mod Created
mod Tests
use braelaspin.Prelude.{
  ℕ, ℤ, zero, suc, pos, ◌+◌, ◌*◌, ◌/◌, ◌%◌, ◌^◌, Bool, true, false, not, Option, none, some, Text,
  List, [], ◌∷◌, codes, Result, ok, err, ltb_ℤ, leb_ℤ, sub64, get_elem?, if◌then◌else◌, ◌==◌,
}
use braelaspin.Database.{User, Balances, demo_grant}
use braelaspin.Database.Monad.{
  SqlError, no_rows, unique_violation, users_phone_key, users_ref_code_key, Exec, pure, lift,
  raise_if, run_statement, or_fail, in_transaction, ◌>>=◌, ◌>>◌,
}
use braelaspin.Errors.{
  Error, phone_taken, referrer_unknown, ref_code_collision, not_found, top_up_not_eligible,
  no_free_code, no_entropy, database,
}
use braelaspin.Wallet.{MoveParams, move, lock}
use braelaspin.Spin.{balances_at}
use braelaspin.Users.Statements.{
  select_referrer, insert_user, insert_wallet, select_by_phone, select_user, update_active,
  claim_top_up, ReferralStats, select_referral_stats,
}

-- internal/auth/token.go: the alphabet of NewRefCode, without I, L, O and U
abbrev pub ref_code_alphabet : Text
ref_code_alphabet = codes "0123456789ABCDEFGHJKMNPQRSTVWXYZ"

abbrev pub RefBytes : Type 0
RefBytes = ℕ × ℕ × ℕ × ℕ × ℕ

abbrev char_at : ℕ → ℕ
char_at i = elim (get_elem? ref_code_alphabet i) [ none ↦ 0 | some c ↦ c ]

-- NewRefCode: base32 of five bytes, the eight groups of five bits
unfoldable pub new_ref_code : RefBytes → Text
new_ref_code (a, b, c, d, e) =
    let n = a * 2 ^ 32 + b * 2 ^ 24 + c * 2 ^ 16 + d * 2 ^ 8 + e in
    char_at (n / 2 ^ 35 % 32)
    ∷ char_at (n / 2 ^ 30 % 32)
    ∷ char_at (n / 2 ^ 25 % 32)
    ∷ char_at (n / 2 ^ 20 % 32)
    ∷ char_at (n / 2 ^ 15 % 32)
    ∷ char_at (n / 2 ^ 10 % 32)
    ∷ char_at (n / 2 ^ 5 % 32)
    ∷ char_at (n % 32)
    ∷ []

-- CreateParams
pub record CreateParams : Type 0 where
  pub phone : Text
  pub password_hash : Text
  pub referrer_code : Text

-- how createOnce reports an error of the referrer's query
unfoldable pub referrer_error : SqlError → Error
referrer_error no_rows = referrer_unknown
referrer_error e = database e

-- how createOnce reports an error of the INSERT
unfoldable pub user_error : SqlError → Error
user_error (unique_violation users_phone_key) = phone_taken
user_error (unique_violation users_ref_code_key) = ref_code_collision
user_error e = database e

-- the referrer, if a code was given
unfoldable pub resolve_referrer : Text → Exec Error (Option ℕ)
resolve_referrer [] = pure none
resolve_referrer (c ∷ code) = do
  id ← or_fail (run_statement (select_referrer (c ∷ code))) referrer_error
  pure (some id)

abbrev pub welcome_params : ℕ → ℤ → MoveParams
welcome_params user_id grant = record {
  user_id = user_id;
  kind = demo_grant;
  is_real = false;
  delta = grant;
  ref_id = none;
  memo = codes "welcome bonus";
}

-- the welcome bonus, if there is one
unfoldable pub welcome : ℤ → ℕ → Exec Error Unit
welcome grant user_id =
    if ltb_ℤ (pos 0) grant then (move (welcome_params user_id grant) >> pure tt) else pure tt

-- the transaction of createOnce, up to the commit
unfoldable pub create_body : ℤ → CreateParams → Text → Exec Error User
create_body grant p ref_code = do
  referrer ← resolve_referrer p.referrer_code
  u ← or_fail (run_statement (insert_user p.phone p.password_hash ref_code referrer)) user_error
  or_fail (run_statement (insert_wallet u.id)) database
  welcome grant u.id
  pure u

-- createOnce
unfoldable pub create_once : ℤ → CreateParams → Option RefBytes → Exec Error User
create_once grant p none = lift (err no_entropy)
create_once grant p (some bytes) =
    in_transaction database (create_body grant p (new_ref_code bytes))

abbrev pub is_collision : Result Error User → Bool
is_collision (err ref_code_collision) = true
is_collision _ = false

-- the loop of Create, with `n` attempts left
unfoldable pub create_loop : ℤ → CreateParams → (ℕ → Option RefBytes) → ℕ → Exec Error User
create_loop grant p entropy zero w = (err no_free_code, w)
create_loop grant p entropy (suc n) w =
    let (r, w') = create_once grant p (entropy n) w in
    let again = create_loop grant p entropy n w' in if is_collision r then again else (r, w')

-- Create
unfoldable pub create : ℤ → CreateParams → (ℕ → Option RefBytes) → Exec Error User
create grant p entropy = create_loop grant p entropy 5

-- scanUser and the lookups' ErrNoRows
unfoldable pub lookup_error : SqlError → Error
lookup_error no_rows = not_found
lookup_error e = database e

-- ByPhone: the account and the hash of its password
unfoldable pub by_phone : Text → Exec Error (User × Text)
by_phone phone = do
  u ← or_fail (run_statement (select_by_phone phone)) lookup_error
  pure (u, u.password_hash)

-- ByID
unfoldable pub by_id : ℕ → Exec Error User
by_id id = or_fail (run_statement (select_user id)) lookup_error

-- IsAdmin
pub is_admin : ℕ → Exec Error Bool
is_admin id = do
  u ← or_fail (run_statement (select_user id)) lookup_error
  raise_if (not u.is_active) not_found
  pure u.is_admin

-- SetActive
pub set_active : ℕ → Bool → Exec Error Unit
set_active id active = do
  rows ← or_fail (run_statement (update_active id active)) database
  raise_if (rows == 0) not_found

unfoldable pub top_up_error : SqlError → Error
top_up_error no_rows = top_up_not_eligible
top_up_error e = database e

abbrev pub top_up_params : ℕ → ℤ → MoveParams
top_up_params user_id delta = record {
  user_id = user_id;
  kind = demo_grant;
  is_real = false;
  delta = delta;
  ref_id = none;
  memo = codes "demo top-up";
}

-- the transaction of TopUpDemo, up to the commit; both returns commit
pub top_up_body : ℕ → ℕ → ℤ → Exec Error ℤ
top_up_body user_id cooldown target = do
  or_fail (run_statement (claim_top_up user_id cooldown)) top_up_error
  rows ← lock (user_id ∷ [])
  let demo = (balances_at user_id rows).demo_cents
  let delta = sub64 target demo
  if leb_ℤ delta (pos 0) then pure demo else move (top_up_params user_id delta)

-- TopUpDemo
pub top_up_demo : ℕ → ℕ → ℤ → Exec Error ℤ
top_up_demo user_id cooldown target = in_transaction database (top_up_body user_id cooldown target)

-- ReferralStats
unfoldable pub referral_stats : ℕ → Exec Error ReferralStats
referral_stats user_id = or_fail (run_statement (select_referral_stats user_id)) database
