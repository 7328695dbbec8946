-- ===== src/Users/Created.antt =====
-- internal/users/users.go: the row that Create leaves for its account.
use braelaspin.Prelude.{
  ℕ, ℤ, zero, suc, ◌≡◌, refl, inl, inr, Bool, true, Bool-cases, Option, none, some, Text, List, ok,
  arith, text_eq, text_eq_iff,
}
use braelaspin.Database.{Db, User, Kind}
use braelaspin.Database.Monad.{World, ◌>>◌, pure, or_fail, run_statement}
use braelaspin.Database.Keeps.{Keeps, KeepsRows, keeps_rules}
use braelaspin.Database.Steps.{bind-ok, statement-ok, served, in_transaction-ok}
use braelaspin.Errors.{Error, database}
use braelaspin.Wallet.{MoveParams, move}
use braelaspin.Wallet.Statements.{update_wallet, insert_entry}
use braelaspin.Users.{
  CreateParams, RefBytes, new_ref_code, welcome, create_body, create_once, create_loop, create,
  is_collision, user_error,
}
use braelaspin.Users.Statements.{insert_user, insert_wallet, find_phone}

-- The account's row is the one that its number finds, with the hash of the request, and active.
pub record Created (p : CreateParams) (u : User) (us : List User) : Type 0 where
  pub found : find_phone p.phone us ≡ some u
  pub hash : u.password_hash ≡ p.password_hash
  pub active : u.is_active ≡ true

module _ (p : CreateParams) (u : User) where
  abbrev There : Db → Type 0
  There db = Created p u db.users

  insert_wallet-KeepsUsers : (i : ℕ) → KeepsRows There (insert_wallet i)
  unfolding insert_wallet
  insert_wallet-KeepsUsers i = record {
    at = λ w w' a h k. let same : w'.db.users ≡ w.db.users = ground arith in rw same k;
  }

  update_wallet-KeepsUsers : (r : Bool) (i : ℕ) (d : ℤ) → KeepsRows There (update_wallet r i d)
  unfolding update_wallet
  update_wallet-KeepsUsers r i d = record {
    at = λ w w' a h k. let same : w'.db.users ≡ w.db.users = ground arith in rw same k;
  }

  insert_entry-KeepsUsers :
      (i : ℕ) (k : Kind) (r : Bool) (d after : ℤ) (ref : Option ℕ) (memo : Option Text)
      → KeepsRows There (insert_entry i k r d after ref memo)
  unfolding insert_entry
  insert_entry-KeepsUsers i k r d after ref memo = record {
    at = λ w w' a h t. let same : w'.db.users ≡ w.db.users = ground arith in rw same t;
  }

  ruleset row_rules =
      (keeps_rules, insert_wallet-KeepsUsers, update_wallet-KeepsUsers, insert_entry-KeepsUsers)

  move-KeepsUsers : (m : MoveParams) → Keeps There (move m)
  unfolding move
  move-KeepsUsers m = search row_rules depth 12

  welcome-KeepsUsers : (grant : ℤ) (i : ℕ) → Keeps There (welcome grant i)
  unfolding welcome
  welcome-KeepsUsers grant i = search (row_rules, move-KeepsUsers) depth 12

  wallet_part :
      (grant : ℤ)
      → Keeps There
          (or_fail (run_statement (insert_wallet u.id)) database >> (welcome grant u.id >> pure u))
  wallet_part grant = search (row_rules, welcome-KeepsUsers) depth 12

insert_user-Created :
    (p : CreateParams) (code : Text) (r : Option ℕ) (w w' : World) (u : User)
    → insert_user p.phone p.password_hash code r w ≡ ok (u, w')
    → Created p u w'.db.users
unfolding insert_user
insert_user-Created p code r w w' u e =
    let own : text_eq p.phone p.phone ≡ true = (text_eq_iff p.phone p.phone).1 refl in
    record { found = ground (arith, own); hash = ground arith; active = ground arith }

create_body-Created :
    (grant : ℤ) (p : CreateParams) (code : Text) (w w' : World) (u : User)
    → create_body grant p code w ≡ (ok u, w')
    → Created p u w'.db.users
unfolding create_body
create_body-Created grant p code w w' u e =
    let c = bind-ok _ _ w u w' e in
    let d = bind-ok _ _ c.middle u w' c.rest in
    let row =
      statement-ok (insert_user p.phone p.password_hash code c.value) user_error c.middle d.value
        d.middle d.first in
    let there = insert_user-Created p code c.value (served c.middle) d.middle d.value row in
    let left = (wallet_part p d.value grant).at d.middle w' u d.rest there in
    let x = bind-ok _ _ d.middle u w' d.rest in
    let y = bind-ok _ _ x.middle u w' x.rest in
    let returned : pure {E = Error} d.value y.middle ≡ (ok u, w') = y.rest in
    let same : u ≡ d.value = cc in rw same left

create_once-Created :
    (grant : ℤ) (p : CreateParams) (e : Option RefBytes) (w w' : World) (u : User)
    → create_once grant p e w ≡ (ok u, w')
    → Created p u w'.db.users
unfolding create_once
create_once-Created grant p none w w' u h = absurd (cc)
create_once-Created grant p (some b) w w' u h =
    let c = in_transaction-ok database (create_body grant p (new_ref_code b)) w u w' h in
    rw c.db_eq (create_body-Created grant p (new_ref_code b) (served w) c.last u c.ran)

create_loop-Created :
    (grant : ℤ) (p : CreateParams) (entropy : ℕ → Option RefBytes) (n : ℕ) (w w' : World) (u : User)
    → create_loop grant p entropy n w ≡ (ok u, w')
    → Created p u w'.db.users
unfolding create_loop
create_loop-Created grant p entropy zero w w' u h = absurd (cc)
create_loop-Created grant p entropy (suc n) w w' u h =
    let once = create_once grant p (entropy n) w in
    elim (Bool-cases (is_collision once.0)) [
      | inl hit ↦ create_loop-Created grant p entropy n once.1 w' u (rw hit at h)
      | inr miss ↦ create_once-Created grant p (entropy n) w w' u (rw miss at h)
    ]

-- An account that Create returned is in the tables: its number finds its row, with the hash that the
-- request gave, and active, whatever attempt at a referral code succeeded.
pub create-Created :
    (grant : ℤ) (p : CreateParams) (entropy : ℕ → Option RefBytes) (w w' : World) (u : User)
    → create grant p entropy w ≡ (ok u, w')
    → Created p u w'.db.users
unfolding create
create-Created grant p entropy w w' u h = create_loop-Created grant p entropy 5 w w' u h
