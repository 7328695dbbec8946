-- ===== src/Users/Access.antt =====
-- internal/users/users.go with internal/game/spin.go: what a deactivated account can still do.
use braelaspin.Database.Steps.{
  bind-ok, statement-ok, raise_if-ok, in_transaction-ok, served, served-db,
}
use braelaspin.Prelude.{
  ◌≢◌, Bool, true, not, ◌==◌, ◌∙◌, Option-cases, inl, inr, ℕ, ◌≡◌, refl, false, some, [], ◌∷◌, List,
  ok, err, arith, Option,
}
use braelaspin.Database.{User, find_user}
use braelaspin.Database.Monad.{World, Exec, SqlError, Statement, ◌>>=◌, run_statement, or_fail}
use braelaspin.Errors.{not_found, database}
use braelaspin.Spin.{Economics, Request, SpinResult, spin, spin_body, player_error}
use braelaspin.Spin.Statements.{select_player}
use braelaspin.Users.{set_active, is_admin, lookup_error}
use braelaspin.Users.Statements.{update_active, select_user, put_user}
use braelaspin.Wheel.Pick.{Buffer}

find-put_user :
    (i : ℕ) (u c : User) (us : List User)
    → find_user i us ≡ some u
    → c.id ≡ i
    → find_user i (put_user c us) ≡ some c
find-put_user i u c [] h e = cc
find-put_user i u c (x ∷ us) h e = ground (arith, find-put_user i u c us)

find-id : (i : ℕ) (u : User) (us : List User) → find_user i us ≡ some u → u.id ≡ i
find-id i u [] h = cc
find-id i u (x ∷ us) h = ground (arith, find-id i u us)

pub bind-fails :
    {E A B : Type 0} (m : Exec E A) (f : A → Exec E B) (w w1 : World) (e : E)
    → m w ≡ (err e, w1)
    → (m >>= f) w ≡ (err e, w1)
unfolding ◌>>=◌
bind-fails m f w w1 e h = rw h refl

pub statement-fails :
    {E A : Type 0} (s : Statement A) (c : SqlError → E) (w : World) (e : SqlError)
    → w.answers ≡ []
    → s w ≡ err e
    → or_fail (run_statement s) c w ≡ (err (c e), w)
unfolding run_statement
statement-fails s c w e calm h = ground arith

-- The account is off.
record IsOff (id : ℕ) (us : List User) : Type 0 where
  user : User
  found : find_user id us ≡ some user
  off : user.is_active ≡ false

update_active-IsOff :
    (id rows : ℕ) (w w1 : World)
    → update_active id false w ≡ ok (rows, w1)
    → (rows == 0) ≡ false
    → IsOff id w1.db.users
unfolding update_active
update_active-IsOff id rows w w1 e k = elim (Option-cases (find_user id w.db.users)) [
  | inl missing ↦ absurd (ground arith)
  | inr (u, found) ↦
      let after : w1.db.users ≡ put_user (record u { is_active = false }) w.db.users =
        ground arith in
      record {
        user = record u { is_active = false };
        found = rw after (
            find-put_user id u (record u { is_active = false }) w.db.users found
              (find-id id u w.db.users found));
        off = refl;
      }
]

set_active-IsOff :
    (id : ℕ) (w w1 : World) → set_active id false w ≡ (ok tt, w1) → IsOff id w1.db.users
unfolding set_active
set_active-IsOff id w w1 e =
    let c = bind-ok _ _ w tt w1 e in
    let row = statement-ok (update_active id false) database w c.value c.middle c.first in
    let r = raise_if-ok (c.value == 0) not_found c.middle tt w1 c.rest in
    rw (r.1) (update_active-IsOff id c.value (served w) c.middle row r.0)

module _ (id : ℕ) (w : World) (gone : IsOff id w.db.users) where
  is_admin-refuses : (b : Bool) (w' : World) → is_admin id w ≢ (ok b, w')
  unfolding is_admin select_user
  is_admin-refuses b w' e =
      let c = bind-ok _ _ w b w' e in
      let row = statement-ok (select_user id) lookup_error w c.value c.middle c.first in
      let d = bind-ok _ _ c.middle b w' c.rest in
      let r = raise_if-ok (not c.value.is_active) not_found c.middle d.value d.middle d.first in
      let same : c.value ≡ gone.user = ground (arith, gone.found) in
      let on : c.value.is_active ≡ true = ground arith in
      let off : c.value.is_active ≡ false = rw same gone.off in cc

  spin_body-refuses :
      (econ : Economics) (source : Option Buffer) (req : Request) (o : SpinResult) (w' : World)
      → req.user_id ≡ id
      → spin_body econ source req w ≢ (ok o, w')
  unfolding spin_body select_player
  spin_body-refuses econ source req o w' mine e =
      let c = bind-ok _ _ w o w' e in
      let row =
        statement-ok (select_player req.user_id) (player_error req.user_id) w c.value c.middle
          c.first in
      let here : find_user req.user_id w.db.users ≡ some gone.user = rw mine gone.found in
      let off = gone.off in absurd (ground arith)

spin-refuses :
    (id : ℕ) (w : World)
    → IsOff id w.db.users
    → (econ : Economics) (source : Option Buffer) (req : Request) (o : SpinResult) (w' : World)
    → req.user_id ≡ id
    → spin econ source req w ≢ (ok o, w')
unfolding spin
spin-refuses id w gone econ source req o w' mine e =
    let c = bind-ok _ _ w o w' e in
    let small = raise_if-ok _ _ w c.value c.middle c.first in
    let d = bind-ok _ _ c.middle o w' c.rest in
    let large = raise_if-ok _ _ c.middle d.value d.middle d.first in
    let t = in_transaction-ok database (spin_body econ source req) d.middle o w' d.rest in
    let same : (served d.middle).db ≡ w.db = rw (served-db d.middle, large.1, small.1) refl in
    spin_body-refuses id (served d.middle) (rw same gone) econ source req o t.last mine t.ran

-- A deactivated account is out. After SetActive(false) has returned without an error, and in every later
-- state in which the row of the account is the one that this left, the refresh check IsAdmin does not answer
-- for the account and Spin does not return a result to it, whatever the answers of the database, the
-- random bytes and the rest of the tables.
pub deactivation_locks_out :
    (id : ℕ) (w w1 w2 w3 : World) (econ : Economics) (source : Option Buffer) (req : Request)
    (admin : Bool) (o : SpinResult)
    → set_active id false w ≡ (ok tt, w1)
    → find_user id w2.db.users ≡ find_user id w1.db.users
    → req.user_id ≡ id
    → (is_admin id w2 ≢ (ok admin, w3)) × (spin econ source req w2 ≢ (ok o, w3))
deactivation_locks_out id w w1 w2 w3 econ source req admin o done same mine =
    let h = set_active-IsOff id w w1 done in
    let later : IsOff id w2.db.users = record {
      user = h.user;
      found = same ∙ h.found;
      off = h.off;
    } in
    (is_admin-refuses id w2 later admin w3, spin-refuses id w2 later econ source req o w3 mine)
