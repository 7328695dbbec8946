-- ===== src/Users/Lookup.antt =====
-- internal/users/users.go: ByPhone, where the database works.
use braelaspin.Prelude.{◌≡◌, refl, ap, sym, ◌∙◌, Result, Option, none, some, Text, [], ok, err}
use braelaspin.Database.{User}
use braelaspin.Database.Monad.{World, SqlError, no_rows}
use braelaspin.Errors.{not_found}
use braelaspin.Users.{by_phone, lookup_error}
use braelaspin.Users.Statements.{find_phone, select_by_phone}
use braelaspin.Database.Steps.{bind-ok, statement-ok, served, served-db}
use braelaspin.Users.Access.{bind-fails, statement-fails}
use braelaspin.Wallet.Works.{bind-returns, statement-returns}

module _ (phone : Text) (w : World) (calm : w.answers ≡ []) where
  pub by_phone-some :
      (u : User)
      → find_phone phone w.db.users ≡ some u
      → by_phone phone w ≡ (ok (u, u.password_hash), w)
  unfolding by_phone select_by_phone
  by_phone-some u e =
      let row : select_by_phone phone w ≡ ok (u, w) = rw (e, select_by_phone) refl in
      bind-returns _ _ w w u _ (statement-returns _ lookup_error w w u calm row) refl

  pub by_phone-none : find_phone phone w.db.users ≡ none → by_phone phone w ≡ (err not_found, w)
  unfolding by_phone select_by_phone lookup_error
  by_phone-none e =
      let row : select_by_phone phone w ≡ err no_rows = rw (e, select_by_phone) refl in
      bind-fails _ _ w w not_found (statement-fails _ lookup_error w no_rows calm row)

-- What a lookup answers of a row.
abbrev answer : World → Option User → Result SqlError (User × World)
answer w none = err no_rows
answer w (some x) = ok (x, w)

row_of : (o : Option User) (w w' : World) (u : User) → answer w o ≡ ok (u, w') → o ≡ some u
row_of none w w' u e = absurd (cc)
row_of (some x) w w' u e = let same : x ≡ u = cc in ap some same

select_by_phone-answer :
    (phone : Text) (w : World) → select_by_phone phone w ≡ answer w (find_phone phone w.db.users)
unfolding select_by_phone
select_by_phone-answer phone w = by_row (find_phone phone w.db.users)
  where
    by_row :
        (o : Option User)
        → elim o as (λ k. Result SqlError (User × World)) [
          | none ↦ err no_rows
          | some u ↦ ok (u, w)
        ]
          ≡ answer w o
    by_row none = refl
    by_row (some u) = refl

-- Whatever the database answers, an account that ByPhone returns is in the table.
pub by_phone-ok :
    (phone : Text) (w w' : World) (p : User × Text)
    → by_phone phone w ≡ (ok p, w')
    → (find_phone phone w.db.users ≡ some p.0) × (p.1 ≡ p.0.password_hash)
unfolding by_phone
by_phone-ok phone w w' p e =
    let c = bind-ok _ _ w p w' e in
    let row = statement-ok (select_by_phone phone) lookup_error w c.value c.middle c.first in
    let same : p ≡ (c.value, c.value.password_hash) = let rest = c.rest in cc in
    let found =
      row_of (find_phone phone (served w).db.users) (served w) c.middle c.value
        (sym (select_by_phone-answer phone (served w)) ∙ row) in
    rw same (rw (served-db w) at found, refl)
