-- ===== src/Database/Steps.antt =====
-- Taking apart a call that returned no error: its parts returned none either.
use braelaspin.Prelude.{◌≡◌, refl, Bool, false, Result, ok, err, arith}
use braelaspin.Database.{Db}
use braelaspin.Database.Monad.{
  Answer, works, fails, lost, SqlError, connection, World, Exec, Statement, continue, ◌>>=◌,
  raise_if, next_answer, run_statement, or_fail, finish, in_transaction,
}

module _ {E A B : Type 0} where
  -- A block returned: its first call did, and the rest did from there.
  pub record Chained (m : Exec E A) (f : A → Exec E B) (w : World) (b : B) (w' : World)
      : Type 0 where
    pub value : A
    pub middle : World
    pub first : m w ≡ (ok value, middle)
    pub rest : f value middle ≡ (ok b, w')

  continue-ok :
      (m : Exec E A) (f : A → Exec E B) (w : World) (b : B) (w' : World) (r : Result E A)
      (w1 : World)
      → m w ≡ (r, w1)
      → continue r f w1 ≡ (ok b, w')
      → Chained m f w b w'
  continue-ok m f w b w' (ok a) w1 e h = record { value = a; middle = w1; first = e; rest = h }
  continue-ok m f w b w' (err x) w1 e h = absurd (cc)

  pub bind-ok :
      (m : Exec E A) (f : A → Exec E B) (w : World) (b : B) (w' : World)
      → (m >>= f) w ≡ (ok b, w')
      → Chained m f w b w'
  unfolding ◌>>=◌
  bind-ok m f w b w' h = let (r, w1) = m w in continue-ok m f w b w' r w1 refl h

pub raise_if-ok :
    {E : Type 0} (c : Bool) (e : E) (w : World) (u : Unit) (w' : World)
    → raise_if c e w ≡ (ok u, w')
    → (c ≡ false) × (w' ≡ w)
raise_if-ok c e w u w' h = ground arith

-- The world that a statement sees: the tables, the clock and the ids are those of the caller.
abbrev pub served : World → World
served w = (next_answer w).1

pub served-db : (w : World) → (served w).db ≡ w.db
served-db w = ground arith

pub served-now : (w : World) → (served w).now ≡ w.now
served-now w = ground arith

pub served-next_id : (w : World) → (served w).next_id ≡ w.next_id
served-next_id w = ground arith

pub or_fail-ok :
    {E F A : Type 0} (m : Exec F A) (c : F → E) (w : World) (a : A) (w' : World)
    → or_fail m c w ≡ (ok a, w')
    → m w ≡ (ok a, w')
or_fail-ok m c w a w' h = ground arith

pub run_statement-ok :
    {A : Type 0} (s : Statement A) (w : World) (a : A) (w' : World)
    → run_statement s w ≡ (ok a, w')
    → s (served w) ≡ ok (a, w')
unfolding run_statement
run_statement-ok s w a w' h = ground arith

pub statement-ok :
    {E A : Type 0} (s : Statement A) (c : SqlError → E) (w : World) (a : A) (w' : World)
    → or_fail (run_statement s) c w ≡ (ok a, w')
    → s (served w) ≡ ok (a, w')
statement-ok s c w a w' h = run_statement-ok s w a w' (or_fail-ok (run_statement s) c w a w' h)

-- What is left of a transaction that committed.
finish-ok :
    {E A : Type 0} (before : Db) (c : SqlError → E) (r : Result E A) (w1 : World) (a : A)
    (w' : World)
    → finish before c r w1 ≡ (ok a, w')
    → (r ≡ ok a) × (w'.db ≡ w1.db)
finish-ok before c (ok x) w1 a w' h = ground arith
finish-ok before c (err e) w1 a w' h = absurd (cc)

-- A transaction that returned no error ran its body to the end, and its tables are the body's.
pub record Committed {E A : Type 0} (body : Exec E A) (w : World) (a : A) (w' : World)
    : Type 0 where
  pub last : World
  pub ran : body (served w) ≡ (ok a, last)
  pub db_eq : w'.db ≡ last.db

begun-ok :
    {E A : Type 0} (c : SqlError → E) (body : Exec E A) (w : World) (r : Result E A) (w1 : World)
    (a : A) (w' : World)
    → body (served w) ≡ (r, w1)
    → finish w.db c r w1 ≡ (ok a, w')
    → Committed body w a w'
begun-ok c body w r w1 a w' e h =
    let f = finish-ok w.db c r w1 a w' h in record { last = w1; ran = ground arith; db_eq = f.1 }

answer-ok :
    {E A : Type 0} (c : SqlError → E) (body : Exec E A) (w : World) (o : Answer) (a : A)
    (w' : World)
    → (elim o [
      | works ↦ (let (r, w1) = body (served w) in finish w.db c r w1)
      | _ ↦ (err (c connection), served w)
    ])
      ≡ (ok a, w')
    → Committed body w a w'
answer-ok c body w works a w' h =
    let (r, w1) = body (served w) in begun-ok c body w r w1 a w' refl h
answer-ok c body w fails a w' h = absurd (cc)
answer-ok c body w lost a w' h = absurd (cc)

pub in_transaction-ok :
    {E A : Type 0} (c : SqlError → E) (body : Exec E A) (w : World) (a : A) (w' : World)
    → in_transaction c body w ≡ (ok a, w')
    → Committed body w a w'
unfolding in_transaction
in_transaction-ok c body w a w' h = answer-ok c body w (next_answer w).0 a w' h
