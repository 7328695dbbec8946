-- ===== src/Database/Triples.antt =====
-- What a call guarantees of its value and of the world that it leaves, or of its error, from every
-- world that meets its precondition: one rule for each way to build a call.
use braelaspin.Prelude.{◌≡◌, refl, ◌⊎◌, inl, inr, Bool, true, false, Result, ok, err, if◌then◌else◌}
use braelaspin.Database.{Db}
use braelaspin.Database.Monad.{
  Answer, works, fails, lost, SqlError, connection, World, Exec, Statement, continue, ◌>>=◌, pure,
  lift, raise_if, next_answer, answered, run_statement, or_fail, finish, in_transaction,
}
use braelaspin.Database.Steps.{served, served-db}

abbrev pub Outcome : {E A : Type 0} → (A → Db → Type 0) → (E → Type 0) → Result E A → Db → Type 0
Outcome Q X (ok a) db = Q a db
Outcome Q X (err e) db = X e

-- The conditions are on the tables only.
pub record Triple {E A : Type 0} (P : Db → Type 0) (m : Exec E A) (Q : A → Db → Type 0)
    (X : E → Type 0) : Type 0 where
  pub at : (w : World) → P w.db → Outcome Q X (m w).0 (m w).1.db

module _ {E A : Type 0} {P : Db → Type 0} {Q : A → Db → Type 0} {X : E → Type 0} where
  pub Triple-lift : (r : Result E A) → ((db : Db) → P db → Outcome Q X r db) → Triple P (lift r) Q X
  Triple-lift r h = record { at = λ w p. h w.db p }

  pub Triple-if :
      (b : Bool) (m n : Exec E A)
      → (b ≡ true → Triple P m Q X)
      → (b ≡ false → Triple P n Q X)
      → Triple P (if b then m else n) Q X
  Triple-if true m n hm hn = hm refl
  Triple-if false m n hm hn = hn refl

  pub Triple-pure : (a : A) → ((db : Db) → P db → Q a db) → Triple P (pure a) Q X
  Triple-pure a h = record { at = λ w p. h w.db p }

ok-Outcome :
    {E A : Type 0} (Q : A → Db → Type 0) (r : Result E A) (w' : World)
    → ((a : A) → r ≡ ok a → Q a w'.db)
    → Outcome Q (λ (e : E). Unit {0}) r w'.db
ok-Outcome Q (ok a) w' h = h a refl
ok-Outcome Q (err e) w' h = tt

pub Triple-of_ok :
    {E A : Type 0} {P : Db → Type 0} {Q : A → Db → Type 0} (m : Exec E A)
    → ((w w' : World) (a : A) → m w ≡ (ok a, w') → P w.db → Q a w'.db)
    → Triple P m Q (λ (e : E). Unit {0})
Triple-of_ok {Q} m h = record {
  at = λ w p.
      let (r, w') = m w in
      ok-Outcome Q r w' (λ a e. h w w' a (let pair : m w ≡ (ok a, w') = λ i. (e i, w') in pair) p);
}

pub Triple-raise_if :
    {E : Type 0} {P : Db → Type 0} {Q : Unit → Db → Type 0} {X : E → Type 0} (b : Bool) (e : E)
    → (b ≡ true → X e)
    → ((db : Db) → b ≡ false → P db → Q tt db)
    → Triple P (raise_if b e) Q X
Triple-raise_if true e hx hq = record { at = λ w p. hx refl }
Triple-raise_if false e hx hq = record { at = λ w p. hq w.db refl p }

continue-Outcome :
    {E A B : Type 0} (R : B → Db → Type 0) (X : E → Type 0) (Q : A → Db → Type 0) (f : A → Exec E B)
    (r : Result E A) (w : World)
    → ((a : A) → Triple (Q a) (f a) R X)
    → Outcome Q X r w.db
    → Outcome R X (continue r f w).0 (continue r f w).1.db
continue-Outcome R X Q f (ok a) w hf h = (hf a).at w h
continue-Outcome R X Q f (err e) w hf h = h

-- One call after the other.
pub Triple-bind :
    {E A B : Type 0} {P : Db → Type 0} {R : B → Db → Type 0} {X : E → Type 0} (Q : A → Db → Type 0)
    (m : Exec E A) (f : A → Exec E B)
    → Triple P m Q X
    → ((a : A) → Triple (Q a) (f a) R X)
    → Triple P (m >>= f) R X
unfolding ◌>>=◌
Triple-bind {R} {X} Q m f hm hf = record {
  at = λ w p. let (r, w') = m w in continue-Outcome R X Q f r w' hf (hm.at w p);
}

or_fail-Outcome :
    {E F A : Type 0} (Q : A → Db → Type 0) (X : E → Type 0) (c : F → E) (r : Result F A) (db : Db)
    → Outcome Q (λ e. X (c e)) r db
    → let out : Result E A = elim r [ ok a ↦ ok a | err e ↦ err (c e) ] in Outcome Q X out db
or_fail-Outcome Q X c (ok a) db h = h
or_fail-Outcome Q X c (err e) db h = h

pub Triple-or_fail :
    {E F A : Type 0} {P : Db → Type 0} {Q : A → Db → Type 0} {X : E → Type 0} (m : Exec F A)
    (c : F → E)
    → Triple P m Q (λ e. X (c e))
    → Triple P (or_fail m c) Q X
Triple-or_fail {Q} {X} m c hm = record {
  at = λ w p. let (r, w') = m w in or_fail-Outcome Q X c r w'.db (hm.at w p);
}

-- What a statement does to the world that it is given.
abbrev pub Reply :
    {A : Type 0} → (A → Db → Type 0) → (SqlError → Type 0) → Result SqlError (A × World) → Type 0
Reply Q X (ok (a, w')) = Q a w'.db
Reply Q X (err e) = X e

answered-Outcome :
    {A : Type 0} (Q : A → Db → Type 0) (X : SqlError → Type 0) (w : World)
    (r : Result SqlError (A × World))
    → Reply Q X r
    → Outcome Q X (answered w r).0 (answered w r).1.db
answered-Outcome Q X w (ok (a, w')) h = h
answered-Outcome Q X w (err e) h = h

statement-Outcome :
    {A : Type 0} (Q : A → Db → Type 0) (X : SqlError → Type 0) (s : Statement A) (w : World)
    (o : Answer)
    → X connection
    → Reply Q X (s w)
    → let out : Result SqlError A × World = elim o [
      | works ↦ answered w (s w)
      | _ ↦ (err connection, w)
    ] in
      Outcome Q X out.0 out.1.db
statement-Outcome Q X s w works hx h = answered-Outcome Q X w (s w) h
statement-Outcome Q X s w fails hx h = hx
statement-Outcome Q X s w lost hx h = hx

pub Triple-statement :
    {A : Type 0} {P : Db → Type 0} {Q : A → Db → Type 0} {X : SqlError → Type 0} (s : Statement A)
    → X connection
    → ((w : World) → P w.db → Reply Q X (s w))
    → Triple P (run_statement s) Q X
unfolding run_statement
Triple-statement {Q} {X} s hx h = record {
  at = λ w p.
      statement-Outcome Q X s (served w) (next_answer w).0 hx (h (served w) (rw (served-db w) p));
}

-- A stronger precondition, and weaker conclusions.
pub Triple-weaken :
    {E A : Type 0} {P P' : Db → Type 0} {Q Q' : A → Db → Type 0} {X X' : E → Type 0} (m : Exec E A)
    → Triple P m Q X
    → ((db : Db) → P' db → P db)
    → ((a : A) (db : Db) → Q a db → Q' a db)
    → ((e : E) → X e → X' e)
    → Triple P' m Q' X'
Triple-weaken {Q} {Q'} {X} {X'} m t hp hq hx = record {
  at = λ w p. let (r, w') = m w in weaken Q Q' X X' r w'.db hq hx (t.at w (hp w.db p));
}
  where
    weaken :
        {E A : Type 0} (Q Q' : A → Db → Type 0) (X X' : E → Type 0) (r : Result E A) (db : Db)
        → ((a : A) (db : Db) → Q a db → Q' a db)
        → ((e : E) → X e → X' e)
        → Outcome Q X r db
        → Outcome Q' X' r db
    weaken Q Q' X X' (ok a) db hq hx h = hq a db h
    weaken Q Q' X X' (err e) db hq hx h = hx e h

-- What holds of the tables after a transaction, however it ended: its body ran to the end and they
-- are its tables, or they are those from before.
pub record After {A : Type 0} (Q : A → Db → Type 0) (before db : Db) : Type 0 where
  pub side : ((a : A) × Q a db) ⊎ (db ≡ before)

After-commit :
    {E A : Type 0} (Q : A → Db → Type 0) (before : Db) (c : SqlError → E) (a : A) (o : Answer)
    (w : World)
    → Q a w.db
    → let out : Result E A × World = elim o [
      | works ↦ (ok a, w)
      | fails ↦ (err (c connection), record w { db = before })
      | lost ↦ (err (c connection), w)
    ] in
      After Q before out.1.db
After-commit Q before c a works w h = record { side = inl (a, h) }
After-commit Q before c a fails w h = record { side = inr refl }
After-commit Q before c a lost w h = record { side = inl (a, h) }

After-finish :
    {E A : Type 0} (Q : A → Db → Type 0) (X : E → Type 0) (before : Db) (c : SqlError → E)
    (r : Result E A) (w : World)
    → Outcome Q X r w.db
    → After Q before (finish before c r w).1.db
After-finish Q X before c (ok a) w h =
    After-commit Q before c a (next_answer w).0 (served w) (rw (served-db w) h)
After-finish Q X before c (err e) w h = record { side = inr refl }

After-begin :
    {E A : Type 0} (Q : A → Db → Type 0) (X : E → Type 0) (c : SqlError → E) (body : Exec E A)
    (w : World) (o : Answer)
    → Outcome Q X (body (served w)).0 (body (served w)).1.db
    → let out : Result E A × World = elim o [
      | works ↦ (let (r, w1) = body (served w) in finish w.db c r w1)
      | _ ↦ (err (c connection), served w)
    ] in
      After Q w.db out.1.db
After-begin Q X c body w works h = After-finish Q X w.db c (body (served w)).0 (body (served w)).1 h
After-begin Q X c body w fails h = record { side = inr (served-db w) }
After-begin Q X c body w lost h = record { side = inr (served-db w) }

pub in_transaction-After :
    {E A : Type 0} {P : Db → Type 0} {Q : A → Db → Type 0} {X : E → Type 0} (c : SqlError → E)
    (body : Exec E A) (w : World)
    → Triple P body Q X
    → P w.db
    → After Q w.db (in_transaction c body w).1.db
unfolding in_transaction
in_transaction-After {Q} {X} c body w t p =
    After-begin Q X c body w (next_answer w).0 (t.at (served w) (rw (served-db w) p))
