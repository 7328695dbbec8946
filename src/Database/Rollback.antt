-- ===== src/Database/Rollback.antt =====
-- Transactions that fail: an error other than that of a lost connection leaves the tables alone.
use braelaspin.Prelude.{◌≡◌, ◌≢◌, refl, sym, Bool, true, false, Result, ok, err, arith}
use braelaspin.Database.{Db}
use braelaspin.Database.Monad.{
  Answer, works, fails, lost, SqlError, connection, World, Exec, ◌>>=◌, ◌>>◌, raise_if, finish,
  next_answer, in_transaction,
}
use braelaspin.Database.Triples.{Triple, Outcome}
use braelaspin.Database.Steps.{served, served-db}

commit-unchanged :
    {E A : Type 0} (before : Db) (c : SqlError → E) (a : A) (o : Answer) (w : World) (e : E)
    → let out : Result E A × World = elim o [
      | works ↦ (ok a, w)
      | fails ↦ (err (c connection), record w { db = before })
      | lost ↦ (err (c connection), w)
    ] in
      out.0 ≡ err e → e ≢ c connection → out.1.db ≡ before
commit-unchanged before c a works w e h n = absurd (ok_not_err a e h)
  where
    ok_not_err : {E A : Type 0} (a : A) (e : E) → ¬ (◌≡◌ {A = Result E A} (ok a) (err e))
    ok_not_err a e h = ground arith
commit-unchanged before c a fails w e h n = refl
commit-unchanged before c a lost w e h n = absurd (n (same_error (c connection) e h))
  where
    same_error : {E A : Type 0} (x y : E) → ◌≡◌ {A = Result E A} (err x) (err y) → y ≡ x
    same_error x y h = cc

finish-unchanged :
    {E A : Type 0} (before : Db) (c : SqlError → E) (r : Result E A) (w : World) (e : E)
    → (finish before c r w).0 ≡ err e
    → e ≢ c connection
    → (finish before c r w).1.db ≡ before
finish-unchanged before c (ok a) w e h n =
    commit-unchanged before c a (next_answer w).0 (served w) e h n
finish-unchanged before c (err x) w e h n = refl

begin-unchanged :
    {E A : Type 0} (c : SqlError → E) (body : Exec E A) (w : World) (o : Answer) (e : E)
    → let out : Result E A × World = elim o [
      | works ↦ (let (r, w1) = body (served w) in finish w.db c r w1)
      | _ ↦ (err (c connection), served w)
    ] in
      out.0 ≡ err e → e ≢ c connection → out.1.db ≡ w.db
begin-unchanged c body w works e h n =
    finish-unchanged w.db c (body (served w)).0 (body (served w)).1 e h n
begin-unchanged c body w fails e h n = served-db w
begin-unchanged c body w lost e h n = served-db w

pub in_transaction-unchanged :
    {E A : Type 0} (c : SqlError → E) (body : Exec E A) (w : World) (e : E)
    → (in_transaction c body w).0 ≡ err e
    → e ≢ c connection
    → (in_transaction c body w).1.db ≡ w.db
unfolding in_transaction
in_transaction-unchanged c body w e h n = begin-unchanged c body w (next_answer w).0 e h n

-- A check before the call.
pub guarded-unchanged :
    {E A : Type 0} (b : Bool) (x : E) (m : Exec E A) (w : World) (e : E)
    → ((raise_if b x >> m) w).0 ≡ err e
    → ((m w).0 ≡ err e → (m w).1.db ≡ w.db)
    → ((raise_if b x >> m) w).1.db ≡ w.db
unfolding ◌>>=◌
guarded-unchanged true x m w e h k = refl
guarded-unchanged false x m w e h k = k h

-- Errors of a transaction: those of its body, and the connection's.
commit-fails :
    {E A : Type 0} (X : E → Type 0) (before : Db) (c : SqlError → E) (a : A) (o : Answer)
    (w : World) (e : E)
    → X (c connection)
    → let out : Result E A × World = elim o [
      | works ↦ (ok a, w)
      | fails ↦ (err (c connection), record w { db = before })
      | lost ↦ (err (c connection), w)
    ] in
      out.0 ≡ err e → X e
commit-fails X before c a works w e x k = absurd (cc)
commit-fails X before c a fails w e x k = let same : c connection ≡ e = cc in rw (sym same) x
commit-fails X before c a lost w e x k = let same : c connection ≡ e = cc in rw (sym same) x

finish-fails :
    {E A : Type 0} (Q : A → Db → Type 0) (X : E → Type 0) (before : Db) (c : SqlError → E)
    (r : Result E A) (w : World) (e : E)
    → X (c connection)
    → Outcome Q X r w.db
    → (finish before c r w).0 ≡ err e
    → X e
finish-fails Q X before c (ok a) w e x h k =
    commit-fails X before c a (next_answer w).0 (served w) e x k
finish-fails Q X before c (err y) w e x h k = let same : y ≡ e = cc in rw (sym same) h

begin-fails :
    {E A : Type 0} (Q : A → Db → Type 0) (X : E → Type 0) (c : SqlError → E) (body : Exec E A)
    (w : World) (o : Answer) (e : E)
    → X (c connection)
    → Outcome Q X (body (served w)).0 (body (served w)).1.db
    → let out : Result E A × World = elim o [
      | works ↦ (let (r, w1) = body (served w) in finish w.db c r w1)
      | _ ↦ (err (c connection), served w)
    ] in
      out.0 ≡ err e → X e
begin-fails Q X c body w works e x h k =
    finish-fails Q X w.db c (body (served w)).0 (body (served w)).1 e x h k
begin-fails Q X c body w fails e x h k = let same : c connection ≡ e = cc in rw (sym same) x
begin-fails Q X c body w lost e x h k = let same : c connection ≡ e = cc in rw (sym same) x

pub in_transaction-fails :
    {E A : Type 0} {P : Db → Type 0} {Q : A → Db → Type 0} {X : E → Type 0} (c : SqlError → E)
    (body : Exec E A) (w : World) (e : E)
    → Triple P body Q X
    → P w.db
    → X (c connection)
    → (in_transaction c body w).0 ≡ err e
    → X e
unfolding in_transaction
in_transaction-fails {Q} {X} c body w e t p x h =
    begin-fails Q X c body w (next_answer w).0 e x (t.at (served w) (rw (served-db w) p)) h
