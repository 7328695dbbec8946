-- ===== src/Database/Keeps.antt =====
-- Properties of the tables that a call keeps, if it returns no error: one rule for each way to build
-- a call, and what that means for a transaction.
use braelaspin.Prelude.{◌≡◌, Bool, true, false, inl, inr, Result, ok, if◌then◌else◌}
use braelaspin.Database.{Db}
use braelaspin.Database.Monad.{
  SqlError, World, Exec, Statement, ◌>>=◌, ◌>>◌, pure, lift, raise_if, run_statement, or_fail,
  in_transaction,
}
use braelaspin.Database.Steps.{
  bind-ok, raise_if-ok, or_fail-ok, run_statement-ok, served, served-db,
}
use braelaspin.Database.Triples.{Triple-of_ok, in_transaction-After}

pub record Keeps {E A : Type 0} (P : Db → Type 0) (m : Exec E A) : Type 0 where
  pub at : (w w' : World) (a : A) → m w ≡ (ok a, w') → P w.db → P w'.db

pub record KeepsRows {A : Type 0} (P : Db → Type 0) (s : Statement A) : Type 0 where
  pub at : (w w' : World) (a : A) → s w ≡ ok (a, w') → P w.db → P w'.db

module _ {E A : Type 0} {P : Db → Type 0} where
  pub Keeps-lift : (r : Result E A) → Keeps P (lift r)
  Keeps-lift r = record { at = λ w w' a e p. let same : w ≡ w' = λ i. (e i).1 in rw (← same) p }

  pub Keeps-pure : (a : A) → Keeps {E = E} P (pure a)
  Keeps-pure a = record { at = λ w w' b e p. let same : w ≡ w' = λ i. (e i).1 in rw (← same) p }

  pub Keeps-if : (b : Bool) (m n : Exec E A) → Keeps P m → Keeps P n → Keeps P (if b then m else n)
  Keeps-if true m n hm hn = hm
  Keeps-if false m n hm hn = hn

pub Keeps-raise_if : {E : Type 0} {P : Db → Type 0} (b : Bool) (e : E) → Keeps P (raise_if b e)
Keeps-raise_if b e = record { at = λ w w' a h p. rw ((raise_if-ok b e w a w' h).1) p }

pub Keeps-bind :
    {E A B : Type 0} {P : Db → Type 0} (m : Exec E A) (f : A → Exec E B)
    → Keeps P m
    → ((a : A) → Keeps P (f a))
    → Keeps P (m >>= f)
Keeps-bind m f hm hf = record {
  at = λ w w' b h p.
      let c = bind-ok m f w b w' h in
      (hf c.value).at c.middle w' b c.rest (hm.at w c.middle c.value c.first p);
}

pub Keeps-or_fail :
    {E F A : Type 0} {P : Db → Type 0} (m : Exec F A) (c : F → E)
    → Keeps P m
    → Keeps P (or_fail m c)
Keeps-or_fail m c hm = record { at = λ w w' a h p. hm.at w w' a (or_fail-ok m c w a w' h) p }

pub Keeps-statement :
    {A : Type 0} {P : Db → Type 0} (s : Statement A) → KeepsRows P s → Keeps P (run_statement s)
Keeps-statement {P} s h = record {
  at = λ w w' a e p. h.at (served w) w' a (run_statement-ok s w a w' e) (rw (served-db w) p);
}

pub ruleset keeps_rules =
    (Keeps-lift, Keeps-pure, Keeps-if, Keeps-raise_if, Keeps-bind, Keeps-or_fail, Keeps-statement)

-- A transaction whose body keeps a property keeps it however it ends: it returned, it was rolled
-- back, or its COMMIT failed with or without effect.
pub in_transaction-keeps :
    {E A : Type 0} {P : Db → Type 0} (c : SqlError → E) (body : Exec E A) (w : World)
    → Keeps P body
    → P w.db
    → P (in_transaction c body w).1.db
in_transaction-keeps {P} c body w k p =
    let t = Triple-of_ok {P = P} {Q = λ _. P} body (λ w w' a. k.at w w' a) in
    let after = in_transaction-After c body w t p in
    elim after.side [ inl (a, q) ↦ q | inr same ↦ rw same p ]

-- A check before the transaction: its error leaves the tables alone.
pub guarded :
    {E A : Type 0} (P : Db → Type 0) (b : Bool) (e : E) (m : Exec E A) (w : World)
    → P w.db
    → P (m w).1.db
    → P ((raise_if b e >> m) w).1.db
unfolding ◌>>=◌
guarded P true e m w p q = p
guarded P false e m w p q = q
