-- ===== src/Database/Returns.antt =====
-- Calls that return: at a moment when the database works, a value and a world of which a condition
-- holds. One rule for each way to build a call.
use braelaspin.Prelude.{◌≡◌, refl, Bool, true, false, [], ok, Result, if◌then◌else◌, arith}
use braelaspin.Database.Monad.{
  SqlError, World, Exec, Statement, ◌>>=◌, pure, lift, raise_if, run_statement, or_fail,
  in_transaction,
}

pub record Returns {E A : Type 0} (m : Exec E A) (w : World) (Q : A → World → Type 0) : Type 0 where
  pub value : A
  pub after : World
  pub runs : m w ≡ (ok value, after)
  pub holds : Q value after

pub Returns-at :
    {E A : Type 0} {Q : A → World → Type 0} (m : Exec E A) (w w' : World) (a : A)
    → m w ≡ (ok a, w')
    → Q a w'
    → Returns m w Q
Returns-at m w w' a e h = record { value = a; after = w'; runs = e; holds = h }

pub Returns-pure :
    {E A : Type 0} {Q : A → World → Type 0} (a : A) (w : World)
    → Q a w
    → Returns {E = E} (pure a) w Q
Returns-pure a w h = record { value = a; after = w; runs = refl; holds = h }

pub Returns-lift :
    {E A : Type 0} {Q : A → World → Type 0} (r : Result E A) (a : A) (w : World)
    → r ≡ ok a
    → Q a w
    → Returns (lift r) w Q
Returns-lift r a w e h = record { value = a; after = w; runs = λ i. (e i, w); holds = h }

pub Returns-raise_if :
    {E : Type 0} {Q : Unit → World → Type 0} (b : Bool) (e : E) (w : World)
    → b ≡ false
    → Q tt w
    → Returns (raise_if b e) w Q
Returns-raise_if b e w h q = record { value = tt; after = w; runs = rw h refl; holds = q }

pub Returns-bind :
    {E A B : Type 0} {R : B → World → Type 0} (Q : A → World → Type 0) (m : Exec E A)
    (f : A → Exec E B) (w : World)
    → Returns m w Q
    → ((a : A) (w' : World) → Q a w' → Returns (f a) w' R)
    → Returns (m >>= f) w R
unfolding ◌>>=◌
Returns-bind Q m f w h k =
    let r = k h.value h.after h.holds in
    record { value = r.value; after = r.after; runs = rw (h.runs) (r.runs); holds = r.holds }

pub Returns-statement :
    {E A : Type 0} {Q : A → World → Type 0} (s : Statement A) (c : SqlError → E) (w w' : World)
    (a : A)
    → w.answers ≡ []
    → s w ≡ ok (a, w')
    → Q a w'
    → Returns (or_fail (run_statement s) c) w Q
unfolding run_statement
Returns-statement s c w w' a calm h q = record {
  value = a;
  after = w';
  runs = ground arith;
  holds = q;
}

pub Returns-or_fail :
    {E F A : Type 0} {Q : A → World → Type 0} (m : Exec F A) (c : F → E) (w : World)
    → Returns m w Q
    → Returns (or_fail m c) w Q
Returns-or_fail m c w h = record {
  value = h.value;
  after = h.after;
  runs = rw h.runs refl;
  holds = h.holds;
}

pub Returns-weaken :
    {E A : Type 0} {Q R : A → World → Type 0} (m : Exec E A) (w : World)
    → Returns m w Q
    → ((a : A) (w' : World) → Q a w' → R a w')
    → Returns m w R
Returns-weaken m w h k = record {
  value = h.value;
  after = h.after;
  runs = h.runs;
  holds = k h.value h.after h.holds;
}

-- A conditional, by the branch that the test takes.
pub Returns-if :
    {E A : Type 0} {Q : A → World → Type 0} (b : Bool) (m n : Exec E A) (w : World)
    → (b ≡ true → Returns m w Q)
    → (b ≡ false → Returns n w Q)
    → Returns (if b then m else n) w Q
Returns-if true m n w hm hn = hm refl
Returns-if false m n w hm hn = hn refl

-- A transaction whose body returns, and leaves a database that still works, commits.
pub in_transaction-returns :
    {E A : Type 0} (c : SqlError → E) (body : Exec E A) (w w' : World) (a : A)
    → w.answers ≡ []
    → body w ≡ (ok a, w')
    → w'.answers ≡ []
    → in_transaction c body w ≡ (ok a, w')
unfolding in_transaction
in_transaction-returns c body w w' a calm h calm' = ground arith
