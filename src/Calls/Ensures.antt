-- ===== src/Calls/Ensures.antt =====
-- What holds of the value and the state when a call returns a value.
use braelaspin.Prelude.{Result, err, ◌≡◌, sym, ap, ◌∙◌, ok, Bool, false}
use braelaspin.Calls.{
  on_part, with_part, Call, ◌>>=◌, pure, raise_if, or_fail, bind-ok, or_fail-ok, raise_if-ok,
}
use braelaspin.Calls.Keeps.{Keeps}

pub record Ensures {S E A : Type 0} (P : S → Type 0) (m : Call S E A) (Q : A → S → Type 0)
    : Type 0 where
  pub at : (s s' : S) (a : A) → P s → m s ≡ (ok a, s') → Q a s'

module _ {S E : Type 0} {P : S → Type 0} where
  pub Ensures-bind :
      {A B : Type 0} (Q : A → S → Type 0) {R : B → S → Type 0} (m : Call S E A) (f : A → Call S E B)
      → Ensures P m Q
      → ((a : A) → Ensures (Q a) (f a) R)
      → Ensures P (m >>= f) R
  Ensures-bind Q m f hm hf = record {
    at = λ s s' b p e.
        let (a, s1, e1, e2) = bind-ok m f s s' b e in (hf a).at s1 s' b (hm.at s s1 a p e1) e2;
  }

  pub Ensures-pure :
      {A : Type 0} {Q : A → S → Type 0} (a : A)
      → ((s : S) → P s → Q a s)
      → Ensures P (pure {S = S} {E = E} a) Q
  Ensures-pure {A} {Q} a h = record {
    at = λ s s' b p e. let same : b ≡ a = cc in let still : s' ≡ s = cc in rw (same, still) (h s p);
  }

  pub Ensures-or_fail :
      {F A : Type 0} {Q : A → S → Type 0} (m : Call S F A) (c : F → E)
      → Ensures P m Q
      → Ensures P (or_fail m c) Q
  Ensures-or_fail m c h = record { at = λ s s' a p e. h.at s s' a p (or_fail-ok m c s s' a e) }

  pub Ensures-raise_if :
      {Q : Unit → S → Type 0} (c : Bool) (e : E)
      → ((s : S) → c ≡ false → P s → Q tt s)
      → Ensures P (raise_if {S = S} c e) Q
  Ensures-raise_if c e h = record {
    at = λ s s' u p q. let (c_eq, still) = raise_if-ok c e s s' u q in rw still (h s c_eq p);
  }

  pub Ensures-Keeps : {A : Type 0} (m : Call S E A) → Keeps P m → Ensures P m (λ a s. P s)
  Ensures-Keeps m h = record {
    at = λ s s' a p e. let still : s' ≡ (m s).1 = ap (λ x. x.1) (sym e) in rw still (h.at s p);
  }

  pub Ensures-weaken :
      {A : Type 0} {Q R : A → S → Type 0} (m : Call S E A)
      → Ensures P m Q
      → ((a : A) (s : S) → Q a s → R a s)
      → Ensures P m R
  Ensures-weaken m h k = record { at = λ s s' a p e. k a s' (h.at s s' a p e) }

with_part-ok :
    {S T E A : Type 0} (put : T → S) (p : Result E A × T) (a : A) (s' : S)
    → with_part put p ≡ (ok a, s')
    → (p ≡ (ok a, p.1)) × (s' ≡ put p.1)
with_part-ok put (ok x, t) a s' h = (cc, cc)
with_part-ok put (err e, t) a s' h = absurd (cc)

pub Ensures-on_part :
    {S T E A : Type 0} {P : T → Type 0} {Q : A → T → Type 0} (get : S → T) (put : T → S → S)
    (m : Call T E A)
    → ((t : T) (s : S) → get (put t s) ≡ t)
    → Ensures P m Q
    → Ensures (λ s. P (get s)) (on_part get put m) (λ a s. Q a (get s))
unfolding on_part
Ensures-on_part get put m law h = record {
  at = λ s s' a p e.
      let (done, after) = with_part-ok (λ t. put t s) (m (get s)) a s' e in
      let same : get s' ≡ (m (get s)).1 = ap get after ∙ law (m (get s)).1 s in
      rw same (h.at (get s) (m (get s)).1 a p done);
}
