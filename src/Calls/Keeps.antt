-- ===== src/Calls/Keeps.antt =====
-- Properties of the state that a call keeps, whether it returns a value or an error.
use braelaspin.Prelude.{Bool, true, false, Result, ok, err, if◌then◌else◌}
use braelaspin.Calls.{Call, proceed, convert_error, ◌>>=◌, pure, raise_if, or_fail}

pub record Keeps {S E A : Type 0} (P : S → Type 0) (m : Call S E A) : Type 0 where
  pub at : (s : S) → P s → P (m s).1

convert-keeps :
    {S E F A : Type 0} (P : S → Type 0) (c : F → E) (p : Result F A × S)
    → P p.1
    → P (convert_error c p).1
convert-keeps P c (ok a, s) h = h
convert-keeps P c (err e, s) h = h

module _ {S E : Type 0} {P : S → Type 0} where
  proceed-keeps :
      {A B : Type 0} (p : Result E A × S) (f : A → Call S E B)
      → P p.1
      → ((a : A) → Keeps P (f a))
      → P (proceed p f).1
  proceed-keeps (ok a, s) f h k = (k a).at s h
  proceed-keeps (err e, s) f h k = h

  pub Keeps-bind :
      {A B : Type 0} (m : Call S E A) (f : A → Call S E B)
      → Keeps P m
      → ((a : A) → Keeps P (f a))
      → Keeps P (m >>= f)
  unfolding ◌>>=◌
  Keeps-bind m f hm hf = record { at = λ s h. proceed-keeps (m s) f (hm.at s h) hf }

  pub Keeps-pure : {A : Type 0} (a : A) → Keeps P (pure {S = S} {E = E} a)
  Keeps-pure a = record { at = λ s h. h }

  pub Keeps-raise_if : (c : Bool) (e : E) → Keeps P (raise_if {S = S} c e)
  Keeps-raise_if c e = record { at = λ s h. h }

  pub Keeps-if :
      {A : Type 0} (c : Bool) (m n : Call S E A)
      → Keeps P m
      → Keeps P n
      → Keeps P (if c then m else n)
  Keeps-if true m n hm hn = hm
  Keeps-if false m n hm hn = hn

  pub Keeps-or_fail :
      {F A : Type 0} (m : Call S F A) (c : F → E) → Keeps P m → Keeps P (or_fail m c)
  unfolding or_fail
  Keeps-or_fail m c h = record { at = λ s k. convert-keeps P c (m s) (h.at s k) }
