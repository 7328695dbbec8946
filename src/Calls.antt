-- ===== src/Calls.antt =====
-- Calls that read and write a state of any type and may return an error, for the code over Redis.
-- What was written before an error stays written, as in Go.
pub mod Keeps
pub mod Ensures
use braelaspin.Prelude.{◌≡◌, refl, Bool, true, false, Result, ok, err, if◌then◌else◌}

abbrev pub Call : Type 0 → Type 0 → Type 0 → Type 0
Call S E A = S → Result E A × S

abbrev pub proceed : {S E A B : Type 0} → Result E A × S → (A → Call S E B) → Result E B × S
proceed (ok a, s) f = f a s
proceed (err e, s) f = (err e, s)

infixl 5 ◌>>=◌ ◌>>◌
unfoldable pub ◌>>=◌ : {S E A B : Type 0} → Call S E A → (A → Call S E B) → Call S E B
◌>>=◌ m f s = proceed (m s) f

abbrev pub ◌>>◌ : {S E A B : Type 0} → Call S E A → Call S E B → Call S E B
m >> k = m >>= λ _. k

abbrev pub pure : {S E A : Type 0} → A → Call S E A
pure a s = (ok a, s)

abbrev pub fail : {S E A : Type 0} → E → Call S E A
fail e s = (err e, s)

abbrev pub raise_if : {S E : Type 0} → Bool → E → Call S E Unit
raise_if c e s = (if c then err e else ok tt, s)

abbrev pub convert_error : {S E F A : Type 0} → (F → E) → Result F A × S → Result E A × S
convert_error c (ok a, s) = (ok a, s)
convert_error c (err e, s) = (err (c e), s)

-- `if err != nil { return ..., c(err) }`
unfoldable pub or_fail : {S E F A : Type 0} → Call S F A → (F → E) → Call S E A
or_fail m c s = convert_error c (m s)

-- `_ = m`: the error is dropped.
unfoldable pub ignore : {S E F A : Type 0} → Call S F A → Call S E Unit
ignore m s = (ok tt, (m s).1)

abbrev pub with_part : {S T E A : Type 0} → (T → S) → Result E A × T → Result E A × S
with_part put (r, t) = (r, put t)

-- A call on a part of the state.
unfoldable pub on_part : {S T E A : Type 0} → (S → T) → (T → S → S) → Call T E A → Call S E A
on_part get put m s = with_part (λ t. put t s) (m (get s))

module _ {S E : Type 0} where
  proceed-ok :
      {A B : Type 0} (p : Result E A × S) (f : A → Call S E B) (s2 : S) (b : B)
      → proceed p f ≡ (ok b, s2)
      → (a : A) × (s1 : S) × (p ≡ (ok a, s1)) × (f a s1 ≡ (ok b, s2))
  proceed-ok (ok a, s1) f s2 b h = (a, s1, refl, h)
  proceed-ok (err e, s1) f s2 b h = absurd (cc)

  -- What a sequence that returned a value did.
  pub bind-ok :
      {A B : Type 0} (m : Call S E A) (f : A → Call S E B) (s s2 : S) (b : B)
      → (m >>= f) s ≡ (ok b, s2)
      → (a : A) × (s1 : S) × (m s ≡ (ok a, s1)) × (f a s1 ≡ (ok b, s2))
  unfolding ◌>>=◌
  bind-ok m f s s2 b h = proceed-ok (m s) f s2 b h

  pub or_fail-ok :
      {F A : Type 0} (m : Call S F A) (c : F → E) (s s2 : S) (a : A)
      → or_fail m c s ≡ (ok a, s2)
      → m s ≡ (ok a, s2)
  unfolding or_fail
  or_fail-ok m c s s2 a h = convert-ok (m s) c s2 a h
    where
      convert-ok :
          {F A : Type 0} (p : Result F A × S) (c : F → E) (s2 : S) (a : A)
          → convert_error c p ≡ (ok a, s2)
          → p ≡ (ok a, s2)
      convert-ok (ok x, s1) c s2 a h = cc
      convert-ok (err e, s1) c s2 a h = absurd (cc)

  pub raise_if-ok :
      (c : Bool) (e : E) (s s2 : S) (u : Unit)
      → raise_if c e s ≡ (ok u, s2)
      → (c ≡ false) × (s2 ≡ s)
  raise_if-ok true e s s2 u h = absurd (cc)
  raise_if-ok false e s s2 u h = (refl, cc)
