-- ===== src/Prelude/Words.antt =====
-- Go's int64 (and int, which is 64 bits wide on the targets): integers that wrap around.
use Prim.Native.Nat.{ℕ, ◌-◌, ◌*◌, ◌/◌, ◌%◌, ◌^◌, ◌≤◌}
use mathlib.Core.Path.{◌≡◌, ◌∙◌, ap}
use native.Mathlib.Omega.{arith}
use braelaspin.Prelude.Tests.{ltb, if◌then◌else◌}
use braelaspin.Prelude.Integers.{
  ℤ, pos, negsuc, pos_part, neg_part, ◌+ℤ◌, ◌-ℤ◌, ◌*ℤ◌, quot, pos-mul, int_laws,
}

-- math.MaxInt64
abbrev pub max_int64 : ℕ
max_int64 = 2 ^ 63 - 1

-- The value of an integer in two's complement at 64 bits.
unfoldable pub wrap64 : ℤ → ℤ
wrap64 (pos n) = let r = n % 2 ^ 64 in if ltb r (2 ^ 63) then pos r else negsuc (2 ^ 64 - r - 1)
wrap64 (negsuc n) = let r = n % 2 ^ 64 in if ltb r (2 ^ 63) then negsuc r else pos (2 ^ 64 - r - 1)

unfoldable pub add64 : ℤ → ℤ → ℤ
add64 a b = wrap64 (a +ℤ b)

unfoldable pub sub64 : ℤ → ℤ → ℤ
sub64 a b = wrap64 (a -ℤ b)

unfoldable pub mul64 : ℤ → ℤ → ℤ
mul64 a b = wrap64 (a *ℤ b)

-- Go's `/`. The source divides by 10000 and by a multiplier that it has tested against 0.
unfoldable pub div64 : ℤ → ℤ → ℤ
div64 a b = wrap64 (quot a b)

-- The values that an int64 can hold.
pub record IsInt64 (z : ℤ) : Type 0 where
  pub below : pos_part z ≤ max_int64
  pub above : neg_part z ≤ 2 ^ 63

pub wrap64_id : (z : ℤ) → IsInt64 z → wrap64 z ≡ z
unfolding wrap64
wrap64_id z h = ground arith

pub wrap64-IsInt64 : (z : ℤ) → IsInt64 (wrap64 z)
unfolding wrap64
wrap64-IsInt64 z = ground arith

pub wrap64-pos : (n : ℕ) → n ≤ max_int64 → wrap64 (pos n) ≡ pos n
wrap64-pos n h = wrap64_id (pos n) (omega arith)

pub mul64-pos : (a b : ℕ) → a * b ≤ max_int64 → mul64 (pos a) (pos b) ≡ pos (a * b)
unfolding mul64
mul64-pos a b h = rw pos-mul (wrap64-pos (a * b) h)

pub div64-pos : (a b : ℕ) → a ≤ max_int64 → div64 (pos a) (pos b) ≡ pos (a / b)
unfolding div64 quot
div64-pos a b h = wrap64-pos (a / b) (omega arith)

pub add64_exact : (a b : ℤ) → IsInt64 (a +ℤ b) → add64 a b ≡ a +ℤ b
unfolding add64
add64_exact a b h = wrap64_id (a +ℤ b) h

pub sub64_exact : (a b : ℤ) → IsInt64 (a -ℤ b) → sub64 a b ≡ a -ℤ b
unfolding sub64
sub64_exact a b h = wrap64_id (a -ℤ b) h

-- Wrapping inside a sum is undone by the wrapping of the sum.
pub wrap64-add_wrap64 : (a b : ℤ) → wrap64 (wrap64 a +ℤ b) ≡ wrap64 (a +ℤ b)
unfolding wrap64 ◌+ℤ◌
wrap64-add_wrap64 a b = ground arith

pub +ℤ_comm : (a b : ℤ) → a +ℤ b ≡ b +ℤ a
+ℤ_comm a b = omega int_laws

pub +ℤ_assoc : (a b c : ℤ) → a +ℤ b +ℤ c ≡ a +ℤ (b +ℤ c)
+ℤ_assoc a b c = omega int_laws

pub add64-wrap64 : (a b : ℤ) → add64 (wrap64 a) b ≡ wrap64 (a +ℤ b)
unfolding add64
add64-wrap64 a b = wrap64-add_wrap64 a b

pub add64-wrap64_both : (a b : ℤ) → add64 (wrap64 a) (wrap64 b) ≡ wrap64 (a +ℤ b)
unfolding add64
add64-wrap64_both a b =
    wrap64-add_wrap64 a (wrap64 b)
    ∙ (ap wrap64 (+ℤ_comm a (wrap64 b)) ∙ (wrap64-add_wrap64 b a ∙ ap wrap64 (+ℤ_comm b a)))
