-- ===== src/Wheel/Validate/Sound.antt =====
-- internal/game/wheel.go: what start-up validation accepts.
use Prim.Native.String.{String}
use braelaspin.Prelude.{
  ℕ, ℤ, pos, ◌+◌, ◌+ℤ◌, ◌*ℤ◌, ◌≤ℤ◌, ◌<ℤ◌, ◌≡◌, ◌↔◌, [], ◌∷◌, All, ok, Result-cases, inl, inr, arith,
  int_laws, wrap64, div64, add64, mul64, add64-wrap64, add64-wrap64_both, +ℤ_comm, +ℤ_assoc, quot,
  wrap64-pos,
}
use braelaspin.Wheel.{Seg, Table, wheel, demo_wheel}
use braelaspin.Wheel.Validate.{
  table_sums, check_sums, validate_table, validate, wheel_sums, same_multipliers,
}

-- The process starts exactly with the two returns that the tables have: RTP_BP must be 9000 and
-- DEMO_RTP_BP 9700. Every other pair of settings is refused.
pub validate_lem :
    (want demo : ℤ) → (validate want demo ≡ ok tt) ↔ ((want ≡ pos 9000) × (demo ≡ pos 9700))
unfolding validate wheel_sums validate_table table_sums check_sums same_multipliers wheel demo_wheel
    add64 mul64 div64 wrap64 quot ◌+ℤ◌ ◌*ℤ◌
validate_lem want demo = ground arith

-- Sums over a table as integers that do not wrap.
abbrev pub sum_weights : Table → ℤ
sum_weights [] = pos 0
sum_weights (s ∷ t) = s.weight +ℤ sum_weights t

abbrev pub sum_weighted : Table → ℤ
sum_weighted [] = pos 0
sum_weighted (s ∷ t) = s.weight *ℤ s.mult_bp +ℤ sum_weighted t

-- A segment that can be drawn and that takes nothing from the player.
abbrev pub IsDrawable : Seg → Type 0
IsDrawable s = (pos 0 <ℤ s.weight) × (pos 0 ≤ℤ s.mult_bp)

zero-+ℤ : (a : ℤ) → pos 0 +ℤ a ≡ a
zero-+ℤ a = omega int_laws

table_sums-drawable :
    (i : ℕ) (a b : ℤ) (t : Table)
    → All IsDrawable t
    → table_sums i (wrap64 a) (wrap64 b) t
      ≡ ok (wrap64 (a +ℤ sum_weights t), wrap64 (b +ℤ sum_weighted t))
unfolding table_sums mul64
table_sums-drawable i a b [] h =
    ground (arith, +ℤ_comm a (pos 0), +ℤ_comm b (pos 0), zero-+ℤ a, zero-+ℤ b)
table_sums-drawable i a b (s ∷ t) h = ground (
  arith,
  add64-wrap64 a s.weight,
  add64-wrap64_both b (s.weight *ℤ s.mult_bp),
  +ℤ_assoc a s.weight (sum_weights t),
  +ℤ_assoc b (s.weight *ℤ s.mult_bp) (sum_weighted t),
  table_sums-drawable (i + 1) (a +ℤ s.weight) (b +ℤ s.weight *ℤ s.mult_bp) t h.1,
)

IsDrawable-of_sums :
    (i : ℕ) (a b : ℤ) (t : Table) (r : ℤ × ℤ) → table_sums i a b t ≡ ok r → All IsDrawable t
unfolding table_sums
IsDrawable-of_sums i a b [] r h = tt
IsDrawable-of_sums i a b (s ∷ t) r h =
    ground (
      arith,
      IsDrawable-of_sums (i + 1) (add64 a s.weight) (add64 b (mul64 s.weight s.mult_bp)) t r,
    )

table_sums-start :
    (t : Table)
    → All IsDrawable t
    → table_sums 0 (pos 0) (pos 0) t ≡ ok (wrap64 (sum_weights t), wrap64 (sum_weighted t))
table_sums-start t h = ground (
  arith,
  wrap64-pos 0 (omega arith),
  zero-+ℤ (sum_weights t),
  zero-+ℤ (sum_weighted t),
  table_sums-drawable 0 (pos 0) (pos 0) t h,
)

validate_table-IsDrawable :
    (t : Table) (want : ℤ) (name : String) → validate_table t want name ≡ ok tt → All IsDrawable t
unfolding validate_table
validate_table-IsDrawable t want name h = elim (Result-cases (table_sums 0 (pos 0) (pos 0) t)) [
  | inl (e, failed) ↦ absurd (ground arith)
  | inr (r, summed) ↦ IsDrawable-of_sums 0 (pos 0) (pos 0) t r summed
]

-- A table is accepted exactly when every segment has a positive weight and a multiplier of zero or
-- more, the weights add up to 10000 and the weighted multipliers give the stated return, both sums
-- taken as the int64 values that the loop accumulates.
pub validate_table_lem :
    (t : Table) (want : ℤ) (name : String)
    → (validate_table t want name ≡ ok tt) ↔ (
        All IsDrawable t
        × (wrap64 (sum_weights t) ≡ pos 10000)
        × (div64 (wrap64 (sum_weighted t)) (pos 10000) ≡ want))
unfolding validate_table
validate_table_lem t want name = (
  λ h.
      let d = validate_table-IsDrawable t want name h in
      (d, ground (arith, table_sums-start t d), ground (arith, table_sums-start t d)),
  λ h. ground (arith, table_sums-start t h.0),
)
