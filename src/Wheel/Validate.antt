-- ===== src/Wheel/Validate.antt =====
-- internal/game/wheel.go: Validate, validateTable and sameMultipliers, which run at start-up.
pub mod Sound
use Prim.Native.String.{String}
use braelaspin.Prelude.{
  ℕ, ℤ, pos, ◌+◌, Bool, true, false, ◌&&◌, not, List, [], ◌∷◌, length, Result, ok, err, fail_if,
  ◌>>=◌, ◌>>◌, ltb_ℤ, leb_ℤ, eqb_ℤ, ◌==◌, if◌then◌else◌, add64, mul64, div64,
}
use braelaspin.Wheel.{Seg, Table, wheel, demo_wheel, weight_total}

-- What validateTable says of a table. A segment is named from 1.
pub data TableError : Type 0 where
  negative_weight : ℕ → ℤ → TableError
  zero_weight : ℕ → TableError
  negative_multiplier : ℕ → ℤ → TableError
  wrong_total : ℤ → TableError
  wrong_rtp : ℤ → TableError

-- What Validate says: of the real wheel itself, of a named table, or of the two together.
pub data WheelError : Type 0 where
  unreachable : ℕ → ℤ → WheelError
  negative : ℕ → ℤ → WheelError
  wrong_weight_sum : ℤ → WheelError
  rtp_disagrees : ℤ → ℤ → WheelError
  in_table : String → TableError → WheelError
  demo_below_real : ℤ → ℤ → WheelError
  multipliers_differ : WheelError
  wrong_size : ℕ → WheelError

-- the loop of validateTable, from the segment with 0-based index `i`: the two running sums
unfoldable pub table_sums : ℕ → ℤ → ℤ → Table → Result TableError (ℤ × ℤ)
table_sums i total weighted [] = ok (total, weighted)
table_sums i total weighted (s ∷ t) = do
  fail_if (ltb_ℤ s.weight (pos 0)) (negative_weight (i + 1) s.weight)
  fail_if (eqb_ℤ s.weight (pos 0)) (zero_weight (i + 1))
  fail_if (ltb_ℤ s.mult_bp (pos 0)) (negative_multiplier (i + 1) s.mult_bp)
  table_sums (i + 1) (add64 total s.weight) (add64 weighted (mul64 s.weight s.mult_bp)) t

-- the checks after the loop of validateTable
unfoldable pub check_sums : ℤ → ℤ × ℤ → Result TableError Unit
check_sums want_rtp_bp (total, weighted) = do
  fail_if (not (eqb_ℤ total weight_total)) (wrong_total total)
  fail_if (not (eqb_ℤ (div64 weighted weight_total) want_rtp_bp))
      (wrong_rtp (div64 weighted weight_total))

-- validateTable
unfoldable pub validate_table : Table → ℤ → String → Result WheelError Unit
unfolding check_sums
validate_table table want_rtp_bp name =
    elim (table_sums 0 (pos 0) (pos 0) table >>= check_sums want_rtp_bp) [
      | ok u ↦ ok u
      | err e ↦ err (in_table name e)
    ]

-- sameMultipliers
unfoldable pub same_multipliers : Table → Table → Bool
same_multipliers (s ∷ a) (t ∷ b) = eqb_ℤ s.mult_bp t.mult_bp && same_multipliers a b
same_multipliers _ _ = true

-- the loop of Validate over the real wheel
unfoldable pub wheel_sums : ℕ → ℤ → ℤ → Table → Result WheelError (ℤ × ℤ)
wheel_sums i weight_sum weighted [] = ok (weight_sum, weighted)
wheel_sums i weight_sum weighted (s ∷ t) = do
  fail_if (leb_ℤ s.weight (pos 0)) (unreachable (i + 1) s.weight)
  fail_if (ltb_ℤ s.mult_bp (pos 0)) (negative (i + 1) s.mult_bp)
  wheel_sums (i + 1) (add64 weight_sum s.weight) (add64 weighted (mul64 s.mult_bp s.weight)) t

-- Validate
unfoldable pub validate : ℤ → ℤ → Result WheelError Unit
validate want_rtp_bp demo_rtp_bp = do
  (total, weighted) ← wheel_sums 0 (pos 0) (pos 0) wheel
  fail_if (not (eqb_ℤ total weight_total)) (wrong_weight_sum total)
  let got_rtp = div64 weighted weight_total
  fail_if (not (eqb_ℤ got_rtp want_rtp_bp)) (rtp_disagrees got_rtp want_rtp_bp)
  validate_table demo_wheel demo_rtp_bp "DemoWheel"
  fail_if (ltb_ℤ demo_rtp_bp want_rtp_bp) (demo_below_real demo_rtp_bp want_rtp_bp)
  fail_if (not (same_multipliers wheel demo_wheel)) multipliers_differ
  fail_if (not (length wheel == 12)) (wrong_size (length wheel))
