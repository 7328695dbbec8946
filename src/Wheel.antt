-- ===== src/Wheel.antt =====
-- internal/game/wheel.go: the two tables, the draw, and the arithmetic of stakes and payouts. An `int`
-- is an int64. The proofs are in the modules below.
pub mod Validate
pub mod Pick
pub mod Stake
mod Tests
use braelaspin.Prelude.{
  ℕ, ℤ, pos, ◌+◌, Bool, List, [], ◌∷◌, ltb_ℤ, if◌then◌else◌, add64, mul64, div64,
}

-- One segment. `mult_bp` is in basis points of the stake, `weight` in ten-thousandths.
pub record Seg : Type 0 where
  pub mult_bp : ℤ
  pub weight : ℤ

-- The array type [12]Seg; the length of both tables is a theorem.
abbrev pub Table : Type 0
Table = List Seg

abbrev pub seg : ℤ → ℤ → Seg
seg m w = record { mult_bp = m; weight = w }

unfoldable pub demo_wheel : Table
demo_wheel =
    seg (pos 0) (pos 1463)
    ∷ seg (pos 10000) (pos 1150)
    ∷ seg (pos 20000) (pos 650)
    ∷ seg (pos 0) (pos 1462)
    ∷ seg (pos 50000) (pos 420)
    ∷ seg (pos 10000) (pos 1150)
    ∷ seg (pos 0) (pos 1463)
    ∷ seg (pos 100000) (pos 105)
    ∷ seg (pos 20000) (pos 650)
    ∷ seg (pos 0) (pos 1463)
    ∷ seg (pos 500000) (pos 21)
    ∷ seg (pos 2000000) (pos 3)
    ∷ []

abbrev pub weight_total : ℤ
weight_total = pos 10000

unfoldable pub wheel : Table
wheel =
    seg (pos 0) (pos 1569)
    ∷ seg (pos 10000) (pos 1000)
    ∷ seg (pos 20000) (pos 600)
    ∷ seg (pos 0) (pos 1569)
    ∷ seg (pos 50000) (pos 400)
    ∷ seg (pos 10000) (pos 1000)
    ∷ seg (pos 0) (pos 1569)
    ∷ seg (pos 100000) (pos 100)
    ∷ seg (pos 20000) (pos 600)
    ∷ seg (pos 0) (pos 1570)
    ∷ seg (pos 500000) (pos 20)
    ∷ seg (pos 2000000) (pos 3)
    ∷ []

-- TableFor
unfoldable pub table_for : Bool → Table
table_for is_real = if is_real then wheel else demo_wheel

-- the loop of MaxMultBP
unfoldable pub max_mult_from : ℤ → Table → ℤ
max_mult_from m [] = m
max_mult_from m (s ∷ t) = max_mult_from (if ltb_ℤ m s.mult_bp then s.mult_bp else m) t

-- MaxMultBP
unfoldable pub max_mult_bp : ℤ
unfolding max_mult_from wheel
max_mult_bp = max_mult_from (pos 0) wheel

-- the loop of RTPBP and of DemoRTPBP
unfoldable pub weighted_from : ℤ → Table → ℤ
weighted_from acc [] = acc
weighted_from acc (s ∷ t) = weighted_from (add64 acc (mul64 s.mult_bp s.weight)) t

-- RTPBP
unfoldable pub rtp_bp : ℤ
unfolding weighted_from wheel
rtp_bp = div64 (weighted_from (pos 0) wheel) weight_total

-- DemoRTPBP
unfoldable pub demo_rtp_bp : ℤ
unfolding weighted_from demo_wheel
demo_rtp_bp = div64 (weighted_from (pos 0) demo_wheel) weight_total

-- Segment, what the client is told of one segment.
pub record Segment : Type 0 where
  pub index : ℕ
  pub mult_bp : ℤ
  pub weight_bp : ℤ

-- the loop of Segments; the first segment has index 1
unfoldable pub segments_from : ℕ → Table → List Segment
segments_from i [] = []
segments_from i (s ∷ t) =
    record { index = i + 1; mult_bp = s.mult_bp; weight_bp = s.weight } ∷ segments_from (i + 1) t

-- Segments
unfoldable pub segments : List Segment
unfolding segments_from wheel
segments = segments_from 0 wheel
