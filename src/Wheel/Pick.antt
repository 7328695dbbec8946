-- ===== src/Wheel/Pick.antt =====
-- internal/game/wheel.go: Picker.Pick and Picker.PickFrom. The entropy source is a parameter: what
-- io.ReadFull left in the four-byte buffer, or `none` if it returned an error.
pub mod Total
pub mod Odds
use braelaspin.Prelude.{
  ℕ, ℤ, pos, ◌+◌, ◌*◌, ◌%◌, ◌^◌, Option, none, some, [], ◌∷◌, Result, ok, err, ltb_ℤ, if◌then◌else◌,
  sub64,
}
use braelaspin.Wheel.{Table, wheel}

pub data PickError : Type 0 where
  entropy_unavailable : PickError
  fell_through : ℤ → PickError

-- The bytes of the buffer, each below 256.
abbrev pub Buffer : Type 0
Buffer = ℕ × ℕ × ℕ × ℕ

-- binary.BigEndian.Uint32
unfoldable pub big_endian : Buffer → ℕ
big_endian (a, b, c, d) = a * 2 ^ 24 + b * 2 ^ 16 + c * 2 ^ 8 + d

-- the loop of PickFrom, from the segment with 0-based index `i`
unfoldable pub select_from : ℕ → ℤ → Table → Result PickError (ℕ × ℤ)
select_from i r [] = err (fell_through r)
select_from i r (s ∷ t) =
    if ltb_ℤ r s.weight then ok (i + 1, s.mult_bp) else select_from (i + 1) (sub64 r s.weight) t

-- PickFrom: a 1-based segment and its multiplier
unfoldable pub pick_from : Option Buffer → Table → Result PickError (ℕ × ℤ)
pick_from none table = err entropy_unavailable
pick_from (some b) table = select_from 0 (pos (big_endian b % 10000)) table

-- Pick
unfoldable pub pick : Option Buffer → Result PickError (ℕ × ℤ)
unfolding pick_from
pick source = pick_from source wheel
