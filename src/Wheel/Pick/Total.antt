-- ===== src/Wheel/Pick/Total.antt =====
-- internal/game/wheel.go: a draw from a table whose weights add up to 10000 always selects a segment.
use braelaspin.Prelude.{
  ℕ, ℤ, ◌-ℤ◌, parts_apart, suc, pos, pos_part, ◌+◌, ◌-◌, ◌%◌, ◌<◌, ◌≤◌, ◌≤ℤ◌, ◌≡◌, refl, some, [],
  ◌∷◌, All, get_elem?, Result, ok, Bool-cases, inl, inr, ltb, arith, int_laws, sub64, sub64_exact,
  max_int64, ◌∙◌,
}
use braelaspin.Wheel.{Seg, Table}
use braelaspin.Wheel.Validate.Sound.{IsDrawable, sum_weights}
use braelaspin.Wheel.Pick.{PickError, Buffer, big_endian, select_from, pick_from}

-- The weights as numbers.
abbrev pub total : Table → ℕ
total [] = 0
total (s ∷ t) = pos_part s.weight + total t

pub sum_weights-eq-total : (t : Table) → All IsDrawable t → sum_weights t ≡ pos (total t)
sum_weights-eq-total [] h = refl
sum_weights-eq-total (s ∷ t) h =
    rw (sum_weights-eq-total t h.1) (omega (int_laws, parts_apart s.weight))

sub64_of_le :
    (r : ℕ) (w : ℤ)
    → pos 0 ≤ℤ w
    → r ≤ max_int64
    → pos_part w ≤ r
    → sub64 (pos r) w ≡ pos (r - pos_part w)
sub64_of_le r w h k le =
    sub64_exact (pos r) w (omega (int_laws, parts_apart w, parts_apart (pos r -ℤ w)))
    ∙ omega (int_laws, parts_apart w)

-- One round of the loop, on numbers.
pub select_from-hit :
    (i r : ℕ) (s : Seg) (t : Table)
    → r < pos_part s.weight
    → select_from i (pos r) (s ∷ t) ≡ ok (i + 1, s.mult_bp)
unfolding select_from
select_from-hit i r s t h = ground arith

pub select_from-skip :
    (i r : ℕ) (s : Seg) (t : Table)
    → IsDrawable s
    → r ≤ max_int64
    → pos_part s.weight ≤ r
    → select_from i (pos r) (s ∷ t) ≡ select_from (i + 1) (pos (r - pos_part s.weight)) t
unfolding select_from
select_from-skip i r s t d k h = ground (arith, sub64_of_le r s.weight (omega arith) k h)

-- What a loop that starts at 0-based index `i` has selected: the segment `k` places on.
pub record Selects (i : ℕ) (t : Table) (r : Result PickError (ℕ × ℤ)) : Type 0 where
  pub place : ℕ
  pub chosen : Seg
  pub at_place : get_elem? t place ≡ some chosen
  pub returned : r ≡ ok (i + place + 1, chosen.mult_bp)

pub select_from-Selects :
    (i r : ℕ) (t : Table)
    → All IsDrawable t
    → r < total t
    → r ≤ max_int64
    → Selects i t (select_from i (pos r) t)
select_from-Selects i r [] d h k = absurd (omega arith)
select_from-Selects i r (s ∷ t) d h k = elim (Bool-cases (ltb r (pos_part s.weight))) [
  | inl hit ↦ record {
    place = 0;
    chosen = s;
    at_place = refl;
    returned = select_from-hit i r s t (ground arith) ∙ ground arith;
  }
  | inr miss ↦
      let rest =
        select_from-Selects (i + 1) (r - pos_part s.weight) t d.1 (ground arith) (omega arith) in
      record {
        place = suc rest.place;
        chosen = rest.chosen;
        at_place = rest.at_place;
        returned = select_from-skip i r s t d.0 k (ground arith) ∙ (rest.returned ∙ ground arith);
      }
]

-- From a table whose segments can all be drawn and whose weights add up to 10000, every buffer of
-- entropy selects a segment of the table, with that segment's 1-based index and its multiplier. The
-- fall-through error is never returned.
pub pick_from-Selects :
    (b : Buffer) (t : Table)
    → All IsDrawable t
    → sum_weights t ≡ pos 10000
    → Selects 0 t (pick_from (some b) t)
unfolding pick_from
pick_from-Selects b t d e =
    select_from-Selects 0 (big_endian b % 10000) t d (ground (arith, sum_weights-eq-total t d))
      (omega arith)
