-- ===== src/Wheel/Pick/Odds.antt =====
-- internal/game/wheel.go: the odds of PickFrom, counted over all 2^32 buffers of entropy.
use native.Mathlib.Nat.{add-suc, add-zero}
use braelaspin.Prelude.{
  ℕ, ℤ, zero, suc, pos, pos_part, ◌+◌, ◌-◌, ◌*◌, ◌/◌, ◌%◌, ◌^◌, ◌<◌, ◌≤◌, ◌≡◌, refl, Bool, true,
  false, some, [], ◌∷◌, All, get_elem?, Result, ok, err, arith, max_int64, if◌then◌else◌, ◌∙◌, ap,
  ◌==◌,
}
use braelaspin.Wheel.{Seg, Table}
use braelaspin.Wheel.Validate.Sound.{IsDrawable, sum_weights}
use braelaspin.Wheel.Pick.{PickError, Buffer, big_endian, select_from, pick_from}
use braelaspin.Wheel.Pick.Total.{
  total, sum_weights-eq-total, select_from-hit, select_from-skip, select_from-Selects,
}

-- How many of the numbers below `n` pass the test.
unfoldable pub count_below : ℕ → (ℕ → Bool) → ℕ
count_below zero p = 0
count_below (suc n) p = (if p n then 1 else 0) + count_below n p

count_below-add :
    (m n : ℕ) (p : ℕ → Bool)
    → count_below (m + n) p ≡ count_below m p + count_below n (λ r. p (m + r))
unfolding count_below
count_below-add m zero p = ground (arith, add-zero m)
count_below-add m (suc n) p = rw add-suc (omega (arith, count_below-add m n p))

count_below-congr :
    (n : ℕ) (p q : ℕ → Bool) → ((r : ℕ) → r < n → p r ≡ q r) → count_below n p ≡ count_below n q
unfolding count_below
count_below-congr zero p q h = refl
count_below-congr (suc n) p q h =
    rw (h n (omega arith), count_below-congr n p q (λ r k. h r (omega arith)))

count_below-all : (n : ℕ) (p : ℕ → Bool) → ((r : ℕ) → r < n → p r ≡ true) → count_below n p ≡ n
unfolding count_below
count_below-all zero p h = refl
count_below-all (suc n) p h =
    rw (h n (omega arith)) (omega (arith, count_below-all n p (λ r k. h r (omega arith))))

count_below-none : (n : ℕ) (p : ℕ → Bool) → ((r : ℕ) → r < n → p r ≡ false) → count_below n p ≡ 0
unfolding count_below
count_below-none zero p h = refl
count_below-none (suc n) p h =
    rw (h n (omega arith)) (omega (arith, count_below-none n p (λ r k. h r (omega arith))))

count_below_mono : (m n : ℕ) (p : ℕ → Bool) → count_below m p ≤ count_below (m + n) p
count_below_mono m n p = omega (arith, count_below-add m n p)

-- Whole rounds of a residue, and a rest.
count_below-mod :
    (q k : ℕ) (p : ℕ → Bool)
    → k ≤ 10000
    → count_below (q * 10000 + k) (λ u. p (u % 10000)) ≡ q * count_below 10000 p + count_below k p
count_below-mod zero k p h =
    let e : 0 * 10000 + k ≡ k = omega arith in
    rw e (
      count_below-congr k (λ u. p (u % 10000)) p
        (λ r lt. let m : r % 10000 ≡ r = omega arith in ap p m)
      ∙ omega arith)
count_below-mod (suc q) k p h =
    let rounds : ℕ = q * 10000 + k in
    let e : suc q * 10000 + k ≡ 10000 + rounds = omega arith in
    let first : count_below 10000 (λ u. p (u % 10000)) ≡ count_below 10000 p =
      count_below-congr 10000 (λ u. p (u % 10000)) p
        (λ r lt. let m : r % 10000 ≡ r = omega arith in ap p m) in
    let later : count_below rounds (λ r. p ((10000 + r) % 10000))
        ≡ count_below rounds (λ u. p (u % 10000)) =
      count_below-congr rounds (λ r. p ((10000 + r) % 10000)) (λ u. p (u % 10000))
        (λ r lt. let m : (10000 + r) % 10000 ≡ r % 10000 = omega arith in ap p m) in
    rw e (
      omega (
        arith,
        count_below-add 10000 rounds (λ u. p (u % 10000)),
        first,
        later,
        count_below-mod q k p h,
      ))

-- Whether a draw selected the segment with 1-based index `j`.
abbrev pub lands : ℕ → Result PickError (ℕ × ℤ) → Bool
lands j (ok (i, _)) = i == j
lands j (err _) = false

-- A loop that starts at 0-based index `i` never selects a segment before the next one.
not_earlier :
    (i r j : ℕ) (t : Table)
    → All IsDrawable t
    → r < total t
    → r ≤ max_int64
    → j ≤ i
    → lands j (select_from i (pos r) t) ≡ false
not_earlier i r j t d h k le =
    let s = select_from-Selects i r t d h k in rw s.returned (ground arith)

-- The loop after the first segment was passed over.
skipped :
    (i r : ℕ) (x : Seg) (t : Table)
    → IsDrawable x
    → pos_part x.weight + r ≤ max_int64
    → select_from i (pos (pos_part x.weight + r)) (x ∷ t) ≡ select_from (i + 1) (pos r) t
skipped i r x t d k =
    let e : pos_part x.weight + r - pos_part x.weight ≡ r = omega arith in
    select_from-skip i (pos_part x.weight + r) x t d k (omega arith)
    ∙ ap (λ n. select_from (i + 1) (pos n) t) e

-- Among the remainders below the sum of the weights, as many select a segment as its weight says.
odds_from :
    (i k : ℕ) (s : Seg) (t : Table)
    → All IsDrawable t
    → total t ≤ max_int64
    → get_elem? t k ≡ some s
    → count_below (total t) (λ r. lands (i + k + 1) (select_from i (pos r) t)) ≡ pos_part s.weight
odds_from i k s [] d h e = cc
odds_from i zero s (x ∷ t) d h e =
    let p : ℕ → Bool = λ r. lands (i + 0 + 1) (select_from i (pos r) (x ∷ t)) in
    let w : ℕ = pos_part x.weight in
    let own : count_below w p ≡ w =
      count_below-all w p (λ r lt. rw (select_from-hit i r x t lt) (ground arith)) in
    let rest : count_below (total t) (λ r. p (w + r)) ≡ 0 =
      count_below-none (total t) (λ r. p (w + r))
        λ r lt.
          rw (skipped i r x t d.0 (omega arith))
            (not_earlier (i + 1) r (i + 0 + 1) t d.1 lt (omega arith) (omega arith)) in
    count_below-add w (total t) p ∙ ground (arith, own, rest)
odds_from i (suc k) s (x ∷ t) d h e =
    let p : ℕ → Bool = λ r. lands (i + suc k + 1) (select_from i (pos r) (x ∷ t)) in
    let q : ℕ → Bool = λ r. lands (i + 1 + k + 1) (select_from (i + 1) (pos r) t) in
    let w : ℕ = pos_part x.weight in
    let own : count_below w p ≡ 0 =
      count_below-none w p (λ r lt. rw (select_from-hit i r x t lt) (ground arith)) in
    let j : i + suc k + 1 ≡ i + 1 + k + 1 = omega arith in
    let rest : count_below (total t) (λ r. p (w + r)) ≡ count_below (total t) q =
      count_below-congr (total t) (λ r. p (w + r)) q
        (λ r lt. rw (skipped i r x t d.0 (omega arith), j)) in
    count_below-add w (total t) p
    ∙ omega (arith, own, rest, odds_from (i + 1) k s t d.1 (omega arith) e)

-- The buffer that holds a word, most significant byte first.
abbrev pub bytes_of : ℕ → Buffer
bytes_of u = (u / 2 ^ 24, u / 2 ^ 16 % 256, u / 2 ^ 8 % 256, u % 256)

big_endian-bytes_of : (u : ℕ) → big_endian (bytes_of u) ≡ u
unfolding big_endian
big_endian-bytes_of u = omega arith

-- How many of the 2^32 buffers select the segment with 1-based index `j`.
abbrev pub draws : Table → ℕ → ℕ
draws t j = count_below (2 ^ 32) (λ u. lands j (pick_from (some (bytes_of u)) t))

draws-eq :
    (t : Table) (j : ℕ)
    → draws t j
      ≡ 429496 * count_below 10000 (λ r. lands j (select_from 0 (pos r) t))
        + count_below 7296 (λ r. lands j (select_from 0 (pos r) t))
unfolding pick_from
draws-eq t j =
    let p : ℕ → Bool = λ r. lands j (select_from 0 (pos r) t) in
    count_below-congr (2 ^ 32) (λ u. lands j (pick_from (some (bytes_of u)) t)) (λ u. p (u % 10000))
      (λ u lt. ap (λ n. p (n % 10000)) (big_endian-bytes_of u))
    ∙ count_below-mod 429496 7296 p (omega arith)

-- The odds are the weights. From a table whose segments can all be drawn and whose weights add up to
-- 10000, the number of the 2^32 equally likely buffers that select a segment is 429496 or 429497
-- times its weight, or in between: the bias of the modulo is at most one part in 429496.
pub odds_are_weights :
    (t : Table) (k : ℕ) (s : Seg)
    → All IsDrawable t
    → sum_weights t ≡ pos 10000
    → get_elem? t k ≡ some s
    → (429496 * pos_part s.weight ≤ draws t (k + 1))
      × (draws t (k + 1) ≤ 429497 * pos_part s.weight)
odds_are_weights t k s d e at =
    let q : ℕ → Bool = λ r. lands (k + 1) (select_from 0 (pos r) t) in
    let n : total t ≡ 10000 = ground (arith, sum_weights-eq-total t d) in
    let j : 0 + k + 1 ≡ k + 1 = omega arith in
    let whole : count_below 10000 q ≡ pos_part s.weight =
      rw (n, j) at (odds_from 0 k s t d (omega arith) at) in
    rw (draws-eq t (k + 1)) (omega (arith, whole, count_below_mono 7296 2704 q))
