-- ===== src/Api/Pages.antt =====
-- internal/api/game.go: limits and pages.
use braelaspin.Prelude.{
  ℕ, ℤ, Bool, ◌≤◌, ◌∙◌, length, ltb, if◌then◌else◌, zero, suc, pos, ◌<◌, ◌≤ℤ◌, ◌<ℤ◌, ◌≡◌, ◌⊎◌, refl,
  ap, true, false, ◌&&◌, Option, none, some, Text, List, [], ◌∷◌, ◌++◌, All, arith, take, ◌==◌,
  Bool-cases, inl, inr,
}
use braelaspin.Database.{SpinRow}
use braelaspin.Database.Newest.{newest_first, IsDescending, AreDistinct, newest_first-IsDescending}
use braelaspin.Api.{page, clamp_limit, matching, select_spins, before, last_id, spins_page}

-- Whatever the client sends, the limit that a query gets is between 1 and the maximum, if the default is.
pub clamp_limit_lem :
    (raw : Text) (default max : ℤ)
    → pos 0 <ℤ default
    → default ≤ℤ max
    → (pos 0 <ℤ clamp_limit raw default max) × (clamp_limit raw default max ≤ℤ max)
unfolding clamp_limit
clamp_limit_lem raw default max h k = ground arith

abbrev id_of : SpinRow → ℕ
id_of s = s.id

matching-All :
    (P : SpinRow → Type 0) (u : ℕ) (c : Option ℤ) (rows : List SpinRow)
    → All P rows
    → All P (matching u c rows)
unfolding matching
matching-All P u c [] h = tt
matching-All P u c (s ∷ rows) h = elim (Bool-cases ((s.user_id == u) && before c s.id)) [
  | inl kept ↦ rw kept (h.0, matching-All P u c rows h.1)
  | inr dropped ↦ rw dropped (matching-All P u c rows h.1)
]

-- Below every row's id nothing is lost.
matching-below :
    (u c : ℕ) (rows : List SpinRow)
    → All (λ (t : SpinRow). t.id < c) rows
    → matching u (some (pos c)) rows ≡ matching u none rows
unfolding matching
matching-below u c [] h = refl
matching-below u c (s ∷ rows) h = ground (arith, matching-below u c rows h.1)

List-cases : {A : Type 0} (xs : List A) → (xs ≡ []) ⊎ ((x : A) × (ys : List A) × (xs ≡ x ∷ ys))
List-cases [] = inl refl
List-cases (x ∷ xs) = inr (x, xs, refl)

All-take : (P : SpinRow → Type 0) (n : ℕ) (rows : List SpinRow) → All P rows → All P (take n rows)
All-take P zero rows h = tt
All-take P (suc n) [] h = tt
All-take P (suc n) (s ∷ rows) h = (h.0, All-take P n rows h.1)

last_id_below :
    (k c : ℕ) (rows : List SpinRow)
    → All (λ (t : SpinRow). t.id < k) rows
    → last_id rows ≡ some (pos c)
    → c < k
last_id_below k c [] h e = cc
last_id_below k c (s ∷ []) h e = ground arith
last_id_below k c (s ∷ t ∷ rows) h e = last_id_below k c (t ∷ rows) h.1 e

take_nothing :
    (n : ℕ) (xs : List SpinRow)
    → take n xs ≡ []
    → (ys : List SpinRow) → ys ≡ xs
    → take n xs ++ ys ≡ xs
take_nothing n xs e ys same = rw e same

module _ (u c : ℕ) (s : SpinRow) (rows : List SpinRow)
    (below : All (λ (t : SpinRow). t.id < s.id) rows) (mine : (s.user_id == u) ≡ true) where
  kept : matching u none (s ∷ rows) ≡ s ∷ matching u none rows
  unfolding matching
  kept = ground arith

  skipped : c < suc s.id → matching u (some (pos c)) (s ∷ rows) ≡ matching u (some (pos c)) rows
  unfolding matching
  skipped h = ground arith

  page_of_one :
      (n : ℕ)
      → take n (matching u none rows) ≡ []
      → last_id (take (suc n) (matching u none (s ∷ rows))) ≡ some (pos c)
      → take (suc n) (matching u none (s ∷ rows)) ++ matching u (some (pos c)) (s ∷ rows)
        ≡ matching u none (s ∷ rows)
  page_of_one n e h =
      let k : last_id (s ∷ []) ≡ some (pos c) = rw (kept, e) at h in
      let same : s.id ≡ c = ground arith in
      let rest = matching-below u c rows (rw same at below) in
      rw (skipped (omega arith), kept, rest, e) refl

  page_of_more :
      (n : ℕ) (t : SpinRow) (ts : List SpinRow)
      → take n (matching u none rows) ≡ t ∷ ts
      → last_id (take (suc n) (matching u none (s ∷ rows))) ≡ some (pos c)
      → (last_id (take n (matching u none rows)) ≡ some (pos c)
          → take n (matching u none rows) ++ matching u (some (pos c)) rows ≡ matching u none rows)
      → take (suc n) (matching u none (s ∷ rows)) ++ matching u (some (pos c)) (s ∷ rows)
        ≡ matching u none (s ∷ rows)
  page_of_more n t ts e h ih =
      let k : last_id (s ∷ t ∷ ts) ≡ some (pos c) = rw (kept, e) at h in
      let k' : last_id (take n (matching u none rows)) ≡ some (pos c) = rw e k in
      let lt =
        last_id_below s.id c (take n (matching u none rows))
          (All-take _ n (matching u none rows) (matching-All _ u none rows below)) k' in
      rw (skipped (omega arith), kept) (ap (λ ys. s ∷ ys) (ih k'))

not_mine :
    (u : ℕ) (o : Option ℤ) (s : SpinRow) (rows : List SpinRow)
    → (s.user_id == u) ≡ false
    → matching u o (s ∷ rows) ≡ matching u o rows
unfolding matching
not_mine u o s rows h = ground arith

page_of_none :
    (u n c : ℕ)
    → take (suc n) (matching u none []) ++ matching u (some (pos c)) [] ≡ matching u none []
unfolding matching
page_of_none u n c = refl

-- A page that ends in the row with id `c`, and the rows below `c`.
page-rest :
    (u n c : ℕ) (rows : List SpinRow)
    → IsDescending id_of rows
    → last_id (take n (matching u none rows)) ≡ some (pos c)
    → take n (matching u none rows) ++ matching u (some (pos c)) rows ≡ matching u none rows
page-rest u zero c rows d h = cc
page-rest u (suc n) c [] d h = page_of_none u n c
page-rest u (suc n) c (s ∷ rows) d h = elim (Bool-cases (s.user_id == u)) [
  | inr other ↦
      rw (not_mine u (some (pos c)) s rows other, not_mine u none s rows other)
        (page-rest u (suc n) c rows d.1 (rw (not_mine u none s rows other) at h))
  | inl mine ↦ elim (List-cases (take n (matching u none rows))) [
    | inl e ↦ page_of_one u c s rows d.0 mine n e h
    | inr (t, ts, e) ↦ page_of_more u c s rows d.0 mine n t ts e h (λ k. page-rest u n c rows d.1 k)
  ]
]

last_id-some : (s : SpinRow) (rows : List SpinRow) → (c : ℕ) × (last_id (s ∷ rows) ≡ some (pos c))
last_id-some s [] = (s.id, refl)
last_id-some s (t ∷ rows) = last_id-some t rows

take_all : (n : ℕ) (rows : List SpinRow) → (length (take n rows) == n) ≡ false → take n rows ≡ rows
take_all zero rows h = cc
take_all (suc n) [] h = refl
take_all (suc n) (s ∷ rows) h = ap (λ t. s ∷ t) (take_all n rows (ground arith))

append_empty : (rows : List SpinRow) → rows ++ [] ≡ rows
append_empty [] = refl
append_empty (s ∷ rows) = ap (λ t. s ∷ t) (append_empty rows)

-- What the client still gets by following a cursor: nothing where there is none.
abbrev pub rest_of : ℕ → List SpinRow → Option ℤ → List SpinRow
rest_of u rows none = []
rest_of u rows (some c) = select_spins u (some c) rows

module _ (u n : ℕ) (rows : List SpinRow) (unique : AreDistinct id_of rows)
    (some_limit : 1 ≤ n) where
  abbrev all : List SpinRow
  all = select_spins u none rows

  full_page :
      (items : List SpinRow)
      → take n all ≡ items
      → (length items == n) ≡ true
      → items ++ rest_of u rows (if ltb 0 (length items) then last_id items else none) ≡ all
  full_page [] e h =
      let zero_limit : 0 ≡ n = ground arith in absurd (omega (arith, some_limit, zero_limit))
  full_page (s ∷ items) e h =
      let (c, last) = last_id-some s items in
      let rest =
        page-rest u n c (newest_first id_of rows) (newest_first-IsDescending id_of rows unique)
          (rw e last) in
      let some_items : ltb 0 (length (s ∷ items)) ≡ true = ground arith in
      rw (some_items, last) (rw e at rest)

  by_length :
      (b : Bool)
      → (length (take n all) == n) ≡ b
      → take n all
          ++ rest_of u rows
              (if b && ltb 0 (length (take n all)) then last_id (take n all) else none)
        ≡ all
  by_length true h = full_page (take n all) refl h
  by_length false h = append_empty (take n all) ∙ take_all n all h

  -- Following next_cursor loses and repeats no spin. Where no two rows of the table have the same id and the
  -- limit is at least 1, the items of a player's first page and what the query then finds with the page's
  -- cursor, or nothing if the page has no cursor, are together, in order, all of the player's spins.
  pub spins_page_follows :
      (spins_page u none n rows).items ++ rest_of u rows (spins_page u none n rows).next_cursor
      ≡ select_spins u none rows
  unfolding spins_page page
  spins_page_follows = by_length _ refl
