-- ===== src/Database/Newest.antt =====
-- ORDER BY id DESC, as in the queries of internal/api/game.go.
use braelaspin.Prelude.{
  ℕ, ◌<◌, ◌≢◌, List, [], ◌∷◌, All, arith, Bool, true, false, ltb, Bool-cases, inl, inr,
  if◌then◌else◌,
}

module _ {A : Type 0} (id : A → ℕ) where
  unfoldable pub put_in : A → List A → List A
  put_in a [] = a ∷ []
  put_in a (x ∷ xs) = let rest = put_in a xs in if ltb (id x) (id a) then a ∷ x ∷ xs else x ∷ rest

  unfoldable pub newest_first : List A → List A
  newest_first [] = []
  newest_first (a ∷ rows) = put_in a (newest_first rows)

  abbrev pub IsDescending : List A → Type 0
  IsDescending [] = Unit {0}
  IsDescending (a ∷ rows) = All (λ t. id t < id a) rows × IsDescending rows

  -- No two rows have the same id, as the primary key of a table has it.
  abbrev pub AreDistinct : List A → Type 0
  AreDistinct [] = Unit {0}
  AreDistinct (a ∷ rows) = All (λ t. id t ≢ id a) rows × AreDistinct rows

  pub put_in-All : (P : A → Type 0) (a : A) (xs : List A) → P a → All P xs → All P (put_in a xs)
  unfolding put_in
  put_in-All P a [] h k = (h, tt)
  put_in-All P a (x ∷ xs) h k = by_test (ltb (id x) (id a)) (put_in-All P a xs h k.1)
    where
      by_test : (b : Bool) → All P (put_in a xs) → All P (if b then a ∷ x ∷ xs else x ∷ put_in a xs)
      by_test true rest = (h, k)
      by_test false rest = (k.0, rest)

  pub newest_first-All : (P : A → Type 0) (xs : List A) → All P xs → All P (newest_first xs)
  unfolding newest_first
  newest_first-All P [] k = tt
  newest_first-All P (a ∷ xs) k = put_in-All P a (newest_first xs) k.0 (newest_first-All P xs k.1)

  below_all :
      (a x : A) (xs : List A) → id x < id a → All (λ t. id t < id x) xs → All (λ t. id t < id a) xs
  below_all a x [] h k = tt
  below_all a x (y ∷ ys) h k = (omega (arith, h, k.0), below_all a x ys h k.1)

  put_in-IsDescending :
      (a : A) (xs : List A)
      → IsDescending xs
      → All (λ t. id t ≢ id a) xs
      → IsDescending (put_in a xs)
  unfolding put_in
  put_in-IsDescending a [] d h = (tt, tt)
  put_in-IsDescending a (x ∷ xs) d h = elim (Bool-cases (ltb (id x) (id a))) [
    | inl e ↦ let lt : id x < id a = ground arith in rw e ((lt, below_all a x xs lt d.0), d)
    | inr e ↦
        let gt : id a < id x = ground (arith, h.0) in
        rw e (put_in-All (λ t. id t < id x) a xs gt d.0, put_in-IsDescending a xs d.1 h.1)
  ]

  pub newest_first-IsDescending :
      (rows : List A) → AreDistinct rows → IsDescending (newest_first rows)
  unfolding newest_first
  newest_first-IsDescending [] h = tt
  newest_first-IsDescending (a ∷ rows) h =
      put_in-IsDescending a (newest_first rows) (newest_first-IsDescending rows h.1)
        (newest_first-All (λ t. id t ≢ id a) rows h.0)
