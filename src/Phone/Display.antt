-- ===== src/Phone/Display.antt =====
-- internal/auth/phone.go: spellings of one number, and what Mask shows of it.
use braelaspin.Prelude.{
  ℕ, zero, suc, ◌-◌, ◌≡◌, ◌≤◌, refl, ap, ◌∙◌, Bool, true, false, ◌||◌, Text, [], ◌∷◌, ◌++◌, ok,
  length, length-append, take, drop, replicate, is_digit, is_space, not_blank, has_prefix, arith,
  ◌==◌,
}
use braelaspin.Users.Statements.{phone_allowed, all_chars}
use braelaspin.Phone.{clean_up, national_part, with_country, normalise, mask, pretty}
use braelaspin.Phone.Canonical.{all_chars-drop}

all_chars-take :
    (p : ℕ → Bool) (n : ℕ) (s : Text) → all_chars p s ≡ true → all_chars p (take n s) ≡ true
all_chars-take p zero s h = refl
all_chars-take p (suc n) [] h = refl
all_chars-take p (suc n) (c ∷ s) h = ground (arith, all_chars-take p n s)

take-drop : (n : ℕ) (s : Text) → take n s ++ drop n s ≡ s
take-drop zero s = refl
take-drop (suc n) [] = refl
take-drop (suc n) (c ∷ s) = ap (λ t. c ∷ t) (take-drop n s)

drop-drop : (s : Text) → drop 3 (drop 3 s) ≡ drop 6 s
drop-drop [] = refl
drop-drop (a ∷ []) = refl
drop-drop (a ∷ b ∷ []) = refl
drop-drop (a ∷ b ∷ c ∷ s) = refl

-- Digits come through the clean-up as they are, whatever follows.
clean_up-append :
    (a s : Text)
    → all_chars is_digit a ≡ true
    → clean_up (a ++ s) ≡ (a ++ (clean_up s).0, (clean_up s).1)
unfolding clean_up
clean_up-append [] s h = refl
clean_up-append (c ∷ a) s h = ground (arith, clean_up-append a s)

append_nil : (a : Text) → a ++ [] ≡ a
append_nil [] = refl
append_nil (c ∷ a) = ap (λ t. c ∷ t) (append_nil a)

clean_up-plain : (a : Text) → all_chars is_digit a ≡ true → clean_up a ≡ (a, false)
unfolding clean_up
clean_up-plain [] h = refl
clean_up-plain (c ∷ a) h = ground (arith, clean_up-plain a)

clean_up-space : (s : Text) → clean_up (b' ' ∷ s) ≡ clean_up s
unfolding clean_up
clean_up-space s = refl

clean_up-plus : (s : Text) → clean_up (b'+' ∷ s) ≡ clean_up s
unfolding clean_up
clean_up-plus s = refl

abbrev grouped : Text → Text
grouped n = take 3 n ++ (b' ' ∷ (take 3 (drop 3 n) ++ (b' ' ∷ drop 6 n)))

clean_up-grouped : (n : Text) → all_chars is_digit n ≡ true → clean_up (grouped n) ≡ (n, false)
clean_up-grouped n h =
    let a =
      clean_up-append (take 3 n) (b' ' ∷ (take 3 (drop 3 n) ++ (b' ' ∷ drop 6 n)))
        (all_chars-take is_digit 3 n h) in
    let b =
      clean_up-append (take 3 (drop 3 n)) (b' ' ∷ drop 6 n)
        (all_chars-take is_digit 3 (drop 3 n) (all_chars-drop is_digit 3 n h)) in
    let c = clean_up-plain (drop 6 n) (all_chars-drop is_digit 6 n h) in
    let whole : take 3 n ++ (take 3 (drop 3 n) ++ drop 6 n) ≡ n =
      rw (← drop-drop n, take-drop 3 (drop 3 n)) (take-drop 3 n) in
    rw (a, clean_up-space, b, clean_up-space, c) (ap (λ t. (t, false)) whole)

clean_up-zero : (s d : Text) → clean_up s ≡ (d, false) → clean_up (b'0' ∷ s) ≡ (b'0' ∷ d, false)
unfolding clean_up
clean_up-zero s d h = ground arith

-- A canonical number: the nine digits after the country code.
record Canonical (p : Text) : Type 0 where
  first : ℕ
  rest : Text
  whole : p ≡ b'2' ∷ b'5' ∷ b'4' ∷ first ∷ rest
  mobile : (first == b'1') || (first == b'7') ≡ true
  digits : all_chars is_digit rest ≡ true
  eight : length rest ≡ 8

canonical : (p : Text) → phone_allowed p ≡ true → Canonical p
unfolding phone_allowed
canonical [] h = absurd (ground arith)
canonical (a ∷ []) h = absurd (ground arith)
canonical (a ∷ b ∷ []) h = absurd (ground arith)
canonical (a ∷ b ∷ c ∷ []) h = absurd (ground arith)
canonical (a ∷ b ∷ c ∷ d ∷ rest) h = record {
  first = d;
  rest = rest;
  whole = ground arith;
  mobile = ground arith;
  digits = ground arith;
  eight = ground arith;
}

module _ (first : ℕ) (rest : Text) (mobile : (first == b'1') || (first == b'7') ≡ true)
    (digits : all_chars is_digit rest ≡ true) (eight : length rest ≡ 8) where
  nine_digits : all_chars is_digit (first ∷ rest) ≡ true
  nine_digits = ground arith

  country : with_country (first ∷ rest) ≡ ok (b'2' ∷ b'5' ∷ b'4' ∷ first ∷ rest)
  unfolding with_country
  country = ground arith

  from_international : national_part (b'2' ∷ b'5' ∷ b'4' ∷ first ∷ rest) ≡ ok (first ∷ rest)
  unfolding national_part has_prefix
  from_international = ground arith

  from_local : national_part (b'0' ∷ first ∷ rest) ≡ ok (first ∷ rest)
  unfolding national_part has_prefix
  from_local = ground arith

  from_national : national_part (first ∷ rest) ≡ ok (first ∷ rest)
  unfolding national_part has_prefix
  from_national = ground arith

  -- Every accepted spelling, after the clean-up, is one of three.
  spelled :
      (c : ℕ) (s d : Text)
      → is_space c ≡ false
      → clean_up (c ∷ s) ≡ (d, false)
      → national_part d ≡ ok (first ∷ rest)
      → normalise (c ∷ s) ≡ ok (b'2' ∷ b'5' ∷ b'4' ∷ first ∷ rest)
  unfolding normalise
  spelled c s d blank cleaned found = rw (cleaned, not_blank c s blank, found) country

  fixed_lem : normalise (b'2' ∷ b'5' ∷ b'4' ∷ first ∷ rest) ≡ ok (b'2' ∷ b'5' ∷ b'4' ∷ first ∷ rest)
  unfolding is_space
  fixed_lem =
      spelled b'2' _ (b'2' ∷ b'5' ∷ b'4' ∷ first ∷ rest) refl
        (clean_up-plain (b'2' ∷ b'5' ∷ b'4' ∷ first ∷ rest) (ground arith)) from_international

  plus_lem :
      normalise (b'+' ∷ b'2' ∷ b'5' ∷ b'4' ∷ first ∷ rest) ≡ ok (b'2' ∷ b'5' ∷ b'4' ∷ first ∷ rest)
  unfolding is_space
  plus_lem =
      spelled b'+' _ (b'2' ∷ b'5' ∷ b'4' ∷ first ∷ rest) refl
        (clean_up-plus _ ∙ clean_up-plain (b'2' ∷ b'5' ∷ b'4' ∷ first ∷ rest) (ground arith))
        from_international

  pretty_shape : pretty (b'2' ∷ b'5' ∷ b'4' ∷ first ∷ rest) ≡ b'0' ∷ grouped (first ∷ rest)
  unfolding pretty has_prefix
  pretty_shape = rw eight refl

  pretty_lem :
      normalise (pretty (b'2' ∷ b'5' ∷ b'4' ∷ first ∷ rest))
      ≡ ok (b'2' ∷ b'5' ∷ b'4' ∷ first ∷ rest)
  unfolding is_space
  pretty_lem = rw pretty_shape (
      spelled b'0' (grouped (first ∷ rest)) (b'0' ∷ first ∷ rest) refl
        (clean_up-zero (grouped (first ∷ rest)) (first ∷ rest)
          (clean_up-grouped (first ∷ rest) nine_digits))
        from_local)

-- One number, one spelling in the database. A canonical number, the same with a leading plus, and the
-- form in which the app shows it all normalise to the number itself.
pub spellings_agree :
    (p : Text)
    → phone_allowed p ≡ true
    → (normalise p ≡ ok p) × (normalise (b'+' ∷ p) ≡ ok p) × (normalise (pretty p) ≡ ok p)
spellings_agree p h =
    let c = canonical p h in
    rw c.whole (
      fixed_lem c.first c.rest c.mobile c.digits c.eight,
      plus_lem c.first c.rest c.mobile c.digits c.eight,
      pretty_lem c.first c.rest c.mobile c.digits c.eight,
    )

length-drop : (n : ℕ) (s : Text) → length (drop n s) ≡ length s - n
length-drop zero s = omega arith
length-drop (suc n) [] = omega arith
length-drop (suc n) (c ∷ s) = omega (arith, length-drop n s)

length-replicate : (n c : ℕ) → length (replicate n c) ≡ n
length-replicate zero c = refl
length-replicate (suc n) c = ap suc (length-replicate n c)

length-take : (n : ℕ) (s : Text) → n ≤ length s → length (take n s) ≡ n
length-take zero s h = refl
length-take (suc n) [] h = absurd (omega arith)
length-take (suc n) (c ∷ s) h = omega (arith, length-take n s (omega arith))

-- What Mask shows depends on the first four bytes, the last three and the length only: two numbers
-- that agree there have the same mask. A mask of seven bytes or more is as long as the number.
pub mask_hides :
    (p q : Text)
    → length p ≡ length q
    → take 4 p ≡ take 4 q
    → drop (length p - 3) p ≡ drop (length q - 3) q
    → (mask p ≡ mask q) × (7 ≤ length p → length (mask p) ≡ length p)
unfolding mask
mask_hides p q e f g = (
  rw (f, g, e) refl,
  λ h.
      let parts =
        length-append (take 4 p) (replicate (length p - 7) b'*' ++ drop (length p - 3) p) in
      let more = length-append (replicate (length p - 7) b'*') (drop (length p - 3) p) in
      ground (
        arith,
        parts,
        more,
        length-take 4 p (omega arith),
        length-replicate (length p - 7) b'*',
        length-drop (length p - 3) p,
      ),
)
