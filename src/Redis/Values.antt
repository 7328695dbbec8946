-- ===== src/Redis/Values.antt =====
-- internal/rds/rds.go: the text of a refresh token's key, written and read back.
use braelaspin.Prelude.{
  Bool, ℕ, ℤ, pos, ◌^◌, ◌<◌, ◌≡◌, refl, ap, true, false, not, some, Text, [], ◌∷◌, ◌++◌, All, arith,
  is_digit, is_space, is_empty, digits_from, decimal, parse_int, span, IsDigits, IsWord,
  digits_from-IsDigits, span-append, skip_blanks-word, digit_not_space, scan_sign-digit,
  decimal_not_empty, parse_int-decimal,
}
use braelaspin.Redis.{scan_word, scan_family, scan_digits, scan_refresh, refresh_value}

word_chars : (s : Text) → IsWord s → All (λ c. not (is_space c) ≡ true) s
word_chars [] k = tt
word_chars (c ∷ s) k = (rw k.0 refl, word_chars s k.1)

append_empty : (s : Text) → s ++ [] ≡ s
append_empty [] = refl
append_empty (c ∷ s) = ap (λ t. c ∷ t) (append_empty s)

span_nil : (p : ℕ → Bool) → span p [] ≡ ([], [])
unfolding span
span_nil p = refl

scan_word-word : (s : Text) → IsWord s → is_empty s ≡ false → scan_word s ≡ some s
unfolding scan_word
scan_word-word [] k full = absurd (cc)
scan_word-word (c ∷ s) k full =
    let all : span (λ d. not (is_space d)) (c ∷ s) ≡ (c ∷ s, []) =
      rw (append_empty (c ∷ s)) at
        (span-append (λ d. not (is_space d)) (c ∷ s) [] (word_chars (c ∷ s) k) (span_nil _)) in
    rw (skip_blanks-word c s k.0, all, scan_word) refl

stops : (f : Text) → span is_digit (b'|' ∷ f) ≡ ([], b'|' ∷ f)
unfolding span
stops f = refl

scan_family-bar :
    (z : ℤ) (f : Text) → IsWord f → is_empty f ≡ false → scan_family z (b'|' ∷ f) ≡ some (z, f)
unfolding scan_family
scan_family-bar z f k full = rw (scan_word-word f k full) refl

scan_digits_lem :
    (xs f : Text) (z : ℤ)
    → IsDigits xs
    → parse_int xs ≡ some z
    → IsWord f
    → is_empty f ≡ false
    → scan_digits ([], xs ++ (b'|' ∷ f)) ≡ some (z, f)
scan_digits_lem xs f z k e kf ff =
    let run = span-append is_digit xs (b'|' ∷ f) k (stops f) in
    rw (run, e, scan_digits) (rw run (scan_family-bar z f kf ff))

scan_refresh-digits :
    (xs f : Text) (z : ℤ)
    → IsDigits xs
    → is_empty xs ≡ false
    → parse_int xs ≡ some z
    → IsWord f
    → is_empty f ≡ false
    → scan_refresh (xs ++ (b'|' ∷ f)) ≡ some (z, f)
unfolding scan_refresh
scan_refresh-digits [] f z k full e kf ff = absurd (cc)
scan_refresh-digits (c ∷ xs) f z k full e kf ff =
    rw
      (
        skip_blanks-word c (xs ++ (b'|' ∷ f)) (digit_not_space c k.0),
        scan_refresh,
        scan_sign-digit c (xs ++ (b'|' ∷ f)) k.0,
      )
      (scan_digits_lem (c ∷ xs) f z k e kf ff)

-- What PutRefresh stores for a user and a family is what GetRefresh and ConsumeRefresh read: the text
-- scans to the same two, for an id below 2^63 and a family that is a word.
pub scan_refresh-refresh_value :
    (user_id : ℕ) (family : Text)
    → user_id < 2 ^ 63
    → IsWord family
    → is_empty family ≡ false
    → scan_refresh (refresh_value (pos user_id) family) ≡ some (pos user_id, family)
unfolding refresh_value decimal
scan_refresh-refresh_value user_id family h k full =
    scan_refresh-digits (digits_from 20 user_id []) family (pos user_id)
      (digits_from-IsDigits 20 user_id [] tt (omega arith)) (decimal_not_empty user_id)
      (parse_int-decimal user_id h) k full
