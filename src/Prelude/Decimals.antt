-- ===== src/Prelude/Decimals.antt =====
-- Decimal texts, read back by strconv and by the verbs of fmt.Sscanf.
use Prim.Native.Nat.{ℕ, zero, suc, ◌+◌, ◌*◌, ◌/◌, ◌%◌, ◌^◌, ◌<◌}
use mathlib.Core.Path.{◌≡◌, refl, ap, ◌∙◌}
use mathlib.Core.Bool.{Bool, true, false}
use mathlib.Core.List.{[], ◌∷◌, ◌++◌}
use mathlib.Core.Option.{Option, none, some}
use native.Mathlib.Omega.{arith}
use braelaspin.Prelude.Tests.{◌==◌, ltb, if◌then◌else◌}
use braelaspin.Prelude.Lists.{All}
use braelaspin.Prelude.Integers.{ℤ, pos}
use braelaspin.Prelude.Texts.{Text, digits_from, decimal}
use braelaspin.Prelude.Strings.{is_digit, is_space, is_empty, digits_value, parse_int}
use braelaspin.Prelude.Scan.{span, skip_blanks, scan_sign}

-- A text of decimal digits, and a text without blanks.
abbrev pub IsDigits : Text → Type 0
IsDigits s = All (λ c. is_digit c ≡ true) s

abbrev pub IsWord : Text → Type 0
IsWord s = All (λ c. is_space c ≡ false) s

digits_value-cons :
    (m d : ℕ) (rest : Text)
    → d < 10
    → digits_value m ((48 + d) ∷ rest) ≡ digits_value (m * 10 + d) rest
unfolding digits_value
digits_value-cons m d rest h = ground arith

pub digits_value-from :
    (fuel n : ℕ) (rest : Text)
    → n < 10 ^ fuel
    → digits_value 0 (digits_from fuel n rest) ≡ digits_value n rest
unfolding digits_from
digits_value-from zero n rest h = let none_left : n ≡ 0 = omega arith in rw none_left refl
digits_value-from (suc fuel) n rest h =
    by_size (ltb n 10) refl (λ d k small. digits_value-from fuel (n / 10) ((48 + d) ∷ rest) small)
  where
    by_size :
        (small : Bool)
        → ltb n 10 ≡ small
        → ((d : ℕ)
            → d < 10
            → n / 10 < 10 ^ fuel
            → digits_value 0 (digits_from fuel (n / 10) ((48 + d) ∷ rest))
              ≡ digits_value (n / 10) ((48 + d) ∷ rest))
        → digits_value 0
            (if small then (48 + n) ∷ rest else digits_from fuel (n / 10) ((48 + n % 10) ∷ rest))
          ≡ digits_value n rest
    by_size true e ih =
        let same : 0 * 10 + n ≡ n = omega arith in
        digits_value-cons 0 n rest (ground arith) ∙ ap (λ z. digits_value z rest) same
    by_size false e ih =
        let shifted : n / 10 * 10 + n % 10 ≡ n = omega arith in
        ih (n % 10) (omega arith) (omega arith)
        ∙ (digits_value-cons (n / 10) (n % 10) rest (omega arith)
            ∙ ap (λ z. digits_value z rest) shifted)

digit_code : (d : ℕ) → d < 10 → is_digit (48 + d) ≡ true
digit_code d h = ground arith

pub digits_from-IsDigits :
    (fuel n : ℕ) (rest : Text) → IsDigits rest → n < 10 ^ fuel → IsDigits (digits_from fuel n rest)
unfolding digits_from
digits_from-IsDigits zero n rest k h = k
digits_from-IsDigits (suc fuel) n rest k h =
    by_size (ltb n 10) refl
      (λ d small. digits_from-IsDigits fuel (n / 10) ((48 + n % 10) ∷ rest) (d, k) small)
  where
    by_size :
        (small : Bool)
        → ltb n 10 ≡ small
        → (is_digit (48 + n % 10) ≡ true
            → n / 10 < 10 ^ fuel
            → IsDigits (digits_from fuel (n / 10) ((48 + n % 10) ∷ rest)))
        → IsDigits
            (if small then (48 + n) ∷ rest else digits_from fuel (n / 10) ((48 + n % 10) ∷ rest))
    by_size true e ih = (digit_code n (ground arith), k)
    by_size false e ih = ih (digit_code (n % 10) (omega arith)) (omega arith)

read_value :
    (o : Option ℕ) (n : ℕ)
    → o ≡ some n
    → n < 2 ^ 63
    → let out : Option ℤ = elim o [
      | none ↦ none
      | some m ↦ (if ltb m (2 ^ 63) then some (pos m) else none)
    ] in
      out ≡ some (pos n)
read_value none n e h = absurd (cc)
read_value (some m) n e h = let same : m ≡ n = cc in ground arith

pub parse_int-digits :
    (s : Text) (n : ℕ)
    → IsDigits s
    → is_empty s ≡ false
    → digits_value 0 s ≡ some n
    → n < 2 ^ 63
    → parse_int s ≡ some (pos n)
unfolding parse_int
parse_int-digits [] n k full e h = absurd (cc)
parse_int-digits (c ∷ s) n k full e h =
    let minus : (c == b'-') ≡ false = ground (arith, k.0) in
    let plus : (c == b'+') ≡ false = ground (arith, k.0) in
    rw (minus, plus) (read_value (digits_value 0 (c ∷ s)) n e h)

pub span-append :
    (p : ℕ → Bool) (xs rest : Text)
    → All (λ c. p c ≡ true) xs
    → span p rest ≡ ([], rest)
    → span p (xs ++ rest) ≡ (xs, rest)
unfolding span
span-append p [] rest k h = h
span-append p (c ∷ xs) rest k h = rw (k.0, span-append p xs rest k.1 h) refl

pub newline : (c : ℕ) → is_space c ≡ false → (c == 10) ≡ false
unfolding is_space
newline c h = ground arith

pub skip_blanks-word : (c : ℕ) (s : Text) → is_space c ≡ false → skip_blanks (c ∷ s) ≡ some (c ∷ s)
unfolding skip_blanks
skip_blanks-word c s h = let line : (c == 10) ≡ false = newline c h in rw (line, h) refl

pub digit_not_space : (c : ℕ) → is_digit c ≡ true → is_space c ≡ false
unfolding is_space
digit_not_space c h = ground arith

pub scan_sign-digit : (c : ℕ) (s : Text) → is_digit c ≡ true → scan_sign (c ∷ s) ≡ ([], c ∷ s)
unfolding scan_sign
scan_sign-digit c s h = ground arith

digits_not_empty :
    (fuel n : ℕ) (rest : Text) → is_empty rest ≡ false → is_empty (digits_from fuel n rest) ≡ false
unfolding digits_from
digits_not_empty zero n rest h = h
digits_not_empty (suc fuel) n rest h =
    by_size (ltb n 10) (digits_not_empty fuel (n / 10) ((48 + n % 10) ∷ rest) refl)
  where
    by_size :
        (small : Bool)
        → is_empty (digits_from fuel (n / 10) ((48 + n % 10) ∷ rest)) ≡ false
        → is_empty
            (if small then (48 + n) ∷ rest else digits_from fuel (n / 10) ((48 + n % 10) ∷ rest))
          ≡ false
    by_size true k = refl
    by_size false k = k

pub decimal_not_empty : (n : ℕ) → is_empty (digits_from 20 n []) ≡ false
unfolding digits_from
decimal_not_empty n = by_size (ltb n 10) (digits_not_empty 19 (n / 10) ((48 + n % 10) ∷ []) refl)
  where
    by_size :
        (small : Bool)
        → is_empty (digits_from 19 (n / 10) ((48 + n % 10) ∷ [])) ≡ false
        → is_empty (if small then (48 + n) ∷ [] else digits_from 19 (n / 10) ((48 + n % 10) ∷ []))
          ≡ false
    by_size true k = refl
    by_size false k = k

pub nothing_left : (n : ℕ) → digits_value n [] ≡ some n
unfolding digits_value
nothing_left n = refl

-- The id of a user is read back from its decimal text.
pub parse_int-decimal : (n : ℕ) → n < 2 ^ 63 → parse_int (decimal (pos n)) ≡ some (pos n)
unfolding decimal
parse_int-decimal n h =
    parse_int-digits (digits_from 20 n []) n (digits_from-IsDigits 20 n [] tt (omega arith))
      (decimal_not_empty n) (digits_value-from 20 n [] (omega arith) ∙ nothing_left n) h
