-- ===== src/Passwords/Fields.antt =====
-- internal/auth/password.go: the fields of a stored hash, written by Sprintf and read back by Split and
-- Sscanf.
use braelaspin.Prelude.{
  ℕ, pos, ◌+◌, ◌*◌, ◌/◌, ◌%◌, ◌^◌, ◌<◌, ◌≡◌, refl, ap, ◌∙◌, true, false, some, Text, [], ◌∷◌, ◌++◌,
  All, codes, arith, ltb, ◌==◌, is_digit, is_empty, digits_from, digits_value, decimal, parse_int,
  split, span, skip_blanks, IsDigits, digits_from-IsDigits, digits_value-from, nothing_left,
  span-append, skip_blanks-word, digit_not_space, scan_sign-digit, decimal_not_empty,
  parse_int-decimal,
}
use braelaspin.Passwords.{
  expect, scan_version, signed_value, signed_trimmed, signed_from, unsigned_value, unsigned_trimmed,
  unsigned_from, scan_unsigned,
}
use braelaspin.Passwords.Base64.{encode, char_of}

-- A text without the separator of the fields.
abbrev pub IsField : Text → Type 0
IsField s = All (λ c. (c == b'$') ≡ false) s

pub split-field :
    (s rest : Text) → IsField s → split b'$' (s ++ (b'$' ∷ rest)) ≡ s ∷ split b'$' rest
unfolding split
split-field [] rest k = refl
split-field (c ∷ s) rest k = rw (k.0, split-field s rest k.1) refl

pub split-last : (s : Text) → IsField s → split b'$' s ≡ s ∷ []
unfolding split
split-last [] k = refl
split-last (c ∷ s) k = rw (k.0, split-last s k.1) refl

pub append-IsField : (s t : Text) → IsField s → IsField t → IsField (s ++ t)
append-IsField [] t k h = h
append-IsField (c ∷ s) t k h = (k.0, append-IsField s t k.1 h)

char-IsField : (d : ℕ) → d < 64 → (char_of d == b'$') ≡ false
char-IsField d h = ground arith

-- What base64 writes is a field.
pub encode-IsField : (s : Text) → IsField (encode s)
unfolding encode
encode-IsField [] = tt
encode-IsField (a ∷ []) =
    (char-IsField (a / 4 % 64) (omega arith), (char-IsField (a % 4 * 16) (omega arith), tt))
encode-IsField (a ∷ b ∷ []) = (
  char-IsField (a / 4 % 64) (omega arith),
  (
    char-IsField (a % 4 * 16 + b / 16 % 16) (omega arith),
    (char-IsField (b % 16 * 4) (omega arith), tt),
  ),
)
encode-IsField (a ∷ b ∷ c ∷ rest) = (
  char-IsField (a / 4 % 64) (omega arith),
  (
    char-IsField (a % 4 * 16 + b / 16 % 16) (omega arith),
    (
      char-IsField (b % 16 * 4 + c / 64 % 4) (omega arith),
      (char-IsField (c % 64) (omega arith), encode-IsField rest),
    ),
  ),
)

digit-IsField : (c : ℕ) → is_digit c ≡ true → (c == b'$') ≡ false
digit-IsField c h = ground arith

digits-IsField : (s : Text) → IsDigits s → IsField s
digits-IsField [] k = tt
digits-IsField (c ∷ s) k = (digit-IsField c k.0, digits-IsField s k.1)

-- The decimal text of a natural number below 10^20.
abbrev pub digits : ℕ → Text
digits n = digits_from 20 n []

pub digits_IsDigits : (n : ℕ) → n < 10 ^ 20 → IsDigits (digits n)
digits_IsDigits n h = digits_from-IsDigits 20 n [] tt h

-- What Sprintf writes for a number is a field.
pub decimal-IsField : (n : ℕ) → n < 10 ^ 20 → IsField (decimal (pos n))
unfolding decimal
decimal-IsField n h = digits-IsField (digits n) (digits_IsDigits n h)

digits_back : (n : ℕ) → n < 10 ^ 20 → digits_value 0 (digits n) ≡ some n
digits_back n h = digits_value-from 20 n [] h ∙ nothing_left n

-- The literal characters of a format, read where they stand.
pub expect-append : (f s : Text) → expect f (f ++ s) ≡ some s
unfolding expect
expect-append [] s = refl
expect-append (c ∷ f) s =
    let same : (c == c) ≡ true = ground arith in rw (same, expect-append f s) refl

-- A number in front of a text that does not go on with a digit.
abbrev pub Stops : Text → Type 0
Stops rest = span is_digit rest ≡ ([], rest)

unsigned_value-digits :
    (w n : ℕ) (rest : Text)
    → n < 10 ^ 20
    → n < 2 ^ w
    → unsigned_value w (digits n, rest) ≡ some (n, rest)
unsigned_value-digits w n rest h small =
    let fits : ltb n (2 ^ w) ≡ true = ground arith in
    rw (decimal_not_empty n, digits_back n h, fits) refl

unsigned_trimmed-digits :
    (w : ℕ) (xs rest : Text)
    → IsDigits xs
    → is_empty xs ≡ false
    → Stops rest
    → unsigned_trimmed w (skip_blanks (xs ++ rest)) ≡ unsigned_value w (xs, rest)
unsigned_trimmed-digits w [] rest k full stops = absurd (cc)
unsigned_trimmed-digits w (c ∷ xs) rest k full stops =
    ap (unsigned_trimmed w) (skip_blanks-word c (xs ++ rest) (digit_not_space c k.0))
    ∙ ap (unsigned_value w) (span-append is_digit (c ∷ xs) rest k stops)

-- A verb %d reads the number that Sprintf wrote there, if it fits.
pub scan_unsigned-decimal :
    (w n : ℕ) (literal rest : Text)
    → n < 10 ^ 20
    → n < 2 ^ w
    → Stops rest
    → scan_unsigned w literal (literal ++ (decimal (pos n) ++ rest)) ≡ some (n, rest)
unfolding scan_unsigned decimal
scan_unsigned-decimal w n literal rest h small stops =
    ap (unsigned_from w) (expect-append literal (digits n ++ rest))
    ∙ (unsigned_trimmed-digits w (digits n) rest (digits_IsDigits n h) (decimal_not_empty n) stops
        ∙ unsigned_value-digits w n rest h small)

append_empty : (s : Text) → s ++ [] ≡ s
append_empty [] = refl
append_empty (c ∷ s) = ap (λ t. c ∷ t) (append_empty s)

span_nothing : Stops []
unfolding span
span_nothing = refl

span_all : (s : Text) → IsDigits s → span is_digit s ≡ (s, [])
span_all s k = rw (append_empty s) at (span-append is_digit s [] k span_nothing)

signed_trimmed-digits :
    (n : ℕ) (xs : Text)
    → IsDigits xs
    → is_empty xs ≡ false
    → parse_int xs ≡ some (pos n)
    → signed_trimmed (skip_blanks xs) ≡ some (pos n)
signed_trimmed-digits n [] k full e = absurd (cc)
signed_trimmed-digits n (c ∷ xs) k full e =
    ap signed_trimmed (skip_blanks-word c xs (digit_not_space c k.0))
    ∙ (ap signed_value (scan_sign-digit c xs k.0)
        ∙ (ap (λ (p : Text × Text). parse_int p.0) (span_all (c ∷ xs) k) ∙ e))

-- The version is read back.
pub scan_version-decimal :
    (n : ℕ) → n < 2 ^ 63 → scan_version (codes "v=" ++ decimal (pos n)) ≡ some (pos n)
unfolding scan_version decimal
scan_version-decimal n h =
    ap signed_from (expect-append (codes "v=") (digits n))
    ∙ signed_trimmed-digits n (digits n) (digits_IsDigits n (omega arith)) (decimal_not_empty n)
        (unfold decimal in parse_int-decimal n h)
