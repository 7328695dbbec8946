-- ===== src/Prelude/Strings.antt =====
-- What the source uses of Go's strings and strconv, on texts of code points.
use Prim.Native.Nat.{ℕ, ◌+◌, ◌-◌, ◌*◌, ◌^◌}
use mathlib.Core.Path.{◌≡◌, refl}
use mathlib.Core.Bool.{Bool, true, false, ◌&&◌, ◌||◌}
use mathlib.Core.List.{List, [], ◌∷◌}
use mathlib.Core.Option.{Option, none, some}
use braelaspin.Prelude.Tests.{◌==◌, ltb, leb, if◌then◌else◌}
use braelaspin.Prelude.Integers.{ℤ, pos, neg_ℕ}
use braelaspin.Prelude.Texts.{Text}

abbrev pub is_digit : ℕ → Bool
is_digit c = leb b'0' c && leb c b'9'

-- unicode.IsSpace
unfoldable pub is_space : ℕ → Bool
is_space c =
    (leb 9 c && leb c 13)
    || c == 32
    || c == 133
    || c == 160
    || c == 5760
    || (leb 8192 c && leb c 8202)
    || c == 8232
    || c == 8233
    || c == 8239
    || c == 8287
    || c == 12288

abbrev trim_left : Text → Text
trim_left [] = []
trim_left (c ∷ s) = if is_space c then trim_left s else c ∷ s

abbrev keep_char : Bool → ℕ → Text → Text
keep_char space c [] = if space then [] else c ∷ []
keep_char space c (d ∷ t) = c ∷ d ∷ t

abbrev trim_right : Text → Text
trim_right [] = []
trim_right (c ∷ s) = keep_char (is_space c) c (trim_right s)

-- strings.TrimSpace
unfoldable pub trim : Text → Text
trim s = trim_right (trim_left s)

-- s == ""
abbrev pub is_empty : Text → Bool
is_empty [] = true
is_empty (c ∷ s) = false

keep_char-not_empty : (c : ℕ) (s : Text) → is_empty (keep_char false c s) ≡ false
keep_char-not_empty c [] = refl
keep_char-not_empty c (d ∷ s) = refl

-- A text that begins with a character other than a space is not blank.
pub not_blank : (c : ℕ) (s : Text) → is_space c ≡ false → is_empty (trim (c ∷ s)) ≡ false
unfolding trim
not_blank c s h = rw (h, h) (keep_char-not_empty c (trim_right s))

-- strings.HasPrefix(s, p)
unfoldable pub has_prefix : Text → Text → Bool
has_prefix s [] = true
has_prefix [] (d ∷ p) = false
has_prefix (c ∷ s) (d ∷ p) = c == d && has_prefix s p

-- strings.Contains(s, p)
unfoldable pub contains : Text → Text → Bool
unfolding has_prefix
contains [] p = has_prefix [] p
contains (c ∷ s) p = has_prefix (c ∷ s) p || contains s p

abbrev prepend : {A : Type 0} → A → List (List A) → List (List A)
prepend a [] = (a ∷ []) ∷ []
prepend a (x ∷ xs) = (a ∷ x) ∷ xs

-- strings.Split(s, sep), for a separator of one character
unfoldable pub split : ℕ → Text → List Text
split sep [] = [] ∷ []
split sep (c ∷ s) = let rest = split sep s in if c == sep then [] ∷ rest else prepend c rest

-- len(s), the bytes of the UTF-8 encoding
unfoldable pub byte_length : Text → ℕ
byte_length [] = 0
byte_length (c ∷ s) =
    (if ltb c 128 then 1 else if ltb c 2048 then 2 else if ltb c 65536 then 3 else 4)
    + byte_length s

-- strings.TrimRight(s, "/")
unfoldable pub trim_slashes : Text → Text
trim_slashes [] = []
trim_slashes (c ∷ s) =
    let rest = trim_slashes s in
    elim rest [ [] ↦ (if c == b'/' then [] else c ∷ []) | d ∷ t ↦ c ∷ d ∷ t ]

-- The value of a text of digits, after the value `n`.
unfoldable pub digits_value : ℕ → Text → Option ℕ
digits_value n [] = some n
digits_value n (c ∷ s) = if is_digit c then digits_value (n * 10 + (c - 48)) s else none

abbrev within : Bool → ℕ → Option ℤ
within negative n =
    if negative
    then (if leb n (2 ^ 63) then some (neg_ℕ n) else none)
    else (if ltb n (2 ^ 63) then some (pos n) else none)

abbrev digits_of : Bool → Text → Option ℤ
digits_of negative [] = none
digits_of negative (c ∷ s) = elim (digits_value 0 (c ∷ s)) [
  | none ↦ none
  | some n ↦ within negative n
]

-- strconv.ParseInt(s, 10, 64), and strconv.Atoi; `none` for either error
unfoldable pub parse_int : Text → Option ℤ
unfolding digits_value
parse_int [] = none
parse_int (c ∷ s) =
    if c == b'-'
    then digits_of true s
    else if c == b'+'
    then digits_of false s
    else digits_of false (c ∷ s)
