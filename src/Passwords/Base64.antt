-- ===== src/Passwords/Base64.antt =====
-- What internal/auth/password.go uses of encoding/base64: RawStdEncoding, which pads nothing. A byte is a
-- number below 256; a text to decode may hold any characters, and its line breaks are skipped.
use braelaspin.Prelude.{
  ℕ, ◌+◌, ◌-◌, ◌*◌, ◌/◌, ◌%◌, ◌<◌, ◌≡◌, refl, ap, Bool, false, ◌&&◌, ◌||◌, Option, none, some, Text,
  List, [], ◌∷◌, All, arith, ltb, leb, ◌==◌, if◌then◌else◌,
}

-- The character of a group of six bits, and the group of a character.
abbrev pub char_of : ℕ → ℕ
char_of d =
    if ltb d 26
    then d + b'A'
    else if ltb d 52
    then d + 71
    else if ltb d 62
    then d - 4
    else if d == 62
    then b'+'
    else b'/'

abbrev group_of : ℕ → Option ℕ
group_of c =
    if leb b'A' c && leb c b'Z'
    then some (c - b'A')
    else if leb b'a' c && leb c b'z'
    then some (c - 71)
    else if leb b'0' c && leb c b'9'
    then some (c + 4)
    else if c == b'+'
    then some 62
    else if c == b'/'
    then some 63
    else none

-- EncodeToString
unfoldable pub encode : Text → Text
encode [] = []
encode (a ∷ []) = char_of (a / 4 % 64) ∷ char_of (a % 4 * 16) ∷ []
encode (a ∷ b ∷ []) =
    char_of (a / 4 % 64) ∷ char_of (a % 4 * 16 + b / 16 % 16) ∷ char_of (b % 16 * 4) ∷ []
encode (a ∷ b ∷ c ∷ rest) =
    char_of (a / 4 % 64)
    ∷ char_of (a % 4 * 16 + b / 16 % 16)
    ∷ char_of (b % 16 * 4 + c / 64 % 4)
    ∷ char_of (c % 64)
    ∷ encode rest

abbrev is_line_break : ℕ → Bool
is_line_break c = c == 10 || c == 13

abbrev put_group : Option ℕ → Option (List ℕ) → Option (List ℕ)
put_group none r = none
put_group (some g) none = none
put_group (some g) (some gs) = some (g ∷ gs)

-- the groups of the characters, none where one is not of the alphabet
unfoldable pub groups : Text → Option (List ℕ)
groups [] = some []
groups (c ∷ s) =
    let rest = groups s in if is_line_break c then rest else put_group (group_of c) rest

abbrev put_bytes : ℕ → ℕ → ℕ → Option Text → Option Text
put_bytes a b c none = none
put_bytes a b c (some rest) = some (a ∷ b ∷ c ∷ rest)

-- the bytes of the groups; the bits that are left over are dropped, and one group alone is an error
unfoldable pub joined : List ℕ → Option Text
joined [] = some []
joined (w ∷ []) = none
joined (w ∷ x ∷ []) = some ((w * 4 + x / 16) ∷ [])
joined (w ∷ x ∷ y ∷ []) = some ((w * 4 + x / 16) ∷ (x % 16 * 16 + y / 4) ∷ [])
joined (w ∷ x ∷ y ∷ z ∷ rest) =
    put_bytes (w * 4 + x / 16) (x % 16 * 16 + y / 4) (y % 4 * 64 + z) (joined rest)

abbrev joined_of : Option (List ℕ) → Option Text
joined_of none = none
joined_of (some gs) = joined gs

-- DecodeString; `none` for an error
unfoldable pub decode : Text → Option Text
decode s = joined_of (groups s)

abbrev pub IsBytes : Text → Type 0
IsBytes s = All (λ b. b < 256) s

group_char : (d : ℕ) → d < 64 → group_of (char_of d) ≡ some d
group_char d h = ground arith

not_break : (d : ℕ) → d < 64 → is_line_break (char_of d) ≡ false
not_break d h = ground arith

groups-char :
    (d : ℕ) (s : Text) (gs : List ℕ)
    → d < 64
    → groups s ≡ some gs
    → groups (char_of d ∷ s) ≡ some (d ∷ gs)
unfolding groups
groups-char d s gs h e = rw (not_break d h, group_char d h, e) refl

-- The groups that encode writes.
abbrev written : Text → List ℕ
written [] = []
written (a ∷ []) = (a / 4 % 64) ∷ (a % 4 * 16) ∷ []
written (a ∷ b ∷ []) = (a / 4 % 64) ∷ (a % 4 * 16 + b / 16 % 16) ∷ (b % 16 * 4) ∷ []
written (a ∷ b ∷ c ∷ rest) =
    (a / 4 % 64) ∷ (a % 4 * 16 + b / 16 % 16) ∷ (b % 16 * 4 + c / 64 % 4) ∷ (c % 64) ∷ written rest

groups_nil : groups [] ≡ some []
unfolding groups
groups_nil = refl

groups-encode : (s : Text) → groups (encode s) ≡ some (written s)
unfolding encode
groups-encode [] = groups_nil
groups-encode (a ∷ []) =
    groups-char _ _ _ (omega arith) (groups-char _ _ _ (omega arith) groups_nil)
groups-encode (a ∷ b ∷ []) =
    groups-char _ _ _ (omega arith)
      (groups-char _ _ _ (omega arith) (groups-char _ _ _ (omega arith) groups_nil))
groups-encode (a ∷ b ∷ c ∷ rest) = groups-char _ _ _ (omega arith) (
    groups-char _ _ _ (omega arith)
      (groups-char _ _ _ (omega arith) (groups-char _ _ _ (omega arith) (groups-encode rest))))

joined-written : (s : Text) → IsBytes s → joined (written s) ≡ some s
unfolding joined
joined-written [] k = refl
joined-written (a ∷ []) k = ap (λ x. some (x ∷ [])) (omega arith)
joined-written (a ∷ b ∷ []) k =
    let first : a / 4 % 64 * 4 + (a % 4 * 16 + b / 16 % 16) / 16 ≡ a = omega arith in
    let second : (a % 4 * 16 + b / 16 % 16) % 16 * 16 + b % 16 * 4 / 4 ≡ b = omega arith in
    rw (first, second) refl
joined-written (a ∷ b ∷ c ∷ rest) (ka, (kb, (kc, k))) =
    let first : a / 4 % 64 * 4 + (a % 4 * 16 + b / 16 % 16) / 16 ≡ a = omega arith in
    let second : (a % 4 * 16 + b / 16 % 16) % 16 * 16 + (b % 16 * 4 + c / 64 % 4) / 4 ≡ b =
      omega arith in
    let third : (b % 16 * 4 + c / 64 % 4) % 4 * 64 + c % 64 ≡ c = omega arith in
    rw (joined-written rest k, first, second, third) refl

-- Decoding what was encoded gives the same bytes.
pub decode-encode : (s : Text) → IsBytes s → decode (encode s) ≡ some s
unfolding decode
decode-encode s k = rw (groups-encode s) (joined-written s k)
