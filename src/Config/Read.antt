-- ===== src/Config/Read.antt =====
-- internal/config/config.go: the loader. What it collects in `probs` is the second part of every
-- result. The grammars of time.ParseDuration, net.ParseCIDR and url.Parse are parameters.
use braelaspin.Prelude.{
  ℕ, ℤ, pos, negsuc, ◌-◌, ◌%◌, ◌^◌, Bool, true, false, ◌||◌, Option, none, some, Text, List, [],
  ◌∷◌, ◌++◌, codes, trim, is_empty, split, parse_int, ltb, ltb_ℤ, leb_ℤ, if◌then◌else◌, text_eq,
}

-- What `bad` reports of a key; the texts are left out.
pub data Problem : Type 0 where
  not_set not_one_of not_an_integer not_boolean not_a_duration not_positive not_basis_points
        not_a_block not_a_url below_the_other above_the_other too_short sandbox unsafe :
      Text → Problem

-- The standard library's grammars: durations in nanoseconds, address blocks, and whether a text is a
-- URL with a scheme and a host.
pub record Grammar : Type 0 where
  pub duration : Text → Option ℤ
  pub block : Text → Option Text
  pub is_absolute_url : Text → Bool

abbrev pub Env : Type 0
Env = Text → Text

abbrev pub Problems : Type 0
Problems = List Problem

-- req
unfoldable pub req : Env → Text → Text × Problems
req env key = let v = trim (env key) in (v, if is_empty v then not_set key ∷ [] else [])

-- str
unfoldable pub str : Env → Text → Text → Text
str env key default = let v = trim (env key) in if is_empty v then default else v

abbrev pub among : Text → List Text → Bool
among v [] = false
among v (a ∷ rest) = text_eq v a || among v rest

-- oneOf
unfoldable pub one_of : Env → Text → Text → List Text → Text × Problems
unfolding str
one_of env key default allowed =
    let v = str env key default in
    if among v allowed then (v, []) else (default, not_one_of key ∷ [])

-- i64 and intn, which are the same on a 64-bit int
unfoldable pub i64 : Env → Text → ℤ → ℤ × Problems
i64 env key default =
    let raw = trim (env key) in
    if is_empty raw
    then (default, [])
    else elim (parse_int raw) [ none ↦ (default, not_an_integer key ∷ []) | some n ↦ (n, []) ]

-- strconv.ParseBool
unfoldable pub parse_bool : Text → Option Bool
parse_bool s =
    if among s (codes "1" ∷ codes "t" ∷ codes "T" ∷ codes "TRUE" ∷ codes "true" ∷ codes "True" ∷ [])
    then some true
    else if among s
        (codes "0" ∷ codes "f" ∷ codes "F" ∷ codes "FALSE" ∷ codes "false" ∷ codes "False" ∷ [])
    then some false
    else none

-- boolean
unfoldable pub boolean : Env → Text → Bool → Bool × Problems
unfolding parse_bool
boolean env key default =
    let raw = trim (env key) in
    if is_empty raw
    then (default, [])
    else elim (parse_bool raw) [ none ↦ (default, not_boolean key ∷ []) | some b ↦ (b, []) ]

-- dur
unfoldable pub dur : Grammar → Env → Text → ℤ → ℤ × Problems
dur g env key default =
    let raw = trim (env key) in
    if is_empty raw then (default, []) else elim (g.duration raw) [
      | none ↦ (default, not_a_duration key ∷ [])
      | some d ↦ (if leb_ℤ d (pos 0) then (default, not_positive key ∷ []) else (d, []))
    ]

-- bp
unfoldable pub bp : Env → Text → ℤ → ℤ × Problems
unfolding i64
bp env key default =
    let (n, probs) = i64 env key default in
    if ltb_ℤ n (pos 0) || ltb_ℤ (pos 10000) n
    then (default, probs ++ (not_basis_points key ∷ []))
    else (n, probs)

-- the loop of cidrs
unfoldable pub blocks_from : Grammar → Text → List Text → List Text × Problems
blocks_from g key [] = ([], [])
blocks_from g key (part ∷ parts) =
    let (rest, probs) = blocks_from g key parts in
    let p = trim part in
    if is_empty p
    then (rest, probs)
    else elim (g.block p) [ none ↦ (rest, not_a_block key ∷ probs) | some n ↦ (n ∷ rest, probs) ]

-- cidrs
unfoldable pub cidrs : Grammar → Env → Text → Text → List Text × Problems
unfolding blocks_from str
cidrs g env key default =
    let raw = str env key default in
    if is_empty raw then ([], []) else blocks_from g key (split b',' raw)

abbrev pub trimmed_parts : List Text → List Text
trimmed_parts [] = []
trimmed_parts (part ∷ parts) =
    let p = trim part in if is_empty p then trimmed_parts parts else p ∷ trimmed_parts parts

-- csv
unfoldable pub csv : Env → Text → Text → List Text
unfolding str
csv env key default =
    let raw = str env key default in if is_empty raw then [] else trimmed_parts (split b',' raw)

-- urlish
unfoldable pub urlish : Grammar → Env → Text → Text → Text × Problems
unfolding str
urlish g env key default =
    let v = str env key default in
    if is_empty v
    then (v, not_set key ∷ [])
    else (v, if g.is_absolute_url v then [] else not_a_url key ∷ [])

-- Go's conversions to a narrower type
abbrev pub unsigned : ℕ → ℤ → ℕ
unsigned width (pos n) = n % 2 ^ width
unsigned width (negsuc n) = 2 ^ width - 1 - n % 2 ^ width

unfoldable pub int32 : ℤ → ℤ
int32 z = let u = unsigned 32 z in if ltb u (2 ^ 31) then pos u else negsuc (2 ^ 32 - 1 - u)
