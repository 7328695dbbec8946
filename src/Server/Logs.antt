-- ===== src/Server/Logs.antt =====
-- cmd/api/main.go: newLogger's level, and redact, which every attribute of a log line passes. The value of an
-- attribute that is no string is a parameter of its type, and so is unicode.ToLower beyond ASCII.
use braelaspin.Prelude.{
  ◌⊎◌, inl, inr, ◌≤◌, arith, ℕ, ◌+◌, ◌-◌, ◌≡◌, refl, Bool, true, false, ◌&&◌, Text, List, [], ◌∷◌,
  codes, text_eq, leb, ltb, length, take, drop, if◌then◌else◌,
}
use braelaspin.Phone.{mask}

-- slog.Level
pub data Level : Type 0 where
  debug info warn error : Level

-- the level that newLogger takes of LOG_LEVEL
unfoldable pub level_of : Text → Level
level_of s =
    if text_eq s (codes "debug")
    then debug
    else if text_eq s (codes "warn")
    then warn
    else if text_eq s (codes "error")
    then error
    else info

-- slog.Value: a string, or a value of another kind
pub data Value (A : Type 0) : Type 0 where
  text : Text → Value A
  other : A → Value A

-- slog.Attr
pub record Attr (A : Type 0) : Type 0 where
  pub key : Text
  pub value : Value A

-- redactedKeys
abbrev pub redacted_keys : List Text
redacted_keys =
    codes "password"
    ∷ codes "password_hash"
    ∷ codes "authorization"
    ∷ codes "refresh"
    ∷ codes "refresh_token"
    ∷ codes "access"
    ∷ codes "access_token"
    ∷ codes "jwt_secret"
    ∷ codes "secret"
    ∷ codes "passkey"
    ∷ codes "securitycredential"
    ∷ codes "security_credential"
    ∷ codes "initiator_password"
    ∷ codes "consumer_secret"
    ∷ codes "pin"
    ∷ codes "token"
    ∷ []

abbrev is_among : Text → List Text → Bool
is_among k [] = false
is_among k (x ∷ xs) = if text_eq x k then true else is_among k xs

module _ (lower_rune : ℕ → ℕ) where
  -- strings.ToLower
  unfoldable pub to_lower : Text → Text
  to_lower [] = []
  to_lower (c ∷ s) =
      (if leb b'A' c && leb c b'Z' then c + 32 else if ltb c 128 then c else lower_rune c)
      ∷ to_lower s

  -- redactedKeys[strings.ToLower(key)]
  unfoldable pub is_secret : Text → Bool
  is_secret key = is_among (to_lower key) redacted_keys

  abbrev pub is_phone : Text → Bool
  is_phone key = text_eq (to_lower key) (codes "phone")

  abbrev masked : {A : Type 0} → Value A → Value A
  masked (text s) = text (mask s)
  masked (other a) = other a

  -- redact
  unfoldable pub redact : {A : Type 0} → Attr A → Attr A
  redact a =
      if is_secret a.key
      then record a { value = text (codes "[redacted]") }
      else if is_phone a.key
      then record a { value = masked a.value }
      else a

-- Two phone numbers with the same length, the same first four and the same last three characters.
pub record LooksLike (s t : Text) : Type 0 where
  pub lengths : length s ≡ length t
  pub fronts : take 4 s ≡ take 4 t
  pub ends : drop (length s - 3) s ≡ drop (length t - 3) t

mask-LooksLike : (s t : Text) → LooksLike s t → mask s ≡ mask t
unfolding mask
mask-LooksLike s t h =
    let ends : drop (length t - 3) s ≡ drop (length t - 3) t = rw (h.lengths) at (h.ends) in
    rw (h.lengths, h.fronts, ends) refl

-- The names of what must not be logged.
abbrev pub secrets : List Text
secrets =
    codes "password"
    ∷ codes "password_hash"
    ∷ codes "initiator_password"
    ∷ codes "authorization"
    ∷ codes "access"
    ∷ codes "access_token"
    ∷ codes "refresh"
    ∷ codes "refresh_token"
    ∷ codes "token"
    ∷ codes "secret"
    ∷ codes "jwt_secret"
    ∷ codes "consumer_secret"
    ∷ codes "passkey"
    ∷ codes "securitycredential"
    ∷ codes "security_credential"
    ∷ codes "pin"
    ∷ []

abbrev pub IsOneOf : Text → List Text → Type 0
IsOneOf name [] = ⊥
IsOneOf name (x ∷ xs) = (name ≡ x) ⊎ IsOneOf name xs

-- A key that is a name, with any of its letters as capitals.
abbrev pub IsSpelling : Text → Text → Type 0
IsSpelling [] [] = Unit {0}
IsSpelling (c ∷ key) (d ∷ name) = ((c ≡ d) ⊎ ((b'a' ≤ d) × (c + 32 ≡ d))) × IsSpelling key name
IsSpelling key name = ⊥

-- Small letters and underscores only.
abbrev is_plain : Text → Bool
is_plain [] = true
is_plain (d ∷ name) = leb 95 d && leb d 122 && is_plain name

abbrev are_covered : List Text → Bool
are_covered [] = true
are_covered (x ∷ xs) = is_among x redacted_keys && is_plain x && are_covered xs

secrets_covered : are_covered secrets ≡ true
unfolding text_eq
secrets_covered = refl

covered_lem :
    (name : Text) (names : List Text)
    → are_covered names ≡ true
    → IsOneOf name names
    → (is_among name redacted_keys ≡ true) × (is_plain name ≡ true)
covered_lem name [] e h = absurd h
covered_lem name (x ∷ xs) e (inl same) = rw same (ground arith, ground arith)
covered_lem name (x ∷ xs) e (inr later) = covered_lem name xs (ground arith) later

module _ (lower_rune : ℕ → ℕ) where
  lower_lem :
      (key name : Text)
      → is_plain name ≡ true
      → IsSpelling key name
      → to_lower lower_rune key ≡ name
  unfolding to_lower
  lower_lem [] [] p h = refl
  lower_lem (c ∷ key) (d ∷ name) p (inl same, h) =
      let rest = lower_lem key name (ground arith) h in ground (arith, rest)
  lower_lem (c ∷ key) (d ∷ name) p (inr (letter, capital), h) =
      let rest = lower_lem key name (ground arith) h in ground (arith, rest)
  lower_lem [] (d ∷ name) p h = absurd h
  lower_lem (c ∷ key) [] p h = absurd h

  secret_lem :
      (key name : Text)
      → IsOneOf name secrets
      → IsSpelling key name
      → is_secret lower_rune key ≡ true
  unfolding is_secret
  secret_lem key name one spelled =
      let (among, plain) = covered_lem name secrets secrets_covered one in
      rw (lower_lem key name plain spelled) among

  phone_lem : (key : Text) → IsSpelling key (codes "phone") → is_phone lower_rune key ≡ true
  unfolding text_eq
  phone_lem key spelled = rw (lower_lem key (codes "phone") refl spelled) refl

-- Two values that a log must not tell apart: any two under the name of a secret, and two phone numbers that
-- look alike under the name phone, with any letters of the name as capitals.
pub data Alike {A : Type 0} (key : Text) : Value A → Value A → Type 0 where
  under_secret :
      {v w : Value A} {name : Text} → IsOneOf name secrets → IsSpelling key name → Alike key v w
  as_phone :
      {s t : Text} → IsSpelling key (codes "phone") → LooksLike s t → Alike key (text s) (text t)

-- Secrets do not reach the log. Two attributes with the same key whose values are alike are logged as the
-- same one: under a key that is, with any letters as capitals, one of the names of passwords, tokens, keys
-- and credentials in the list of secrets, the log shows nothing of the value; and of a string under a
-- spelling of phone no more than its length, its first four and its last three characters.
pub redact_hides :
    {A : Type 0} (lower_rune : ℕ → ℕ) (key : Text) (v w : Value A)
    → Alike key v w
    → redact lower_rune (record { key = key; value = v })
      ≡ redact lower_rune (record { key = key; value = w })
unfolding redact
redact_hides lower_rune key v w (Alike.under_secret one spelled) =
    rw (secret_lem lower_rune key _ one spelled) refl
redact_hides lower_rune key (text s) (text t) (Alike.as_phone spelled k) =
    rw (phone_lem lower_rune key spelled, mask-LooksLike s t k) refl
