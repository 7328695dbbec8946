-- ===== src/Http/Cors.antt =====
-- internal/httpx/cors.go: which origins may read a response.
use braelaspin.Prelude.{
  ◌≡◌, ◌≢◌, refl, sym, ◌⊎◌, ◌↔◌, Bool, true, false, not, ◌&&◌, Option, none, some, Text, List, [],
  ◌∷◌, is_empty, trim, trim_slashes, text_eq, text_eq_iff, if◌then◌else◌, arith,
}

-- the key of an entry of the configuration
abbrev pub origin_key : Text → Text
origin_key o = trim (trim_slashes o)

-- allowSet[origin]
unfoldable pub in_allow_set : List Text → Text → Bool
in_allow_set [] origin = false
in_allow_set (o ∷ allowed) origin =
    let rest = in_allow_set allowed origin in
    if not (is_empty (origin_key o)) && text_eq (origin_key o) origin then true else rest

-- What CORS does: the handler with the headers for an origin or without them, or an answer of its own.
pub data CorsOutcome : Type 0 where
  next_with : Text → CorsOutcome
  next_plain : CorsOutcome
  preflight : Text → CorsOutcome
  preflight_refused : CorsOutcome

-- CORS, from the configuration, the header Origin and whether the method is OPTIONS
unfoldable pub cors : List Text → Text → Bool → CorsOutcome
cors allowed header is_options =
    let origin = trim_slashes header in
    if not (is_empty origin) && in_allow_set allowed origin
    then (if is_options then preflight origin else next_with origin)
    else if is_options && not (is_empty origin)
    then preflight_refused
    else next_plain

-- The value of Access-Control-Allow-Origin, where the response has one.
abbrev pub granted : CorsOutcome → Option Text
granted (next_with o) = some o
granted next_plain = none
granted (preflight o) = some o
granted preflight_refused = none

-- An entry of the configuration is this origin.
abbrev pub Listed : List Text → Text → Type 0
Listed [] o = ⊥
Listed (x ∷ xs) o = (origin_key x ≡ o) ⊎ Listed xs o

not_empty_lem : (o : Text) → o ≢ [] → is_empty o ≡ false
not_empty_lem [] n = absurd (n refl)
not_empty_lem (c ∷ s) n = refl

in_allow_set_lem :
    (allowed : List Text) (o : Text) → o ≢ [] → (in_allow_set allowed o ≡ true) ↔ Listed allowed o
unfolding in_allow_set
in_allow_set_lem [] o n = (λ h. absurd (cc), λ h. absurd h)
in_allow_set_lem (x ∷ xs) o n =
    ground (arith, in_allow_set_lem xs o n, text_eq_iff (origin_key x) o, not_empty_lem o n)

outcome : Text → Bool → Bool → Bool → CorsOutcome
outcome origin empty listed is_options =
    if not empty && listed
    then (if is_options then preflight origin else next_with origin)
    else if is_options && not empty
    then preflight_refused
    else next_plain

granted-outcome :
    (origin o : Text) (empty listed is_options : Bool)
    → (granted (outcome origin empty listed is_options) ≡ some o)
      ↔ ((origin ≡ o) × (empty ≡ false) × (listed ≡ true))
unfolding outcome
granted-outcome origin o empty listed is_options = ground arith

empty_lem : (o : Text) → is_empty o ≡ false → o ≢ []
empty_lem [] h e = absurd (cc)
empty_lem (c ∷ s) h e = absurd (cc)

-- CORS is an exact allowlist: a response carries Access-Control-Allow-Origin with an origin exactly if the
-- request's header Origin, less trailing slashes, is that origin, it is not empty, and it is one of the
-- configured origins, less trailing slashes and outer blanks. This holds for preflights and other requests.
pub cors_allows :
    (allowed : List Text) (header o : Text) (is_options : Bool)
    → (granted (cors allowed header is_options) ≡ some o)
      ↔ ((trim_slashes header ≡ o) × (o ≢ []) × Listed allowed o)
unfolding cors outcome
cors_allows allowed header o is_options =
    let origin = trim_slashes header in
    let (out, back) =
      granted-outcome origin o (is_empty origin) (in_allow_set allowed origin) is_options in
    (
      λ h.
          let (same, full, found) = out h in
          let some_text : o ≢ [] = rw (sym same) (empty_lem origin full) in
          (same, some_text, (in_allow_set_lem allowed o some_text).0 (rw (sym same) found)),
      λ (same, full, found). back (
        same,
        rw same (not_empty_lem o full),
        rw same ((in_allow_set_lem allowed o full).1 found),
      ),
    )
