-- ===== src/Phone.antt =====
-- internal/auth/phone.go: the phone number is the identity. A raw number is a text of code points; the
-- texts that Mask and Pretty get are texts of bytes.
pub mod Canonical
pub mod Display
mod Tests
use braelaspin.Prelude.{
  ℕ, ◌+◌, ◌-◌, Bool, true, false, not, ◌&&◌, ◌||◌, Text, List, [], ◌∷◌, ◌++◌, codes, Result, ok,
  err, length, take, drop, replicate, is_digit, is_space, is_empty, trim, has_prefix, ltb,
  if◌then◌else◌, ◌==◌,
}

-- ErrPhoneEmpty and ErrPhoneInvalid, with the reason that the text of the second gives
pub data PhoneError : Type 0 where
  empty non_numeric not_mobile bad_output : PhoneError
  digit_count : ℕ → PhoneError

-- the punctuation that people type
abbrev pub is_punctuation : ℕ → Bool
is_punctuation c = c == b'+' || c == b' ' || c == b'-' || c == b'(' || c == b')' || c == b'.'

-- the loop over the runes: the digits, and hadNonPhoneChar
unfoldable pub clean_up : Text → Text × Bool
clean_up [] = ([], false)
clean_up (c ∷ s) =
    let (digits, bad) = clean_up s in
    if is_digit c
    then (c ∷ digits, bad)
    else if is_punctuation c
    then (digits, bad)
    else (digits, true)

abbrev pub starts_with : ℕ → Text → Bool
starts_with c [] = false
starts_with c (d ∷ s) = d == c

-- the switch on the number of digits: the nine digits after the country code
unfoldable pub national_part : Text → Result PhoneError Text
national_part d =
    if length d == 12 && has_prefix d (codes "254")
    then ok (drop 3 d)
    else if length d == 10 && starts_with b'0' d
    then ok (drop 1 d)
    else if length d == 9
    then ok d
    else err (digit_count (length d))

-- the checks on the nine digits
unfoldable pub with_country : Text → Result PhoneError Text
with_country national =
    let out = codes "254" ++ national in
    if not (starts_with b'7' national) && not (starts_with b'1' national)
    then err not_mobile
    else if not (length out == 12)
    then err bad_output
    else ok out

abbrev pub with_country_of : Result PhoneError Text → Result PhoneError Text
with_country_of (ok national) = with_country national
with_country_of (err e) = err e

-- Normalise
unfoldable pub normalise : Text → Result PhoneError Text
normalise raw =
    let (d, bad) = clean_up raw in
    if is_empty (trim raw)
    then err empty
    else if bad
    then err non_numeric
    else with_country_of (national_part d)

-- Mask
unfoldable pub mask : Text → Text
mask phone =
    let n = length phone in
    if ltb n 7 then codes "***" else take 4 phone ++ (replicate (n - 7) b'*' ++ drop (n - 3) phone)

-- Pretty
unfoldable pub pretty : Text → Text
pretty phone =
    if not (length phone == 12) || not (has_prefix phone (codes "254"))
    then phone
    else let n = drop 3 phone in
      codes "0" ++ (take 3 n ++ (codes " " ++ (take 3 (drop 3 n) ++ (codes " " ++ drop 6 n))))
