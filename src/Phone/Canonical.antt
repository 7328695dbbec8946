-- ===== src/Phone/Canonical.antt =====
-- internal/auth/phone.go: Normalise returns canonical numbers only, and one for every spelling of them.
use braelaspin.Prelude.{
  ℕ, zero, suc, ◌≡◌, refl, Bool, true, inl, inr, Text, [], ◌∷◌, ok, Result-cases, drop, is_digit,
  arith,
}
use braelaspin.Users.Statements.{phone_allowed, all_chars}
use braelaspin.Phone.{clean_up, national_part, with_country, normalise}

pub all_chars-drop :
    (p : ℕ → Bool) (n : ℕ) (s : Text) → all_chars p s ≡ true → all_chars p (drop n s) ≡ true
all_chars-drop p zero s h = h
all_chars-drop p (suc n) [] h = refl
all_chars-drop p (suc n) (c ∷ s) h = all_chars-drop p n s (ground arith)

clean_up-digits : (s : Text) → all_chars is_digit (clean_up s).0 ≡ true
unfolding clean_up
clean_up-digits [] = refl
clean_up-digits (c ∷ s) = ground (arith, clean_up-digits s)

national_part-digits :
    (d n : Text)
    → all_chars is_digit d ≡ true
    → national_part d ≡ ok n
    → all_chars is_digit n ≡ true
unfolding national_part
national_part-digits d n h e =
    ground (arith, all_chars-drop is_digit 3 d h, all_chars-drop is_digit 1 d h)

with_country-allowed :
    (n p : Text) → all_chars is_digit n ≡ true → with_country n ≡ ok p → phone_allowed p ≡ true
unfolding with_country phone_allowed
with_country-allowed [] p h e = absurd (ground arith)
with_country-allowed (c ∷ s) p h e = ground arith

-- Whatever Normalise returns satisfies the CHECK on users.phone: 254, then 7 or 1, then eight digits.
pub normalise-allowed : (raw p : Text) → normalise raw ≡ ok p → phone_allowed p ≡ true
unfolding normalise
normalise-allowed raw p h =
    let d = clean_up-digits raw in
    elim (Result-cases (national_part (clean_up raw).0)) [
      | inl (e, failed) ↦ absurd (ground arith)
      | inr (n, found) ↦
          with_country-allowed n p (national_part-digits (clean_up raw).0 n d found) (ground arith)
    ]
