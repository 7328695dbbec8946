-- ===== src/Phone/Tests.antt =====
-- internal/auth/phone.go: the theorems at concrete inputs.
use braelaspin.Prelude.{◌≡◌, refl, true, Text, codes, ok, trim, is_space}
use braelaspin.Users.Statements.{phone_allowed}
use braelaspin.Phone.{normalise, clean_up, national_part, with_country, pretty}
use braelaspin.Phone.Canonical.{normalise-allowed}
use braelaspin.Phone.Display.{spellings_agree}

abbrev number : Text
number = codes "254712345678"

local_spelling : normalise (codes "0712 345-678") ≡ ok number
unfolding normalise trim is_space clean_up national_part with_country
local_spelling = refl

number_allowed : phone_allowed number ≡ true
unfolding phone_allowed
number_allowed = refl

normalise-allowed_example : phone_allowed number ≡ true
normalise-allowed_example = normalise-allowed (codes "0712 345-678") number local_spelling

spellings_agree_example :
    (normalise number ≡ ok number)
    × (normalise (codes "+254712345678") ≡ ok number)
    × (normalise (pretty number) ≡ ok number)
spellings_agree_example = spellings_agree number number_allowed
