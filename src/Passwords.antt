-- ===== src/Passwords.antt =====
-- internal/auth/password.go. The package argon2 is a parameter. A password, a salt and a key are texts of
-- bytes. That VerifyPassword compares in constant time, and the text that an error adds to ErrBadHash, are
-- left out.
pub mod Base64
pub mod Fields
pub mod Verified
pub mod Accepts
pub mod Samples
mod Tests
use braelaspin.Prelude.{
  ℕ, ℤ, pos, ◌%◌, ◌^◌, ◌≡◌, Bool, true, false, not, ◌||◌, Option, none, some, Text, List, [], ◌∷◌,
  ◌++◌, codes, Result, ok, err, ◌>>=◌, ◌>>◌, fail_if, length, text_eq, decimal, digits_value,
  is_digit, is_empty, parse_int, eqb_ℤ, split, span, skip_blanks, scan_sign, ltb, ◌==◌,
  if◌then◌else◌,
}
use braelaspin.Tokens.{Site}
use braelaspin.Calls.{Call}
use braelaspin.Passwords.Base64.{encode, decode}

-- Argon2Params
pub record Argon2Params : Type 0 where
  pub time_cost : ℕ
  pub memory_kib : ℕ
  pub threads : ℕ
  pub salt_length : ℕ
  pub key_length : ℕ

-- DefaultArgon2Params
unfoldable pub default_argon2_params : ℕ → ℕ → ℕ → Argon2Params
default_argon2_params time_cost memory_kib threads = record {
  time_cost = time_cost;
  memory_kib = memory_kib;
  threads = threads;
  salt_length = 16;
  key_length = 32;
}

-- ErrPasswordTooShort, ErrPasswordTooLong, ErrBadHash, the error of rand.Read, and a panic of argon2.IDKey,
-- which the code does not catch here: it ends the request, or the start of the server
pub data PasswordError : Type 0 where
  password_too_short password_too_long bad_hash no_salt key_panic : PasswordError

-- What the source uses of the package argon2.
pub record Argon2 : Type 0 where
  -- argon2.Version
  pub version : ℕ
  -- argon2.IDKey of a password, a salt, a time, a memory, a number of threads and the key's length; none
  -- where it panics
  pub id_key : Text → Text → ℕ → ℕ → ℕ → ℕ → Option Text

abbrev pub min_password_length : ℕ
min_password_length = 8

abbrev pub max_password_length : ℕ
max_password_length = 128

-- ValidatePassword
unfoldable pub validate_password : Text → Result PasswordError Unit
validate_password pw =
    if ltb (length pw) min_password_length
    then err password_too_short
    else if ltb max_password_length (length pw)
    then err password_too_long
    else ok tt

-- "$argon2id$v=%d$m=%d,t=%d,p=%d$%s$%s"
unfoldable pub phc_text : ℕ → Argon2Params → Text → Text → Text
phc_text version p salt key =
    codes "$argon2id$v="
    ++ (decimal (pos version)
        ++ (codes "$m="
            ++ (decimal (pos p.memory_kib)
                ++ (codes ",t="
                    ++ (decimal (pos p.time_cost)
                        ++ (codes ",p="
                            ++ (decimal (pos p.threads)
                                ++ (b'$' ∷ (encode salt ++ (b'$' ∷ encode key))))))))))

-- rand.Read(salt)
abbrev pub next_salt :
    {S : Type 0} → Site S → List (Option Text) → Result PasswordError Text × Site S
next_salt t [] = (err no_salt, t)
next_salt t (none ∷ rest) = (err no_salt, record t { entropy = rest })
next_salt t (some salt ∷ rest) = (ok salt, record t { entropy = rest })

-- the key, or the panic
abbrev pub or_panic : Option Text → Result PasswordError Text
or_panic none = err key_panic
or_panic (some key) = ok key

unfoldable pub hash_salted : Argon2 → Text → Argon2Params → Text → Result PasswordError Text
hash_salted a pw p salt = do
  key ← or_panic (a.id_key pw salt p.time_cost p.memory_kib p.threads p.key_length)
  ok (phc_text a.version p salt key)

abbrev pub hashed :
    {S : Type 0}
    → Argon2
    → Text
    → Argon2Params
    → Result PasswordError Text × Site S
    → Result PasswordError Text × Site S
hashed a pw p (err e, t) = (err e, t)
hashed a pw p (ok salt, t) = (hash_salted a pw p salt, t)

abbrev pub hash_if :
    {S : Type 0}
    → Argon2
    → Text
    → Argon2Params
    → Result PasswordError Unit
    → Call (Site S) PasswordError Text
hash_if a pw p (err e) t = (err e, t)
hash_if a pw p (ok x) t = hashed a pw p (next_salt t t.entropy)

-- HashPassword
unfoldable pub hash_password :
    {S : Type 0} → Argon2 → Text → Argon2Params → Call (Site S) PasswordError Text
hash_password a pw p = hash_if a pw p (validate_password pw)

abbrev or_bad : {A : Type 0} → Option A → Result PasswordError A
or_bad none = err bad_hash
or_bad (some x) = ok x

-- characters of a format of fmt.Sscanf that must be there
unfoldable pub expect : Text → Text → Option Text
expect [] s = some s
expect (f ∷ fs) [] = none
expect (f ∷ fs) (c ∷ s) = if c == f then expect fs s else none

abbrev signed_value : Text × Text → Option ℤ
signed_value (sign, s) = parse_int (sign ++ (span is_digit s).0)

abbrev signed_trimmed : Option Text → Option ℤ
signed_trimmed none = none
signed_trimmed (some u) = signed_value (scan_sign u)

abbrev signed_from : Option Text → Option ℤ
signed_from none = none
signed_from (some t) = signed_trimmed (skip_blanks t)

-- fmt.Sscanf(s, "v=%d", &version), with an int; what follows is not looked at
unfoldable pub scan_version : Text → Option ℤ
scan_version s = signed_from (expect (codes "v=") s)

abbrev unsigned_value : ℕ → Text × Text → Option (ℕ × Text)
unsigned_value w (digits, rest) = if is_empty digits then none else elim (digits_value 0 digits) [
  | none ↦ none
  | some n ↦ (if ltb n (2 ^ w) then some (n, rest) else none)
]

abbrev unsigned_trimmed : ℕ → Option Text → Option (ℕ × Text)
unsigned_trimmed w none = none
unsigned_trimmed w (some u) = unsigned_value w (span is_digit u)

abbrev unsigned_from : ℕ → Option Text → Option (ℕ × Text)
unsigned_from w none = none
unsigned_from w (some t) = unsigned_trimmed w (skip_blanks t)

-- one operand with %d, an unsigned integer of w bits, behind its literal characters
unfoldable pub scan_unsigned : ℕ → Text → Text → Option (ℕ × Text)
scan_unsigned w literal s = unsigned_from w (expect literal s)

-- fmt.Sscanf(s, "m=%d,t=%d,p=%d", &memory, &time, &threads), with two uint32 and a uint8
unfoldable pub scan_params : Text → Result PasswordError (ℕ × ℕ × ℕ)
scan_params s = do
  (memory, s1) ← or_bad (scan_unsigned 32 (codes "m=") s)
  (time, s2) ← or_bad (scan_unsigned 32 (codes ",t=") s1)
  (threads, s3) ← or_bad (scan_unsigned 8 (codes ",p=") s2)
  ok (memory, time, threads)

-- VerifyPassword, from the six parts on
unfoldable pub verify_parts :
    Argon2 → Text → Text → Text → Text → Text → Text → Result PasswordError Bool
verify_parts a pw algorithm version params salt_text key_text = do
  fail_if (not (text_eq algorithm (codes "argon2id"))) bad_hash
  v ← or_bad (scan_version version)
  fail_if (not (eqb_ℤ v (pos a.version))) bad_hash
  (memory, time, threads) ← scan_params params
  salt ← or_bad (decode salt_text)
  want ← or_bad (decode key_text)
  got ← or_panic (a.id_key pw salt time memory threads (length want % 2 ^ 32))
  ok (text_eq got want)

abbrev verify_list : Argon2 → Text → List Text → Result PasswordError Bool
verify_list a pw (first ∷ algorithm ∷ version ∷ params ∷ salt_text ∷ key_text ∷ []) =
    verify_parts a pw algorithm version params salt_text key_text
verify_list a pw parts = err bad_hash

-- VerifyPassword
unfoldable pub verify_password : Argon2 → Text → Text → Result PasswordError Bool
verify_password a pw encoded = verify_list a pw (split b'$' encoded)
