-- ===== src/Passwords/Tests.antt =====
-- internal/auth/password.go: the theorems at concrete inputs.
use braelaspin.Prelude.{◌≡◌, refl, true, some, Text, [], ◌∷◌, codes, ok, arith, text_eq, pos}
use braelaspin.Tokens.{Site}
use braelaspin.Redis.Memory.{Memory, nothing}
use braelaspin.Wallet.Samples.{start}
use braelaspin.Passwords.{Argon2Params, hash_password, verify_password, default_argon2_params}
use braelaspin.Passwords.Base64.{IsBytes}
use braelaspin.Passwords.Verified.{InRange, IsUsable}
use braelaspin.Passwords.Accepts.{key_of, verify_password-hash_password}
use braelaspin.Passwords.Samples.{argon2, argon2-IsArgon2}

abbrev params : Argon2Params
params = default_argon2_params 3 65536 2

abbrev salt : Text
salt = codes "0123456789abcdef"

abbrev site : Site Memory
site = record { redis_state = nothing; world = start; clock = pos 0; entropy = some salt ∷ [] }

params_fit : InRange params
unfolding default_argon2_params
params_fit = record {
  time_fits = omega arith;
  memory_fits = omega arith;
  threads_fit = omega arith;
  key_fits = omega arith;
}

salt_bytes : IsBytes salt
salt_bytes = ground arith

params-IsUsable : IsUsable params
unfolding default_argon2_params
params-IsUsable = record {
  some_time = omega arith;
  some_threads = omega arith;
  some_key = omega arith;
}

verify_password-hash_password_example :
    (h : Text) × (key : Text) × (key' : Text) × (key_of argon2 params (codes "correct horse") salt
      ≡ some key)
    × (key_of argon2 params (codes "wrong horse") salt ≡ some key')
    × (hash_password argon2 (codes "correct horse") params site
        ≡ (ok h, record site { entropy = [] }))
    × (verify_password argon2 (codes "correct horse") h ≡ ok true)
    × (verify_password argon2 (codes "wrong horse") h ≡ ok (text_eq key' key))
verify_password-hash_password_example =
    verify_password-hash_password argon2-IsArgon2 params params_fit (codes "correct horse")
      (codes "wrong horse") salt [] site params-IsUsable (omega arith) (omega arith) refl salt_bytes
