-- ===== src/Passwords/Accepts.antt =====
-- internal/auth/password.go: VerifyPassword over HashPassword.
use braelaspin.Prelude.{
  pos, ◌%◌, ◌^◌, ◌≤◌, ◌≡◌, refl, ap, ◌∙◌, true, false, none, some, Bool, Result, err, ◌>>=◌, Option,
  Text, List, ◌∷◌, ◌++◌, codes, ok, arith, length, ltb, text_eq, text_eq_iff, decimal,
}
use braelaspin.Tokens.{Site}
use braelaspin.Passwords.{
  Argon2, Argon2Params, PasswordError, key_panic, or_panic, phc_text, hash_salted, hash_password,
  validate_password, verify_parts, verify_list, verify_password,
}
use braelaspin.Passwords.Base64.{IsBytes, encode, decode-encode}
use braelaspin.Passwords.Fields.{scan_version-decimal}
use braelaspin.Passwords.Verified.{
  InRange, IsUsable, IsArgon2, params_text, split-phc_text, scan_params-params_text,
}

validate_password-ok : (pw : Text) → 8 ≤ length pw → length pw ≤ 128 → validate_password pw ≡ ok tt
unfolding validate_password
validate_password-ok pw lo hi =
    let long : ltb (length pw) 8 ≡ false = ground arith in
    let short : ltb 128 (length pw) ≡ false = ground arith in rw (long, short) refl

-- The key of a password with a salt, under the parameters.
abbrev pub key_of : Argon2 → Argon2Params → Text → Text → Option Text
key_of a p pw salt = a.id_key pw salt p.time_cost p.memory_kib p.threads p.key_length

-- The answer of VerifyPassword where a key is expected.
abbrev pub compared : Option Text → Text → Result PasswordError Bool
compared none key = err key_panic
compared (some k) key = ok (text_eq k key)

compared_lem :
    (o : Option Text) (key : Text) → (or_panic o >>= λ k. ok (text_eq k key)) ≡ compared o key
compared_lem none key = refl
compared_lem (some k) key = refl

module _ {a : Argon2} (laws : IsArgon2 a) (p : Argon2Params) (fits : InRange p) where
  parts_accepted :
      (pw' salt key : Text)
      → IsBytes salt
      → IsBytes key
      → length key ≡ p.key_length
      → verify_parts a pw'
          (codes "argon2id")
          (codes "v=" ++ decimal (pos a.version))
          (params_text p)
          (encode salt)
          (encode key)
        ≡ compared (key_of a p pw' salt) key
  unfolding verify_parts text_eq
  parts_accepted pw' salt key ks kk n =
      let version : a.version ≡ 19 = laws.version_is in
      let scanned = scan_version-decimal 19 (omega arith) in
      let small : length key % 2 ^ 32 ≡ p.key_length = omega (arith, fits.key_fits) in
      rw
        (
          version,
          scanned,
          scan_params-params_text p fits,
          decode-encode salt ks,
          decode-encode key kk,
          small,
        )
        (compared_lem (key_of a p pw' salt) key)

  -- A hash accepts a password if it derives the same key.
  pub verify_password-phc_text :
      (pw pw' salt key : Text)
      → IsBytes salt
      → key_of a p pw salt ≡ some key
      → verify_password a pw' (phc_text a.version p salt key) ≡ compared (key_of a p pw' salt) key
  unfolding verify_password
  verify_password-phc_text pw pw' salt key ks derived =
      let supported : a.version ≡ 19 = laws.version_is in
      let parts = split-phc_text a.version p salt key (rw supported (omega arith)) fits in
      ap (verify_list a pw') parts
      ∙ parts_accepted pw' salt key ks (laws.key-IsBytes pw salt key _ _ _ _ derived)
          (laws.key_length pw salt key _ _ _ _ derived)

  -- And so it accepts its own password.
  pub verify_password-own :
      (pw salt key : Text)
      → IsBytes salt
      → key_of a p pw salt ≡ some key
      → verify_password a pw (phc_text a.version p salt key) ≡ ok true
  verify_password-own pw salt key ks derived =
      verify_password-phc_text pw pw salt key ks derived
      ∙ rw derived (ap ok ((text_eq_iff key key).1 refl))

  -- Hashing and verifying agree. For a password of 8 to 128 bytes, parameters that fit their fields, with a
  -- time, a number of threads and a key length of at least 1, and a salt that crypto/rand yields,
  -- HashPassword returns a hash; VerifyPassword accepts the same password against it, and answers for
  -- any password whether it derives the same key as the first with that salt and those parameters.
  pub verify_password-hash_password :
      {S : Type 0} (pw pw' salt : Text) (rest : List (Option Text)) (t : Site S)
      → IsUsable p
      → 8 ≤ length pw
      → length pw ≤ 128
      → t.entropy ≡ some salt ∷ rest
      → IsBytes salt
      → (h : Text) × (key : Text) × (key' : Text) × (key_of a p pw salt ≡ some key)
        × (key_of a p pw' salt ≡ some key')
        × (hash_password a pw p t ≡ (ok h, record t { entropy = rest }))
        × (verify_password a pw h ≡ ok true)
        × (verify_password a pw' h ≡ ok (text_eq key' key))
  unfolding hash_password hash_salted
  verify_password-hash_password pw pw' salt rest t usable lo hi salted ks =
      let (key, derived) =
        laws.returns pw salt _ p.memory_kib _ _ usable.some_time usable.some_threads
          usable.some_key in
      let (key', derived') =
        laws.returns pw' salt _ p.memory_kib _ _ usable.some_time usable.some_threads
          usable.some_key in
      (
        phc_text a.version p salt key,
        key,
        key',
        derived,
        derived',
        rw (validate_password-ok pw lo hi, salted, derived) refl,
        verify_password-own pw salt key ks derived,
        verify_password-phc_text pw pw' salt key ks derived ∙ rw derived' refl,
      )
