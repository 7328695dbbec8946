-- ===== src/Passwords/Verified.antt =====
-- internal/auth/password.go: what VerifyPassword makes of a hash that HashPassword wrote.
use mathlib.Core.List.{append_assoc}
use braelaspin.Prelude.{
  ℕ, pos, ◌^◌, ◌<◌, ◌≤◌, ◌≡◌, refl, ap, sym, ◌∙◌, false, some, Text, List, [], ◌∷◌, ◌++◌, codes, ok,
  arith, length, split, decimal, is_digit, span,
}
use braelaspin.Passwords.{Argon2, Argon2Params, phc_text, scan_params, scan_unsigned}
use braelaspin.Passwords.Base64.{IsBytes, encode}
use braelaspin.Passwords.Fields.{
  IsField, Stops, split-field, split-last, append-IsField, encode-IsField, decimal-IsField,
  scan_unsigned-decimal,
}

-- Parameters that fit the types of the fields.
pub record InRange (p : Argon2Params) : Type 0 where
  pub time_fits : p.time_cost < 2 ^ 32
  pub memory_fits : p.memory_kib < 2 ^ 32
  pub threads_fit : p.threads < 2 ^ 8
  pub key_fits : p.key_length < 2 ^ 32

-- Parameters with which argon2.IDKey does not panic.
pub record IsUsable (p : Argon2Params) : Type 0 where
  pub some_time : 1 ≤ p.time_cost
  pub some_threads : 1 ≤ p.threads
  pub some_key : 1 ≤ p.key_length

-- What the package argon2 documents: its version is 0x13, a key has the length asked for, and there is one
-- where the time, the number of threads and the length are at least 1.
pub record IsArgon2 (a : Argon2) : Type 0 where
  pub version_is : a.version ≡ 19
  pub key_length :
      (pw salt key : Text) (time memory threads n : ℕ)
      → a.id_key pw salt time memory threads n ≡ some key
      → length key ≡ n
  pub key-IsBytes :
      (pw salt key : Text) (time memory threads n : ℕ)
      → a.id_key pw salt time memory threads n ≡ some key
      → IsBytes key
  pub returns :
      (pw salt : Text) (time memory threads n : ℕ)
      → 1 ≤ time
      → 1 ≤ threads
      → 1 ≤ n
      → (key : Text) × (a.id_key pw salt time memory threads n ≡ some key)

abbrev pub params_text : Argon2Params → Text
params_text p =
    codes "m="
    ++ (decimal (pos p.memory_kib)
        ++ (codes ",t=" ++ (decimal (pos p.time_cost) ++ (codes ",p=" ++ decimal (pos p.threads)))))

numbers_append :
    (x y z rest : Text)
    → (codes "m=" ++ (x ++ (codes ",t=" ++ (y ++ (codes ",p=" ++ z))))) ++ rest
      ≡ codes "m=" ++ (x ++ (codes ",t=" ++ (y ++ (codes ",p=" ++ (z ++ rest)))))
numbers_append x y z rest =
    let one = append_assoc x (codes ",t=" ++ (y ++ (codes ",p=" ++ z))) rest in
    let two = append_assoc y (codes ",p=" ++ z) rest in
    ap (λ t. codes "m=" ++ t) (one ∙ ap (λ t. x ++ (codes ",t=" ++ t)) two)

with_field :
    (s rest : Text) (parts : List Text)
    → IsField s
    → split b'$' rest ≡ parts
    → split b'$' (s ++ (b'$' ∷ rest)) ≡ s ∷ parts
with_field s rest parts k e = split-field s rest k ∙ ap (λ t. s ∷ t) e

algorithm-IsField : IsField (codes "argon2id")
algorithm-IsField = (refl, (refl, (refl, (refl, (refl, (refl, (refl, (refl, tt))))))))

params_text-IsField : (p : Argon2Params) → InRange p → IsField (params_text p)
params_text-IsField p h =
    let memory = decimal-IsField p.memory_kib (omega (arith, h.memory_fits)) in
    let time = decimal-IsField p.time_cost (omega (arith, h.time_fits)) in
    let threads = decimal-IsField p.threads (omega (arith, h.threads_fit)) in
    (
      refl,
      (
        refl,
        append-IsField (decimal (pos p.memory_kib)) _ memory (
          refl,
          (
            refl,
            (
              refl,
              append-IsField (decimal (pos p.time_cost)) _ time (refl, (refl, (refl, threads))),
            ),
          ),
        ),
      ),
    )

-- The six parts of a stored hash.
pub split-phc_text :
    (v : ℕ) (p : Argon2Params) (salt key : Text)
    → v < 10 ^ 20
    → InRange p
    → split b'$' (phc_text v p salt key)
      ≡ []
        ∷ codes "argon2id"
        ∷ (codes "v=" ++ decimal (pos v))
        ∷ params_text p
        ∷ encode salt
        ∷ encode key
        ∷ []
unfolding phc_text
split-phc_text v p salt key hv h =
    let last = split-last (encode key) (encode-IsField key) in
    let salted = with_field (encode salt) (encode key) _ (encode-IsField salt) last in
    let numbers =
      with_field (params_text p) (encode salt ++ (b'$' ∷ encode key)) _ (params_text-IsField p h)
        salted in
    let rest = b'$' ∷ (encode salt ++ (b'$' ∷ encode key)) in
    let joined : params_text p ++ rest ≡ _ =
      numbers_append (decimal (pos p.memory_kib)) (decimal (pos p.time_cost))
        (decimal (pos p.threads)) rest in
    let flat = ap (split b'$') (sym joined) ∙ numbers in
    let versioned =
      with_field (codes "v=" ++ decimal (pos v)) _ _ (refl, (refl, decimal-IsField v hv)) flat in
    with_field [] _ _ tt (with_field (codes "argon2id") _ _ algorithm-IsField versioned)

other_next : (c : ℕ) (s : Text) → is_digit c ≡ false → Stops (c ∷ s)
unfolding span
other_next c s h = rw h refl

nothing_next : Stops []
unfolding span
nothing_next = refl

append_empty : (s : Text) → s ++ [] ≡ s
append_empty [] = refl
append_empty (c ∷ s) = ap (λ t. c ∷ t) (append_empty s)

-- The parameters are read back.
pub scan_params-params_text :
    (p : Argon2Params)
    → InRange p
    → scan_params (params_text p) ≡ ok (p.memory_kib, p.time_cost, p.threads)
unfolding scan_params
scan_params-params_text p h =
    let memory =
      scan_unsigned-decimal 32 p.memory_kib (codes "m=")
        (codes ",t=" ++ (decimal (pos p.time_cost) ++ (codes ",p=" ++ decimal (pos p.threads))))
        (omega (arith, h.memory_fits)) h.memory_fits (other_next b',' _ refl) in
    let time =
      scan_unsigned-decimal 32 p.time_cost (codes ",t=") (codes ",p=" ++ decimal (pos p.threads))
        (omega (arith, h.time_fits)) h.time_fits (other_next b',' _ refl) in
    let threads : scan_unsigned 8 (codes ",p=") (codes ",p=" ++ decimal (pos p.threads))
        ≡ some (p.threads, []) =
      rw (append_empty (decimal (pos p.threads))) at (
        scan_unsigned-decimal 8 p.threads (codes ",p=") [] (omega (arith, h.threads_fit))
          h.threads_fit nothing_next) in
    rw (memory, time, threads) refl
